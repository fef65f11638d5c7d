-- ===== src/Kvm/Level.antt =====
-- `find_map_level`: the topmost level at which an entry begins at the start of a range and fits.
use tetd_test.Base.{
  ℕ, zero, suc, ◌+◌, ◌-◌, ◌*◌, ◌%◌, ◌^◌, ◌<◌, ◌≡◌, refl, true, false, Bool, ◌==◌, leb,
  if◌then◌else◌, arith, inl, inr, Bool-cases,
}
use tetd_test.Kvm.{rme_rtt_level_mapsize}
use tetd_test.Kvm.Ranges.{has_room, map_level_loop, find_map_level}

-- An entry of a level, of 512 times the size of one of the level below and of a page at level 3,
-- begins at the start of the range and ends within it.
abbrev pub begins_and_ends : (start end level : ℕ) → Bool
begins_and_ends start end level =
    if start % 2 ^ (39 - 9 * level) == 0 then leb (start + 2 ^ (39 - 9 * level)) end else false

has_room-eq :
    (start end level : ℕ)
    → start < 2 ^ 63
    → leb level 3 ≡ true
    → has_room start end level ≡ begins_and_ends start end level
unfolding has_room rme_rtt_level_mapsize
has_room-eq start end zero s h = ground arith
has_room-eq start end (suc zero) s h = ground arith
has_room-eq start end (suc (suc zero)) s h = ground arith
has_room-eq start end (suc (suc (suc zero))) s h = ground arith
has_room-eq start end (suc (suc (suc (suc n)))) s h = absurd (ground arith)

module _ (start end : ℕ) (low : start < 2 ^ 63) where
  abbrev Top : (bottom top level : ℕ) → Type 0
  Top bottom top level =
      (leb top level ≡ true)
      × (leb level bottom ≡ true)
      × ((if level == bottom then true else begins_and_ends start end level) ≡ true)
      × ((if level == top then false else begins_and_ends start end (level - 1)) ≡ false)

  map_level_loop-Top :
      (top level n : ℕ)
      → level ≡ top + n
      → leb level 3 ≡ true
      → (if level == 3 then true else begins_and_ends start end level) ≡ true
      → Top 3 top (map_level_loop start end level n)
  unfolding map_level_loop
  map_level_loop-Top top level zero e h k = (ground arith, h, k, ground arith)
  map_level_loop-Top top level (suc n) e h k =
      let q = has_room-eq start end (level - 1) low (ground arith) in
      elim (Bool-cases (has_room start end (level - 1))) [
        | inl r ↦ rw r (
            map_level_loop-Top top (level - 1) n (omega arith) (ground arith)
              (ground (arith, r, q)))
        | inr r ↦ rw r (ground arith, h, k, ground (arith, r, q))
      ]

-- For a start level of at most 3 and a start below `2 ^ 63`, `find_map_level` returns a level
-- from that to 3. If it is not 3, the start is a multiple of the size of an entry of that level,
-- `2 ^ (39 - 9 * level)` bytes, and the entry that begins there ends within the range. At the
-- level above, if that is not above the start level, this is not so.
pub find_map_level-eq-topmost :
    (start_level start end : ℕ)
    → leb start_level 3 ≡ true
    → start < 2 ^ 63
    → let level = find_map_level start_level start end in
      (leb start_level level ≡ true)
      × (leb level 3 ≡ true)
      × ((if level == 3 then true else begins_and_ends start end level) ≡ true)
      × ((if level == start_level then false else begins_and_ends start end (level - 1)) ≡ false)
unfolding find_map_level
find_map_level-eq-topmost start_level start end h low =
    map_level_loop-Top start end low start_level 3 (3 - start_level) (ground arith) refl refl
