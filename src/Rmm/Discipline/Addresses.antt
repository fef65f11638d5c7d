-- ===== src/Rmm/Discipline/Addresses.antt =====
-- The locks of a call by the addresses of the granules, and the addresses that it invalidates.
use tetd_test.Base.{
  ℕ, ◌≡◌, Bool, true, false, ◌==◌, List, [], ◌∷◌, Option, none, some, if◌then◌else◌, arith, ap,
}
use tetd_test.Rmm.Interface.{
  GranuleState, state_ns, state_delegated, state_rd, state_data, state_rec, state_rtt, Layer, World,
}
use tetd_test.Rmm.Outcome.{
  Handle, g_table_root, g_llt, Event, lock, unlock, walk_to, invalidate_page, invalidate_block,
  invalidate_pages_in_block, Outcome, done, panic, ◌▷◌,
}
use tetd_test.Rmm.Refcount.{reached}
use tetd_test.Rmm.Discipline.{handle_index}

-- The granules that are locked: the variable, and the address.
abbrev pub Locked : Type 0
Locked = List (Handle × ℕ)

abbrev pub is_locked : (addr : ℕ) → Locked → Bool
is_locked addr [] = false
is_locked addr ((h, a) ∷ ls) = if addr == a then true else is_locked addr ls

abbrev pub let_go : Handle → Locked → Locked
let_go h [] = []
let_go h ((k, a) ∷ ls) = if handle_index h == handle_index k then ls else (k, a) ∷ let_go h ls

abbrev pub take : Handle → ℕ → Locked → Option Locked
take h a ls = if is_locked a ls then none else some ((h, a) ∷ ls)

-- A granule that is locked is not locked again, under whatever variable, and an invalidation is of
-- the address of the call. `none` is a violation.
abbrev pub follow : (map_addr : ℕ) → Event → Locked → Option Locked
follow map_addr (lock h a) ls = take h a ls
follow map_addr (unlock h) ls = some (let_go h ls)
follow map_addr (walk_to a) ls = take g_llt a (let_go g_table_root ls)
follow map_addr (invalidate_page a) ls = if a == map_addr then some ls else none
follow map_addr (invalidate_block a) ls = if a == map_addr then some ls else none
follow map_addr (invalidate_pages_in_block a) ls = if a == map_addr then some ls else none
follow map_addr e ls = some ls

module _ {A : Type 0} where
  unfoldable pub keeps_addresses : (map_addr : ℕ) → Locked → Outcome A → Bool
  keeps_addresses map_addr ls (done a) = true
  keeps_addresses map_addr ls panic = true
  keeps_addresses map_addr ls (e ▷ o) = elim (follow map_addr e ls) [
    | none ↦ false
    | some ks ↦ keeps_addresses map_addr ks o
  ]

abbrev pub state_index : GranuleState → ℕ
state_index state_ns = 0
state_index state_delegated = 1
state_index state_rd = 2
state_index state_data = 3
state_index state_rec = 4
state_index state_rtt = 5

-- What granule.c and the table walk are documented to give: a granule that was found has the state
-- that was asked for, the tables of a realm are in the state of a table, and no table has an entry
-- for itself.
pub record IsApart (l : Layer) (w : World) : Type 0 where
  pub found_law : (a : ℕ) (s : GranuleState) → w.find_lock a s ≡ true → w.state_of a ≡ s
  pub found_two_law :
      (a : ℕ) (s : GranuleState) (b : ℕ) (t : GranuleState)
      → w.find_lock_two a s b t ≡ true
      → (w.state_of a ≡ s) × (w.state_of b ≡ t)
  pub root_law :
      (rd_addr : ℕ) → w.state_of rd_addr ≡ state_rd → w.state_of ((w.rd rd_addr).g_rtt) ≡ state_rtt
  pub walk_law :
      (rd_addr map_addr level : ℕ)
      → w.state_of rd_addr ≡ state_rd
      → w.state_of ((reached w rd_addr map_addr level).g_llt) ≡ state_rtt
  pub tree_law :
      (rd_addr map_addr level : ℕ)
      → w.state_of rd_addr ≡ state_rd
      → let wi = reached w rd_addr map_addr level in
        l.is_table (w.table wi.g_llt wi.index) level ≡ true
        → (l.pa_table (w.table wi.g_llt wi.index) level == wi.g_llt) ≡ false

-- Granules in different states have different addresses.
pub states-apart :
    (state_of : ℕ → GranuleState) (a b : ℕ) (s t : GranuleState)
    → state_of a ≡ s
    → state_of b ≡ t
    → (state_index s == state_index t) ≡ false
    → (a == b) ≡ false
states-apart state_of a b s t p q h = ground (arith, ap state_index p, ap state_index q)
