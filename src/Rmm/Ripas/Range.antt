-- ===== src/Rmm/Ripas/Range.antt =====
-- `rtt_set_ripas_range` updates a run of entries from the first one on.
use tetd_test.Base.{ℕ, ◌+◌, ◌*◌, ◌^◌, ◌≤◌, ◌<◌, ◌≡◌, some, if◌then◌else◌, ltb, ◌==◌}
use tetd_test.Rmm.Interface.{Ripas, ChangeDestroyed, Table, Layer}
use tetd_test.Rmm.Outcome.{
  write_entry, invalidate_page, invalidate_block, Outcome, ◌▷◌, Res, result, table_after,
}
use tetd_test.Rmm.Ripas.{Updated, refused, kept, written, update_ripas, set_loop}
use tetd_test.Rmm.Entry.Update.{entry_after}

module _ (l : Layer) (table : Table) (level map_size top : ℕ) (wanted : Ripas)
    (change : ChangeDestroyed) (finish : ℕ → Outcome Res)
    (still : (a : ℕ) (t : Table) (j : ℕ) → table_after t (finish a) j ≡ t j) where
  abbrev loop : (rounds index addr : ℕ) → Outcome Res
  loop rounds index addr =
      set_loop l table level map_size top wanted change rounds index addr finish

  -- The loop has updated `count` entries from `index` on, and goes on with the address after them.
  record IsRun (rounds index addr : ℕ) (t : Table) : Type 0 where
    count : ℕ
    bound : count ≤ rounds
    within : addr + count * map_size ≤ top
    ended : result (loop rounds index addr) ≡ result (finish (addr + count * map_size))
    below : (j : ℕ) → j < index → table_after t (loop rounds index addr) j ≡ t j
    above : (j : ℕ) → index + count ≤ j → table_after t (loop rounds index addr) j ≡ t j
    inside :
        (j : ℕ)
        → index ≤ j
        → j < index + count
        → entry_after (table j) (update_ripas l (table j) level wanted change)
          ≡ some (table_after t (loop rounds index addr) j)

  module _ (room : top + map_size < 2 ^ 64) where
    -- A round at `addr`, once the next address is known.
    abbrev at_next : (rounds index addr next : ℕ) → Updated → Outcome Res
    at_next rounds index addr n u = if ltb top n then finish addr else elim u [
      | refused ↦ finish addr
      | kept ↦ loop rounds (index + 1) n
      | written s2tte tlbi ↦
          write_entry index s2tte
          ▷ (if tlbi
              then (if level == l.page_level
                  then invalidate_page addr ▷ loop rounds (index + 1) n
                  else invalidate_block addr ▷ loop rounds (index + 1) n)
              else loop rounds (index + 1) n)
    ]

-- The run of entries that a call has updated: as many as it reports, each by `update_ripas`, and no
-- other.
pub record IsRangeUpdated (l : Layer) (old new : Table) (level map_size base top first limit : ℕ)
    (wanted : Ripas) (change : ChangeDestroyed) (reached : ℕ) : Type 0 where
  pub count : ℕ
  pub bound : count ≤ limit
  pub reaches : reached ≡ base + count * map_size
  pub within : reached ≤ top
  pub below : (j : ℕ) → j < first → new j ≡ old j
  pub above : (j : ℕ) → first + count ≤ j → new j ≡ old j
  pub inside :
      (j : ℕ)
      → first ≤ j
      → j < first + count
      → entry_after (old j) (update_ripas l (old j) level wanted change) ≡ some (new j)
