-- ===== src/Kvm/Ranges.antt =====
-- The loops that take the memory and the tables of a range away. A step is one round of the loop
-- up to its call of the loop of the next level; the loops run on fuel.
use tetd_test.Base.{
  ℕ, zero, suc, ◌+◌, ◌-◌, ◌%◌, ◌^◌, Bool, false, not, ◌==◌, ltb, leb, if◌then◌else◌, Option, none,
  some,
}
use tetd_test.Rmm.Outcome.{rmi_success, rmi_error_rtt}
use tetd_test.Kvm.{
  Call, granule_undelegate, rtt_destroy, rtt_unmap_unprotected, data_destroy, Reply, Trace, Realm,
  Errno, einval, ebusy, enxio, invoke, after, align_up, is_aligned, rme_rtt_level_mapsize,
  rme_rtt_max_level, return_status, return_index,
}
use tetd_test.Kvm.Pages.{undelegate_page, create_level}

-- How a loop ends, `not_folded` being its count; `no_fuel` if it has not ended yet.
pub data Ending : Type 0 where
  ended : (not_folded : ℕ) → Ending
  failed : Errno → Ending
  no_fuel : Ending

-- What a round of a loop comes to: the loop ends, or goes on at an address, or first calls the loop
-- of the next level on a range and then goes on.
pub data Step : Type 0 where
  stop : Ending → Realm → Step
  go : (next : ℕ) → Realm → Step
  deeper : (base top next : ℕ) → Realm → Step

-- What follows when a loop has ended, and what follows a round: going on, or the loop of the next
-- level.
abbrev pub ended_then : Ending × Realm → (Realm → Ending × Realm) → Ending × Realm
ended_then (ended c, r) next = next r
ended_then (failed e, r) next = (failed e, r)
ended_then (no_fuel, r) next = (no_fuel, r)

abbrev pub resume :
    Step → (ℕ → Realm → Ending × Realm) → ((base top : ℕ) → Realm → Ending × Realm) → Ending × Realm
resume (stop e r) go_on below = (e, r)
resume (go next r) go_on below = go_on next r
resume (deeper base top next r) go_on below = ended_then (below base top r) (go_on next)

abbrev pub lower : ℕ → ℕ → ℕ
lower a b = if ltb a b then a else b

-- Whether the range has room for the entry of a level that begins at its start: the condition of
-- `find_map_level`.
unfoldable pub has_room : (start end level : ℕ) → Bool
has_room start end level =
    let size = rme_rtt_level_mapsize level in
    if is_aligned start size then leb ((start + size) % 2 ^ 64) end else false

-- `find_map_level`, with the number of levels that are left above.
unfoldable pub map_level_loop : (start end level count : ℕ) → ℕ
map_level_loop start end level zero = level
map_level_loop start end level (suc n) =
    let rest = map_level_loop start end (level - 1) n in
    if has_room start end (level - 1) then rest else level

unfoldable pub find_map_level : (start_level start end : ℕ) → ℕ
find_map_level start_level start end =
    map_level_loop start end rme_rtt_max_level (rme_rtt_max_level - start_level)

abbrev pub after_split : (ipa : ℕ) → Option Errno × Realm → Step
after_split ipa (none, r) = go ipa r
after_split ipa (some e, r) = stop (ended 0) r

module _ (answer : Trace → Call → Reply) where
  -- A round of `realm_tear_down_rtt_level` after `rtt_destroy`.
  unfoldable pub tear_down_reply : (level addr next : ℕ) → Reply → Realm → Step
  tear_down_reply level addr next a r =
      if return_status a.ret == rmi_success
      then go a.top (undelegate_page answer a.out r)
      else if return_status a.ret == rmi_error_rtt
      then (if ltb addr a.top
          then go a.top r
          else if not (return_index a.ret == level)
          then stop (failed ebusy) r
          else if level == rme_rtt_max_level
          then stop (failed ebusy) r
          else deeper addr next addr r)
      else stop (failed enxio) r

  unfoldable pub tear_down_step : (level addr end : ℕ) → Realm → Step
  tear_down_step level addr end r =
      let size = rme_rtt_level_mapsize (level - 1) in
      let next = align_up (addr + 1) size in
      if ltb rme_rtt_max_level level
      then stop (failed einval) r
      else if ltb addr end
      then (if (if leb next end then align_up addr size == addr else false)
          then (let (a, r1) = invoke answer (rtt_destroy addr level) r in
              tear_down_reply level addr next a r1)
          else deeper addr (lower next end) next r)
      else stop (ended 0) r

  -- `realm_tear_down_rtt_level`
  unfoldable pub realm_tear_down_rtt_level : (fuel level addr end : ℕ) → Realm → Ending × Realm
  realm_tear_down_rtt_level zero level addr end r = (no_fuel, r)
  realm_tear_down_rtt_level (suc n) level addr end r =
      resume (tear_down_step level addr end r)
        (λ next r1. realm_tear_down_rtt_level n level next end r1)
        (λ base top r1. realm_tear_down_rtt_level n (level + 1) base top r1)

  unfoldable pub realm_tear_down_rtt_range :
      (fuel start_level start end : ℕ) → Realm → Ending × Realm
  realm_tear_down_rtt_range fuel start_level start end r =
      realm_tear_down_rtt_level fuel (start_level + 1) start end r

  -- `realm_unmap_unprotected`; a failing `WARN_ON` returns.
  unfoldable pub unmap_step : (level addr end : ℕ) → Realm → Step
  unmap_step level addr end r =
      let size = rme_rtt_level_mapsize level in
      let next = align_up (addr + 1) size in
      if ltb rme_rtt_max_level level
      then stop (ended 0) r
      else if ltb addr end
      then (if (if align_up addr size == addr then leb next end else false)
          then (let (a, r1) = invoke answer (rtt_unmap_unprotected addr level) r in
              if return_status a.ret == rmi_error_rtt
              then (if a.top == addr then deeper addr next next r1 else go a.top r1)
              else go a.top r1)
          else deeper addr (lower next end) next r)
      else stop (ended 0) r

  unfoldable pub realm_unmap_unprotected : (fuel level addr end : ℕ) → Realm → Ending × Realm
  realm_unmap_unprotected zero level addr end r = (no_fuel, r)
  realm_unmap_unprotected (suc n) level addr end r =
      resume (unmap_step level addr end r) (λ next r1. realm_unmap_unprotected n level next end r1)
        (λ base top r1. realm_unmap_unprotected n (level + 1) base top r1)

  -- A round of `realm_destroy_undelegate_range`, where a block is to be split by a new table.
  unfoldable pub split_block : (ipa level : ℕ) → Realm → Step
  split_block ipa level r = after_split ipa (create_level answer ipa level r)

  -- A round of `realm_destroy_undelegate_range`.
  unfoldable pub destroy_step : (ipa end : ℕ) → Realm → Step
  destroy_step ipa end r =
      if ltb ipa end
      then (let (a, r1) = invoke answer (data_destroy ipa) r in
          if return_status a.ret == rmi_error_rtt
          then (if ltb ipa a.top then go a.top r1 else split_block ipa (return_index a.ret + 1) r1)
          else if a.ret == 0
          then go a.top (after answer (granule_undelegate a.out) r1)
          else stop (ended 0) r1)
      else stop (ended 0) r

  -- `realm_destroy_undelegate_range`
  unfoldable pub realm_destroy_undelegate_range : (fuel ipa end : ℕ) → Realm → Ending × Realm
  realm_destroy_undelegate_range zero ipa end r = (no_fuel, r)
  realm_destroy_undelegate_range (suc n) ipa end r =
      resume (destroy_step ipa end r) (λ next r1. realm_destroy_undelegate_range n next end r1)
        (λ base top r1. (ended 0, r1))
