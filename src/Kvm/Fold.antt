-- ===== src/Kvm/Fold.antt =====
-- `realm_fold_rtt_level`.
use tetd_test.Base.{ℕ, zero, suc, ◌+◌, ◌-◌, true, ◌==◌, ltb, if◌then◌else◌}
use tetd_test.Rmm.Outcome.{rmi_success, rmi_error_rtt}
use tetd_test.Kvm.{
  Call, rtt_fold, Reply, Trace, Realm, einval, enxio, invoke, align_up, rme_rtt_level_mapsize,
  rme_rtt_max_level, return_status, return_index,
}
use tetd_test.Kvm.Pages.{undelegate_page}
use tetd_test.Kvm.Ranges.{Ending, ended, failed, no_fuel}

-- What a round comes to: the loop ends, or goes on at an address with a count, or first calls the
-- loop of the next level on the range up to `next`.
pub data FoldStep : Type 0 where
  stop : Ending → Realm → FoldStep
  go : (next not_folded : ℕ) → Realm → FoldStep
  deeper : (addr next : ℕ) → Realm → FoldStep

-- What follows the loop of the next level: the same address once more if it has folded all its
-- tables, and else the next one. Its count is not added.
abbrev pub after_below :
    Ending × Realm → (addr next not_folded : ℕ) → (ℕ → ℕ → Realm → Ending × Realm) → Ending × Realm
after_below (ended c, r) addr next not_folded go_on =
    go_on (if c == 0 then addr else next) not_folded r
after_below (failed e, r) addr next not_folded go_on = (failed e, r)
after_below (no_fuel, r) addr next not_folded go_on = (no_fuel, r)

abbrev pub resume_fold :
    FoldStep
    → (not_folded : ℕ) → (ℕ → ℕ → Realm → Ending × Realm)
    → ((base top : ℕ) → Realm → Ending × Realm)
    → Ending × Realm
resume_fold (stop e r) not_folded go_on below = (e, r)
resume_fold (go next count r) not_folded go_on below = go_on next count r
resume_fold (deeper addr next r) not_folded go_on below =
    after_below (below addr next r) addr next not_folded go_on

module _ (answer : Trace → Call → Reply) where
  -- A round of `realm_fold_rtt_level`.
  unfoldable pub fold_step : (level addr end not_folded : ℕ) → Realm → FoldStep
  fold_step level addr end not_folded r =
      let size = rme_rtt_level_mapsize (level - 1) in
      let next = align_up (addr + 1) size in
      if ltb rme_rtt_max_level level
      then stop (failed einval) r
      else if ltb addr end
      then (let (a, r1) = invoke answer (rtt_fold (align_up addr size) level) r in
          if return_status a.ret == rmi_success
          then go next not_folded (undelegate_page answer a.out r1)
          else if return_status a.ret == rmi_error_rtt
          then (if (if level == rme_rtt_max_level then true else ltb (return_index a.ret) level)
              then go next (not_folded + 1) r1
              else deeper addr next r1)
          else stop (failed enxio) r1)
      else stop (ended not_folded) r

  -- `realm_fold_rtt_level`
  unfoldable pub realm_fold_rtt_level :
      (fuel level addr end not_folded : ℕ) → Realm → Ending × Realm
  realm_fold_rtt_level zero level addr end not_folded r = (no_fuel, r)
  realm_fold_rtt_level (suc n) level addr end not_folded r =
      resume_fold (fold_step level addr end not_folded r) not_folded
        (λ next count r1. realm_fold_rtt_level n level next end count r1)
        (λ base top r1. realm_fold_rtt_level n (level + 1) base top 0 r1)

  unfoldable pub realm_fold_rtt_range : (fuel start_level start end : ℕ) → Realm → Ending × Realm
  realm_fold_rtt_range fuel start_level start end r =
      realm_fold_rtt_level fuel (start_level + 1) start end 0 r
