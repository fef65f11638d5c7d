-- ===== src/Kvm/Invariant.antt =====
-- What holds of the calls and the pages in hand, through the loops on a range.
pub mod Calls
use tetd_test.Base.{
  ℕ, zero, suc, ◌+◌, ◌-◌, ◌%◌, ◌^◌, ◌≡◌, refl, Bool, true, false, not, ltb, leb, ◌==◌,
  if◌then◌else◌, Option, none, some, [], ◌∷◌, arith,
}
use tetd_test.Rmm.Outcome.{rmi_success, rmi_error_rtt}
use tetd_test.Kvm.{
  Call, data_destroy, rtt_init_ripas, rtt_set_ripas, Reply, Trace, Realm, Errno, return_status,
  return_index, invoke, after, align_up, rme_rtt_level_mapsize, rme_rtt_max_level,
}
use tetd_test.Kvm.Pages.{
  or_error, create_levels, undelegate_page, create_level, realm_create_rtt_levels,
  ensure_spare_page,
}
use tetd_test.Kvm.Ranges.{
  Ending, ended, failed, no_fuel, Step, stop, go, deeper, ended_then, resume, lower,
  tear_down_reply, tear_down_step, realm_tear_down_rtt_level, unmap_step, realm_unmap_unprotected,
  after_split, split_block, destroy_step, realm_destroy_undelegate_range, find_map_level,
}
use tetd_test.Kvm.Fold.{
  FoldStep, resume_fold, after_below, fold_step, realm_fold_rtt_level, realm_fold_rtt_range,
}
use tetd_test.Kvm.Ripas.{
  RipasStep, resume_ripas, after_deepen, deepen, init_step, init_state_loop, realm_init_ipa_state,
  kvm_init_ipa_range_realm, set_step, set_state_loop, then_run, unmap_protected, unmap_host,
  kvm_realm_unmap_range, realm_set_ipa_state,
}

-- The state after a round.
abbrev pub realm_of : Step → Realm
realm_of (stop e r) = r
realm_of (go next r) = r
realm_of (deeper base top next r) = r

abbrev pub realm_of_fold : FoldStep → Realm
realm_of_fold (FoldStep.stop e r) = r
realm_of_fold (FoldStep.go next c r) = r
realm_of_fold (FoldStep.deeper addr next r) = r

abbrev pub realm_of_ripas : RipasStep → Realm
realm_of_ripas (RipasStep.stop at e r) = r
realm_of_ripas (RipasStep.go at ret r) = r

-- `P` holds again after each round, and after a spare page is got.
pub record IsKept (answer : Trace → Call → Reply) (P : Realm → Type 0) : Type 0 where
  pub tear_down_kept :
      (level addr end : ℕ) (r : Realm) → P r → P (realm_of (tear_down_step answer level addr end r))
  pub unmap_kept :
      (level addr end : ℕ) (r : Realm) → P r → P (realm_of (unmap_step answer level addr end r))
  pub destroy_kept : (ipa end : ℕ) (r : Realm) → P r → P (realm_of (destroy_step answer ipa end r))
  pub fold_kept :
      (level addr end count : ℕ) (r : Realm)
      → P r
      → P (realm_of_fold (fold_step answer level addr end count r))
  pub init_kept :
      (start_level ipa end : ℕ) (r : Realm)
      → P r
      → P (realm_of_ripas (init_step answer start_level ipa end r))
  pub set_kept :
      (start_level ipa end ret : ℕ) (r : Realm)
      → P r
      → P (realm_of_ripas (set_step answer start_level ipa end ret r))
  pub spare_kept : (r : Realm) → P r → P (ensure_spare_page answer r)

module _ (P : Realm → Type 0) where
  abbrev pub Keeps : (Realm → Ending × Realm) → Type 0
  Keeps f = (r : Realm) → P r → P ((f r).1)

  pub or_error-Keeps :
      (x : Option Errno × Realm) (next : Realm → Option Errno × Realm)
      → P (x.1)
      → ((r : Realm) → P r → P ((next r).1))
      → P ((or_error x next).1)
  or_error-Keeps (none, r) next b h = h r b
  or_error-Keeps (some e, r) next b h = b

  pub after_split-Keeps :
      (ipa : ℕ) (x : Option Errno × Realm) → P (x.1) → P (realm_of (after_split ipa x))
  after_split-Keeps ipa (none, r) b = b
  after_split-Keeps ipa (some e, r) b = b

  pub after_deepen-Keeps :
      (ipa : ℕ) (x : Option Errno × Realm) → P (x.1) → P (realm_of_ripas (after_deepen ipa x))
  after_deepen-Keeps ipa (none, r) b = b
  after_deepen-Keeps ipa (some e, r) b = b

  ended_then-Keeps :
      (x : Ending × Realm) (next : Realm → Ending × Realm)
      → P (x.1)
      → Keeps next
      → P ((ended_then x next).1)
  ended_then-Keeps (ended c, r) next b h = h r b
  ended_then-Keeps (failed e, r) next b h = b
  ended_then-Keeps (no_fuel, r) next b h = b

  pub then_run-Keeps :
      (x : Ending × Realm) (next : Realm → Ending × Realm)
      → P (x.1)
      → Keeps next
      → P ((then_run x next).1)
  then_run-Keeps (ended c, r) next b h = h r b
  then_run-Keeps (failed e, r) next b h = h r b
  then_run-Keeps (no_fuel, r) next b h = b

  resume-Keeps :
      (s : Step) (go_on : ℕ → Realm → Ending × Realm)
      (below : (base top : ℕ) → Realm → Ending × Realm)
      → P (realm_of s)
      → ((next : ℕ) → Keeps (go_on next))
      → ((base top : ℕ) → Keeps (below base top))
      → P ((resume s go_on below).1)
  resume-Keeps (stop e r) go_on below b g d = b
  resume-Keeps (go next r) go_on below b g d = g next r b
  resume-Keeps (deeper base top next r) go_on below b g d =
      ended_then-Keeps (below base top r) (go_on next) (d base top r b) (g next)

  after_below-Keeps :
      (x : Ending × Realm) (addr next not_folded : ℕ) (go_on : ℕ → ℕ → Realm → Ending × Realm)
      → P (x.1)
      → ((next count : ℕ) → Keeps (go_on next count))
      → P ((after_below x addr next not_folded go_on).1)
  after_below-Keeps (ended c, r) addr next not_folded go_on b g =
      g (if c == 0 then addr else next) not_folded r b
  after_below-Keeps (failed e, r) addr next not_folded go_on b g = b
  after_below-Keeps (no_fuel, r) addr next not_folded go_on b g = b

  resume_fold-Keeps :
      (s : FoldStep) (not_folded : ℕ) (go_on : ℕ → ℕ → Realm → Ending × Realm)
      (below : (base top : ℕ) → Realm → Ending × Realm)
      → P (realm_of_fold s)
      → ((next count : ℕ) → Keeps (go_on next count))
      → ((base top : ℕ) → Keeps (below base top))
      → P ((resume_fold s not_folded go_on below).1)
  resume_fold-Keeps (FoldStep.stop e r) not_folded go_on below b g d = b
  resume_fold-Keeps (FoldStep.go next count r) not_folded go_on below b g d = g next count r b
  resume_fold-Keeps (FoldStep.deeper addr next r) not_folded go_on below b g d =
      after_below-Keeps (below addr next r) addr next not_folded go_on (d addr next r b) g

  resume_ripas-Keeps :
      (s : RipasStep) (go_on : ℕ → ℕ → Realm → ℕ × Ending × Realm)
      → P (realm_of_ripas s)
      → ((at ret : ℕ) (r : Realm) → P r → P ((go_on at ret r).2))
      → P ((resume_ripas s go_on).2)
  resume_ripas-Keeps (RipasStep.stop at e r) go_on b g = b
  resume_ripas-Keeps (RipasStep.go at ret r) go_on b g = g at ret r b

module _ (answer : Trace → Call → Reply) (P : Realm → Type 0)
    (one : (ipa level : ℕ) (r : Realm) → P r → P ((create_level answer ipa level r).1)) where
  -- What the creation of one table keeps, the creation of several does.
  create_levels-Keeps :
      (ipa level c : ℕ) (r : Realm) → P r → P ((create_levels answer ipa level c r).1)
  unfolding create_levels
  create_levels-Keeps ipa level zero r b = b
  create_levels-Keeps ipa level (suc c) r b =
      or_error-Keeps P (create_level answer ipa (level + 1) r) _ (one ipa (level + 1) r b)
        λ r1 b1. create_levels-Keeps ipa (level + 1) c r1 b1

  pub split_block-Keeps :
      (ipa level : ℕ) (r : Realm) → P r → P (realm_of (split_block answer ipa level r))
  unfolding split_block
  split_block-Keeps ipa level r b =
      after_split-Keeps P ipa (create_level answer ipa level r) (one ipa level r b)

  pub deepen-Keeps :
      (start_level ipa err_level level : ℕ) (r : Realm)
      → P r
      → P (realm_of_ripas (deepen answer start_level ipa err_level level r))
  unfolding deepen realm_create_rtt_levels
  deepen-Keeps start_level ipa err_level level r b =
      after_deepen-Keeps P ipa (realm_create_rtt_levels answer ipa err_level level r)
        (create_levels-Keeps ipa err_level (level - err_level) r b)

module _ (answer : Trace → Call → Reply) (P : Realm → Type 0) (k : IsKept answer P) where
  pub tear_down-Keeps :
      (fuel level addr end : ℕ) → Keeps P (realm_tear_down_rtt_level answer fuel level addr end)
  unfolding realm_tear_down_rtt_level
  tear_down-Keeps zero level addr end r b = b
  tear_down-Keeps (suc f) level addr end r b =
      resume-Keeps P (tear_down_step answer level addr end r) _ _
        (k.tear_down_kept level addr end r b) (λ next. tear_down-Keeps f level next end)
        (λ base top. tear_down-Keeps f (level + 1) base top)

  pub unmap-Keeps :
      (fuel level addr end : ℕ) → Keeps P (realm_unmap_unprotected answer fuel level addr end)
  unfolding realm_unmap_unprotected
  unmap-Keeps zero level addr end r b = b
  unmap-Keeps (suc f) level addr end r b =
      resume-Keeps P (unmap_step answer level addr end r) _ _ (k.unmap_kept level addr end r b)
        (λ next. unmap-Keeps f level next end) (λ base top. unmap-Keeps f (level + 1) base top)

  pub destroy-Keeps :
      (fuel ipa end : ℕ) → Keeps P (realm_destroy_undelegate_range answer fuel ipa end)
  unfolding realm_destroy_undelegate_range
  destroy-Keeps zero ipa end r b = b
  destroy-Keeps (suc f) ipa end r b =
      resume-Keeps P (destroy_step answer ipa end r) _ _ (k.destroy_kept ipa end r b)
        (λ next. destroy-Keeps f next end) (λ base top r b. b)

  pub fold-Keeps :
      (fuel level addr end c : ℕ) → Keeps P (realm_fold_rtt_level answer fuel level addr end c)
  unfolding realm_fold_rtt_level
  fold-Keeps zero level addr end c r b = b
  fold-Keeps (suc f) level addr end c r b =
      resume_fold-Keeps P (fold_step answer level addr end c r) c _ _
        (k.fold_kept level addr end c r b) (λ next count. fold-Keeps f level next end count)
        (λ base top. fold-Keeps f (level + 1) base top 0)

  pub init_state_loop-Keeps :
      (start_level fuel ipa end : ℕ) (r : Realm)
      → P r
      → P ((init_state_loop answer start_level fuel ipa end r).2)
  unfolding init_state_loop
  init_state_loop-Keeps s zero ipa end r b = b
  init_state_loop-Keeps s (suc f) ipa end r b =
      resume_ripas-Keeps P (init_step answer s ipa end r) _ (k.init_kept s ipa end r b)
        λ at ret. init_state_loop-Keeps s f at end

  pub set_state_loop-Keeps :
      (start_level fuel ipa end ret : ℕ) (r : Realm)
      → P r
      → P ((set_state_loop answer start_level fuel ipa end ret r).2)
  unfolding set_state_loop
  set_state_loop-Keeps s zero ipa end ret r b = b
  set_state_loop-Keeps s (suc f) ipa end ret r b =
      resume_ripas-Keeps P (set_step answer s ipa end ret r) _ (k.set_kept s ipa end ret r b)
        λ at ret. set_state_loop-Keeps s f at end ret
