-- ===== src/Kvm/Ledger/Steps.antt =====
-- The ledger after each round of the loops on a range.
use tetd_test.Base.{ℕ, ◌+◌, Bool, arith}
use tetd_test.Kvm.{
  Call, data_destroy, rtt_init_ripas, rtt_set_ripas, Reply, Trace, Realm, return_index, after,
}
use tetd_test.Kvm.Pages.{undelegate_page, create_level}
use tetd_test.Kvm.Ranges.{tear_down_reply, tear_down_step, unmap_step, destroy_step, find_map_level}
use tetd_test.Kvm.Fold.{fold_step}
use tetd_test.Kvm.Ripas.{
  init_step, kvm_init_ipa_range_realm, set_step, kvm_realm_unmap_range, kvm_realm_destroy_rtts,
  realm_set_ipa_state,
}
use tetd_test.Kvm.Invariant.{
  realm_of, realm_of_fold, realm_of_ripas, IsKept, split_block-Keeps, deepen-Keeps,
}
use tetd_test.Kvm.Invariant.Calls.{calls-IsKeptByCalls}
use tetd_test.Kvm.Ledger.{IsBalanced, create_level-IsBalanced, ensure_spare_page-IsBalanced}

module _ (answer : Trace → Call → Reply) (page n : ℕ) where
  one :
      (ipa level : ℕ) (r : Realm)
      → IsBalanced page n r
      → IsBalanced page n ((create_level answer ipa level r).1)
  one ipa level r b = create_level-IsBalanced answer page ipa level n r b

  tear_down_step-IsBalanced :
      (level addr end : ℕ) (r : Realm)
      → IsBalanced page n r
      → IsBalanced page n (realm_of (tear_down_step answer level addr end r))
  unfolding tear_down_step tear_down_reply undelegate_page
  tear_down_step-IsBalanced level addr end r b = ground (arith, b)

  unmap_step-IsBalanced :
      (level addr end : ℕ) (r : Realm)
      → IsBalanced page n r
      → IsBalanced page n (realm_of (unmap_step answer level addr end r))
  unfolding unmap_step
  unmap_step-IsBalanced level addr end r b = ground (arith, b)

  destroy_step-IsBalanced :
      (ipa end : ℕ) (r : Realm)
      → IsBalanced page n r
      → IsBalanced page n (realm_of (destroy_step answer ipa end r))
  unfolding destroy_step
  destroy_step-IsBalanced ipa end r b =
      let a = answer r.trace (data_destroy ipa) in
      ground (
        arith,
        b,
        split_block-Keeps answer (IsBalanced page n) one ipa (return_index a.ret + 1)
            (after answer (data_destroy ipa) r),
      )

  fold_step-IsBalanced :
      (level addr end c : ℕ) (r : Realm)
      → IsBalanced page n r
      → IsBalanced page n (realm_of_fold (fold_step answer level addr end c r))
  unfolding fold_step undelegate_page
  fold_step-IsBalanced level addr end c r b = ground (arith, b)

  module _ (start_level : ℕ) where
    init_step-IsBalanced :
        (ipa end : ℕ) (r : Realm)
        → IsBalanced page n r
        → IsBalanced page n (realm_of_ripas (init_step answer start_level ipa end r))
    unfolding init_step
    init_step-IsBalanced ipa end r b =
        let a = answer r.trace (rtt_init_ripas ipa end) in
        ground (
          arith,
          b,
          deepen-Keeps answer (IsBalanced page n) one start_level ipa (return_index a.ret)
              (find_map_level start_level ipa end) (after answer (rtt_init_ripas ipa end) r),
        )

    set_step-IsBalanced :
        (ipa end ret : ℕ) (r : Realm)
        → IsBalanced page n r
        → IsBalanced page n (realm_of_ripas (set_step answer start_level ipa end ret r))
    unfolding set_step
    set_step-IsBalanced ipa end ret r b =
        let a = answer r.trace (rtt_set_ripas ipa end) in
        ground (
          arith,
          b,
          deepen-Keeps answer (IsBalanced page n) one start_level ipa (return_index a.ret)
              (find_map_level start_level ipa end) (after answer (rtt_set_ripas ipa end) r),
        )

  ledger-IsKept : IsKept answer (IsBalanced page n)
  ledger-IsKept = record {
    tear_down_kept = tear_down_step-IsBalanced;
    unmap_kept = unmap_step-IsBalanced;
    destroy_kept = destroy_step-IsBalanced;
    fold_kept = fold_step-IsBalanced;
    init_kept = init_step-IsBalanced;
    set_kept = set_step-IsBalanced;
    spare_kept = ensure_spare_page-IsBalanced answer page n;
  }

  -- Whatever the monitor and the allocator answer, and for every page,
  -- `kvm_init_ipa_range_realm`, `realm_set_ipa_state`, `kvm_realm_unmap_range` and
  -- `kvm_realm_destroy_rtts` keep the page's balance, on error paths as well, and at every point
  -- of their course: if the number of times that it was delegated or handed out by the monitor is
  -- the number of times that it was given to the monitor as a table, undelegated or given up,
  -- plus one if it is the spare page, plus `n`, then it is so again.
  pub range_calls-IsBalanced :
      (start_level ia_bits fuel base size ripas : ℕ) (is_new : Bool) (r : Realm)
      → IsBalanced page n r
      → (IsBalanced page n
          ((kvm_init_ipa_range_realm answer start_level fuel is_new base size r).1))
        × (IsBalanced page n
            ((realm_set_ipa_state answer start_level ia_bits fuel base (base + size) ripas r).1))
        × (IsBalanced page n
            ((kvm_realm_unmap_range answer start_level ia_bits fuel base size r).1))
        × (IsBalanced page n ((kvm_realm_destroy_rtts answer start_level ia_bits fuel r).1))
  range_calls-IsBalanced start_level ia_bits =
      calls-IsKeptByCalls answer (IsBalanced page n) ledger-IsKept start_level ia_bits
