-- ===== src/Kvm/Frees.antt =====
-- Pages go back to the allocator only when the monitor does not hold them.
use tetd_test.Base.{
  ℕ, ◌+◌, ◌-◌, ◌≡◌, Bool, true, false, ◌==◌, if◌then◌else◌, Option, none, some, [], ◌∷◌, arith,
}
use tetd_test.Rmm.Outcome.{rmi_success}
use tetd_test.Kvm.{
  Call, alloc_page, free_page, granule_delegate, granule_undelegate, rtt_create, rtt_destroy,
  rtt_fold, data_destroy, rtt_init_ripas, rtt_set_ripas, Reply, Trace, Realm, return_status,
  return_index, after,
}
use tetd_test.Kvm.{align_floor, rme_rtt_level_mapsize}
use tetd_test.Kvm.Pages.{
  delegate_page, alloc_delegated_page, undelegate_page, free_delegated_page, realm_rtt_create,
  attach_table, create_level, keep_page, ensure_spare_page,
}
use tetd_test.Kvm.Ranges.{tear_down_reply, tear_down_step, unmap_step, destroy_step, find_map_level}
use tetd_test.Kvm.Fold.{fold_step}
use tetd_test.Kvm.Ripas.{
  init_step, kvm_init_ipa_range_realm, set_step, kvm_realm_unmap_range, kvm_realm_destroy_rtts,
  realm_set_ipa_state,
}
use tetd_test.Kvm.Invariant.{
  realm_of, realm_of_fold, realm_of_ripas, IsKept, split_block-Keeps, deepen-Keeps,
}
use tetd_test.Kvm.Invariant.Calls.{calls-IsKeptByCalls}

-- Whether a page is delegated, by what has happened: the allocator hands out pages of the host, and
-- the monitor gives delegated pages back.
abbrev pub is_delegated : Trace → ℕ → Bool
is_delegated [] p = false
is_delegated ((granule_delegate q, a) ∷ t) p =
    if (if q == p then a.ret == 0 else false) then true else is_delegated t p
is_delegated ((granule_undelegate q, a) ∷ t) p =
    if (if q == p then a.ret == 0 else false) then false else is_delegated t p
is_delegated ((alloc_page, a) ∷ t) p =
    if (if a.out == p then a.ret == 0 else false) then false else is_delegated t p
is_delegated ((rtt_destroy i n, a) ∷ t) p =
    if (if a.out == p then return_status a.ret == rmi_success else false)
    then true
    else is_delegated t p
is_delegated ((rtt_fold i n, a) ∷ t) p =
    if (if a.out == p then return_status a.ret == rmi_success else false)
    then true
    else is_delegated t p
is_delegated ((c, a) ∷ t) p = is_delegated t p

abbrev pub frees_own : Trace → Bool
frees_own [] = true
frees_own ((free_page p, a) ∷ t) = if is_delegated t p then false else frees_own t
frees_own ((c, a) ∷ t) = frees_own t

abbrev pub FreesOwn : Realm → Type 0
FreesOwn r = frees_own r.trace ≡ true

module _ (answer : Trace → Call → Reply) where
  alloc-FreesOwn : (r : Realm) → FreesOwn r → FreesOwn ((alloc_delegated_page answer r).1)
  unfolding alloc_delegated_page delegate_page
  alloc-FreesOwn r b = ground (arith, b)

  free-FreesOwn : (phys : ℕ) (r : Realm) → FreesOwn r → FreesOwn (free_delegated_page answer phys r)
  unfolding free_delegated_page undelegate_page
  free-FreesOwn phys r b = ground (arith, b)

  attach-FreesOwn :
      (ipa level : ℕ) (page : Option ℕ) (r : Realm)
      → FreesOwn r
      → FreesOwn ((attach_table answer ipa level page r).1)
  unfolding attach_table realm_rtt_create
  attach-FreesOwn ipa level none r b = b
  attach-FreesOwn ipa level (some rtt) r b =
      let a = align_floor ipa (rme_rtt_level_mapsize (level - 1)) in
      ground (arith, b, free-FreesOwn rtt (after answer (rtt_create rtt a level) r))

  create_level-FreesOwn :
      (ipa level : ℕ) (r : Realm) → FreesOwn r → FreesOwn ((create_level answer ipa level r).1)
  unfolding create_level
  create_level-FreesOwn ipa level r b =
      attach-FreesOwn ipa level ((alloc_delegated_page answer r).0) _ (alloc-FreesOwn r b)

  keep_page-FreesOwn :
      (page : Option ℕ) (r : Realm) → FreesOwn r → FreesOwn (keep_page answer page r)
  unfolding keep_page
  keep_page-FreesOwn none r b = b
  keep_page-FreesOwn (some phys) r b = free-FreesOwn phys r b

  spare-FreesOwn : (r : Realm) → FreesOwn r → FreesOwn (ensure_spare_page answer r)
  unfolding ensure_spare_page
  spare-FreesOwn r b = keep_page-FreesOwn ((alloc_delegated_page answer r).0) _ (alloc-FreesOwn r b)

  tear_down_step-FreesOwn :
      (level addr end : ℕ) (r : Realm)
      → FreesOwn r
      → FreesOwn (realm_of (tear_down_step answer level addr end r))
  unfolding tear_down_step tear_down_reply undelegate_page
  tear_down_step-FreesOwn level addr end r b = ground (arith, b)

  unmap_step-FreesOwn :
      (level addr end : ℕ) (r : Realm)
      → FreesOwn r
      → FreesOwn (realm_of (unmap_step answer level addr end r))
  unfolding unmap_step
  unmap_step-FreesOwn level addr end r b = ground (arith, b)

  destroy_step-FreesOwn :
      (ipa end : ℕ) (r : Realm) → FreesOwn r → FreesOwn (realm_of (destroy_step answer ipa end r))
  unfolding destroy_step
  destroy_step-FreesOwn ipa end r b =
      let a = answer r.trace (data_destroy ipa) in
      ground (
        arith,
        b,
        split_block-Keeps answer FreesOwn create_level-FreesOwn ipa (return_index a.ret + 1)
            (after answer (data_destroy ipa) r),
      )

  fold_step-FreesOwn :
      (level addr end c : ℕ) (r : Realm)
      → FreesOwn r
      → FreesOwn (realm_of_fold (fold_step answer level addr end c r))
  unfolding fold_step undelegate_page
  fold_step-FreesOwn level addr end c r b = ground (arith, b)

  module _ (start_level : ℕ) where
    init_step-FreesOwn :
        (ipa end : ℕ) (r : Realm)
        → FreesOwn r
        → FreesOwn (realm_of_ripas (init_step answer start_level ipa end r))
    unfolding init_step
    init_step-FreesOwn ipa end r b =
        let a = answer r.trace (rtt_init_ripas ipa end) in
        ground (
          arith,
          b,
          deepen-Keeps answer FreesOwn create_level-FreesOwn start_level ipa (return_index a.ret)
              (find_map_level start_level ipa end) (after answer (rtt_init_ripas ipa end) r),
        )

    set_step-FreesOwn :
        (ipa end ret : ℕ) (r : Realm)
        → FreesOwn r
        → FreesOwn (realm_of_ripas (set_step answer start_level ipa end ret r))
    unfolding set_step
    set_step-FreesOwn ipa end ret r b =
        let a = answer r.trace (rtt_set_ripas ipa end) in
        ground (
          arith,
          b,
          deepen-Keeps answer FreesOwn create_level-FreesOwn start_level ipa (return_index a.ret)
              (find_map_level start_level ipa end) (after answer (rtt_set_ripas ipa end) r),
        )

  frees-IsKept : IsKept answer FreesOwn
  frees-IsKept = record {
    tear_down_kept = tear_down_step-FreesOwn;
    unmap_kept = unmap_step-FreesOwn;
    destroy_kept = destroy_step-FreesOwn;
    fold_kept = fold_step-FreesOwn;
    init_kept = init_step-FreesOwn;
    set_kept = set_step-FreesOwn;
    spare_kept = spare-FreesOwn;
  }

  -- Whatever the monitor and the allocator answer, `kvm_init_ipa_range_realm`,
  -- `realm_set_ipa_state`, `kvm_realm_unmap_range` and `kvm_realm_destroy_rtts` give no page back
  -- to the allocator while it is delegated, at any point of their course.
  pub range_calls-FreesOwn :
      (start_level ia_bits fuel base size ripas : ℕ) (is_new : Bool) (r : Realm)
      → FreesOwn r
      → (FreesOwn ((kvm_init_ipa_range_realm answer start_level fuel is_new base size r).1))
        × (FreesOwn
            ((realm_set_ipa_state answer start_level ia_bits fuel base (base + size) ripas r).1))
        × (FreesOwn ((kvm_realm_unmap_range answer start_level ia_bits fuel base size r).1))
        × (FreesOwn ((kvm_realm_destroy_rtts answer start_level ia_bits fuel r).1))
  range_calls-FreesOwn start_level ia_bits =
      calls-IsKeptByCalls answer FreesOwn frees-IsKept start_level ia_bits
