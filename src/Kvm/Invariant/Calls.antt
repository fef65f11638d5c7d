-- ===== src/Kvm/Invariant/Calls.antt =====
-- The same for the calls of the rest of KVM.
use tetd_test.Base.{ℕ, ◌+◌, ◌-◌, ◌%◌, ◌^◌, Bool, true, false, not, ltb, ◌==◌, if◌then◌else◌}
use tetd_test.Kvm.{Call, Reply, Trace, Realm}
use tetd_test.Kvm.Pages.{ensure_spare_page}
use tetd_test.Kvm.Ranges.{Ending, ended, realm_tear_down_rtt_range}
use tetd_test.Kvm.Fold.{realm_fold_rtt_range, realm_fold_rtt_level}
use tetd_test.Kvm.Ripas.{
  realm_init_ipa_state, kvm_init_ipa_range_realm, set_state_loop, unmap_protected, unmap_host,
  fold_range, unmap_host_and_fold, cut, unmap_empty, kvm_realm_unmap_range, realm_set_ipa_state,
  kvm_realm_destroy_rtts, realm_is_addr_protected,
}
use tetd_test.Kvm.Invariant.{
  IsKept, Keeps, tear_down-Keeps, unmap-Keeps, destroy-Keeps, fold-Keeps, init_state_loop-Keeps,
  set_state_loop-Keeps, then_run-Keeps,
}

module _ (answer : Trace → Call → Reply) (P : Realm → Type 0) (k : IsKept answer P)
    (start_level ia_bits : ℕ) where
  if-Keeps : (b : Bool) (x y : Ending × Realm) → P (x.1) → P (y.1) → P ((if b then x else y).1)
  if-Keeps true x y h k = h
  if-Keeps false x y h k = k

  unmap_protected-Keeps :
      (fuel ipa size end : ℕ)
      → Keeps P (unmap_protected answer start_level ia_bits fuel ipa size end)
  unfolding unmap_protected
  unmap_protected-Keeps fuel ipa size end r b =
      if-Keeps (realm_is_addr_protected answer start_level ia_bits ipa) _ _
        (destroy-Keeps answer P k fuel ipa _ r b) b

  unmap_host-Keeps :
      (fuel ipa end : ℕ) → Keeps P (unmap_host answer start_level ia_bits fuel ipa end)
  unfolding unmap_host
  unmap_host-Keeps fuel ipa end r b =
      if-Keeps (realm_is_addr_protected answer start_level ia_bits (end - 1)) _ _ b
        (unmap-Keeps answer P k fuel _ _ end r b)

  fold_range-Keeps :
      (fuel ipa end : ℕ) → Keeps P (fold_range answer start_level ia_bits fuel ipa end)
  unfolding fold_range realm_fold_rtt_range
  fold_range-Keeps fuel ipa end r b =
      then_run-Keeps P (realm_fold_rtt_level answer fuel (start_level + 1) ipa end 0 r)
        (λ r1. (ended 0, r1)) (fold-Keeps answer P k fuel (start_level + 1) ipa end 0 r b)
        λ r1 b1. b1

  unmap_host_and_fold-Keeps :
      (fuel ipa end : ℕ) → Keeps P (unmap_host_and_fold answer start_level ia_bits fuel ipa end)
  unfolding unmap_host_and_fold
  unmap_host_and_fold-Keeps fuel ipa end r b =
      then_run-Keeps P (unmap_host answer start_level ia_bits fuel ipa end r)
        (fold_range answer start_level ia_bits fuel ipa end) (unmap_host-Keeps fuel ipa end r b)
        (fold_range-Keeps fuel ipa end)

  kvm_realm_unmap_range-Keeps :
      (fuel ipa size : ℕ) → Keeps P (kvm_realm_unmap_range answer start_level ia_bits fuel ipa size)
  unfolding kvm_realm_unmap_range
  kvm_realm_unmap_range-Keeps fuel ipa size r b =
      let end = cut answer start_level ia_bits ((ipa + size) % 2 ^ 64) in
      then_run-Keeps P
        (unmap_protected answer start_level ia_bits fuel ipa size end (ensure_spare_page answer r))
        (unmap_host_and_fold answer start_level ia_bits fuel ipa end)
        (unmap_protected-Keeps fuel ipa size end _ (k.spare_kept r b))
        (unmap_host_and_fold-Keeps fuel ipa end)

  unmap_empty-Keeps :
      (fuel start ipa ripas : ℕ) (e : Ending)
      → Keeps P (unmap_empty answer start_level ia_bits fuel start ipa ripas e)
  unfolding unmap_empty
  unmap_empty-Keeps fuel start ipa ripas e r b =
      if-Keeps (if ripas == 0 then not (ipa == start) else false) _ _
        (then_run-Keeps P
          (kvm_realm_unmap_range answer start_level ia_bits fuel start (ipa - start) r)
          (λ r1. (e, r1)) (kvm_realm_unmap_range-Keeps fuel start (ipa - start) r b) λ r1 b1. b1)
        b

  realm_set_ipa_state-Keeps :
      (fuel start end ripas : ℕ)
      → Keeps P (realm_set_ipa_state answer start_level ia_bits fuel start end ripas)
  unfolding realm_set_ipa_state
  realm_set_ipa_state-Keeps fuel start end ripas r b =
      let x = set_state_loop answer start_level fuel start end 0 r in
      then_run-Keeps P (x.1, x.2)
        (unmap_empty answer start_level ia_bits fuel start (x.0) ripas (x.1))
        (set_state_loop-Keeps answer P k start_level fuel start end 0 r b)
        (unmap_empty-Keeps fuel start (x.0) ripas (x.1))

  kvm_init_ipa_range_realm-Keeps :
      (fuel : ℕ) (is_new : Bool) (base size : ℕ)
      → Keeps P (kvm_init_ipa_range_realm answer start_level fuel is_new base size)
  unfolding kvm_init_ipa_range_realm realm_init_ipa_state
  kvm_init_ipa_range_realm-Keeps fuel is_new base size r b =
      if-Keeps (ltb ((base + size) % 2 ^ 64) base) _ _ b
        (if-Keeps is_new _ _ (init_state_loop-Keeps answer P k start_level fuel base _ r b) b)

  abbrev pub IsKeptByCalls : (fuel base size ripas : ℕ) (is_new : Bool) (r : Realm) → Type 0
  IsKeptByCalls fuel base size ripas is_new r =
      (P ((kvm_init_ipa_range_realm answer start_level fuel is_new base size r).1))
      × (P ((realm_set_ipa_state answer start_level ia_bits fuel base (base + size) ripas r).1))
      × (P ((kvm_realm_unmap_range answer start_level ia_bits fuel base size r).1))
      × (P ((kvm_realm_destroy_rtts answer start_level ia_bits fuel r).1))

  pub calls-IsKeptByCalls :
      (fuel base size ripas : ℕ) (is_new : Bool) (r : Realm)
      → P r
      → IsKeptByCalls fuel base size ripas is_new r
  unfolding kvm_realm_destroy_rtts realm_tear_down_rtt_range
  calls-IsKeptByCalls fuel base size ripas is_new r b = (
    kvm_init_ipa_range_realm-Keeps fuel is_new base size r b,
    realm_set_ipa_state-Keeps fuel base (base + size) ripas r b,
    kvm_realm_unmap_range-Keeps fuel base size r b,
    tear_down-Keeps answer P k fuel (start_level + 1) 0 (2 ^ ia_bits) _ (k.spare_kept r b),
  )
