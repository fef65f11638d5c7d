-- ===== src/Kvm/Ripas.antt =====
-- The RIPAS of a range, and the calls that unmap a range.
use tetd_test.Base.{
  ℕ, zero, suc, ◌+◌, ◌-◌, ◌/◌, ◌%◌, ◌^◌, Bool, false, not, ◌==◌, ltb, leb, if◌then◌else◌, Option,
  none, some,
}
use tetd_test.Rmm.Outcome.{rmi_success, rmi_error_rtt}
use tetd_test.Kvm.{
  Call, rtt_init_ripas, rtt_set_ripas, Reply, Trace, Realm, Errno, einval, enxio, invoke,
  rme_rtt_max_level, return_status, return_index,
}
use tetd_test.Kvm.Pages.{realm_create_rtt_levels, ensure_spare_page}
use tetd_test.Kvm.Ranges.{
  find_map_level, realm_destroy_undelegate_range, realm_unmap_unprotected,
  realm_tear_down_rtt_range, Ending, ended, failed, no_fuel,
}
use tetd_test.Kvm.Fold.{realm_fold_rtt_range}

-- What a round of a loop comes to, with the address that the loop is at and the code of its call.
pub data RipasStep : Type 0 where
  stop : (ipa : ℕ) → Ending → Realm → RipasStep
  go : (ipa ret : ℕ) → Realm → RipasStep

abbrev pub resume_ripas : RipasStep → (ℕ → ℕ → Realm → ℕ × Ending × Realm) → ℕ × Ending × Realm
resume_ripas (stop at e r) go_on = (at, e, r)
resume_ripas (go at ret r) go_on = go_on at ret r

-- What comes after a loop that returns nothing: it runs if that has ended.
abbrev pub then_run : Ending × Realm → (Realm → Ending × Realm) → Ending × Realm
then_run (no_fuel, r) next = (no_fuel, r)
then_run (ended c, r) next = next r
then_run (failed e, r) next = next r

abbrev pub after_deepen : (ipa : ℕ) → Option Errno × Realm → RipasStep
after_deepen ipa (none, r) = go ipa 0 r
after_deepen ipa (some e, r) = stop ipa (failed e) r

module _ (answer : Trace → Call → Reply) (start_level : ℕ) where
  -- The levels that are created before a call is made again.
  unfoldable pub deepen : (ipa err_level level : ℕ) → Realm → RipasStep
  deepen ipa err_level level r =
      after_deepen ipa (realm_create_rtt_levels answer ipa err_level level r)

  -- A round of `realm_init_ipa_state`.
  unfoldable pub init_step : (ipa end : ℕ) → Realm → RipasStep
  init_step ipa end r =
      if ltb ipa end
      then (let (a, r1) = invoke answer (rtt_init_ripas ipa end) r in
          let level = find_map_level start_level ipa end in
          if return_status a.ret == rmi_error_rtt
          then (if leb level (return_index a.ret)
              then stop ipa (failed enxio) r1
              else deepen ipa (return_index a.ret) level r1)
          else if a.ret == 0
          then go a.top a.ret r1
          else stop ipa (failed enxio) r1)
      else stop ipa (ended 0) r

  -- `realm_init_ipa_state`, with the address that its loop gets to.
  unfoldable pub init_state_loop : (fuel ipa end : ℕ) → Realm → ℕ × Ending × Realm
  init_state_loop zero ipa end r = (ipa, no_fuel, r)
  init_state_loop (suc n) ipa end r =
      resume_ripas (init_step ipa end r) (λ at ret r1. init_state_loop n at end r1)

  unfoldable pub realm_init_ipa_state : (fuel ipa end : ℕ) → Realm → Ending × Realm
  realm_init_ipa_state fuel ipa end r = let (at, e, r1) = init_state_loop fuel ipa end r in (e, r1)

  -- `kvm_init_ipa_range_realm`
  unfoldable pub kvm_init_ipa_range_realm :
      (fuel : ℕ) (is_new : Bool) (base size : ℕ) → Realm → Ending × Realm
  kvm_init_ipa_range_realm fuel is_new base size r =
      let end = (base + size) % 2 ^ 64 in
      if ltb end base
      then (failed einval, r)
      else if is_new
      then realm_init_ipa_state fuel base end r
      else (failed einval, r)

  -- A round of the loop of `realm_set_ipa_state`; `ret` is that of the round before.
  unfoldable pub set_step : (ipa end ret : ℕ) → Realm → RipasStep
  set_step ipa end ret r =
      if ltb ipa end
      then (let (a, r1) = invoke answer (rtt_set_ripas ipa end) r in
          let level = find_map_level start_level ipa end in
          if return_status a.ret == rmi_error_rtt
          then (if ltb (return_index a.ret) level
              then deepen ipa (return_index a.ret) level r1
              else stop ipa (failed einval) r1)
          else if return_status a.ret == rmi_success
          then go a.top a.ret r1
          else stop ipa (failed einval) r1)
      else stop ipa (ended ret) r

  -- The loop of `realm_set_ipa_state`, with the address that it gets to.
  unfoldable pub set_state_loop : (fuel ipa end ret : ℕ) → Realm → ℕ × Ending × Realm
  set_state_loop zero ipa end ret r = (ipa, no_fuel, r)
  set_state_loop (suc n) ipa end ret r =
      resume_ripas (set_step ipa end ret r) (λ at ret r1. set_state_loop n at end ret r1)

  module _ (ia_bits : ℕ) where
    -- `realm_is_addr_protected`
    abbrev pub realm_is_addr_protected : ℕ → Bool
    realm_is_addr_protected addr = addr / 2 ^ (ia_bits - 1) == 0

    -- The two halves of `kvm_realm_unmap_range`, for a range that is cut to the realm.
    unfoldable pub unmap_protected : (fuel ipa size end : ℕ) → Realm → Ending × Realm
    unmap_protected fuel ipa size end r =
        let psize = if ltb (2 ^ (ia_bits - 1)) end then 2 ^ (ia_bits - 1) - ipa else size in
        if realm_is_addr_protected ipa
        then realm_destroy_undelegate_range answer fuel ipa ((ipa + psize) % 2 ^ 64) r
        else (ended 0, r)

    unfoldable pub unmap_host : (fuel ipa end : ℕ) → Realm → Ending × Realm
    unmap_host fuel ipa end r =
        let base = if ltb ipa (2 ^ (ia_bits - 1)) then 2 ^ (ia_bits - 1) else ipa in
        if realm_is_addr_protected (end - 1)
        then (ended 0, r)
        else realm_unmap_unprotected answer fuel (rme_rtt_max_level - 1) base end r

    -- `kvm_realm_unmap_range` from the fold, from the half of the host, and as a whole.
    unfoldable pub fold_range : (fuel ipa end : ℕ) → Realm → Ending × Realm
    fold_range fuel ipa end r =
        then_run (realm_fold_rtt_range answer fuel start_level ipa end r) (λ r1. (ended 0, r1))

    unfoldable pub unmap_host_and_fold : (fuel ipa end : ℕ) → Realm → Ending × Realm
    unmap_host_and_fold fuel ipa end r =
        then_run (unmap_host fuel ipa end r) (λ r1. fold_range fuel ipa end r1)

    abbrev pub cut : ℕ → ℕ
    cut top = if ltb (2 ^ ia_bits) top then 2 ^ ia_bits else top

    unfoldable pub kvm_realm_unmap_range : (fuel ipa size : ℕ) → Realm → Ending × Realm
    kvm_realm_unmap_range fuel ipa size r =
        let end = cut ((ipa + size) % 2 ^ 64) in
        then_run (unmap_protected fuel ipa size end (ensure_spare_page answer r))
          (λ r1. unmap_host_and_fold fuel ipa end r1)

    -- `realm_set_ipa_state`, from its loop on.
    unfoldable pub unmap_empty : (fuel start ipa ripas : ℕ) → Ending → Realm → Ending × Realm
    unmap_empty fuel start ipa ripas e r =
        if (if ripas == 0 then not (ipa == start) else false)
        then then_run (kvm_realm_unmap_range fuel start (ipa - start) r) (λ r1. (e, r1))
        else (e, r)

    -- `realm_set_ipa_state`
    unfoldable pub realm_set_ipa_state : (fuel start end ripas : ℕ) → Realm → Ending × Realm
    realm_set_ipa_state fuel start end ripas r =
        let (ipa, e, r1) = set_state_loop fuel start end 0 r in
        then_run (e, r1) (λ r2. unmap_empty fuel start ipa ripas e r2)

    -- `kvm_realm_destroy_rtts`
    unfoldable pub kvm_realm_destroy_rtts : (fuel : ℕ) → Realm → Ending × Realm
    kvm_realm_destroy_rtts fuel r =
        realm_tear_down_rtt_range answer fuel start_level 0 (2 ^ ia_bits)
          (ensure_spare_page answer r)
