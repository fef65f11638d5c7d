-- ===== src/Kvm/Tests.antt =====
-- The theorems on rme.c at a small monitor that has every table and refuses to fold.
use tetd_test.Base.{
  ℕ, ◌+◌, ◌-◌, ◌*◌, ◌^◌, ◌≡◌, refl, true, false, ◌==◌, leb, if◌then◌else◌, none, [], arith,
}
use tetd_test.Rmm.Outcome.{rmi_error_rtt}
use tetd_test.Kvm.{
  Call, alloc_page, rtt_destroy, rtt_fold, rtt_unmap_unprotected, rtt_init_ripas, rtt_set_ripas,
  data_destroy, Reply, Trace, Realm,
}
use tetd_test.Kvm.Ranges.{no_fuel, find_map_level, realm_tear_down_rtt_range}
use tetd_test.Kvm.Fold.{realm_fold_rtt_range}
use tetd_test.Kvm.Ripas.{
  kvm_init_ipa_range_realm, realm_set_ipa_state, kvm_realm_unmap_range, kvm_realm_destroy_rtts,
}
use tetd_test.Kvm.Ledger.{IsBalanced}
use tetd_test.Kvm.Ledger.Steps.{range_calls-IsBalanced}
use tetd_test.Kvm.Frees.{FreesOwn, range_calls-FreesOwn}
use tetd_test.Kvm.Hangs.{realm_fold_rtt_range-hangs}
use tetd_test.Kvm.Within.{destroys_within, realm_tear_down_rtt_range-within}
use tetd_test.Kvm.Level.{begins_and_ends, find_map_level-eq-topmost}

abbrev reply : (ret out top : ℕ) → Reply
reply ret out top = record { ret = ret; out = out; top = top }

abbrev sample_answer : Trace → Call → Reply
sample_answer t alloc_page = reply 0 4096 0
sample_answer t (rtt_destroy ipa level) = reply 0 8192 (ipa + 2 ^ 30)
sample_answer t (rtt_fold ipa level) = reply (level * 256 + rmi_error_rtt) 0 0
sample_answer t (rtt_unmap_unprotected ipa level) = reply 0 0 (ipa + 2 ^ 21)
sample_answer t (rtt_init_ripas base top) = reply 0 0 top
sample_answer t (rtt_set_ripas base top) = reply 0 0 (base + 4096)
sample_answer t (data_destroy ipa) = reply 0 12288 (ipa + 4096)
sample_answer t _ = reply 0 0 0

abbrev sample_realm : Realm
sample_realm = record { spare_page = none; trace = [] }

range_calls-IsBalanced_example :
    (IsBalanced 4096 0 ((kvm_init_ipa_range_realm sample_answer 1 9 true 0 8192 sample_realm).1))
    × (IsBalanced 4096 0 ((realm_set_ipa_state sample_answer 1 32 9 0 (0 + 8192) 0 sample_realm).1))
    × (IsBalanced 4096 0 ((kvm_realm_unmap_range sample_answer 1 32 9 0 8192 sample_realm).1))
    × (IsBalanced 4096 0 ((kvm_realm_destroy_rtts sample_answer 1 32 9 sample_realm).1))
range_calls-IsBalanced_example =
    range_calls-IsBalanced sample_answer 4096 0 1 32 9 0 8192 0 true sample_realm refl

range_calls-FreesOwn_example :
    (FreesOwn ((kvm_init_ipa_range_realm sample_answer 1 9 true 0 8192 sample_realm).1))
    × (FreesOwn ((realm_set_ipa_state sample_answer 1 32 9 0 (0 + 8192) 0 sample_realm).1))
    × (FreesOwn ((kvm_realm_unmap_range sample_answer 1 32 9 0 8192 sample_realm).1))
    × (FreesOwn ((kvm_realm_destroy_rtts sample_answer 1 32 9 sample_realm).1))
range_calls-FreesOwn_example =
    range_calls-FreesOwn sample_answer 1 32 9 0 8192 0 true sample_realm refl

realm_fold_rtt_range-hangs_example :
    (realm_fold_rtt_range sample_answer 40 0 0 8192 sample_realm).0 ≡ no_fuel
realm_fold_rtt_range-hangs_example =
    realm_fold_rtt_range-hangs sample_answer (λ t ipa level. refl) 40 0 8192 sample_realm refl

find_map_level-eq-topmost_example :
    let level = find_map_level 1 (2 ^ 21) (2 ^ 22) in
    (leb 1 level ≡ true)
    × (leb level 3 ≡ true)
    × ((if level == 3 then true else begins_and_ends (2 ^ 21) (2 ^ 22) level) ≡ true)
    × ((if level == 1 then false else begins_and_ends (2 ^ 21) (2 ^ 22) (level - 1)) ≡ false)
find_map_level-eq-topmost_example = find_map_level-eq-topmost 1 (2 ^ 21) (2 ^ 22) refl (omega arith)

realm_tear_down_rtt_range-within_example :
    destroys_within
      (2 ^ 30)
      (2 ^ 32)
      ((realm_tear_down_rtt_range sample_answer 9 1 (2 ^ 30) (2 ^ 32) sample_realm).1).trace
    ≡ true
realm_tear_down_rtt_range-within_example =
    realm_tear_down_rtt_range-within sample_answer 9 1 (2 ^ 30) (2 ^ 32) sample_realm
      (λ t ipa level. ground arith) (omega arith) refl
