-- ===== src/Rmm/Exit/Rsi.antt =====
-- `handle_realm_rsi`: the calls of the realm to the monitor, built without `RMM_FPU_USE_AT_REL2`.
use tetd_test.Base.{
  ℕ, ◌+◌, ◌%◌, ◌^◌, true, false, not, leb, ◌==◌, if◌then◌else◌, bit_and, none, some,
}
use tetd_test.Rmm.Outcome.{Res}
use tetd_test.Rmm.Handler.{smc_sve_hint, smc_unknown, not_32}
use tetd_test.Rmm.Exit.{RealmRec, Machine, RsiResult, Arch, Env, Handled, advance_pc}
use tetd_test.Rmm.Exit.Aborts.{emulate_stage2_data_abort}

-- `SMCCC_VERSION` and `SMCCC_VERSION_NUMBER`
abbrev pub smccc_version : ℕ
smccc_version = 2 ^ 31

abbrev pub smccc_version_number : ℕ
smccc_version_number = 2 ^ 16 + 2

-- `rec->regs[i] = res.smc_res.x[i]`, for the five registers.
unfoldable pub update_regs : Res → (ℕ → ℕ) → ℕ → ℕ
update_regs res regs i =
    if i == 0
    then res.x0
    else if i == 1
    then res.x1
    else if i == 2
    then res.x2
    else if i == 3
    then res.x3
    else if i == 4
    then res.x4
    else regs i

-- `res`, when the call comes.
unfoldable pub initial_result : Machine → RsiResult
initial_result m = record {
  update_rec = false;
  stage_2_abort = false;
  exit_to_host = false;
  rtt_level = 0;
  smc_res = record { x0 = 0; x1 = 0; x2 = 0; x3 = 0; x4 = m.rec.regs 4 };
}

-- `UPDATE_REC_RETURN_TO_REALM` with a value for the first register.
abbrev pub return_value : ℕ → RsiResult → RsiResult
return_value v res = record res {
  update_rec = true;
  stage_2_abort = false;
  exit_to_host = false;
  smc_res = record res.smc_res { x0 = v };
}

-- `function_id`, without the SVE hint.
unfoldable pub rsi_function_id : Machine → ℕ
rsi_function_id m = bit_and (m.rec.regs 0 % 2 ^ 32) (not_32 smc_sve_hint)

-- A handler that takes the REC alone.
abbrev pub on_rec :
    (RealmRec → RsiResult → RealmRec × RsiResult) → Machine → RsiResult → Machine × RsiResult
on_rec handle m res = let (rec, res') = handle m.rec res in (record m { rec = rec }, res')

-- The calls, and anything else.
pub data RsiCall : Type 0 where
  call_smccc_version call_psci call_version call_features call_attest_token_init
        call_attest_token_continue call_measurement_read call_measurement_extend call_realm_config
        call_ipa_state_set call_ipa_state_get call_host_call call_unknown :
      RsiCall

module _ (a : Arch) where
  -- The labels of the switch.
  unfoldable pub rsi_call : (function_id : ℕ) → RsiCall
  rsi_call fid =
      if fid == smccc_version
      then call_smccc_version
      else if (if leb a.psci32_min fid then leb fid a.psci32_max else false)
      then call_psci
      else if (if leb a.psci64_min fid then leb fid a.psci64_max else false)
      then call_psci
      else if fid == a.rsi_version
      then call_version
      else if fid == a.rsi_features
      then call_features
      else if fid == a.rsi_attest_token_init
      then call_attest_token_init
      else if fid == a.rsi_attest_token_continue
      then call_attest_token_continue
      else if fid == a.rsi_measurement_read
      then call_measurement_read
      else if fid == a.rsi_measurement_extend
      then call_measurement_extend
      else if fid == a.rsi_realm_config
      then call_realm_config
      else if fid == a.rsi_ipa_state_set
      then call_ipa_state_set
      else if fid == a.rsi_ipa_state_get
      then call_ipa_state_get
      else if fid == a.rsi_host_call
      then call_host_call
      else call_unknown

  module _ (env : Env) where
    -- The branches of the switch.
    unfoldable pub run_rsi_call : RsiCall → Machine → RsiResult → Machine × RsiResult
    run_rsi_call call_smccc_version m res = (m, return_value smccc_version_number res)
    run_rsi_call call_psci m res = env.handle_psci m res
    run_rsi_call call_version m res = on_rec env.handle_rsi_version m res
    run_rsi_call call_features m res = on_rec env.handle_rsi_features m res
    run_rsi_call call_attest_token_init m res = on_rec env.handle_rsi_attest_token_init m res
    run_rsi_call call_attest_token_continue m res = env.handle_rsi_attest_token_continue m res
    run_rsi_call call_measurement_read m res = on_rec env.handle_rsi_measurement_read m res
    run_rsi_call call_measurement_extend m res = on_rec env.handle_rsi_measurement_extend m res
    run_rsi_call call_realm_config m res = on_rec env.handle_rsi_realm_config m res
    run_rsi_call call_ipa_state_set m res = env.handle_rsi_ipa_state_set m res
    run_rsi_call call_ipa_state_get m res = on_rec env.handle_rsi_ipa_state_get m res
    run_rsi_call call_host_call m res = env.handle_rsi_host_call m res
    run_rsi_call call_unknown m res = (m, return_value smc_unknown res)

    -- `handle_realm_rsi` from the test of `FLAG_UPDATE_REC` on.
    unfoldable pub finish_rsi : Machine → RsiResult → Handled
    finish_rsi m res =
        let updated =
          if res.update_rec
          then record m { rec = record m.rec { regs = update_regs res.smc_res m.rec.regs } }
          else m in
        if res.stage_2_abort
        then elim (emulate_stage2_data_abort a updated res.rtt_level) [
          | none ↦ none
          | some m' ↦ some (not res.exit_to_host, m')
        ]
        else some (not res.exit_to_host, advance_pc updated)

    -- `handle_realm_rsi`
    unfoldable pub handle_realm_rsi : Machine → Handled
    handle_realm_rsi m =
        let (m', res) = run_rsi_call (rsi_call (rsi_function_id m)) m (initial_result m) in
        finish_rsi m' res
