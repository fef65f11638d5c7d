-- ===== src/Rmm/Tests/Exits.antt =====
-- The theorems on exit.c at a small machine, with the numbers of the architecture.
use tetd_test.Base.{
  ℕ, ◌+◌, ◌-◌, ◌*◌, ◌/◌, ◌%◌, ◌^◌, ◌≡◌, refl, true, false, not, ◌==◌, ltb, if◌then◌else◌, some, [],
  inl, bit_and,
}
use tetd_test.Rmm.Interface.{ripas_ram}
use tetd_test.Rmm.Handler.{smc_unknown}
use tetd_test.Rmm.Exit.{Machine, RsiResult, Arch, Env, sync_lel, rmi_exit_sync}
use tetd_test.Rmm.Exit.Rsi.{handle_realm_rsi, rsi_call, rsi_function_id, finish_rsi, update_regs}
use tetd_test.Rmm.Exit.Handle.{handle_realm_exit, handle_exception_sync, record_run}
use tetd_test.Rmm.Exit.Laws.{told, both}
use tetd_test.Rmm.Exit.Laws.Hidden.{with_regs, handle_realm_exit-hides}
use tetd_test.Rmm.Exit.Laws.Returned.{
  reason_of, is_recorded, pc_after, Recorded, handle_realm_exit-leaves, handle_realm_rsi-unknown,
  finish_rsi-leaves,
}

abbrev class_of : ℕ → ℕ
class_of n = n * 2 ^ 26

abbrev arch : Arch
arch = record {
  page_level = 3;
  granule_mask = 4095;
  nrw_aarch32 = 16;
  isv_bit = 2 ^ 24;
  mask_fipa = (2 ^ 40 - 1) * 16;
  fipa_offset = 8;
  nonemulated_abort_mask = class_of 63 + 3 * 2 ^ 11 + 63;
  emulated_abort_mask = class_of 63 + 2 ^ 24 + 2 ^ 6 + 63;
  mask_fsc = 63;
  mask_fsc_level = 3;
  fsc_sea = 16;
  fsc_sea_ttw_start = 19;
  fsc_sea_ttw_end = 23;
  fsc_translation_fault = 4;
  fsc_translation_fault_l0 = 4;
  mask_set = 3 * 2 ^ 11;
  set_uer = 0;
  set_ueo = 3 * 2 ^ 11;
  set_uc = 2 * 2 ^ 11;
  mask_ec = class_of 63;
  ec_wfx = class_of 1;
  ec_hvc = class_of 22;
  ec_smc = class_of 23;
  ec_sysreg = class_of 24;
  ec_inst_abort = class_of 32;
  ec_data_abort = class_of 36;
  ec_fpu = class_of 7;
  ec_sve = class_of 25;
  ec_sme = class_of 29;
  wfx_ti_bit = 1;
  ids_bit = 2 ^ 24;
  mask_dfsc = 63;
  dfsc_async = 17;
  mask_aet = 7 * 2 ^ 10;
  aet_ueu = 2 ^ 10;
  aet_uer = 3 * 2 ^ 10;
  aet_ce = 6 * 2 ^ 10;
  aet_ueo = 2 * 2 ^ 10;
  aet_uc = 0;
  serror_mask = class_of 63 + 63;
  psci32_min = 33 * 2 ^ 26;
  psci32_max = 33 * 2 ^ 26 + 31;
  psci64_min = 49 * 2 ^ 26;
  psci64_max = 49 * 2 ^ 26 + 31;
  rsi_version = 49 * 2 ^ 26 + 400;
  rsi_features = 49 * 2 ^ 26 + 401;
  rsi_attest_token_init = 49 * 2 ^ 26 + 404;
  rsi_attest_token_continue = 49 * 2 ^ 26 + 405;
  rsi_measurement_read = 49 * 2 ^ 26 + 402;
  rsi_measurement_extend = 49 * 2 ^ 26 + 403;
  rsi_realm_config = 49 * 2 ^ 26 + 406;
  rsi_ipa_state_set = 49 * 2 ^ 26 + 407;
  rsi_ipa_state_get = 49 * 2 ^ 26 + 408;
  rsi_host_call = 49 * 2 ^ 26 + 409;
}

-- A write to protected memory that no page is mapped for.
abbrev env : Env
env = record {
  esr = class_of 36 + 2 ^ 24 + 2 * 2 ^ 16 + 2 ^ 6 + 6;
  spsr = 0;
  hpfar = 128;
  far = 32776;
  granule_aligned = λ a. a % 4096 == 0;
  ipa_ripas = λ a. some ripas_ram;
  addr_in_rec_par = λ a. ltb a (2 ^ 31);
  esr_is_write = λ e. not (bit_and e (2 ^ 6) == 0);
  esr_srt = λ e. e / 2 ^ 16 % 32;
  access_mask = λ e. 255;
  simd_context_switch = λ c d. d;
  handle_sysreg_access_trap = λ m e. some (true, m);
  handle_psci = λ m r. (m, r);
  handle_rsi_attest_token_continue = λ m r. (m, r);
  handle_rsi_ipa_state_set = λ m r. (m, r);
  handle_rsi_host_call = λ m r. (m, r);
  handle_rsi_version = λ m r. (m, r);
  handle_rsi_features = λ m r. (m, r);
  handle_rsi_attest_token_init = λ m r. (m, r);
  handle_rsi_measurement_read = λ m r. (m, r);
  handle_rsi_measurement_extend = λ m r. (m, r);
  handle_rsi_realm_config = λ m r. (m, r);
  handle_rsi_ipa_state_get = λ m r. (m, r);
}

abbrev machine : Machine
machine = record {
  rec = record {
    regs = λ i. if i == 0 then 49 * 2 ^ 26 + 500 else i;
    sve_en = true;
    active_simd_ctx = 1;
    simd_ctx = 2;
    simd_enabled = false;
    last_esr = 0;
    last_far = 0;
    last_hpfar = 0;
  };
  rec_exit = record { exit_reason = 9; esr = 0; far = 0; hpfar = 0; gprs = λ i. 0 };
  elr = 4096;
  injected = [];
}

handle_realm_exit-hides_example :
    told (
      handle_realm_exit arch
        (record env { far = 40000 })
        (with_regs arch env (λ i. 7) machine)
        sync_lel)
    ≡ told (handle_realm_exit arch env machine sync_lel)
handle_realm_exit-hides_example =
    handle_realm_exit-hides arch env machine sync_lel (λ i. 7) 40000 refl (inl refl)

-- A wait instruction, and the machine after it.
abbrev waiting : Env
waiting = record env { esr = class_of 1 + 2 ^ 24 + 1 }

abbrev waited : Machine
waited = record machine {
  elr = 4100;
  rec = record machine.rec {
    last_esr = class_of 1 + 2 ^ 24 + 1;
    last_far = 32776;
    last_hpfar = 128;
  };
  rec_exit = record machine.rec_exit { exit_reason = rmi_exit_sync; esr = class_of 1 + 1 };
}

handle_realm_exit-leaves_example :
    (waited.rec_exit.exit_reason ≡ reason_of sync_lel machine.rec_exit.exit_reason)
    × (waited.elr ≡ pc_after arch waiting machine sync_lel)
    × Recorded arch waiting (both (is_recorded sync_lel) (not false)) waited
unfolding handle_realm_exit handle_exception_sync record_run
handle_realm_exit-leaves_example =
    handle_realm_exit-leaves arch waiting machine waited sync_lel false refl refl

handle_realm_rsi-unknown_example :
    handle_realm_rsi arch env machine
    ≡ some (
      true,
      record machine {
        elr = (machine.elr + 4) % 2 ^ 64;
        rec = record machine.rec {
          regs = λ i. if i == 0 then smc_unknown else if ltb i 4 then 0 else machine.rec.regs i;
        };
      },
    )
unfolding rsi_call rsi_function_id
handle_realm_rsi-unknown_example = handle_realm_rsi-unknown arch env machine refl

-- The result of a handler that answers the realm.
abbrev answered : RsiResult
answered = record {
  update_rec = true;
  stage_2_abort = false;
  exit_to_host = false;
  rtt_level = 0;
  smc_res = record { x0 = 0; x1 = 65536; x2 = 0; x3 = 0; x4 = 4 };
}

abbrev after_answer : Machine
after_answer = record machine {
  elr = 4100;
  rec = record machine.rec { regs = update_regs answered.smc_res machine.rec.regs };
}

finish_rsi-leaves_example :
    (true ≡ not answered.exit_to_host)
    × (after_answer.elr
        ≡ (if answered.stage_2_abort then machine.elr else (machine.elr + 4) % 2 ^ 64))
    × (after_answer.rec.regs 0 ≡ 0)
    × (after_answer.rec.regs 1 ≡ 65536)
    × (after_answer.rec.regs 2 ≡ 0)
    × (after_answer.rec.regs 3 ≡ 0)
    × (after_answer.rec.regs 4 ≡ 4)
    × (after_answer.rec.regs (7 + 5) ≡ machine.rec.regs (7 + 5))
    × ((if answered.stage_2_abort then after_answer.rec_exit.exit_reason else rmi_exit_sync)
        ≡ rmi_exit_sync)
    × ((if answered.stage_2_abort then after_answer.rec_exit.far else 0) ≡ 0)
    × (after_answer.rec.regs 1 / 2 ^ 8 ≡ after_answer.rec.regs 1 / 2 ^ 8)
unfolding finish_rsi
finish_rsi-leaves_example = finish_rsi-leaves arch env machine after_answer answered true 7 refl
