-- ===== src/Rmm/Exit/Handle.antt =====
-- `handle_simd_exception`, `handle_exception_sync` and `handle_realm_exit`.
use tetd_test.Base.{ℕ, true, false, not, ◌==◌, if◌then◌else◌, bit_and, bit_or, none, some}
use tetd_test.Rmm.Exit.{
  Machine, Arch, Env, Handled, Exception, sync_lel, irq_lel, fiq_lel, serror_lel, unrecognized,
  undef_abort, inject, report_esr, advance_pc, rmi_exit_sync, rmi_exit_irq, rmi_exit_fiq,
  rmi_exit_serror,
}
use tetd_test.Rmm.Exit.Aborts.{
  handle_data_abort, handle_instruction_abort, handle_exception_serror_lel,
}
use tetd_test.Rmm.Exit.Rsi.{handle_realm_rsi}

-- `rec_exit->exit_reason = reason`
abbrev pub report_reason : ℕ → Machine → Machine
report_reason reason m = record m { rec_exit = record m.rec_exit { exit_reason = reason } }

module _ (a : Arch) (env : Env) where
  -- `handle_simd_exception` from the assertion on.
  unfoldable pub switch_simd : Machine → Handled
  switch_simd m =
      if m.rec.active_simd_ctx == m.rec.simd_ctx
      then none
      else some (
        true,
        record m {
          rec = record m.rec {
            active_simd_ctx = env.simd_context_switch m.rec.active_simd_ctx m.rec.simd_ctx;
            simd_enabled = true;
          };
        },
      )

  -- `handle_simd_exception`
  unfoldable pub handle_simd_exception : Machine → (esr : ℕ) → Handled
  handle_simd_exception m esr =
      let ec = bit_and esr a.mask_ec in
      let undefined = some (true, inject undef_abort m) in
      if (if ec == a.ec_sve then not m.rec.sve_en else false)
      then undefined
      else if ec == a.ec_sme
      then (if m.rec.sve_en
          then (if m.rec.active_simd_ctx == m.rec.simd_ctx then undefined else switch_simd m)
          else undefined)
      else switch_simd m

  -- `handle_exception_sync`
  unfoldable pub handle_exception_sync : Machine → Handled
  handle_exception_sync m =
      let esr = env.esr in
      let ec = bit_and esr a.mask_ec in
      if ec == a.ec_wfx
      then some (false, advance_pc (report_esr (bit_and esr (bit_or a.mask_ec a.wfx_ti_bit)) m))
      else if ec == a.ec_hvc
      then some (true, inject undef_abort m)
      else if ec == a.ec_smc
      then handle_realm_rsi a env m
      else if ec == a.ec_sysreg
      then elim (env.handle_sysreg_access_trap m esr) [
        | none ↦ none
        | some (ret, m') ↦ some (ret, advance_pc m')
      ]
      else if ec == a.ec_inst_abort
      then handle_instruction_abort a env m esr
      else if ec == a.ec_data_abort
      then handle_data_abort a env m esr
      else if ec == a.ec_fpu
      then handle_simd_exception m esr
      else if ec == a.ec_sve
      then handle_simd_exception m esr
      else if ec == a.ec_sme
      then handle_simd_exception m esr
      else some (false, m)

  -- The `last_run_info` of the REC, where the exit goes to the host.
  unfoldable pub record_run : Handled → Handled
  record_run none = none
  record_run (some (true, m)) = some (true, m)
  record_run (some (false, m)) = some (
    false,
    record m {
      rec = record m.rec { last_esr = env.esr; last_far = env.far; last_hpfar = env.hpfar };
    },
  )

  -- `handle_realm_exit`, with `handle_exception_irq_lel`.
  unfoldable pub handle_realm_exit : Machine → Exception → Handled
  handle_realm_exit m sync_lel = record_run (handle_exception_sync (report_reason rmi_exit_sync m))
  handle_realm_exit m irq_lel = some (false, report_reason rmi_exit_irq m)
  handle_realm_exit m fiq_lel = some (false, report_reason rmi_exit_fiq m)
  handle_realm_exit m serror_lel =
      record_run (handle_exception_serror_lel a env (report_reason rmi_exit_serror m))
  handle_realm_exit m unrecognized = some (false, m)
