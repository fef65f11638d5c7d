-- ===== src/Rmm/Exit/Laws/Returned.antt =====
-- What is left in the REC and its exit when an exit has been handled.
use tetd_test.Base.{
  ℕ, ◌+◌, ◌/◌, ◌%◌, ◌^◌, ◌≡◌, refl, sym, ap, ◌∙◌, Bool, true, false, not, ◌==◌, if◌then◌else◌, none,
  some, arith, ltb,
}
use mathlib.Core.Path.{fun_ext}
use tetd_test.Rmm.Handler.{smc_unknown}
use tetd_test.Rmm.Exit.{
  Machine, Arch, Env, Handled, Exception, sync_lel, irq_lel, fiq_lel, serror_lel, unrecognized,
  rmi_exit_sync, rmi_exit_serror, rmi_exit_irq, rmi_exit_fiq, RsiResult,
}
use tetd_test.Rmm.Exit.Aborts.{
  handle_sync_external_abort, handle_data_abort, data_abort_to_host, handle_instruction_abort,
  instruction_abort_to_host, handle_exception_serror_lel, emulate_stage2_data_abort,
}
use tetd_test.Rmm.Exit.Rsi.{
  handle_realm_rsi, run_rsi_call, rsi_call, call_unknown, rsi_function_id, initial_result,
  finish_rsi, update_regs,
}
use tetd_test.Rmm.Exit.Handle.{
  handle_realm_exit, handle_exception_sync, handle_simd_exception, switch_simd, record_run,
  report_reason,
}
use tetd_test.Rmm.Exit.Laws.{class, is_request, both}

-- The reason and the program counter that are left, or the given ones if nothing is returned.
abbrev reason_left : ℕ → Handled → ℕ
reason_left d none = d
reason_left d (some (ret, m)) = m.rec_exit.exit_reason

abbrev pc_left : ℕ → Handled → ℕ
pc_left d none = d
pc_left d (some (ret, m)) = m.elr

-- The reason that the host is given.
abbrev pub reason_of : Exception → ℕ → ℕ
reason_of sync_lel old = rmi_exit_sync
reason_of irq_lel old = rmi_exit_irq
reason_of fiq_lel old = rmi_exit_fiq
reason_of serror_lel old = rmi_exit_serror
reason_of unrecognized old = old

-- The exceptions that leave `last_run_info`.
abbrev pub is_recorded : Exception → Bool
is_recorded sync_lel = true
is_recorded serror_lel = true
is_recorded _ = false

module _ (a : Arch) (env : Env) where
  -- The program counter after an exit that is no request: past a wait instruction.
  abbrev pub pc_after : Machine → Exception → ℕ
  pc_after m sync_lel = if class a env == a.ec_wfx then (m.elr + 4) % 2 ^ 64 else m.elr
  pc_after m _ = m.elr

  abbrev Leaves : Machine → Handled → Type 0
  Leaves m h =
      (reason_left m.rec_exit.exit_reason h ≡ m.rec_exit.exit_reason) × (pc_left m.elr h ≡ m.elr)

  data_abort_to_host-Leaves : (m : Machine) → Leaves m (data_abort_to_host a env m env.esr)
  unfolding data_abort_to_host
  data_abort_to_host-Leaves m = (ground arith, ground arith)

  data_abort-Leaves : (m : Machine) → Leaves m (handle_data_abort a env m env.esr)
  unfolding handle_data_abort handle_sync_external_abort
  data_abort-Leaves m =
      let h = data_abort_to_host-Leaves m in (ground (arith, h.0), ground (arith, h.1))

  instruction_abort-Leaves : (m : Machine) → Leaves m (handle_instruction_abort a env m env.esr)
  unfolding handle_instruction_abort handle_sync_external_abort instruction_abort_to_host
  instruction_abort-Leaves m = (ground arith, ground arith)

  simd-Leaves : (m : Machine) → Leaves m (handle_simd_exception a env m env.esr)
  unfolding handle_simd_exception switch_simd
  simd-Leaves m = (ground arith, ground arith)

  serror-Leaves : (m : Machine) → Leaves m (handle_exception_serror_lel a env m)
  unfolding handle_exception_serror_lel
  serror-Leaves m = (ground arith, ground arith)

  sync-leaves :
      (m : Machine)
      → is_request a env sync_lel ≡ false
      → (reason_left m.rec_exit.exit_reason (handle_exception_sync a env m)
          ≡ m.rec_exit.exit_reason)
        × (pc_left (pc_after m sync_lel) (handle_exception_sync a env m) ≡ pc_after m sync_lel)
  unfolding handle_exception_sync
  sync-leaves m q =
      let d = data_abort-Leaves m in
      let i = instruction_abort-Leaves m in
      let s = simd-Leaves m in (ground (arith, d.0, i.0, s.0), ground (arith, d.1, i.1, s.1))

  -- What the host finds in `last_run_info` of a REC that it is given back.
  abbrev pub Recorded : (to_host : Bool) → Machine → Type 0
  Recorded to_host m =
      ((if to_host then m.rec.last_esr else env.esr) ≡ env.esr)
      × ((if to_host then m.rec.last_far else env.far) ≡ env.far)
      × ((if to_host then m.rec.last_hpfar else env.hpfar) ≡ env.hpfar)

  record_run-leaves :
      (m' : Machine) (ret : Bool) (h : Handled) (reason pc : ℕ)
      → record_run a env h ≡ some (ret, m')
      → (reason_left reason h ≡ m'.rec_exit.exit_reason)
        × (pc_left pc h ≡ m'.elr)
        × Recorded (not ret) m'
  unfolding record_run
  record_run-leaves m' ret none reason pc e = absurd (ground arith)
  record_run-leaves m' ret (some (true, m)) reason pc e =
      (ground arith, ground arith, (ground arith, ground arith, ground arith))
  record_run-leaves m' ret (some (false, m)) reason pc e =
      (ground arith, ground arith, (ground arith, ground arith, ground arith))

  -- When `handle_realm_exit` returns, for an exit that is neither a call of the realm nor its
  -- access to a system register, the reason that is reported is that of the exception, the
  -- program counter is as before, or past the instruction if that waited, and `last_run_info`
  -- holds the registers of the exit if a synchronous exception or an SError goes to the host.
  pub handle_realm_exit-leaves :
      (m m' : Machine) (e : Exception) (ret : Bool)
      → is_request a env e ≡ false
      → handle_realm_exit a env m e ≡ some (ret, m')
      → (m'.rec_exit.exit_reason ≡ reason_of e m.rec_exit.exit_reason)
        × (m'.elr ≡ pc_after m e)
        × Recorded (both (is_recorded e) (not ret)) m'
  unfolding handle_realm_exit
  handle_realm_exit-leaves m m' sync_lel ret q e =
      let l = sync-leaves (report_reason rmi_exit_sync m) q in
      let r =
        record_run-leaves m' ret (handle_exception_sync a env (report_reason rmi_exit_sync m))
          rmi_exit_sync (pc_after m sync_lel) e in
      (sym (r.0) ∙ l.0, sym (r.1) ∙ l.1, r.2)
  handle_realm_exit-leaves m m' serror_lel ret q e =
      let l = serror-Leaves (report_reason rmi_exit_serror m) in
      let r =
        record_run-leaves m' ret
          (handle_exception_serror_lel a env (report_reason rmi_exit_serror m)) rmi_exit_serror
          m.elr e in
      (sym (r.0) ∙ l.0, sym (r.1) ∙ l.1, r.2)
  handle_realm_exit-leaves m m' irq_lel ret q e = (ground arith, ground arith, (refl, refl, refl))
  handle_realm_exit-leaves m m' fiq_lel ret q e = (ground arith, ground arith, (refl, refl, refl))
  handle_realm_exit-leaves m m' unrecognized ret q e =
      (ground arith, ground arith, (refl, refl, refl))

  -- A call of the realm with an identifier that the monitor does not know returns to the realm,
  -- past the call, with the code for an unknown call in the first register, zero in the next
  -- three, and all other registers as they were. Nothing else is changed.
  pub handle_realm_rsi-unknown :
      (m : Machine)
      → rsi_call a (rsi_function_id m) ≡ call_unknown
      → handle_realm_rsi a env m
        ≡ some (
          true,
          record m {
            elr = (m.elr + 4) % 2 ^ 64;
            rec = record m.rec {
              regs = λ i. if i == 0 then smc_unknown else if ltb i 4 then 0 else m.rec.regs i;
            };
          },
        )
  unfolding handle_realm_rsi run_rsi_call finish_rsi update_regs initial_result
  handle_realm_rsi-unknown m h = rw h (
      ap
        (λ (r : ℕ → ℕ).
          some (true, record m { elr = (m.elr + 4) % 2 ^ 64; rec = record m.rec { regs = r } }))
        (fun_ext λ i. ground arith))

  -- When a call of the realm returns, it goes to the host just if its handler says so, and the
  -- program counter is past the call unless the call is an abort at stage 2, which is repeated.
  -- Each of the first five registers is that value of the result that has its number if the
  -- handler updates them, and as the handler left it otherwise; every other register is as the
  -- handler left it. An abort at stage 2 is reported as a synchronous exit with no fault address
  -- and, in `hpfar`, with the second register divided by `2 ^ fipa_offset`.
  pub finish_rsi-leaves :
      (m m' : Machine) (res : RsiResult) (ret : Bool) (i : ℕ)
      → finish_rsi a env m res ≡ some (ret, m')
      → let x = res.smc_res in
        let given : (ℕ → ℕ → ℕ) = λ i v. if res.update_rec then v else m.rec.regs i in
        (ret ≡ not res.exit_to_host)
        × (m'.elr ≡ (if res.stage_2_abort then m.elr else (m.elr + 4) % 2 ^ 64))
        × (m'.rec.regs 0 ≡ given 0 x.x0)
        × (m'.rec.regs 1 ≡ given 1 x.x1)
        × (m'.rec.regs 2 ≡ given 2 x.x2)
        × (m'.rec.regs 3 ≡ given 3 x.x3)
        × (m'.rec.regs 4 ≡ given 4 x.x4)
        × (m'.rec.regs (i + 5) ≡ m.rec.regs (i + 5))
        × ((if res.stage_2_abort then m'.rec_exit.exit_reason else rmi_exit_sync) ≡ rmi_exit_sync)
        × ((if res.stage_2_abort then m'.rec_exit.far else 0) ≡ 0)
        × ((if res.stage_2_abort then m'.rec_exit.hpfar else m'.rec.regs 1 / 2 ^ a.fipa_offset)
            ≡ m'.rec.regs 1 / 2 ^ a.fipa_offset)
  unfolding finish_rsi emulate_stage2_data_abort update_regs
  finish_rsi-leaves m m' res ret i e = (
    ground arith,
    ground arith,
    ground arith,
    ground arith,
    ground arith,
    ground arith,
    ground arith,
    ground arith,
    ground arith,
    ground arith,
    ground arith,
  )
