-- ===== src/Rmm/Exit/Laws/Hidden.antt =====
-- What an exit does not tell the host.
use tetd_test.Base.{ℕ, ◌≡◌, refl, sym, ◌∙◌, none, some, true, false, arith, bit_and, ◌⊎◌, inl, inr}
use tetd_test.Rmm.Block.{not_64}
use tetd_test.Rmm.Exit.{
  Handled, rmi_exit_sync, rmi_exit_serror, Machine, Arch, Env, Exception, sync_lel, irq_lel,
  fiq_lel, serror_lel, unrecognized,
}
use tetd_test.Rmm.Exit.Aborts.{
  handle_sync_external_abort, handle_data_abort, data_abort_to_host, fixup_aarch32_data_abort,
  get_dabt_write_value, ipa_is_empty, fault_ipa, handle_instruction_abort,
  instruction_abort_to_host, handle_exception_serror_lel,
}
use tetd_test.Rmm.Exit.Handle.{
  handle_realm_exit, handle_exception_sync, handle_simd_exception, switch_simd, record_run,
  report_reason,
}
use tetd_test.Rmm.Exit.Laws.{told, is_request}

module _ (a : Arch) (env : Env) where
  -- The same exit with other registers of the realm and another fault address.
  abbrev pub with_regs : (ℕ → ℕ) → Machine → Machine
  with_regs regs m = record m { rec = record m.rec { regs = regs } }

  -- What the reported access reads of these: nothing, or no more than the host may see.
  abbrev pub Seen : (regs regs' : ℕ → ℕ) (far : ℕ) → Type 0
  Seen regs regs' far =
      (env.addr_in_rec_par (fault_ipa a env) ≡ true)
      ⊎ ((regs' (env.esr_srt env.esr) ≡ regs (env.esr_srt env.esr))
          × (bit_and far (not_64 a.granule_mask) ≡ bit_and env.far (not_64 a.granule_mask)))

  ipa_is_empty-far :
      (far ipa : ℕ) → ipa_is_empty a (record env { far = far }) ipa ≡ ipa_is_empty a env ipa
  unfolding ipa_is_empty
  ipa_is_empty-far far ipa = refl

  data_abort_to_host-hides :
      (m : Machine) (regs : ℕ → ℕ) (far : ℕ)
      → Seen m.rec.regs regs far
      → told (data_abort_to_host a (record env { far = far }) (with_regs regs m) env.esr)
        ≡ told (data_abort_to_host a env m env.esr)
  unfolding data_abort_to_host fixup_aarch32_data_abort get_dabt_write_value
  data_abort_to_host-hides m regs far (inl par) = ground arith
  data_abort_to_host-hides m regs far (inr same) = ground arith

  handle_data_abort-hides :
      (m : Machine) (regs : ℕ → ℕ) (far : ℕ)
      → Seen m.rec.regs regs far
      → told (handle_data_abort a (record env { far = far }) (with_regs regs m) env.esr)
        ≡ told (handle_data_abort a env m env.esr)
  unfolding handle_data_abort handle_sync_external_abort
  handle_data_abort-hides m regs far s =
      ground (arith, data_abort_to_host-hides m regs far s, ipa_is_empty-far far (fault_ipa a env))

  handle_instruction_abort-hides :
      (m : Machine) (regs : ℕ → ℕ) (far : ℕ)
      → told (handle_instruction_abort a (record env { far = far }) (with_regs regs m) env.esr)
        ≡ told (handle_instruction_abort a env m env.esr)
  unfolding handle_instruction_abort handle_sync_external_abort instruction_abort_to_host
  handle_instruction_abort-hides m regs far = ground (arith, ipa_is_empty-far far (fault_ipa a env))

  handle_simd_exception-hides :
      (m : Machine) (regs : ℕ → ℕ) (far : ℕ)
      → told (handle_simd_exception a (record env { far = far }) (with_regs regs m) env.esr)
        ≡ told (handle_simd_exception a env m env.esr)
  unfolding handle_simd_exception switch_simd
  handle_simd_exception-hides m regs far = ground arith

  handle_exception_sync-hides :
      (m : Machine) (regs : ℕ → ℕ) (far : ℕ)
      → is_request a env sync_lel ≡ false
      → Seen m.rec.regs regs far
      → told (handle_exception_sync a (record env { far = far }) (with_regs regs m))
        ≡ told (handle_exception_sync a env m)
  unfolding handle_exception_sync
  handle_exception_sync-hides m regs far q s = ground (
    arith,
    handle_data_abort-hides m regs far s,
    handle_instruction_abort-hides m regs far,
    handle_simd_exception-hides m regs far,
  )

  told-record_run : (h : Handled) → told (record_run a env h) ≡ told h
  unfolding record_run
  told-record_run none = refl
  told-record_run (some (true, m)) = refl
  told-record_run (some (false, m)) = refl

  serror-hides :
      (m : Machine) (regs : ℕ → ℕ) (far : ℕ)
      → told (handle_exception_serror_lel a (record env { far = far }) (with_regs regs m))
        ≡ told (handle_exception_serror_lel a env m)
  unfolding handle_exception_serror_lel
  serror-hides m regs far = ground arith

module _ (a : Arch) (env : Env) where
  -- What `handle_realm_exit` tells the host does not depend on the registers of the realm nor on
  -- the fault address, for an exit that is neither a call of the realm nor its access to a system
  -- register, in protected memory. Elsewhere it depends on no more than the register that the
  -- syndrome names and the granule of the fault address.
  pub handle_realm_exit-hides :
      (m : Machine) (e : Exception) (regs : ℕ → ℕ) (far : ℕ)
      → is_request a env e ≡ false
      → Seen a env m.rec.regs regs far
      → told (handle_realm_exit a (record env { far = far }) (with_regs a env regs m) e)
        ≡ told (handle_realm_exit a env m e)
  unfolding handle_realm_exit
  handle_realm_exit-hides m sync_lel regs far q s =
      told-record_run a (record env { far = far }) _
      ∙ handle_exception_sync-hides a env (report_reason rmi_exit_sync m) regs far q s
      ∙ sym (told-record_run a env _)
  handle_realm_exit-hides m serror_lel regs far q s =
      told-record_run a (record env { far = far }) _
      ∙ serror-hides a env (report_reason rmi_exit_serror m) regs far
      ∙ sym (told-record_run a env _)
  handle_realm_exit-hides m irq_lel regs far q s = refl
  handle_realm_exit-hides m fiq_lel regs far q s = refl
  handle_realm_exit-hides m unrecognized regs far q s = refl
