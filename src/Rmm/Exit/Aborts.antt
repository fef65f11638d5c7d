-- ===== src/Rmm/Exit/Aborts.antt =====
-- The aborts: external, data, and instruction aborts, and SError.
use tetd_test.Base.{
  ℕ, ◌+◌, ◌*◌, ◌/◌, ◌%◌, ◌^◌, Bool, true, false, not, leb, ◌==◌, if◌then◌else◌, bit_and, bit_or,
  Option, none, some,
}
use tetd_test.Rmm.Interface.{ripas_empty}
use tetd_test.Rmm.Block.{not_64}
use tetd_test.Rmm.Exit.{
  RealmRec, Machine, Arch, Env, Handled, sync_idabort, serror, inject, report_esr, rmi_exit_sync,
}

module _ (a : Arch) where
  -- `fsc_is_external_abort`
  unfoldable pub fsc_is_external_abort : ℕ → Bool
  fsc_is_external_abort fsc =
      if fsc == a.fsc_sea
      then true
      else if leb a.fsc_sea_ttw_start fsc
      then leb fsc a.fsc_sea_ttw_end
      else false

  -- `handle_sync_external_abort`; `system_abort` is an assertion that fails.
  unfoldable pub handle_sync_external_abort : Machine → (esr : ℕ) → Handled
  handle_sync_external_abort m esr =
      let fsc = bit_and esr a.mask_fsc in
      let set = bit_and esr a.mask_set in
      let report : (Machine → Handled) =
        λ m. some (true, report_esr (bit_and esr a.nonemulated_abort_mask) m) in
      if fsc_is_external_abort fsc
      then if set == a.set_uer
        then report (inject (sync_idabort a.fsc_sea) m)
        else if set == a.set_ueo
        then report m
        else none
      else some (false, m)

  -- `emulate_stage2_data_abort`
  unfoldable pub emulate_stage2_data_abort : Machine → (rtt_level : ℕ) → Option Machine
  emulate_stage2_data_abort m rtt_level =
      if leb rtt_level a.page_level
      then some (record m {
        rec_exit = record m.rec_exit {
          esr = bit_or a.ec_data_abort ((a.fsc_translation_fault_l0 + rtt_level) % 2 ^ 64);
          far = 0;
          hpfar = m.rec.regs 1 / 2 ^ a.fipa_offset;
          exit_reason = rmi_exit_sync;
        };
      })
      else none

  module _ (env : Env) where
    -- `fixup_aarch32_data_abort`: whether the access is of AArch32, and the syndrome.
    abbrev pub is_aarch32 : Bool
    is_aarch32 = not (bit_and env.spsr a.nrw_aarch32 == 0)

    unfoldable pub fixup_aarch32_data_abort : (esr : ℕ) → Bool × ℕ
    fixup_aarch32_data_abort esr =
        if is_aarch32 then (true, bit_and esr (not_64 a.isv_bit)) else (false, esr)

    -- `get_dabt_write_value`
    unfoldable pub get_dabt_write_value : RealmRec → (esr : ℕ) → ℕ
    get_dabt_write_value rec esr =
        let rt = env.esr_srt esr in
        if rt == 31 then 0 else bit_and (rec.regs rt) (env.access_mask esr)

    -- `ipa_is_empty`
    unfoldable pub ipa_is_empty : (ipa : ℕ) → Option Bool
    ipa_is_empty ipa =
        if env.granule_aligned ipa
        then elim (env.ipa_ripas ipa) [ some ripas_empty ↦ some true | _ ↦ some false ]
        else none

    -- `(hpfar & MASK(HPFAR_EL2_FIPA)) << HPFAR_EL2_FIPA_OFFSET`
    abbrev pub fault_ipa : ℕ
    fault_ipa = bit_and env.hpfar a.mask_fipa * 2 ^ a.fipa_offset % 2 ^ 64

    -- `handle_data_abort` from label `end` on.
    abbrev pub report_data_abort : Machine → (esr far write_val : ℕ) → Handled
    report_data_abort m esr far write_val = some (
      false,
      record m {
        rec_exit = record m.rec_exit {
          esr = esr;
          far = far;
          hpfar = env.hpfar;
          gprs = λ i. if i == 0 then write_val else m.rec_exit.gprs i;
        };
      },
    )

    -- `handle_data_abort` for an abort that is not external, from `fixup_aarch32_data_abort` on.
    unfoldable pub data_abort_to_host : Machine → (esr : ℕ) → Handled
    data_abort_to_host m esr =
        let (fixed, esr') = fixup_aarch32_data_abort esr in
        let write_val = if env.esr_is_write esr' then get_dabt_write_value m.rec esr' else 0 in
        if fixed
        then report_data_abort m (bit_and esr' a.nonemulated_abort_mask) 0 0
        else if env.addr_in_rec_par fault_ipa
        then report_data_abort m (bit_and esr' a.nonemulated_abort_mask) 0 0
        else report_data_abort m (bit_and esr' a.emulated_abort_mask)
            (bit_and env.far (not_64 a.granule_mask)) write_val

    -- `handle_data_abort`
    unfoldable pub handle_data_abort : Machine → (esr : ℕ) → Handled
    handle_data_abort m esr = elim (handle_sync_external_abort m esr) [
      | none ↦ none
      | some (true, m') ↦ some (false, m')
      | some (false, m') ↦ elim (ipa_is_empty fault_ipa) [
        | none ↦ none
        | some true ↦ some (true, inject (sync_idabort a.fsc_sea) m')
        | some false ↦ data_abort_to_host m' esr
      ]
    ]

    -- `handle_instruction_abort` for an abort that goes to the host.
    unfoldable pub instruction_abort_to_host : Machine → (esr : ℕ) → Handled
    instruction_abort_to_host m esr =
        let fsc_type = bit_and (bit_and esr a.mask_fsc) (not_64 a.mask_fsc_level) in
        if fsc_type == a.fsc_translation_fault
        then some (
          false,
          record m {
            rec_exit = record m.rec_exit {
              hpfar = env.hpfar;
              esr = bit_and esr a.nonemulated_abort_mask;
            };
          },
        )
        else some (false, m)

    -- `handle_instruction_abort`
    unfoldable pub handle_instruction_abort : Machine → (esr : ℕ) → Handled
    handle_instruction_abort m esr = elim (handle_sync_external_abort m esr) [
      | none ↦ none
      | some (true, m') ↦ some (false, m')
      | some (false, m') ↦
          if env.addr_in_rec_par fault_ipa
          then elim (ipa_is_empty fault_ipa) [
            | none ↦ none
            | some true ↦ some (true, inject (sync_idabort a.fsc_sea) m')
            | some false ↦ instruction_abort_to_host m' esr
          ]
          else some (true, inject (sync_idabort a.fsc_sea) m')
    ]

    -- `handle_exception_serror_lel`
    unfoldable pub handle_exception_serror_lel : Machine → Handled
    handle_exception_serror_lel m =
        let esr = env.esr in
        let aet = bit_and esr a.mask_aet in
        let report : (Machine → Handled) =
          λ m. some (false, report_esr (bit_and esr a.serror_mask) m) in
        if not (bit_and esr a.ids_bit == 0)
        then none
        else if not (bit_and esr a.mask_dfsc == a.dfsc_async)
        then none
        else if aet == a.aet_ueu
        then report (inject (serror esr) m)
        else if aet == a.aet_uer
        then report (inject (serror esr) m)
        else if aet == a.aet_ce
        then report m
        else if aet == a.aet_ueo
        then report m
        else none
