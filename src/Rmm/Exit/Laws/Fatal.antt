-- ===== src/Rmm/Exit/Laws/Fatal.antt =====
-- When an exit runs into a failing assertion.
use tetd_test.Base.{Bool, true, false, not, ◌==◌, if◌then◌else◌, bit_and, none, some}
use tetd_test.Rmm.Exit.{Machine, Arch, Env, Handled, Exception, sync_lel, serror_lel}
use tetd_test.Rmm.Exit.Aborts.{fsc_is_external_abort}
use tetd_test.Rmm.Exit.Laws.{class, either, both}

abbrev pub fails : Handled → Bool
fails none = true
fails (some r) = false

module _ (a : Arch) (env : Env) where
  -- An external abort that is neither recoverable nor restartable.
  abbrev pub is_lost_abort : Bool
  is_lost_abort = both (fsc_is_external_abort a (bit_and env.esr a.mask_fsc)) (
      not (
        either (bit_and env.esr a.mask_set == a.set_uer) (bit_and env.esr a.mask_set == a.set_ueo)))

  -- An access to SIMD registers by a realm whose own SIMD context is in place, other than one that
  -- is undefined in the realm.
  abbrev pub is_second_switch : Machine → Bool
  is_second_switch m =
      both (m.rec.active_simd_ctx == m.rec.simd_ctx)
        (not (either (class a env == a.ec_sme) (both (class a env == a.ec_sve) (not m.rec.sve_en))))

  -- An SError that is not of a known and contained kind.
  abbrev pub is_lost_serror : Bool
  is_lost_serror =
      let aet = bit_and env.esr a.mask_aet in
      either (not (bit_and env.esr a.ids_bit == 0)) (
        either (not (bit_and env.esr a.mask_dfsc == a.dfsc_async)) (
          not (
            either (either (aet == a.aet_ueu) (aet == a.aet_uer))
              (either (aet == a.aet_ce) (aet == a.aet_ueo)))))

  abbrev pub is_fatal : Machine → Exception → Bool
  is_fatal m sync_lel =
      if either (class a env == a.ec_wfx) (class a env == a.ec_hvc)
      then false
      else if either (class a env == a.ec_inst_abort) (class a env == a.ec_data_abort)
      then is_lost_abort
      else if either (class a env == a.ec_fpu)
          (either (class a env == a.ec_sve) (class a env == a.ec_sme))
      then is_second_switch m
      else false
  is_fatal m serror_lel = is_lost_serror
  is_fatal m _ = false
