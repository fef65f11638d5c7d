-- ===== src/Rmm/Exit.antt =====
-- tetd_cca/rmm/runtime/core/exit.c: what the monitor does when a processor leaves a realm. Here: the
-- state that it works on, and what it uses of the machine and of the rest of the monitor.
pub mod Aborts
pub mod Rsi
pub mod Handle
pub mod Laws
use tetd_test.Base.{ℕ, ◌+◌, ◌%◌, ◌^◌, Bool, List, ◌∷◌, Option}
use tetd_test.Rmm.Interface.{Ripas}
use tetd_test.Rmm.Outcome.{Res}

-- `RMI_EXIT_*`, as far as exit.c sets them.
abbrev pub rmi_exit_sync : ℕ
rmi_exit_sync = 0

abbrev pub rmi_exit_irq : ℕ
rmi_exit_irq = 1

abbrev pub rmi_exit_fiq : ℕ
rmi_exit_fiq = 2

abbrev pub rmi_exit_serror : ℕ
rmi_exit_serror = 6

-- `ARM_EXCEPTION_*_LEL`, and any other number.
pub data Exception : Type 0 where
  sync_lel irq_lel fiq_lel serror_lel unrecognized : Exception

-- `struct rec`: the members that exit.c works on. The SIMD contexts stand for their addresses.
pub record RealmRec : Type 0 where
  pub regs : ℕ → ℕ
  pub sve_en : Bool
  pub active_simd_ctx : ℕ
  pub simd_ctx : ℕ
  -- Whether `SIMD_ENABLE_CPTR_FLAGS` was applied to `cptr_el2`.
  pub simd_enabled : Bool
  -- `last_run_info`
  pub last_esr : ℕ
  pub last_far : ℕ
  pub last_hpfar : ℕ

-- `struct rmi_rec_exit`: the members that exit.c writes.
pub record RecExit : Type 0 where
  pub exit_reason : ℕ
  pub esr : ℕ
  pub far : ℕ
  pub hpfar : ℕ
  pub gprs : ℕ → ℕ

-- The exceptions that are injected into the realm.
pub data Injection : Type 0 where
  sync_idabort : (fsc : ℕ) → Injection
  undef_abort : Injection
  serror : (esr : ℕ) → Injection

-- The state of a function of exit.c, with the program counter of the realm.
pub record Machine : Type 0 where
  pub rec : RealmRec
  pub rec_exit : RecExit
  pub elr : ℕ
  pub injected : List Injection

-- `struct rsi_result`, with the three flags of its action.
pub record RsiResult : Type 0 where
  pub update_rec : Bool
  pub stage_2_abort : Bool
  pub exit_to_host : Bool
  pub rtt_level : ℕ
  pub smc_res : Res

-- The constants of the architecture headers. A field with a name of `MASK(...)` is that mask.
pub record Arch : Type 0 where
  pub page_level : ℕ
  pub granule_mask : ℕ
  pub nrw_aarch32 : ℕ
  pub isv_bit : ℕ
  pub mask_fipa : ℕ
  pub fipa_offset : ℕ
  pub nonemulated_abort_mask : ℕ
  pub emulated_abort_mask : ℕ
  -- `ESR_EL2_ABORT_FSC*`
  pub mask_fsc : ℕ
  pub mask_fsc_level : ℕ
  pub fsc_sea : ℕ
  pub fsc_sea_ttw_start : ℕ
  pub fsc_sea_ttw_end : ℕ
  pub fsc_translation_fault : ℕ
  pub fsc_translation_fault_l0 : ℕ
  -- `ESR_EL2_ABORT_SET*`
  pub mask_set : ℕ
  pub set_uer : ℕ
  pub set_ueo : ℕ
  pub set_uc : ℕ
  -- `ESR_EL2_EC*`
  pub mask_ec : ℕ
  pub ec_wfx : ℕ
  pub ec_hvc : ℕ
  pub ec_smc : ℕ
  pub ec_sysreg : ℕ
  pub ec_inst_abort : ℕ
  pub ec_data_abort : ℕ
  pub ec_fpu : ℕ
  pub ec_sve : ℕ
  pub ec_sme : ℕ
  pub wfx_ti_bit : ℕ
  -- `ESR_EL2_SERROR*`
  pub ids_bit : ℕ
  pub mask_dfsc : ℕ
  pub dfsc_async : ℕ
  pub mask_aet : ℕ
  pub aet_ueu : ℕ
  pub aet_uer : ℕ
  pub aet_ce : ℕ
  pub aet_ueo : ℕ
  pub aet_uc : ℕ
  pub serror_mask : ℕ
  -- The function identifiers of smc-rsi.h and psci.h.
  pub psci32_min : ℕ
  pub psci32_max : ℕ
  pub psci64_min : ℕ
  pub psci64_max : ℕ
  pub rsi_version : ℕ
  pub rsi_features : ℕ
  pub rsi_attest_token_init : ℕ
  pub rsi_attest_token_continue : ℕ
  pub rsi_measurement_read : ℕ
  pub rsi_measurement_extend : ℕ
  pub rsi_realm_config : ℕ
  pub rsi_ipa_state_set : ℕ
  pub rsi_ipa_state_get : ℕ
  pub rsi_host_call : ℕ

-- The system registers that are read, and the functions of the rest of the monitor.
pub record Env : Type 0 where
  pub esr : ℕ
  pub spsr : ℕ
  pub hpfar : ℕ
  pub far : ℕ
  pub granule_aligned : ℕ → Bool
  -- `realm_ipa_to_pa`: the RIPAS, or `WALK_INVALID_PARAMS`.
  pub ipa_ripas : ℕ → Option Ripas
  pub addr_in_rec_par : ℕ → Bool
  pub esr_is_write : ℕ → Bool
  pub esr_srt : ℕ → ℕ
  pub access_mask : ℕ → ℕ
  pub simd_context_switch : ℕ → ℕ → ℕ
  pub handle_sysreg_access_trap : Machine → ℕ → Option (Bool × Machine)
  -- The handlers that take the REC and its exit, and those that take the REC alone.
  pub handle_psci : Machine → RsiResult → Machine × RsiResult
  pub handle_rsi_attest_token_continue : Machine → RsiResult → Machine × RsiResult
  pub handle_rsi_ipa_state_set : Machine → RsiResult → Machine × RsiResult
  pub handle_rsi_host_call : Machine → RsiResult → Machine × RsiResult
  pub handle_rsi_version : RealmRec → RsiResult → RealmRec × RsiResult
  pub handle_rsi_features : RealmRec → RsiResult → RealmRec × RsiResult
  pub handle_rsi_attest_token_init : RealmRec → RsiResult → RealmRec × RsiResult
  pub handle_rsi_measurement_read : RealmRec → RsiResult → RealmRec × RsiResult
  pub handle_rsi_measurement_extend : RealmRec → RsiResult → RealmRec × RsiResult
  pub handle_rsi_realm_config : RealmRec → RsiResult → RealmRec × RsiResult
  pub handle_rsi_ipa_state_get : RealmRec → RsiResult → RealmRec × RsiResult

abbrev pub inject : Injection → Machine → Machine
inject i m = record m { injected = i ∷ m.injected }

-- `rec_exit->esr = esr`
abbrev pub report_esr : ℕ → Machine → Machine
report_esr e m = record m { rec_exit = record m.rec_exit { esr = e } }

-- `advance_pc`
abbrev pub advance_pc : Machine → Machine
advance_pc m = record m { elr = (m.elr + 4) % 2 ^ 64 }

-- What a function that handles an exit returns with the state; `none` is an assertion that fails.
abbrev pub Handled : Type 0
Handled = Option (Bool × Machine)
