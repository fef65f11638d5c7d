-- ===== src/Rmm/Handler.antt =====
-- tetd_cca/rmm/runtime/core/handler.c: the call of the host by its function identifier.
pub mod Slots
pub mod Dispatch
pub mod Known
pub mod Trap
use tetd_test.Base.{
  ℕ, ◌+◌, ◌-◌, ◌*◌, ◌^◌, Bool, true, false, not, ltb, leb, ◌==◌, if◌then◌else◌, bit_and, List, [],
  ◌∷◌, Option, none, some, get_or,
}
use tetd_test.Rmm.Interface.{Layer, World}
use tetd_test.Rmm.Outcome.{
  Slot, slot_index, Event, Outcome, done, panic, ◌▷◌, map_buffer, unmap_buffer, Res,
}
use tetd_test.Rmm.Structure.{smc_rtt_create, smc_rtt_fold, smc_rtt_destroy}
use tetd_test.Rmm.Unprotected.{
  smc_rtt_map_unprotected, smc_rtt_unmap_unprotected, smc_rtt_read_entry,
}
use tetd_test.Rmm.Data.{smc_data_create, smc_data_create_unknown, smc_data_destroy}
use tetd_test.Rmm.Ripas.{smc_rtt_init_ripas, smc_rtt_set_ripas}
use tetd_test.Rmm.Block.{smc_ipa_block, smc_ipa_unblock}

-- `SMC_SVE_HINT`, `SMC64_RMI_FNUM_MIN`, `SMC64_RMI_FNUM_MAX` and `SMC_UNKNOWN`.
abbrev pub smc_sve_hint : ℕ
smc_sve_hint = 2 ^ 16

abbrev pub rmi_fnum_min : ℕ
rmi_fnum_min = 336

abbrev pub rmi_fnum_max : ℕ
rmi_fnum_max = 363

abbrev pub smc_unknown : ℕ
smc_unknown = 2 ^ 64 - 1

-- `~x` of an `unsigned int`
abbrev pub not_32 : ℕ → ℕ
not_32 x = 2 ^ 32 - 1 - x

-- `SMC_GET_FIELD(fid, FNUM)`
abbrev pub function_number : ℕ → ℕ
function_number fid = bit_and fid (2 ^ 16 - 1)

-- `IS_SMC64_FID_STD_FAST`
abbrev pub is_std_fast : ℕ → Bool
is_std_fast fid = bit_and fid (not_32 (2 ^ 16 - 1)) == 2 ^ 30 + 2 ^ 31 + 4 * 2 ^ 24

-- `IS_SMC64_RMI_FID`
abbrev pub is_rmi_fid : ℕ → Bool
is_rmi_fid fid =
    if is_std_fast fid
    then if leb rmi_fnum_min (function_number fid)
      then leb (function_number fid) rmi_fnum_max
      else false
    else false

-- `SMC64_RMI_FID`
abbrev pub rmi_fid : (offset : ℕ) → ℕ
rmi_fid offset = 2 ^ 30 + 2 ^ 31 + 4 * 2 ^ 24 + rmi_fnum_min + offset

-- `RMI_HANDLER_ID`
abbrev pub rmi_handler_id : ℕ → ℕ
rmi_handler_id fid = function_number fid - rmi_fnum_min

-- `struct smc_handler`: the function with its type.
pub data Handler : Type 0 where
  f_00 : Outcome ℕ → Handler
  f_10 : (ℕ → Outcome ℕ) → Handler
  f_20 : (ℕ → ℕ → Outcome ℕ) → Handler
  f_30 : (ℕ → ℕ → ℕ → Outcome ℕ) → Handler
  f_40 : (ℕ → ℕ → ℕ → ℕ → Outcome ℕ) → Handler
  f_50 : (ℕ → ℕ → ℕ → ℕ → ℕ → Outcome ℕ) → Handler
  f_11 : (ℕ → Res → Outcome Res) → Handler
  f_12 : (ℕ → Res → Outcome Res) → Handler
  f_22 : (ℕ → ℕ → Res → Outcome Res) → Handler
  f_31 : (ℕ → ℕ → ℕ → Res → Outcome Res) → Handler
  f_32 : (ℕ → ℕ → ℕ → Res → Outcome Res) → Handler
  f_34 : (ℕ → ℕ → ℕ → Res → Outcome Res) → Handler
  f_41 : (ℕ → ℕ → ℕ → ℕ → Res → Outcome Res) → Handler

-- The handlers whose code is not in the repository.
pub record Others : Type 0 where
  pub smc_version : ℕ → Res → Outcome Res
  pub smc_read_feature_register : ℕ → Res → Outcome Res
  pub smc_granule_delegate : ℕ → Outcome ℕ
  pub smc_granule_undelegate : ℕ → Outcome ℕ
  pub smc_realm_create : ℕ → ℕ → Outcome ℕ
  pub smc_realm_destroy : ℕ → Outcome ℕ
  pub smc_realm_activate : ℕ → Outcome ℕ
  pub smc_rec_create : ℕ → ℕ → ℕ → Outcome ℕ
  pub smc_rec_destroy : ℕ → Outcome ℕ
  pub smc_rec_enter : ℕ → ℕ → Outcome ℕ
  pub smc_psci_complete : ℕ → ℕ → ℕ → Outcome ℕ
  pub smc_rec_aux_count : ℕ → Res → Outcome Res

module _ (l : Layer) (w : World) (others : Others) where
  -- `smc_handlers`, in the order of the identifiers.
  abbrev pub smc_handlers : List (Option Handler)
  smc_handlers =
      some (f_12 others.smc_version)
      ∷ some (f_10 others.smc_granule_delegate)
      ∷ some (f_10 others.smc_granule_undelegate)
      ∷ some (f_50 (smc_data_create l w))
      ∷ some (f_30 (smc_data_create_unknown l w))
      ∷ some (f_22 (smc_data_destroy l w))
      ∷ none
      ∷ some (f_10 others.smc_realm_activate)
      ∷ some (f_20 others.smc_realm_create)
      ∷ some (f_10 others.smc_realm_destroy)
      ∷ some (f_30 others.smc_rec_create)
      ∷ some (f_10 others.smc_rec_destroy)
      ∷ some (f_20 others.smc_rec_enter)
      ∷ some (f_40 (smc_rtt_create l w))
      ∷ some (f_32 (smc_rtt_destroy l w))
      ∷ some (f_40 (smc_rtt_map_unprotected l w))
      ∷ none
      ∷ some (f_34 (smc_rtt_read_entry l w))
      ∷ some (f_31 (smc_rtt_unmap_unprotected l w))
      ∷ none
      ∷ some (f_30 others.smc_psci_complete)
      ∷ some (f_11 others.smc_read_feature_register)
      ∷ some (f_31 (smc_rtt_fold l w))
      ∷ some (f_11 others.smc_rec_aux_count)
      ∷ some (f_31 (smc_rtt_init_ripas l w))
      ∷ some (f_41 (smc_rtt_set_ripas l w))
      ∷ some (f_20 (smc_ipa_block l w))
      ∷ some (f_20 (smc_ipa_unblock l w))
      ∷ []

  -- The handler of a function identifier.
  unfoldable pub handler_of : (function_id : ℕ) → Option Handler
  handler_of fid = if is_rmi_fid fid then get_or (smc_handlers) (rmi_handler_id fid) none else none

-- `res->x[0] = ...`
unfoldable pub set_x0 : Res → Outcome ℕ → Outcome Res
set_x0 res (done ret) = done (record res { x0 = ret })
set_x0 res panic = panic
set_x0 res (e ▷ o) = e ▷ set_x0 res o

-- The switch on the type of the handler.
unfoldable pub run_handler : Handler → (arg0 arg1 arg2 arg3 arg4 : ℕ) → Res → Outcome Res
run_handler (f_00 f) a0 a1 a2 a3 a4 res = set_x0 res f
run_handler (f_10 f) a0 a1 a2 a3 a4 res = set_x0 res (f a0)
run_handler (f_20 f) a0 a1 a2 a3 a4 res = set_x0 res (f a0 a1)
run_handler (f_30 f) a0 a1 a2 a3 a4 res = set_x0 res (f a0 a1 a2)
run_handler (f_40 f) a0 a1 a2 a3 a4 res = set_x0 res (f a0 a1 a2 a3)
run_handler (f_50 f) a0 a1 a2 a3 a4 res = set_x0 res (f a0 a1 a2 a3 a4)
run_handler (f_11 f) a0 a1 a2 a3 a4 res = f a0 res
run_handler (f_12 f) a0 a1 a2 a3 a4 res = f a0 res
run_handler (f_22 f) a0 a1 a2 a3 a4 res = f a0 a1 res
run_handler (f_31 f) a0 a1 a2 a3 a4 res = f a0 a1 a2 res
run_handler (f_32 f) a0 a1 a2 a3 a4 res = f a0 a1 a2 res
run_handler (f_34 f) a0 a1 a2 a3 a4 res = f a0 a1 a2 res
run_handler (f_41 f) a0 a1 a2 a3 a4 res = f a0 a1 a2 a3 res

-- The buffer slots of the processor that are in use, after a buffer is unmapped.
abbrev pub without_slot : Slot → List Slot → List Slot
without_slot s [] = []
without_slot s (t ∷ ts) = if slot_index s == slot_index t then ts else t ∷ without_slot s ts

abbrev pub slots_after : Event → List Slot → List Slot
slots_after (map_buffer s h) ss = s ∷ ss
slots_after (unmap_buffer s) ss = without_slot s ss
slots_after _ ss = ss

-- `assert(check_cpu_slots_empty())` where a call returns, with the slots in use.
unfoldable pub check_slots : List Slot → Outcome Res → Outcome Res
check_slots [] (done res) = done res
check_slots (s ∷ ss) (done res) = panic
check_slots ss panic = panic
check_slots ss (e ▷ o) = e ▷ check_slots (slots_after e ss) o

-- The answer to the host: an unknown function, or a call, with the SVE hint that is passed on and
-- whether the SIMD state of the host is saved before the call and restored after it.
pub data Answer : Type 0 where
  unknown : Res → Answer
  handled : (sve_hint simd_saved : Bool) → Outcome Res → Answer

-- `rmi_handler_needs_fpu`, with or without `RMM_FPU_USE_AT_REL2`.
abbrev pub rmi_handler_needs_fpu : (use_at_rel2 : Bool) (function_id : ℕ) → Bool
rmi_handler_needs_fpu use_at_rel2 id =
    if use_at_rel2
    then if id == rmi_fid 8
      then true
      else if id == rmi_fid 3
      then true
      else if id == rmi_fid 10
      then true
      else id == rmi_fid 24
    else false

module _ (l : Layer) (w : World) (others : Others) (use_at_rel2 : Bool) where
  -- `handle_ns_smc` with the handler that is found, if there is one.
  unfoldable pub call_handler :
      Option Handler → (sve_hint : Bool) (function_id arg0 arg1 arg2 arg3 arg4 : ℕ) → Res → Answer
  call_handler none sve_hint fid arg0 arg1 arg2 arg3 arg4 res =
      unknown (record res { x0 = smc_unknown })
  call_handler (some h) sve_hint fid arg0 arg1 arg2 arg3 arg4 res =
      handled sve_hint (rmi_handler_needs_fpu use_at_rel2 fid)
        (check_slots [] (run_handler h arg0 arg1 arg2 arg3 arg4 res))

  -- `handle_ns_smc`, on a processor whose slots are empty and whose SIMD state is not saved.
  unfoldable pub handle_ns_smc : (function_id arg0 arg1 arg2 arg3 arg4 : ℕ) → Res → Answer
  handle_ns_smc function_id arg0 arg1 arg2 arg3 arg4 res =
      let sve_hint = not (bit_and function_id smc_sve_hint == 0) in
      let fid = if sve_hint then bit_and function_id (not_32 smc_sve_hint) else function_id in
      call_handler (handler_of l w others fid) sve_hint fid arg0 arg1 arg2 arg3 arg4 res
