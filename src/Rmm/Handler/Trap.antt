-- ===== src/Rmm/Handler/Trap.antt =====
-- `handle_rmm_trap`: the aborts of the monitor itself that it recovers from.
use tetd_test.Base.{
  ℕ, ◌≡◌, Bool, true, false, ◌==◌, if◌then◌else◌, bit_and, List, [], ◌∷◌, Option, none, some, arith,
}

-- `struct rmm_trap_element`
pub record TrapElement : Type 0 where
  pub aborted_pc : ℕ
  pub new_pc : ℕ

-- The loop of `handle_rmm_trap`
unfoldable pub find_trap : List TrapElement → (elr : ℕ) → Option ℕ
find_trap [] elr = none
find_trap (t ∷ ts) elr =
    let rest = find_trap ts elr in if t.aborted_pc == elr then some t.new_pc else rest

-- The masks and values of the architecture, and the addresses of the labels.
module _ (mask_ec ec_data_abort_sel mask_fsc fsc_gpf ns_read ns_write ns_access_ret_0 : ℕ) where
  -- `rmm_trap_list`
  abbrev pub rmm_trap_list : List TrapElement
  rmm_trap_list =
      record { aborted_pc = ns_read; new_pc = ns_access_ret_0 }
      ∷ record { aborted_pc = ns_write; new_pc = ns_access_ret_0 }
      ∷ []

  -- `is_el2_data_abort_gpf`
  unfoldable pub is_el2_data_abort_gpf : (esr : ℕ) → Bool
  is_el2_data_abort_gpf esr =
      if bit_and esr mask_ec == ec_data_abort_sel then bit_and esr mask_fsc == fsc_gpf else false

  -- `handle_rmm_trap`: the new program counter; `none` is `fatal_abort`, which does not return.
  unfoldable pub handle_rmm_trap : (esr elr : ℕ) → Option ℕ
  handle_rmm_trap esr elr = if is_el2_data_abort_gpf esr then find_trap rmm_trap_list elr else none

  -- The monitor goes on at `ns_access_ret_0` after a granule protection fault of one of its two
  -- accesses to the memory of the host, and after no other abort.
  handle_rmm_trap-recovers :
      (esr elr : ℕ)
      → handle_rmm_trap esr elr ≡ (
          if (if is_el2_data_abort_gpf esr
            then if ns_read == elr then true else ns_write == elr
            else false)
          then some ns_access_ret_0
          else none)
  unfolding handle_rmm_trap find_trap
  handle_rmm_trap-recovers esr elr = ground arith
