-- ===== src/Rmm/Outcome.antt =====
-- The course of a call: what it does to the rest of the monitor, in order, and what it returns.
use tetd_test.Base.{ℕ, Option, none, some}
use tetd_test.Rmm.Interface.{GranuleState, Table, update}

-- The variables of rtt.c that hold a granule, and the buffer slots.
pub data Handle : Type 0 where
  g_rd g_tbl g_table_root g_llt g_data g_rec : Handle

pub data Slot : Type 0 where
  slot_rd slot_rtt slot_rtt2 slot_delegated slot_rec : Slot

abbrev pub slot_index : Slot → ℕ
slot_index slot_rd = 0
slot_index slot_rtt = 1
slot_index slot_rtt2 = 2
slot_index slot_delegated = 3
slot_index slot_rec = 4

-- `s2tt_init_*`: what a new table is filled with.
pub data Fill : Type 0 where
  unassigned_empty unassigned_ram unassigned_ns unassigned_destroyed : Fill
  assigned_empty assigned_ram assigned_destroyed : (pa level : ℕ) → Fill
  assigned_ns : (s2tte pa level : ℕ) → Fill

pub data Event : Type 0 where
  -- A granule is locked by `find_lock_granule` or `granule_lock`, and unlocked.
  lock : Handle → ℕ → Event
  unlock : Handle → Event
  -- `rtt_walk_lock_unlock` releases the root and returns with the table at this address locked.
  walk_to : ℕ → Event
  -- `granule_map` and `buffer_unmap`
  map_buffer : Slot → Handle → Event
  unmap_buffer : Slot → Event
  -- `s2tte_write` to the table of the walk: 0, or an entry.
  clear_entry : ℕ → Event
  write_entry : ℕ → ℕ → Event
  invalidate_page : ℕ → Event
  invalidate_block : ℕ → Event
  invalidate_pages_in_block : ℕ → Event
  -- `__granule_get`, `__granule_put`, `__granule_refcount_inc` and `__granule_refcount_dec`
  granule_get : Handle → Event
  granule_put : Handle → Event
  refcount_inc : Handle → ℕ → Event
  refcount_dec : Handle → ℕ → Event
  set_state : Handle → GranuleState → Event
  init_table : Handle → Fill → Event
  zero_granule : Handle → Event
  -- The content of a data granule is copied in from a granule of the host, and measured.
  copy_in : Handle → ℕ → Event
  measure_data : ℕ → ℕ → Event
  measure_ripas : ℕ → ℕ → Event
  -- `rec->set_ripas.addr` is moved on.
  set_ripas_addr : ℕ → Event

-- `panic` is an assertion that fails.
infixr 3 ◌▷◌
pub data Outcome (A : Type 0) : Type 0 where
  done : A → Outcome A
  panic : Outcome A
  ◌▷◌ : Event → Outcome A → Outcome A

-- `struct smc_result`
pub record Res : Type 0 where
  pub x0 : ℕ
  pub x1 : ℕ
  pub x2 : ℕ
  pub x3 : ℕ
  pub x4 : ℕ

-- The status codes of smc-rmi.h.
abbrev pub rmi_success : ℕ
rmi_success = 0

abbrev pub rmi_error_input : ℕ
rmi_error_input = 1

abbrev pub rmi_error_realm : ℕ
rmi_error_realm = 2

abbrev pub rmi_error_rec : ℕ
rmi_error_rec = 3

abbrev pub rmi_error_rtt : ℕ
rmi_error_rtt = 4

-- `RMI_UNASSIGNED`, `RMI_ASSIGNED` and `RMI_TABLE`.
abbrev pub rmi_unassigned : ℕ
rmi_unassigned = 0

abbrev pub rmi_assigned : ℕ
rmi_assigned = 1

abbrev pub rmi_table : ℕ
rmi_table = 2

-- `RMI_NO_MEASURE_CONTENT` and `RMI_MEASURE_CONTENT`.
abbrev pub rmi_no_measure_content : ℕ
rmi_no_measure_content = 0

abbrev pub rmi_measure_content : ℕ
rmi_measure_content = 1

module _ {A : Type 0} where
  -- What a call returns, and what is left in the table of its walk.
  unfoldable pub result : Outcome A → Option A
  result (done a) = some a
  result panic = none
  result (e ▷ o) = result o

  unfoldable pub table_after : Table → Outcome A → Table
  table_after t (done a) = t
  table_after t panic = t
  table_after t (clear_entry i ▷ o) = table_after (update t i 0) o
  table_after t (write_entry i v ▷ o) = table_after (update t i v) o
  table_after t (e ▷ o) = table_after t o
