-- ===== src/Rmm/Quiet.antt =====
-- A call that fails leaves the tables as they were.
pub mod Calls
use tetd_test.Base.{ℕ, Bool, true, false, ◌==◌, if◌then◌else◌}
use tetd_test.Rmm.Interface.{
  GranuleState, state_ns, state_delegated, state_rd, state_data, state_rec, state_rtt, RealmState,
  realm_new, realm_other, Ripas, ripas_empty, ripas_ram, ripas_destroyed, ChangeDestroyed,
  change_destroyed, no_change_destroyed, Table, Rd, Rec, Walk, Layer, World, update,
}
use tetd_test.Rmm.Outcome.{
  Handle, g_rd, g_tbl, g_table_root, g_llt, g_data, g_rec, Slot, slot_rd, slot_rtt, slot_rtt2,
  slot_delegated, slot_rec, Fill, unassigned_empty, unassigned_ram, unassigned_ns,
  unassigned_destroyed, assigned_empty, assigned_ram, assigned_destroyed, assigned_ns, Event, lock,
  unlock, walk_to, map_buffer, unmap_buffer, clear_entry, write_entry, invalidate_page,
  invalidate_block, invalidate_pages_in_block, granule_get, granule_put, refcount_inc, refcount_dec,
  set_state, init_table, zero_granule, copy_in, measure_data, measure_ripas, set_ripas_addr,
  Outcome, done, panic, ◌▷◌, Res, rmi_success, rmi_error_input, rmi_error_realm, rmi_error_rec,
  rmi_error_rtt, rmi_unassigned, rmi_assigned, rmi_table, rmi_no_measure_content,
  rmi_measure_content,
}

-- The events that change an entry of a table, its reference count, or a table itself.
abbrev pub changes_table : Event → Bool
changes_table (clear_entry i) = true
changes_table (write_entry i v) = true
changes_table (granule_get h) = true
changes_table (granule_put h) = true
changes_table (refcount_inc h n) = true
changes_table (refcount_dec h n) = true
changes_table (init_table h f) = true
changes_table (set_state g_tbl t) = true
changes_table (zero_granule g_tbl) = true
changes_table _ = false

module _ {A : Type 0} (status : A → ℕ) where
  -- Once a table has changed (`touched`), the call succeeds.
  pub changes_on_success : Bool → Outcome A → Bool
  changes_on_success touched (done a) = if touched then status a == rmi_success else true
  changes_on_success touched panic = true
  changes_on_success touched (e ▷ o) =
      changes_on_success (if changes_table e then true else touched) o

abbrev pub own_status : ℕ → ℕ
own_status ret = ret

abbrev pub res_status : Res → ℕ
res_status res = res.x0
