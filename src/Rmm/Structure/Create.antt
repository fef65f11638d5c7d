-- ===== src/Rmm/Structure/Create.antt =====
-- `smc_rtt_create`: a table in the place of an entry.
use tetd_test.Base.{ℕ, ◌-◌, ltb, ◌==◌, if◌then◌else◌}
use tetd_test.Rmm.Interface.{state_delegated, state_rd, state_rtt, Walk, Layer, World}
use tetd_test.Rmm.Outcome.{
  g_rd, g_tbl, g_table_root, g_llt, slot_rd, slot_rtt, slot_delegated, unassigned_empty,
  unassigned_ram, unassigned_ns, unassigned_destroyed, assigned_empty, assigned_ram,
  assigned_destroyed, assigned_ns, lock, unlock, walk_to, map_buffer, unmap_buffer, clear_entry,
  write_entry, invalidate_block, granule_get, refcount_inc, set_state, init_table, Outcome, done,
  panic, ◌▷◌, rmi_success, rmi_error_input, rmi_error_rtt,
}
use tetd_test.Rmm.Validate.{validate_rtt_structure_cmds}

module _ (l : Layer) (w : World) where
  -- The ends of `smc_rtt_create`: from label `out_unlock_llt`, and from `out_unmap_table`.
  abbrev create_out_unlock_llt : ℕ → Outcome ℕ
  create_out_unlock_llt ret = unlock g_llt ▷ unlock g_tbl ▷ done ret

  abbrev create_out_unmap_table : ℕ → Outcome ℕ
  create_out_unmap_table ret =
      unmap_buffer slot_delegated ▷ unmap_buffer slot_rtt ▷ create_out_unlock_llt ret

  -- `smc_rtt_create` from the read of the parent entry on.
  unfoldable pub create_at : (rtt_addr map_addr level : ℕ) → Walk → Outcome ℕ
  create_at rtt_addr map_addr level wi =
      let parent_s2tte = w.table wi.g_llt wi.index in
      let block_pa = l.pa parent_s2tte (level - 1) in
      let link =
        set_state g_tbl state_rtt
        ▷ write_entry wi.index (l.create_table rtt_addr (level - 1))
        ▷ create_out_unmap_table rmi_success in
      map_buffer slot_rtt g_llt
      ▷ map_buffer slot_delegated g_tbl
      ▷ (if l.is_unassigned_empty parent_s2tte
          then init_table g_tbl unassigned_empty ▷ granule_get g_llt ▷ link
          else if l.is_unassigned_ram parent_s2tte
          then init_table g_tbl unassigned_ram ▷ granule_get g_llt ▷ link
          else if l.is_unassigned_ns parent_s2tte
          then init_table g_tbl unassigned_ns ▷ granule_get g_llt ▷ link
          else if l.is_unassigned_destroyed parent_s2tte
          then init_table g_tbl unassigned_destroyed ▷ granule_get g_llt ▷ link
          else if l.is_assigned_destroyed parent_s2tte (level - 1)
          then (if ltb l.min_block_level level
              then init_table g_tbl (assigned_destroyed block_pa level)
                ▷ refcount_inc g_tbl l.entries_per_table
                ▷ link
              else panic)
          else if l.is_assigned_empty parent_s2tte (level - 1)
          then (if ltb l.min_block_level level
              then init_table g_tbl (assigned_empty block_pa level)
                ▷ refcount_inc g_tbl l.entries_per_table
                ▷ link
              else panic)
          else if l.is_assigned_ram parent_s2tte (level - 1)
          then (if ltb l.min_block_level level
              then clear_entry wi.index
                ▷ invalidate_block map_addr
                ▷ init_table g_tbl (assigned_ram block_pa level)
                ▷ refcount_inc g_tbl l.entries_per_table
                ▷ link
              else panic)
          else if l.is_assigned_ns parent_s2tte (level - 1)
          then (if ltb l.min_block_level level
              then clear_entry wi.index
                ▷ invalidate_block map_addr
                ▷ init_table g_tbl (assigned_ns parent_s2tte block_pa level)
                ▷ granule_get g_llt
                ▷ link
              else panic)
          else if l.is_table parent_s2tte (level - 1)
          then create_out_unmap_table (l.pack_return_code rmi_error_rtt (level - 1))
          else panic)

  -- `smc_rtt_create`
  unfoldable pub smc_rtt_create : (rd_addr rtt_addr map_addr ulevel : ℕ) → Outcome ℕ
  smc_rtt_create rd_addr rtt_addr map_addr level =
      let rd = w.rd rd_addr in
      let wi = w.walk rd.g_rtt rd.starting_level rd.ipa_bits map_addr (level - 1) in
      if w.find_lock_two rtt_addr state_delegated rd_addr state_rd
      then lock g_tbl rtt_addr
        ▷ lock g_rd rd_addr
        ▷ map_buffer slot_rd g_rd
        ▷ (if validate_rtt_structure_cmds l map_addr level rd
            then unmap_buffer slot_rd
              ▷ lock g_table_root rd.g_rtt
              ▷ unlock g_rd
              ▷ walk_to wi.g_llt
              ▷ (if wi.last_level == level - 1
                  then create_at rtt_addr map_addr level wi
                  else create_out_unlock_llt (l.pack_return_code rmi_error_rtt wi.last_level))
            else unmap_buffer slot_rd ▷ unlock g_rd ▷ unlock g_tbl ▷ done rmi_error_input)
      else done rmi_error_input
