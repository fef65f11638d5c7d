-- ===== src/Rmm/Structure/Fold.antt =====
-- `smc_rtt_fold`: an entry in the place of a table.
use tetd_test.Base.{ℕ, ◌-◌, leb, ◌==◌, if◌then◌else◌, Option, none, some}
use tetd_test.Rmm.Interface.{state_delegated, state_rd, state_rtt, Table, Walk, Layer, World}
use tetd_test.Rmm.Outcome.{
  g_rd, g_tbl, g_table_root, g_llt, slot_rd, slot_rtt, slot_rtt2, lock, unlock, walk_to, map_buffer,
  unmap_buffer, clear_entry, write_entry, invalidate_block, invalidate_pages_in_block, granule_put,
  refcount_dec, set_state, zero_granule, Outcome, done, panic, ◌▷◌, Res, rmi_success,
  rmi_error_input, rmi_error_rtt,
}
use tetd_test.Rmm.Validate.{validate_rtt_structure_cmds}

module _ (l : Layer) (w : World) where
  -- The ends of `smc_rtt_fold`: from labels `out_unlock_parent_table`, `out_unmap_parent_table`
  -- and `out_unmap_table`.
  abbrev fold_out_unlock_parent_table : Res → ℕ → Outcome Res
  fold_out_unlock_parent_table res ret = unlock g_llt ▷ done (record res { x0 = ret })

  abbrev fold_out_unmap_parent_table : Res → ℕ → Outcome Res
  fold_out_unmap_parent_table res ret = unmap_buffer slot_rtt ▷ fold_out_unlock_parent_table res ret

  abbrev fold_out_unmap_table : Res → ℕ → Outcome Res
  fold_out_unmap_table res ret =
      unmap_buffer slot_rtt2 ▷ unlock g_tbl ▷ fold_out_unmap_parent_table res ret

  -- The entry that a table without references folds into, if there is one.
  unfoldable pub folded_unreferenced : Table → (level : ℕ) → Option ℕ
  folded_unreferenced table level =
      if l.all_unassigned_destroyed table
      then some l.create_unassigned_destroyed
      else if l.all_unassigned_empty table
      then some l.create_unassigned_empty
      else if l.all_unassigned_ram table
      then some l.create_unassigned_ram
      else if l.all_unassigned_ns table
      then some l.create_unassigned_ns
      else if l.maps_assigned_ns_block table level
      then some (l.create_assigned_ns (table 0) (level - 1))
      else none

  -- The entry that a table with a reference for each entry folds into, if there is one.
  unfoldable pub folded_referenced : Table → (level : ℕ) → Option ℕ
  folded_referenced table level =
      let block_pa = l.pa (table 0) level in
      if l.maps_assigned_empty_block table level
      then some (l.create_assigned_empty block_pa (level - 1))
      else if l.maps_assigned_ram_block table level
      then some (l.create_assigned_ram block_pa (level - 1))
      else if l.maps_assigned_destroyed_block table level
      then some (l.create_assigned_destroyed block_pa (level - 1))
      else none

  -- `smc_rtt_fold` from `ret = RMI_SUCCESS` on, with the new parent entry.
  unfoldable pub fold_into : Res → (rtt_addr map_addr level index parent_s2tte : ℕ) → Outcome Res
  fold_into res rtt_addr map_addr level index parent_s2tte =
      let finish =
        write_entry index parent_s2tte
        ▷ zero_granule g_tbl
        ▷ set_state g_tbl state_delegated
        ▷ fold_out_unmap_table (record res { x1 = rtt_addr }) rmi_success in
      clear_entry index
      ▷ (if l.is_assigned_ram parent_s2tte (level - 1)
          then invalidate_pages_in_block map_addr ▷ finish
          else if l.is_assigned_ns parent_s2tte (level - 1)
          then invalidate_pages_in_block map_addr ▷ finish
          else invalidate_block map_addr ▷ finish)

  -- `smc_rtt_fold` with the table to be folded at hand.
  unfoldable pub fold_table : Res → (rtt_addr map_addr level : ℕ) → Walk → Outcome Res
  fold_table res rtt_addr map_addr level wi =
      let table = w.table rtt_addr in
      let refused = fold_out_unmap_table res (l.pack_return_code rmi_error_rtt level) in
      if w.refcount rtt_addr == 0
      then elim (folded_unreferenced table level) [
        | none ↦ refused
        | some s2tte ↦ granule_put g_llt ▷ fold_into res rtt_addr map_addr level wi.index s2tte
      ]
      else if w.refcount rtt_addr == l.entries_per_table
      then (if leb level l.min_block_level
          then fold_out_unmap_table res (l.pack_return_code rmi_error_rtt wi.last_level)
          else elim (folded_referenced table level) [
            | none ↦ refused
            | some s2tte ↦
                refcount_dec g_tbl l.entries_per_table
                ▷ fold_into res rtt_addr map_addr level wi.index s2tte
          ])
      else refused

  -- `smc_rtt_fold`
  unfoldable pub smc_rtt_fold : (rd_addr map_addr ulevel : ℕ) → Res → Outcome Res
  smc_rtt_fold rd_addr map_addr level res =
      let rd = w.rd rd_addr in
      let wi = w.walk rd.g_rtt rd.starting_level rd.ipa_bits map_addr (level - 1) in
      let parent_s2tte = w.table wi.g_llt wi.index in
      let rtt_addr = l.pa_table parent_s2tte (level - 1) in
      if w.find_lock rd_addr state_rd
      then lock g_rd rd_addr
        ▷ map_buffer slot_rd g_rd
        ▷ (if validate_rtt_structure_cmds l map_addr level rd
            then unmap_buffer slot_rd
              ▷ lock g_table_root rd.g_rtt
              ▷ unlock g_rd
              ▷ walk_to wi.g_llt
              ▷ (if wi.last_level == level - 1
                  then map_buffer slot_rtt g_llt
                    ▷ (if l.is_table parent_s2tte (level - 1)
                        then (if w.find_lock rtt_addr state_rtt
                            then lock g_tbl rtt_addr
                              ▷ map_buffer slot_rtt2 g_tbl
                              ▷ fold_table res rtt_addr map_addr level wi
                            else panic)
                        else fold_out_unmap_parent_table res
                            (l.pack_return_code rmi_error_rtt (level - 1)))
                  else fold_out_unlock_parent_table res
                      (l.pack_return_code rmi_error_rtt wi.last_level))
            else unmap_buffer slot_rd ▷ unlock g_rd ▷ done (record res { x0 = rmi_error_input }))
      else done (record res { x0 = rmi_error_input })
