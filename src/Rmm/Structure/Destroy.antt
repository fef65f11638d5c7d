-- ===== src/Rmm/Structure/Destroy.antt =====
-- `smc_rtt_destroy`: a table is taken away.
use tetd_test.Base.{ℕ, ◌-◌, Bool, true, false, ◌==◌, if◌then◌else◌}
use tetd_test.Rmm.Interface.{
  state_delegated, state_rd, state_rtt, Table, Walk, Layer, World, update,
}
use tetd_test.Rmm.Outcome.{
  g_rd, g_tbl, g_table_root, g_llt, slot_rd, slot_rtt, slot_rtt2, lock, unlock, walk_to, map_buffer,
  unmap_buffer, clear_entry, write_entry, invalidate_block, invalidate_pages_in_block, granule_put,
  set_state, zero_granule, Outcome, done, panic, ◌▷◌, Res, rmi_success, rmi_error_input,
  rmi_error_rtt,
}
use tetd_test.Rmm.Validate.{validate_rtt_structure_cmds}

module _ (l : Layer) (w : World) where
  -- `smc_rtt_destroy` from label `out_unmap_parent_table` on; `table` is what the parent table
  -- holds then.
  abbrev destroy_out_unmap_parent_table :
      Res → (skip_non_live : Bool) (map_addr : ℕ) → Table → Walk → ℕ → Outcome Res
  destroy_out_unmap_parent_table res skip_non_live map_addr table wi ret =
      let x2 = if skip_non_live then l.skip_non_live_entries map_addr table wi else map_addr in
      unmap_buffer slot_rtt ▷ unlock g_llt ▷ done (record res { x0 = ret; x2 = x2 })

  -- `smc_rtt_destroy` with the table to be destroyed locked.
  unfoldable pub destroy_table :
      Res → (in_par : Bool) (rtt_addr map_addr level : ℕ) → Walk → Outcome Res
  destroy_table res in_par rtt_addr map_addr level wi =
      let parent = w.table wi.g_llt in
      let s2tte = if in_par then l.create_unassigned_destroyed else l.create_unassigned_ns in
      let finish =
        write_entry wi.index s2tte
        ▷ zero_granule g_tbl
        ▷ set_state g_tbl state_delegated
        ▷ unmap_buffer slot_rtt2
        ▷ unlock g_tbl
        ▷ destroy_out_unmap_parent_table (record res { x1 = rtt_addr }) true map_addr
            (update parent wi.index s2tte) wi rmi_success in
      if w.refcount rtt_addr == 0
      then map_buffer slot_rtt2 g_tbl
        ▷ granule_put g_llt
        ▷ clear_entry wi.index
        ▷ (if in_par
            then invalidate_block map_addr ▷ finish
            else invalidate_pages_in_block map_addr ▷ finish)
      else unlock g_tbl
        ▷ destroy_out_unmap_parent_table res false map_addr parent wi
            (l.pack_return_code rmi_error_rtt level)

  -- `smc_rtt_destroy`
  unfoldable pub smc_rtt_destroy : (rd_addr map_addr ulevel : ℕ) → Res → Outcome Res
  smc_rtt_destroy rd_addr map_addr level res =
      let rd = w.rd rd_addr in
      let wi = w.walk rd.g_rtt rd.starting_level rd.ipa_bits map_addr (level - 1) in
      let parent_s2tte = w.table wi.g_llt wi.index in
      let rtt_addr = l.pa_table parent_s2tte (level - 1) in
      let no_table =
        destroy_out_unmap_parent_table res true map_addr (w.table wi.g_llt) wi
          (l.pack_return_code rmi_error_rtt wi.last_level) in
      if w.find_lock rd_addr state_rd
      then lock g_rd rd_addr
        ▷ map_buffer slot_rd g_rd
        ▷ (if validate_rtt_structure_cmds l map_addr level rd
            then unmap_buffer slot_rd
              ▷ lock g_table_root rd.g_rtt
              ▷ unlock g_rd
              ▷ walk_to wi.g_llt
              ▷ map_buffer slot_rtt g_llt
              ▷ (if wi.last_level == level - 1
                  then (if l.is_table parent_s2tte (level - 1)
                      then (if w.find_lock rtt_addr state_rtt
                          then lock g_tbl rtt_addr
                            ▷ destroy_table res (rd.in_par map_addr) rtt_addr map_addr level wi
                          else panic)
                      else no_table)
                  else no_table)
            else unmap_buffer slot_rd
              ▷ unlock g_rd
              ▷ done (record res { x0 = rmi_error_input; x2 = 0 }))
      else done (record res { x0 = rmi_error_input; x2 = 0 })
