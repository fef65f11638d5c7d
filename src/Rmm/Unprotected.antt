-- ===== src/Rmm/Unprotected.antt =====
-- `map_unmap_ns`, `smc_rtt_map_unprotected`, `smc_rtt_unmap_unprotected` and `smc_rtt_read_entry`.
use tetd_test.Base.{ℕ, ◌==◌, if◌then◌else◌, Option, none, some}
use tetd_test.Rmm.Interface.{
  state_rd, ripas_empty, ripas_ram, ripas_destroyed, Walk, Layer, World, update,
}
use tetd_test.Rmm.Outcome.{
  g_rd, g_table_root, g_llt, slot_rd, slot_rtt, lock, unlock, walk_to, map_buffer, unmap_buffer,
  write_entry, invalidate_page, invalidate_block, Outcome, done, panic, ◌▷◌, Res, rmi_success,
  rmi_error_input, rmi_error_rtt, rmi_unassigned, rmi_assigned, rmi_table,
}
use tetd_test.Rmm.Validate.{long_lt, long_gt, validate_rtt_map_cmds, validate_rtt_entry_cmds}

-- `enum map_unmap_ns_op`
pub data NsOp : Type 0 where
  map_ns unmap_ns : NsOp

-- The caller that returns `res.x[0]` of a call.
unfoldable pub first_result : Outcome Res → Outcome ℕ
first_result (done res) = done res.x0
first_result panic = panic
first_result (e ▷ o) = e ▷ first_result o

-- A result register array that is not initialised; no register of it is read before it is set.
abbrev pub unset_res : Res
unset_res = record { x0 = 0; x1 = 0; x2 = 0; x3 = 0; x4 = 0 }

module _ (l : Layer) (w : World) where
  -- `map_unmap_ns` at the entry of the walk, for `MAP_NS`.
  unfoldable pub map_ns_at : Res → (level host_s2tte : ℕ) → Walk → Outcome Res
  map_ns_at res level host_s2tte wi =
      if wi.last_level == level
      then map_buffer slot_rtt g_llt
        ▷ (if l.is_unassigned_ns (w.table wi.g_llt wi.index)
            then write_entry wi.index (l.create_assigned_ns host_s2tte level)
              ▷ unmap_buffer slot_rtt
              ▷ unlock g_llt
              ▷ done (record res { x0 = rmi_success })
            else unmap_buffer slot_rtt
              ▷ unlock g_llt
              ▷ done (record res { x0 = l.pack_return_code rmi_error_rtt level }))
      else unlock g_llt ▷ done (record res { x0 = l.pack_return_code rmi_error_rtt wi.last_level })

  -- `map_unmap_ns` at the entry of the walk, for `UNMAP_NS`.
  unfoldable pub unmap_ns_at : Res → (map_addr level : ℕ) → Walk → Outcome Res
  unmap_ns_at res map_addr level wi =
      let table = w.table wi.g_llt in
      let refused =
        unmap_buffer slot_rtt
        ▷ unlock g_llt
        ▷ done (record res {
          x0 = l.pack_return_code rmi_error_rtt wi.last_level;
          x1 = l.skip_non_live_entries map_addr table wi;
        }) in
      let unmapped =
        unmap_buffer slot_rtt
        ▷ unlock g_llt
        ▷ done (record res {
          x0 = rmi_success;
          x1 = l.skip_non_live_entries map_addr (update table wi.index l.create_unassigned_ns) wi;
        }) in
      map_buffer slot_rtt g_llt
      ▷ (if wi.last_level == level
          then (if l.is_assigned_ns (table wi.index) wi.last_level
              then write_entry wi.index l.create_unassigned_ns
                ▷ (if level == l.page_level
                    then invalidate_page map_addr ▷ unmapped
                    else invalidate_block map_addr ▷ unmapped)
              else refused)
          else refused)

  -- `map_unmap_ns`
  unfoldable pub map_unmap_ns : (rd_addr map_addr level host_s2tte : ℕ) → NsOp → Res → Outcome Res
  map_unmap_ns rd_addr map_addr level host_s2tte op res =
      let rd = w.rd rd_addr in
      let wi = w.walk rd.g_rtt rd.starting_level rd.ipa_bits map_addr level in
      let refused =
        unmap_buffer slot_rd ▷ unlock g_rd ▷ done (record res { x0 = rmi_error_input }) in
      if w.find_lock rd_addr state_rd
      then lock g_rd rd_addr
        ▷ map_buffer slot_rd g_rd
        ▷ (if validate_rtt_map_cmds l map_addr level rd
            then (if rd.in_par map_addr
                then refused
                else unmap_buffer slot_rd
                  ▷ lock g_table_root rd.g_rtt
                  ▷ unlock g_rd
                  ▷ walk_to wi.g_llt
                  ▷ elim op [
                    | map_ns ↦ map_ns_at res level host_s2tte wi
                    | unmap_ns ↦ unmap_ns_at res map_addr level wi
                  ])
            else refused)
      else done (record res { x0 = rmi_error_input })

  -- `smc_rtt_map_unprotected`
  unfoldable pub smc_rtt_map_unprotected : (rd_addr map_addr ulevel s2tte : ℕ) → Outcome ℕ
  smc_rtt_map_unprotected rd_addr map_addr level s2tte =
      if long_lt level l.min_block_level
      then done rmi_error_input
      else if long_gt level l.page_level
      then done rmi_error_input
      else if l.host_ns_s2tte_is_valid s2tte level
      then first_result (map_unmap_ns rd_addr map_addr level s2tte map_ns unset_res)
      else done rmi_error_input

  -- `smc_rtt_unmap_unprotected`
  unfoldable pub smc_rtt_unmap_unprotected : (rd_addr map_addr ulevel : ℕ) → Res → Outcome Res
  smc_rtt_unmap_unprotected rd_addr map_addr level res =
      if long_lt level l.min_block_level
      then done (record res { x0 = rmi_error_input })
      else if long_gt level l.page_level
      then done (record res { x0 = rmi_error_input })
      else map_unmap_ns rd_addr map_addr level 0 unmap_ns res

  -- The registers `x2` to `x4` that `smc_rtt_read_entry` sets, or a failing assertion.
  unfoldable pub entry_registers : (s2tte level : ℕ) → Option (ℕ × ℕ × ℕ)
  entry_registers s2tte level =
      if l.is_unassigned_empty s2tte
      then some (rmi_unassigned, 0, l.ripas_code ripas_empty)
      else if l.is_unassigned_ram s2tte
      then some (rmi_unassigned, 0, l.ripas_code ripas_ram)
      else if l.is_unassigned_destroyed s2tte
      then some (rmi_unassigned, 0, l.ripas_code ripas_destroyed)
      else if l.is_assigned_empty s2tte level
      then some (rmi_assigned, l.pa s2tte level, l.ripas_code ripas_empty)
      else if l.is_assigned_ram s2tte level
      then some (rmi_assigned, l.pa s2tte level, l.ripas_code ripas_ram)
      else if l.is_assigned_destroyed s2tte level
      then some (rmi_assigned, 0, l.ripas_code ripas_destroyed)
      else if l.is_unassigned_ns s2tte
      then some (rmi_unassigned, 0, l.ripas_code ripas_empty)
      else if l.is_assigned_ns s2tte level
      then some (rmi_assigned, l.host_ns_s2tte s2tte level, l.ripas_code ripas_empty)
      else if l.is_table s2tte level
      then some (rmi_table, l.pa_table s2tte level, l.ripas_code ripas_empty)
      else none

  -- `smc_rtt_read_entry`
  unfoldable pub smc_rtt_read_entry : (rd_addr map_addr ulevel : ℕ) → Res → Outcome Res
  smc_rtt_read_entry rd_addr map_addr level res =
      let rd = w.rd rd_addr in
      let wi = w.walk rd.g_rtt rd.starting_level rd.ipa_bits map_addr level in
      if w.find_lock rd_addr state_rd
      then lock g_rd rd_addr
        ▷ map_buffer slot_rd g_rd
        ▷ (if validate_rtt_entry_cmds l map_addr level rd
            then unmap_buffer slot_rd
              ▷ lock g_table_root rd.g_rtt
              ▷ unlock g_rd
              ▷ walk_to wi.g_llt
              ▷ map_buffer slot_rtt g_llt
              ▷ elim (entry_registers (w.table wi.g_llt wi.index) wi.last_level) [
                | none ↦ panic
                | some r ↦
                    unmap_buffer slot_rtt
                    ▷ unlock g_llt
                    ▷ done (record {
                      x0 = rmi_success;
                      x1 = wi.last_level;
                      x2 = r.0;
                      x3 = r.1;
                      x4 = r.2;
                    })
              ]
            else unmap_buffer slot_rd ▷ unlock g_rd ▷ done (record res { x0 = rmi_error_input }))
      else done (record res { x0 = rmi_error_input })
