-- ===== src/Rmm/Data.antt =====
-- `data_create`, `smc_data_create`, `smc_data_create_unknown` and `smc_data_destroy`: the pages of a
-- realm.
use tetd_test.Base.{ℕ, Bool, true, false, ◌==◌, if◌then◌else◌, Option, none, some}
use tetd_test.Rmm.Interface.{
  GranuleState, state_ns, state_delegated, state_rd, state_data, Table, Walk, Layer, World, update,
}
use tetd_test.Rmm.Outcome.{
  g_rd, g_table_root, g_llt, g_data, slot_rd, slot_rtt, slot_delegated, lock, unlock, walk_to,
  map_buffer, unmap_buffer, write_entry, invalidate_page, granule_get, granule_put, set_state,
  zero_granule, copy_in, measure_data, Outcome, done, panic, ◌▷◌, Res, rmi_success, rmi_error_input,
  rmi_error_rtt, rmi_no_measure_content, rmi_measure_content,
}
use tetd_test.Rmm.Validate.{validate_map_addr, validate_data_create, validate_data_create_unknown}

-- `g_src->state != GRANULE_STATE_NS`
abbrev is_ns : GranuleState → Bool
is_ns state_ns = true
is_ns _ = false

module _ (l : Layer) (w : World) where
  -- The ends of `data_create`: from label `out_unmap_rd`, `out_unlock_ll_table` and
  -- `out_unmap_ll_table`, with the new state of the data granule.
  abbrev out_unmap_rd : GranuleState → ℕ → Outcome ℕ
  out_unmap_rd new_data_state ret =
      unmap_buffer slot_rd
      ▷ unlock g_rd
      ▷ set_state g_data new_data_state
      ▷ unlock g_data
      ▷ done ret

  abbrev out_unlock_ll_table : GranuleState → ℕ → Outcome ℕ
  out_unlock_ll_table new_data_state ret = unlock g_llt ▷ out_unmap_rd new_data_state ret

  abbrev out_unmap_ll_table : GranuleState → ℕ → Outcome ℕ
  out_unmap_ll_table new_data_state ret =
      unmap_buffer slot_rtt ▷ out_unlock_ll_table new_data_state ret

  -- `data_create` at the entry of the walk. The source granule is missing for
  -- `RMI_DATA_CREATE_UNKNOWN`.
  unfoldable pub data_create_at : (data_addr map_addr flags : ℕ) → Option ℕ → Walk → Outcome ℕ
  data_create_at data_addr map_addr flags g_src wi =
      let s2tte = w.table wi.g_llt wi.index in
      let finish = granule_get g_llt ▷ out_unmap_ll_table state_data rmi_success in
      map_buffer slot_rtt g_llt
      ▷ (if l.is_unassigned s2tte
          then elim g_src [
            | none ↦
                write_entry wi.index (l.create_assigned_unchanged s2tte data_addr l.page_level)
                ▷ finish
            | some src ↦
                map_buffer slot_delegated g_data
                ▷ copy_in g_data src
                ▷ (if w.ns_buffer_read src
                    then measure_data map_addr flags
                      ▷ unmap_buffer slot_delegated
                      ▷ write_entry wi.index (l.create_assigned_ram data_addr l.page_level)
                      ▷ finish
                    else zero_granule g_data
                      ▷ unmap_buffer slot_delegated
                      ▷ out_unmap_ll_table state_delegated rmi_error_input)
          ]
          else out_unmap_ll_table state_delegated (l.pack_return_code rmi_error_rtt l.page_level))

  -- `data_create`
  unfoldable pub data_create : (rd_addr data_addr map_addr : ℕ) → Option ℕ → (flags : ℕ) → Outcome ℕ
  data_create rd_addr data_addr map_addr g_src flags =
      let rd = w.rd rd_addr in
      let wi = w.walk rd.g_rtt rd.starting_level rd.ipa_bits map_addr l.page_level in
      let ret : ℕ = elim g_src [
        | none ↦ validate_data_create_unknown l map_addr rd
        | some src ↦ validate_data_create l map_addr rd
      ] in
      if w.find_lock_two data_addr state_delegated rd_addr state_rd
      then lock g_data data_addr
        ▷ lock g_rd rd_addr
        ▷ map_buffer slot_rd g_rd
        ▷ (if ret == rmi_success
            then lock g_table_root rd.g_rtt
              ▷ walk_to wi.g_llt
              ▷ (if wi.last_level == l.page_level
                  then data_create_at data_addr map_addr flags g_src wi
                  else out_unlock_ll_table state_delegated
                      (l.pack_return_code rmi_error_rtt wi.last_level))
            else out_unmap_rd state_delegated ret)
      else done rmi_error_input

  -- `smc_data_create`
  unfoldable pub smc_data_create : (rd_addr data_addr map_addr src_addr flags : ℕ) → Outcome ℕ
  smc_data_create rd_addr data_addr map_addr src_addr flags =
      let create =
        if w.find src_addr
        then if is_ns (w.state_of src_addr)
          then data_create rd_addr data_addr map_addr (some src_addr) flags
          else done rmi_error_input
        else done rmi_error_input in
      if flags == rmi_no_measure_content
      then create
      else if flags == rmi_measure_content
      then create
      else done rmi_error_input

  -- `smc_data_create_unknown`
  unfoldable pub smc_data_create_unknown : (rd_addr data_addr map_addr : ℕ) → Outcome ℕ
  smc_data_create_unknown rd_addr data_addr map_addr = data_create rd_addr data_addr map_addr none 0

  -- `smc_data_destroy` from the reference count on, with what the table holds then.
  unfoldable pub destroy_data : Res → (map_addr data_addr : ℕ) → Table → Walk → Outcome Res
  destroy_data res map_addr data_addr table wi =
      granule_put g_llt
      ▷ (if w.find_lock data_addr state_data
          then lock g_data data_addr
            ▷ zero_granule g_data
            ▷ set_state g_data state_delegated
            ▷ unlock g_data
            ▷ unmap_buffer slot_rtt
            ▷ unlock g_llt
            ▷ done (record res {
              x0 = rmi_success;
              x1 = data_addr;
              x2 = l.skip_non_live_entries map_addr table wi;
            })
          else panic)

  -- `smc_data_destroy` at the entry of the walk.
  unfoldable pub data_destroy_at : Res → (map_addr : ℕ) → Walk → Outcome Res
  data_destroy_at res map_addr wi =
      let table = w.table wi.g_llt in
      let s2tte = table wi.index in
      let data_addr = l.pa s2tte l.page_level in
      let destroyed = update table wi.index l.create_unassigned_destroyed in
      let emptied = update table wi.index l.create_unassigned_empty in
      if l.is_assigned_ram s2tte l.page_level
      then write_entry wi.index l.create_unassigned_destroyed
        ▷ invalidate_page map_addr
        ▷ destroy_data res map_addr data_addr destroyed wi
      else if l.is_assigned_empty s2tte l.page_level
      then write_entry wi.index l.create_unassigned_empty
        ▷ destroy_data res map_addr data_addr emptied wi
      else if l.is_assigned_destroyed s2tte l.page_level
      then write_entry wi.index l.create_unassigned_destroyed
        ▷ destroy_data res map_addr data_addr destroyed wi
      else unmap_buffer slot_rtt
        ▷ unlock g_llt
        ▷ done (record res {
          x0 = l.pack_return_code rmi_error_rtt l.page_level;
          x2 = l.skip_non_live_entries map_addr table wi;
        })

  -- `smc_data_destroy`
  unfoldable pub smc_data_destroy : (rd_addr map_addr : ℕ) → Res → Outcome Res
  smc_data_destroy rd_addr map_addr res =
      let rd = w.rd rd_addr in
      let wi = w.walk rd.g_rtt rd.starting_level rd.ipa_bits map_addr l.page_level in
      let refused =
        unmap_buffer slot_rd ▷ unlock g_rd ▷ done (record res { x0 = rmi_error_input; x2 = 0 }) in
      if w.find_lock rd_addr state_rd
      then lock g_rd rd_addr
        ▷ map_buffer slot_rd g_rd
        ▷ (if rd.in_par map_addr
            then (if validate_map_addr l map_addr l.page_level rd
                then unmap_buffer slot_rd
                  ▷ lock g_table_root rd.g_rtt
                  ▷ unlock g_rd
                  ▷ walk_to wi.g_llt
                  ▷ map_buffer slot_rtt g_llt
                  ▷ (if wi.last_level == l.page_level
                      then data_destroy_at res map_addr wi
                      else unmap_buffer slot_rtt
                        ▷ unlock g_llt
                        ▷ done (record res {
                          x0 = l.pack_return_code rmi_error_rtt wi.last_level;
                          x2 = l.skip_non_live_entries map_addr (w.table wi.g_llt) wi;
                        }))
                else refused)
            else refused)
      else done (record res { x0 = rmi_error_input; x2 = 0 })
