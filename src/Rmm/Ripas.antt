-- ===== src/Rmm/Ripas.antt =====
-- `update_ripas`, `smc_rtt_init_ripas`, `rtt_set_ripas_range` and `smc_rtt_set_ripas`.
pub mod Range
use tetd_test.Base.{
  ℕ, zero, suc, ◌+◌, ◌-◌, ◌^◌, ◌%◌, Bool, true, false, ltb, leb, ◌==◌, if◌then◌else◌, bit_and,
}
use tetd_test.Rmm.Interface.{
  GranuleState, state_ns, state_delegated, state_rd, state_data, state_rec, state_rtt, RealmState,
  realm_new, realm_other, Ripas, ripas_empty, ripas_ram, ripas_destroyed, ChangeDestroyed,
  change_destroyed, no_change_destroyed, Table, Rd, Rec, Walk, Layer, World, update,
}
use tetd_test.Rmm.Outcome.{
  Handle, g_rd, g_tbl, g_table_root, g_llt, g_data, g_rec, Slot, slot_rd, slot_rtt, slot_rtt2,
  slot_delegated, slot_rec, Fill, unassigned_empty, unassigned_ram, unassigned_ns,
  unassigned_destroyed, assigned_empty, assigned_ram, assigned_destroyed, assigned_ns, Event, lock,
  unlock, walk_to, map_buffer, unmap_buffer, clear_entry, write_entry, invalidate_page,
  invalidate_block, invalidate_pages_in_block, granule_get, granule_put, refcount_inc, refcount_dec,
  set_state, init_table, zero_granule, copy_in, measure_data, measure_ripas, set_ripas_addr,
  Outcome, done, panic, ◌▷◌, Res, rmi_success, rmi_error_input, rmi_error_realm, rmi_error_rec,
  rmi_error_rtt, rmi_unassigned, rmi_assigned, rmi_table, rmi_no_measure_content,
  rmi_measure_content,
}
use tetd_test.Rmm.Validate.{validate_map_addr, is_new}

-- What `update_ripas` does to an entry: a negative result; 0 without a write; or a write, with
-- whether the TLB has to be invalidated.
pub data Updated : Type 0 where
  refused kept : Updated
  written : (s2tte : ℕ) (tlbi : Bool) → Updated

-- `addr & ~(map_size - 1UL)`
abbrev pub align_down : (addr map_size : ℕ) → ℕ
align_down addr map_size = bit_and addr (2 ^ 64 - 1 - (map_size - 1))

module _ (l : Layer) where
  -- An entry whose RIPAS is destroyed changes only on request.
  abbrev if_requested : ChangeDestroyed → Updated → Updated
  if_requested change_destroyed u = u
  if_requested no_change_destroyed u = refused

  -- `update_ripas` on an entry that has a RIPAS.
  unfoldable pub update_to : (s2tte level : ℕ) → Ripas → ChangeDestroyed → Updated
  update_to s2tte level ripas_ram change =
      if l.is_unassigned_empty s2tte
      then written l.create_unassigned_ram false
      else if l.is_unassigned_destroyed s2tte
      then if_requested change (written l.create_unassigned_ram false)
      else if l.is_assigned_empty s2tte level
      then written (l.create_assigned_ram (l.pa s2tte level) level) false
      else if l.is_assigned_destroyed s2tte level
      then if_requested change (written (l.create_assigned_ram (l.pa s2tte level) level) false)
      else kept
  update_to s2tte level ripas_empty change =
      if l.is_unassigned_ram s2tte
      then written l.create_unassigned_empty false
      else if l.is_unassigned_destroyed s2tte
      then if_requested change (written l.create_unassigned_empty false)
      else if l.is_assigned_ram s2tte level
      then written (l.create_assigned_empty (l.pa s2tte level) level) true
      else if l.is_assigned_destroyed s2tte level
      then if_requested change (written (l.create_assigned_empty (l.pa s2tte level) level) true)
      else kept
  update_to s2tte level ripas_destroyed change = written s2tte false

  -- `update_ripas`
  unfoldable pub update_ripas : (s2tte level : ℕ) → Ripas → ChangeDestroyed → Updated
  update_ripas s2tte level ripas_val change =
      if l.has_ripas s2tte level then update_to s2tte level ripas_val change else refused

  -- The loop of `smc_rtt_init_ripas`, with the entries from `index` on to go; `finish` is what
  -- follows it.
  unfoldable pub init_loop :
      (table : Table) (map_size top rounds index addr : ℕ) → (ℕ → Outcome Res) → Outcome Res
  init_loop table map_size top zero index addr finish = finish addr
  init_loop table map_size top (suc rounds) index addr finish =
      let next = (addr + map_size) % 2 ^ 64 in
      let rest = init_loop table map_size top rounds (index + 1) next finish in
      if ltb top next
      then finish addr
      else if l.is_unassigned_empty (table index)
      then write_entry index l.create_unassigned_ram ▷ measure_ripas addr next ▷ rest
      else if l.is_unassigned_ram (table index)
      then measure_ripas addr next ▷ rest
      else finish addr

  -- The loop of `rtt_set_ripas_range`.
  unfoldable pub set_loop :
      (table : Table) (level map_size top : ℕ)
      → Ripas
      → ChangeDestroyed
      → (rounds index addr : ℕ) → (ℕ → Outcome Res)
      → Outcome Res
  set_loop table level map_size top wanted change zero index addr finish = finish addr
  set_loop table level map_size top wanted change (suc rounds) index addr finish =
      let next = (addr + map_size) % 2 ^ 64 in
      let rest = set_loop table level map_size top wanted change rounds (index + 1) next finish in
      if ltb top next then finish addr else elim (update_ripas (table index) level wanted change) [
        | refused ↦ finish addr
        | kept ↦ rest
        | written s2tte tlbi ↦
            write_entry index s2tte
            ▷ (if tlbi
                then (if level == l.page_level
                    then invalidate_page addr ▷ rest
                    else invalidate_block addr ▷ rest)
                else rest)
      ]

  -- The registers that both calls set after their loop.
  abbrev pub progress : Res → (base level addr : ℕ) → Res
  progress res base level addr =
      if ltb base addr
      then record res { x0 = rmi_success; x1 = addr }
      else record res { x0 = l.pack_return_code rmi_error_rtt level }

  -- `rtt_set_ripas_range`
  unfoldable pub rtt_set_ripas_range :
      (table : Table) (base top : ℕ)
      → Walk
      → Ripas
      → ChangeDestroyed
      → Res
      → (Res → Outcome Res)
      → Outcome Res
  rtt_set_ripas_range table base top wi ripas_val change res finish =
      let map_size = l.map_size wi.last_level in
      if align_down base map_size == base
      then set_loop table wi.last_level map_size top ripas_val change
          (l.entries_per_table - wi.index) wi.index base
          (λ addr. finish (progress res base wi.last_level addr))
      else finish (record res { x0 = l.pack_return_code rmi_error_rtt wi.last_level })

module _ (l : Layer) (w : World) where
  -- The end of `smc_rtt_init_ripas`, from label `out_unmap_llt`.
  abbrev pub init_out_unmap_llt : Res → Outcome Res
  init_out_unmap_llt res =
      unmap_buffer slot_rtt ▷ unmap_buffer slot_rd ▷ unlock g_llt ▷ unlock g_rd ▷ done res

  -- `smc_rtt_init_ripas`
  unfoldable pub smc_rtt_init_ripas : (rd_addr base top : ℕ) → Res → Outcome Res
  smc_rtt_init_ripas rd_addr base top res =
      let rd = w.rd rd_addr in
      let wi = w.walk rd.g_rtt rd.starting_level rd.ipa_bits base l.page_level in
      let map_size = l.map_size wi.last_level in
      let refuse : (ℕ → Outcome Res) =
        λ ret. unmap_buffer slot_rd ▷ unlock g_rd ▷ done (record res { x0 = ret }) in
      if leb top base
      then done (record res { x0 = rmi_error_input })
      else if w.find_lock rd_addr state_rd
      then lock g_rd rd_addr
        ▷ map_buffer slot_rd g_rd
        ▷ (if validate_map_addr l base l.page_level rd
            then (if validate_map_addr l top l.page_level rd
                then (if rd.in_par base
                    then (if rd.in_par (top - l.granule_size)
                        then (if is_new rd.state
                            then lock g_table_root rd.g_rtt
                              ▷ walk_to wi.g_llt
                              ▷ map_buffer slot_rtt g_llt
                              ▷ (if align_down base map_size == base
                                  then init_loop l (w.table wi.g_llt) map_size top
                                      (l.entries_per_table - wi.index) wi.index base
                                      (λ addr.
                                        init_out_unmap_llt (progress l res base wi.last_level addr))
                                  else init_out_unmap_llt (record res {
                                    x0 = l.pack_return_code rmi_error_rtt wi.last_level;
                                  }))
                            else refuse rmi_error_realm)
                        else refuse rmi_error_input)
                    else refuse rmi_error_input)
                else refuse rmi_error_input)
            else refuse rmi_error_input)
      else done (record res { x0 = rmi_error_input })

  -- The ends of `smc_rtt_set_ripas`: from labels `out_unlock_rec_rd`, `out_unmap_rec` and
  -- `out_unlock_llt`.
  abbrev set_out_unlock_rec_rd : Res → Outcome Res
  set_out_unlock_rec_rd res = unlock g_rec ▷ unlock g_rd ▷ done res

  abbrev set_out_unmap_rec : Res → Outcome Res
  set_out_unmap_rec res = unmap_buffer slot_rec ▷ set_out_unlock_rec_rd res

  abbrev set_out_unlock_llt : Res → Outcome Res
  set_out_unlock_llt res = unlock g_llt ▷ unmap_buffer slot_rd ▷ set_out_unmap_rec res

  -- What follows the range in `smc_rtt_set_ripas`.
  abbrev pub after_range : Res → Outcome Res
  after_range res =
      if res.x0 == rmi_success
      then set_ripas_addr res.x1 ▷ unmap_buffer slot_rtt ▷ set_out_unlock_llt res
      else unmap_buffer slot_rtt ▷ set_out_unlock_llt res

  -- `smc_rtt_set_ripas` with the REC checked.
  unfoldable pub set_ripas_at : (rd_addr base top : ℕ) → Rec → Res → Outcome Res
  set_ripas_at rd_addr base top rec res =
      let rd = w.rd rd_addr in
      let wi = w.walk rd.g_rtt rd.starting_level rd.ipa_bits base l.page_level in
      map_buffer slot_rd g_rd
      ▷ (if validate_map_addr l base l.page_level rd
          then lock g_table_root rd.g_rtt
            ▷ walk_to wi.g_llt
            ▷ (if validate_map_addr l base wi.last_level rd
                then map_buffer slot_rtt g_llt
                  ▷ rtt_set_ripas_range l (w.table wi.g_llt) base top wi rec.ripas_val rec.change
                      res after_range
                else set_out_unlock_llt
                    (record res { x0 = l.pack_return_code rmi_error_rtt wi.last_level }))
          else panic)

  -- `smc_rtt_set_ripas`
  unfoldable pub smc_rtt_set_ripas : (rd_addr rec_addr base top : ℕ) → Res → Outcome Res
  smc_rtt_set_ripas rd_addr rec_addr base top res =
      let rec = w.rec rec_addr in
      if leb top base
      then done (record res { x0 = rmi_error_input })
      else if w.find_lock_two rd_addr state_rd rec_addr state_rec
      then lock g_rd rd_addr
        ▷ lock g_rec rec_addr
        ▷ (if w.refcount rec_addr == 0
            then map_buffer slot_rec g_rec
              ▷ (if rd_addr == rec.g_rd
                  then (if base == rec.addr
                      then (if leb top rec.top
                          then set_ripas_at rd_addr base top rec res
                          else set_out_unmap_rec (record res { x0 = rmi_error_input }))
                      else set_out_unmap_rec (record res { x0 = rmi_error_input }))
                  else set_out_unmap_rec (record res { x0 = rmi_error_rec }))
            else set_out_unlock_rec_rd (record res { x0 = rmi_error_rec }))
      else done (record res { x0 = rmi_error_input })
