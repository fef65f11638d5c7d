-- ===== src/Rmm/Block.antt =====
-- `smc_ipa_block` and `smc_ipa_unblock`: the host takes the access rights of a page of a realm away
-- and gives them back.
pub mod Rights
use tetd_test.Base.{ℕ, ◌+◌, ◌-◌, ◌*◌, ◌^◌, Bool, true, false, if◌then◌else◌, bit_and, bit_or}
use tetd_test.Rmm.Interface.{
  GranuleState, state_ns, state_delegated, state_rd, state_data, state_rec, state_rtt, RealmState,
  realm_new, realm_other, Ripas, ripas_empty, ripas_ram, ripas_destroyed, ChangeDestroyed,
  change_destroyed, no_change_destroyed, Table, Rd, Rec, Walk, Layer, World, update,
}
use tetd_test.Rmm.Outcome.{
  Handle, g_rd, g_tbl, g_table_root, g_llt, g_data, g_rec, Slot, slot_rd, slot_rtt, slot_rtt2,
  slot_delegated, slot_rec, Fill, unassigned_empty, unassigned_ram, unassigned_ns,
  unassigned_destroyed, assigned_empty, assigned_ram, assigned_destroyed, assigned_ns, Event, lock,
  unlock, walk_to, map_buffer, unmap_buffer, clear_entry, write_entry, invalidate_page,
  invalidate_block, invalidate_pages_in_block, granule_get, granule_put, refcount_inc, refcount_dec,
  set_state, init_table, zero_granule, copy_in, measure_data, measure_ripas, set_ripas_addr,
  Outcome, done, panic, ◌▷◌, Res, rmi_success, rmi_error_input, rmi_error_realm, rmi_error_rec,
  rmi_error_rtt, rmi_unassigned, rmi_assigned, rmi_table, rmi_no_measure_content,
  rmi_measure_content,
}
use tetd_test.Rmm.Validate.{validate_map_addr}

-- `S2TTE_AP_MASK` and `S2TTE_XN`
abbrev pub ap_mask : ℕ
ap_mask = 3 * 2 ^ 6

abbrev pub xn : ℕ
xn = 2 * 2 ^ 53

-- `~x`, in 64 bits.
abbrev pub not_64 : ℕ → ℕ
not_64 x = 2 ^ 64 - 1 - x

-- `s2tte &= ~S2TTE_AP_MASK; s2tte |= S2TTE_XN;`
unfoldable pub blocked : ℕ → ℕ
blocked s2tte = bit_or (bit_and s2tte (not_64 ap_mask)) xn

-- `s2tte |= S2TTE_AP_MASK; s2tte &= ~S2TTE_XN;`
unfoldable pub unblocked : ℕ → ℕ
unblocked s2tte = bit_and (bit_or s2tte ap_mask) (not_64 xn)

module _ (l : Layer) (w : World) where
  -- What the two calls share: they differ in the new entry alone.
  unfoldable pub change_access : (ℕ → ℕ) → (rd_addr map_addr : ℕ) → Outcome ℕ
  change_access change rd_addr map_addr =
      let rd = w.rd rd_addr in
      let wi = w.walk rd.g_rtt rd.starting_level rd.ipa_bits map_addr l.page_level in
      let s2tte = w.table wi.g_llt wi.index in
      let out : (ℕ → Outcome ℕ) = λ ret.
        unmap_buffer slot_rtt ▷ unlock g_llt ▷ unmap_buffer slot_rd ▷ unlock g_rd ▷ done ret in
      if w.find_lock rd_addr state_rd
      then lock g_rd rd_addr
        ▷ map_buffer slot_rd g_rd
        ▷ (if validate_map_addr l map_addr l.page_level rd
            then lock g_table_root rd.g_rtt
              ▷ unlock g_rd
              ▷ walk_to wi.g_llt
              ▷ map_buffer slot_rtt g_llt
              ▷ (if l.is_assigned_ram s2tte l.page_level
                  then write_entry wi.index (change s2tte)
                    ▷ invalidate_page map_addr
                    ▷ out rmi_success
                  else out rmi_error_rtt)
            else unmap_buffer slot_rd ▷ unlock g_rd ▷ done rmi_error_input)
      else done rmi_error_input

  -- `smc_ipa_block`
  unfoldable pub smc_ipa_block : (rd_addr map_addr : ℕ) → Outcome ℕ
  smc_ipa_block rd_addr map_addr = change_access blocked rd_addr map_addr

  -- `smc_ipa_unblock`
  unfoldable pub smc_ipa_unblock : (rd_addr map_addr : ℕ) → Outcome ℕ
  smc_ipa_unblock rd_addr map_addr = change_access unblocked rd_addr map_addr
