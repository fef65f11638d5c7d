-- ===== src/Rmm/Total.antt =====
-- The calls on single entries reach no failing assertion, and return.
use tetd_test.Base.{ℕ, ◌-◌, ◌≤◌, ◌≡◌, Bool, true, false, if◌then◌else◌, arith}
use tetd_test.Rmm.Interface.{Layer, World, Walk, state_data, state_rtt}
use tetd_test.Rmm.Outcome.{Outcome, done, panic, ◌▷◌, Res}
use tetd_test.Rmm.Refcount.{reached}
use tetd_test.Rmm.Validate.{validate_rtt_structure_cmds}
use tetd_test.Rmm.Structure.{
  smc_rtt_create, create_at, smc_rtt_fold, fold_table, fold_into, folded_unreferenced,
  folded_referenced, smc_rtt_destroy, destroy_table,
}
use tetd_test.Rmm.Unprotected.{smc_rtt_read_entry, entry_registers}
use tetd_test.Rmm.Data.{smc_data_destroy, data_destroy_at, destroy_data}

module _ {A : Type 0} where
  pub returns : Outcome A → Bool
  returns (done a) = true
  returns panic = false
  returns (e ▷ o) = returns o

-- The entry that a walk reaches.
abbrev pub entry_of : World → Walk → ℕ
entry_of w wi = w.table wi.g_llt wi.index

-- What the monitor maintains of the entries that walks reach, at their levels: an entry is of one of
-- the kinds, a table entry leads to a table, an assigned page to a data granule, and there are
-- blocks from `min_block_level` on only.
pub record IsSound (l : Layer) (w : World) : Type 0 where
  pub kind_law :
      (rd_addr map_addr level : ℕ)
      → let wi = reached w rd_addr map_addr level in
        (if l.is_unassigned_empty (entry_of w wi)
          then true
          else if l.is_unassigned_ram (entry_of w wi)
          then true
          else if l.is_unassigned_destroyed (entry_of w wi)
          then true
          else if l.is_unassigned_ns (entry_of w wi)
          then true
          else if l.is_assigned_empty (entry_of w wi) wi.last_level
          then true
          else if l.is_assigned_ram (entry_of w wi) wi.last_level
          then true
          else if l.is_assigned_destroyed (entry_of w wi) wi.last_level
          then true
          else if l.is_assigned_ns (entry_of w wi) wi.last_level
          then true
          else l.is_table (entry_of w wi) wi.last_level)
        ≡ true
  pub table_law :
      (rd_addr map_addr level : ℕ)
      → let wi = reached w rd_addr map_addr level in
        l.is_table (entry_of w wi) wi.last_level ≡ true
        → w.find_lock (l.pa_table (entry_of w wi) wi.last_level) state_rtt ≡ true
  pub data_law :
      (rd_addr map_addr level : ℕ)
      → let wi = reached w rd_addr map_addr level in
        wi.last_level ≡ l.page_level
        → (if l.is_assigned_ram (entry_of w wi) l.page_level
            then true
            else if l.is_assigned_empty (entry_of w wi) l.page_level
            then true
            else l.is_assigned_destroyed (entry_of w wi) l.page_level)
          ≡ true
        → w.find_lock (l.pa (entry_of w wi) l.page_level) state_data ≡ true
  pub block_law :
      (rd_addr map_addr level : ℕ)
      → let wi = reached w rd_addr map_addr level in
        (if l.is_assigned_ram (entry_of w wi) wi.last_level
            then true
            else if l.is_assigned_empty (entry_of w wi) wi.last_level
            then true
            else if l.is_assigned_destroyed (entry_of w wi) wi.last_level
            then true
            else l.is_assigned_ns (entry_of w wi) wi.last_level)
          ≡ true
        → l.min_block_level ≤ wi.last_level

module _ (l : Layer) (w : World) (s : IsSound l w) where
  -- Let the entries that walks reach be each of one of the kinds, with a table granule behind
  -- each table entry, a data granule behind each assigned page, and blocks from the least block
  -- level on only. Then `smc_rtt_create`, `smc_rtt_fold`, `smc_rtt_destroy`, `smc_rtt_read_entry`
  -- and `smc_data_destroy` reach no failing assertion, and return.
  pub calls-return :
      (rd_addr rtt_addr map_addr level : ℕ) (res : Res)
      → (returns (smc_rtt_create l w rd_addr rtt_addr map_addr level) ≡ true)
        × (returns (smc_rtt_fold l w rd_addr map_addr level res) ≡ true)
        × (returns (smc_rtt_destroy l w rd_addr map_addr level res) ≡ true)
        × (returns (smc_rtt_read_entry l w rd_addr map_addr level res) ≡ true)
        × (returns (smc_data_destroy l w rd_addr map_addr res) ≡ true)
  unfolding returns smc_rtt_create create_at smc_rtt_fold fold_table fold_into folded_unreferenced
      folded_referenced smc_rtt_destroy destroy_table smc_rtt_read_entry entry_registers
      smc_data_destroy data_destroy_at destroy_data validate_rtt_structure_cmds
  calls-return rd_addr rtt_addr map_addr level res = (
    ground
        (arith, s.kind_law rd_addr map_addr (level - 1), s.block_law rd_addr map_addr (level - 1)),
    ground (arith, s.table_law rd_addr map_addr (level - 1)),
    ground (arith, s.table_law rd_addr map_addr (level - 1)),
    ground (arith, s.kind_law rd_addr map_addr level),
    ground (arith, s.data_law rd_addr map_addr l.page_level),
  )
