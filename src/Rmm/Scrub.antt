-- ===== src/Rmm/Scrub.antt =====
-- A granule returns to the delegated state without content and without references.
use tetd_test.Base.{ℕ, ◌+◌, ◌-◌, ◌≡◌, Bool, true, false, ◌==◌, if◌then◌else◌, arith}
use tetd_test.Rmm.Interface.{Layer, World, state_delegated}
use tetd_test.Rmm.Outcome.{
  Outcome, done, panic, ◌▷◌, Res, g_data, g_tbl, copy_in, zero_granule, init_table, refcount_inc,
  refcount_dec, set_state,
}
use tetd_test.Rmm.Refcount.{reached}
use tetd_test.Rmm.Structure.{
  smc_rtt_create, create_at, smc_rtt_fold, fold_table, fold_into, folded_unreferenced,
  folded_referenced, smc_rtt_destroy, destroy_table,
}
use tetd_test.Rmm.Data.{
  smc_data_create, smc_data_create_unknown, data_create, data_create_at, smc_data_destroy,
  data_destroy_at, destroy_data,
}

-- What the data granule and the table granule of a call hold: whether there may be content in them,
-- and how many references the table has.
pub record Content : Type 0 where
  pub page : Bool
  pub table : Bool
  pub references : ℕ

module _ {A : Type 0} where
  -- `g_data` and `g_tbl` are set to the delegated state only when they are empty, and `g_tbl` only
  -- without references.
  pub scrubs : Content → Outcome A → Bool
  scrubs s (done a) = true
  scrubs s panic = true
  scrubs s (copy_in g_data a ▷ o) = scrubs (record s { page = true }) o
  scrubs s (zero_granule g_data ▷ o) = scrubs (record s { page = false }) o
  scrubs s (zero_granule g_tbl ▷ o) = scrubs (record s { table = false }) o
  scrubs s (init_table g_tbl f ▷ o) = scrubs (record s { table = true }) o
  scrubs s (refcount_inc g_tbl n ▷ o) = scrubs (record s { references = s.references + n }) o
  scrubs s (refcount_dec g_tbl n ▷ o) = scrubs (record s { references = s.references - n }) o
  scrubs s (set_state g_data state_delegated ▷ o) = if s.page then false else scrubs s o
  scrubs s (set_state g_tbl state_delegated ▷ o) =
      if s.table then false else if s.references == 0 then scrubs s o else false
  scrubs s (e ▷ o) = scrubs s o

-- Granules that are delegated when the call starts, and those that are in use.
abbrev pub delegated : Content
delegated = record { page = false; table = false; references = 0 }

abbrev pub in_use : (references : ℕ) → Content
in_use n = record { page = true; table = true; references = n }

module _ (l : Layer) (w : World) where
  -- The calls that create and take away tables and pages set a table or a data granule to the
  -- delegated state only when no content can be in it, since it came in delegated or was zeroed
  -- after its last content, and a table only when its reference count is 0.
  pub calls-scrub :
      (rd_addr rtt_addr data_addr map_addr src_addr flags level : ℕ) (res : Res)
      → let wi = reached w rd_addr map_addr (level - 1) in
        let folded = l.pa_table (w.table wi.g_llt wi.index) (level - 1) in
        (scrubs delegated (smc_rtt_create l w rd_addr rtt_addr map_addr level) ≡ true)
        × (scrubs (in_use (w.refcount folded)) (smc_rtt_fold l w rd_addr map_addr level res) ≡ true)
        × (scrubs (in_use (w.refcount folded)) (smc_rtt_destroy l w rd_addr map_addr level res)
            ≡ true)
        × (scrubs delegated (smc_data_create l w rd_addr data_addr map_addr src_addr flags) ≡ true)
        × (scrubs delegated (smc_data_create_unknown l w rd_addr data_addr map_addr) ≡ true)
        × (scrubs (in_use 0) (smc_data_destroy l w rd_addr map_addr res) ≡ true)
  unfolding scrubs smc_rtt_create create_at smc_rtt_fold fold_table fold_into folded_unreferenced
      folded_referenced smc_rtt_destroy destroy_table smc_data_create smc_data_create_unknown
      data_create data_create_at smc_data_destroy data_destroy_at destroy_data
  calls-scrub rd_addr rtt_addr data_addr map_addr src_addr flags level res =
      (ground arith, ground arith, ground arith, ground arith, ground arith, ground arith)
