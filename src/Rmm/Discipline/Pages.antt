-- ===== src/Rmm/Discipline/Pages.antt =====
-- The calls on the pages of a realm and of the host keep the rules.
use tetd_test.Base.{ℕ, ◌≡◌, true, arith}
use tetd_test.Rmm.Interface.{Layer, World}
use tetd_test.Rmm.Outcome.{Res}
use tetd_test.Rmm.Discipline.{keeps, nothing}
use tetd_test.Rmm.Unprotected.{
  smc_rtt_map_unprotected, smc_rtt_unmap_unprotected, map_unmap_ns, map_ns_at, unmap_ns_at,
  first_result, smc_rtt_read_entry, entry_registers,
}
use tetd_test.Rmm.Data.{
  smc_data_create, smc_data_create_unknown, data_create, data_create_at, smc_data_destroy,
  data_destroy_at, destroy_data,
}

module _ (l : Layer) (w : World) where
  -- `smc_rtt_map_unprotected`, `smc_rtt_unmap_unprotected`, `smc_rtt_read_entry`,
  -- `smc_data_create`, `smc_data_create_unknown` and `smc_data_destroy` keep the rules of `next`
  -- on locks, buffers and entries on every path, up to an assertion that fails if one does, and
  -- hold nothing when they return.
  pub page_calls-keep_rules :
      (rd_addr data_addr map_addr src_addr flags level s2tte : ℕ) (res : Res)
      → (keeps nothing (smc_rtt_map_unprotected l w rd_addr map_addr level s2tte) ≡ true)
        × (keeps nothing (smc_rtt_unmap_unprotected l w rd_addr map_addr level res) ≡ true)
        × (keeps nothing (smc_rtt_read_entry l w rd_addr map_addr level res) ≡ true)
        × (keeps nothing (smc_data_create l w rd_addr data_addr map_addr src_addr flags) ≡ true)
        × (keeps nothing (smc_data_create_unknown l w rd_addr data_addr map_addr) ≡ true)
        × (keeps nothing (smc_data_destroy l w rd_addr map_addr res) ≡ true)
  unfolding keeps smc_rtt_map_unprotected map_unmap_ns map_ns_at first_result
      smc_rtt_unmap_unprotected unmap_ns_at smc_rtt_read_entry entry_registers smc_data_create
      smc_data_create_unknown data_create data_create_at smc_data_destroy data_destroy_at
      destroy_data
  page_calls-keep_rules rd_addr data_addr map_addr src_addr flags level s2tte res =
      (ground arith, ground arith, ground arith, ground arith, ground arith, ground arith)
