-- ===== src/Rmm/Quiet/Calls.antt =====
-- The calls on single entries change a table only if they succeed.
use tetd_test.Base.{ℕ, ◌≡◌, true, false, arith}
use tetd_test.Rmm.Interface.{Layer, World}
use tetd_test.Rmm.Outcome.{Res}
use tetd_test.Rmm.Quiet.{changes_on_success, own_status, res_status}
use tetd_test.Rmm.Structure.{
  smc_rtt_create, create_at, smc_rtt_fold, fold_table, fold_into, folded_unreferenced,
  folded_referenced, smc_rtt_destroy, destroy_table,
}
use tetd_test.Rmm.Unprotected.{
  smc_rtt_map_unprotected, smc_rtt_unmap_unprotected, map_unmap_ns, map_ns_at, unmap_ns_at,
  first_result,
}
use tetd_test.Rmm.Data.{
  smc_data_create, smc_data_create_unknown, data_create, data_create_at, smc_data_destroy,
  data_destroy_at, destroy_data,
}

module _ (l : Layer) (w : World) where
  -- When `smc_rtt_create`, `smc_rtt_fold` or `smc_rtt_destroy` returns an error, it has changed
  -- no entry, no reference count and no table.
  pub structure_calls-change_on_success :
      (rd_addr rtt_addr map_addr level : ℕ) (res : Res)
      → (changes_on_success own_status false (smc_rtt_create l w rd_addr rtt_addr map_addr level)
          ≡ true)
        × (changes_on_success res_status false (smc_rtt_fold l w rd_addr map_addr level res) ≡ true)
        × (changes_on_success res_status false (smc_rtt_destroy l w rd_addr map_addr level res)
            ≡ true)
  unfolding changes_on_success smc_rtt_create create_at smc_rtt_fold fold_table fold_into
      folded_unreferenced folded_referenced smc_rtt_destroy destroy_table
  structure_calls-change_on_success rd_addr rtt_addr map_addr level res =
      (ground arith, ground arith, ground arith)

  -- When a call on one page returns an error, it has changed no entry, no reference count and no
  -- table; the calls are `smc_rtt_map_unprotected`, `smc_rtt_unmap_unprotected`,
  -- `smc_data_create`, `smc_data_create_unknown` and `smc_data_destroy`.
  pub page_calls-change_on_success :
      (rd_addr data_addr map_addr src_addr flags level s2tte : ℕ) (res : Res)
      → (changes_on_success own_status false
            (smc_rtt_map_unprotected l w rd_addr map_addr level s2tte)
          ≡ true)
        × (changes_on_success res_status false
              (smc_rtt_unmap_unprotected l w rd_addr map_addr level res)
            ≡ true)
        × (changes_on_success own_status false
              (smc_data_create l w rd_addr data_addr map_addr src_addr flags)
            ≡ true)
        × (changes_on_success own_status false
              (smc_data_create_unknown l w rd_addr data_addr map_addr)
            ≡ true)
        × (changes_on_success res_status false (smc_data_destroy l w rd_addr map_addr res) ≡ true)
  unfolding changes_on_success smc_rtt_map_unprotected map_unmap_ns map_ns_at unmap_ns_at
      first_result smc_rtt_unmap_unprotected smc_data_create smc_data_create_unknown data_create
      data_create_at smc_data_destroy data_destroy_at destroy_data
  page_calls-change_on_success rd_addr data_addr map_addr src_addr flags level s2tte res =
      (ground arith, ground arith, ground arith, ground arith, ground arith)
