-- ===== src/Rmm/Refcount/Pages.antt =====
-- The calls on pages of the realm and of the host keep the reference count of the table they reach.
use tetd_test.Base.{ℕ, ◌<◌, arith}
use tetd_test.Rmm.Interface.{Layer, World}
use tetd_test.Rmm.Outcome.{Res, table_after}
use tetd_test.Rmm.Refcount.{IsLive, refcount_after, reached, IsCounted, IsCountedAfter}
use tetd_test.Rmm.Refcount.Sum.{IsBalanced, IsBalanced-counts}
use tetd_test.Rmm.Unprotected.{
  smc_rtt_map_unprotected, smc_rtt_unmap_unprotected, map_unmap_ns, map_ns_at, unmap_ns_at,
  first_result,
}
use tetd_test.Rmm.Data.{
  smc_data_create, smc_data_create_unknown, data_create, data_create_at, smc_data_destroy,
  data_destroy_at, destroy_data,
}

module _ (l : Layer) (w : World) (live : ℕ → ℕ → ℕ) (c : IsLive l live) where
  smc_rtt_map_unprotected-IsBalanced :
      (rd_addr map_addr level s2tte : ℕ)
      → let wi = reached w rd_addr map_addr level in
        IsBalanced
          (λ e. live e level)
          (w.refcount wi.g_llt)
          (w.table wi.g_llt)
          wi.index
          (smc_rtt_map_unprotected l w rd_addr map_addr level s2tte)
  unfolding IsBalanced smc_rtt_map_unprotected map_unmap_ns map_ns_at first_result refcount_after
      table_after
  smc_rtt_map_unprotected-IsBalanced rd_addr map_addr level s2tte =
      let wi = reached w rd_addr map_addr level in
      let e = w.table wi.g_llt wi.index in
      let n = level in
      (
        λ j other. ground arith,
        λ room. ground (arith, c.unassigned_ns_law e n, c.create_assigned_ns_law s2tte n),
      )

  smc_rtt_unmap_unprotected-IsBalanced :
      (rd_addr map_addr level : ℕ) (res : Res)
      → let wi = reached w rd_addr map_addr level in
        IsBalanced
          (λ e. live e level)
          (w.refcount wi.g_llt)
          (w.table wi.g_llt)
          wi.index
          (smc_rtt_unmap_unprotected l w rd_addr map_addr level res)
  unfolding IsBalanced smc_rtt_unmap_unprotected map_unmap_ns unmap_ns_at refcount_after table_after
  smc_rtt_unmap_unprotected-IsBalanced rd_addr map_addr level res =
      let wi = reached w rd_addr map_addr level in
      let e = w.table wi.g_llt wi.index in
      let n = level in
      (
        λ j other. ground arith,
        λ room. ground (arith, c.assigned_ns_law e n, c.create_unassigned_ns_law n),
      )

  smc_data_create-IsBalanced :
      (rd_addr data_addr map_addr src_addr flags : ℕ)
      → let wi = reached w rd_addr map_addr l.page_level in
        IsBalanced
          (λ e. live e l.page_level)
          (w.refcount wi.g_llt)
          (w.table wi.g_llt)
          wi.index
          (smc_data_create l w rd_addr data_addr map_addr src_addr flags)
  unfolding IsBalanced smc_data_create data_create data_create_at refcount_after table_after
  smc_data_create-IsBalanced rd_addr data_addr map_addr src_addr flags =
      let wi = reached w rd_addr map_addr l.page_level in
      let e = w.table wi.g_llt wi.index in
      let n = l.page_level in
      (
        λ j other. ground arith,
        λ room. ground (arith, c.unassigned_law e n, c.create_assigned_ram_law data_addr n),
      )

  smc_data_create_unknown-IsBalanced :
      (rd_addr data_addr map_addr : ℕ)
      → let wi = reached w rd_addr map_addr l.page_level in
        IsBalanced
          (λ e. live e l.page_level)
          (w.refcount wi.g_llt)
          (w.table wi.g_llt)
          wi.index
          (smc_data_create_unknown l w rd_addr data_addr map_addr)
  unfolding IsBalanced smc_data_create_unknown data_create data_create_at refcount_after table_after
  smc_data_create_unknown-IsBalanced rd_addr data_addr map_addr =
      let wi = reached w rd_addr map_addr l.page_level in
      let e = w.table wi.g_llt wi.index in
      let n = l.page_level in
      (
        λ j other. ground arith,
        λ room. ground (arith, c.unassigned_law e n, c.create_assigned_unchanged_law e data_addr n),
      )

  smc_data_destroy-IsBalanced :
      (rd_addr map_addr : ℕ) (res : Res)
      → let wi = reached w rd_addr map_addr l.page_level in
        IsBalanced
          (λ e. live e l.page_level)
          (w.refcount wi.g_llt)
          (w.table wi.g_llt)
          wi.index
          (smc_data_destroy l w rd_addr map_addr res)
  unfolding IsBalanced smc_data_destroy data_destroy_at destroy_data refcount_after table_after
  smc_data_destroy-IsBalanced rd_addr map_addr res =
      let wi = reached w rd_addr map_addr l.page_level in
      let e = w.table wi.g_llt wi.index in
      let n = l.page_level in
      (
        λ j other. ground arith,
        λ room. ground (
          arith,
          c.assigned_ram_law e n,
          c.assigned_empty_law e n,
          c.assigned_destroyed_law e n,
          c.create_unassigned_empty_law n,
          c.create_unassigned_destroyed_law n,
        ),
      )

  -- Let the index of the walk be within its table, and the reference count of that table be the
  -- number of its live entries, among which pages of the host do not count. Then it is so again
  -- after `smc_rtt_map_unprotected` and `smc_rtt_unmap_unprotected`, whatever they return.
  pub host_page_calls-keep_count :
      (rd_addr map_addr level s2tte : ℕ) (res : Res)
      → (reached w rd_addr map_addr level).index < l.entries_per_table
      → IsCounted l w (λ e. live e level) (reached w rd_addr map_addr level).g_llt
      → IsCountedAfter l w
          (λ e. live e level)
          (reached w rd_addr map_addr level).g_llt
          (smc_rtt_map_unprotected l w rd_addr map_addr level s2tte)
        × IsCountedAfter l w
            (λ e. live e level)
            (reached w rd_addr map_addr level).g_llt
            (smc_rtt_unmap_unprotected l w rd_addr map_addr level res)
  host_page_calls-keep_count rd_addr map_addr level s2tte res lt counted =
      let wi = reached w rd_addr map_addr level in
      let live_at : (ℕ → ℕ) = λ e. live e level in
      let a = wi.g_llt in
      (
        IsBalanced-counts live_at (w.refcount a) (w.table a) wi.index l.entries_per_table _ lt
            counted (smc_rtt_map_unprotected-IsBalanced rd_addr map_addr level s2tte),
        IsBalanced-counts live_at (w.refcount a) (w.table a) wi.index l.entries_per_table _ lt
            counted (smc_rtt_unmap_unprotected-IsBalanced rd_addr map_addr level res),
      )

  -- Let the index of the walk be within its table, and the reference count of that table be the
  -- number of its live entries. Then it is so again after `smc_data_create`,
  -- `smc_data_create_unknown` and `smc_data_destroy`, whatever they return.
  pub data_calls-keep_count :
      (rd_addr data_addr map_addr src_addr flags : ℕ) (res : Res)
      → (reached w rd_addr map_addr l.page_level).index < l.entries_per_table
      → IsCounted l w (λ e. live e l.page_level) (reached w rd_addr map_addr l.page_level).g_llt
      → IsCountedAfter l w
          (λ e. live e l.page_level)
          (reached w rd_addr map_addr l.page_level).g_llt
          (smc_data_create l w rd_addr data_addr map_addr src_addr flags)
        × IsCountedAfter l w
            (λ e. live e l.page_level)
            (reached w rd_addr map_addr l.page_level).g_llt
            (smc_data_create_unknown l w rd_addr data_addr map_addr)
        × IsCountedAfter l w
            (λ e. live e l.page_level)
            (reached w rd_addr map_addr l.page_level).g_llt
            (smc_data_destroy l w rd_addr map_addr res)
  data_calls-keep_count rd_addr data_addr map_addr src_addr flags res lt counted =
      let wi = reached w rd_addr map_addr l.page_level in
      let live_at : (ℕ → ℕ) = λ e. live e l.page_level in
      let a = wi.g_llt in
      (
        IsBalanced-counts live_at (w.refcount a) (w.table a) wi.index l.entries_per_table _ lt
            counted (smc_data_create-IsBalanced rd_addr data_addr map_addr src_addr flags),
        IsBalanced-counts live_at (w.refcount a) (w.table a) wi.index l.entries_per_table _ lt
            counted (smc_data_create_unknown-IsBalanced rd_addr data_addr map_addr),
        IsBalanced-counts live_at (w.refcount a) (w.table a) wi.index l.entries_per_table _ lt
            counted (smc_data_destroy-IsBalanced rd_addr map_addr res),
      )
