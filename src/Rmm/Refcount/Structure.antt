-- ===== src/Rmm/Refcount/Structure.antt =====
-- `smc_rtt_create`, `smc_rtt_fold` and `smc_rtt_destroy` keep the reference count of the table they
-- reach.
use tetd_test.Base.{ℕ, ◌-◌, ◌<◌, arith}
use tetd_test.Rmm.Interface.{Layer, World}
use tetd_test.Rmm.Outcome.{Res, table_after}
use tetd_test.Rmm.Refcount.{IsLive, refcount_after, reached, IsCounted, IsCountedAfter}
use tetd_test.Rmm.Refcount.Sum.{IsBalanced, IsBalanced-counts}
use tetd_test.Rmm.Structure.{
  smc_rtt_create, create_at, smc_rtt_fold, fold_table, fold_into, folded_unreferenced,
  folded_referenced, smc_rtt_destroy, destroy_table,
}

module _ (l : Layer) (w : World) (live : ℕ → ℕ → ℕ) (c : IsLive l live) where
  smc_rtt_create-IsBalanced :
      (rd_addr rtt_addr map_addr level : ℕ)
      → let wi = reached w rd_addr map_addr (level - 1) in
        IsBalanced
          (λ e. live e (level - 1))
          (w.refcount wi.g_llt)
          (w.table wi.g_llt)
          wi.index
          (smc_rtt_create l w rd_addr rtt_addr map_addr level)
  unfolding IsBalanced smc_rtt_create create_at refcount_after table_after
  smc_rtt_create-IsBalanced rd_addr rtt_addr map_addr level =
      let wi = reached w rd_addr map_addr (level - 1) in
      let e = w.table wi.g_llt wi.index in
      let n = level - 1 in
      (
        λ j other. ground arith,
        λ room. ground (
          arith,
          c.unassigned_empty_law e n,
          c.unassigned_ram_law e n,
          c.unassigned_ns_law e n,
          c.unassigned_destroyed_law e n,
          c.assigned_ns_law e n,
          c.assigned_empty_law e n,
          c.assigned_ram_law e n,
          c.assigned_destroyed_law e n,
          c.create_table_law rtt_addr n,
        ),
      )

  smc_rtt_fold-IsBalanced :
      (rd_addr map_addr level : ℕ) (res : Res)
      → let wi = reached w rd_addr map_addr (level - 1) in
        IsBalanced
          (λ e. live e (level - 1))
          (w.refcount wi.g_llt)
          (w.table wi.g_llt)
          wi.index
          (smc_rtt_fold l w rd_addr map_addr level res)
  unfolding IsBalanced smc_rtt_fold fold_table fold_into folded_unreferenced folded_referenced
      refcount_after table_after
  smc_rtt_fold-IsBalanced rd_addr map_addr level res =
      let wi = reached w rd_addr map_addr (level - 1) in
      let e = w.table wi.g_llt wi.index in
      let n = level - 1 in
      let table = w.table (l.pa_table e n) in
      let block_pa = l.pa (table 0) level in
      (
        λ j other. ground arith,
        λ room. ground (
          arith,
          c.table_law e n,
          c.create_unassigned_empty_law n,
          c.create_unassigned_ram_law n,
          c.create_unassigned_ns_law n,
          c.create_unassigned_destroyed_law n,
          c.create_assigned_ns_law (table 0) n,
          c.create_assigned_empty_law block_pa n,
          c.create_assigned_ram_law block_pa n,
          c.create_assigned_destroyed_law block_pa n,
        ),
      )

  smc_rtt_destroy-IsBalanced :
      (rd_addr map_addr level : ℕ) (res : Res)
      → let wi = reached w rd_addr map_addr (level - 1) in
        IsBalanced
          (λ e. live e (level - 1))
          (w.refcount wi.g_llt)
          (w.table wi.g_llt)
          wi.index
          (smc_rtt_destroy l w rd_addr map_addr level res)
  unfolding IsBalanced smc_rtt_destroy destroy_table refcount_after table_after
  smc_rtt_destroy-IsBalanced rd_addr map_addr level res =
      let wi = reached w rd_addr map_addr (level - 1) in
      let e = w.table wi.g_llt wi.index in
      let n = level - 1 in
      (
        λ j other. ground arith,
        λ room. ground (
          arith,
          c.table_law e n,
          c.create_unassigned_ns_law n,
          c.create_unassigned_destroyed_law n,
        ),
      )

  -- Let the index of the walk be within its table, and the reference count of that table be the
  -- number of its live entries, those with a page of the realm or with a table. Then it is so
  -- again after `smc_rtt_create`, `smc_rtt_fold` and `smc_rtt_destroy`, whatever they return.
  pub structure_calls-keep_count :
      (rd_addr rtt_addr map_addr level : ℕ) (res : Res)
      → (reached w rd_addr map_addr (level - 1)).index < l.entries_per_table
      → IsCounted l w (λ e. live e (level - 1)) (reached w rd_addr map_addr (level - 1)).g_llt
      → IsCountedAfter l w
          (λ e. live e (level - 1))
          (reached w rd_addr map_addr (level - 1)).g_llt
          (smc_rtt_create l w rd_addr rtt_addr map_addr level)
        × IsCountedAfter l w
            (λ e. live e (level - 1))
            (reached w rd_addr map_addr (level - 1)).g_llt
            (smc_rtt_fold l w rd_addr map_addr level res)
        × IsCountedAfter l w
            (λ e. live e (level - 1))
            (reached w rd_addr map_addr (level - 1)).g_llt
            (smc_rtt_destroy l w rd_addr map_addr level res)
  structure_calls-keep_count rd_addr rtt_addr map_addr level res lt counted =
      let wi = reached w rd_addr map_addr (level - 1) in
      let live_at : (ℕ → ℕ) = λ e. live e (level - 1) in
      let a = wi.g_llt in
      (
        IsBalanced-counts live_at (w.refcount a) (w.table a) wi.index l.entries_per_table _ lt
            counted (smc_rtt_create-IsBalanced rd_addr rtt_addr map_addr level),
        IsBalanced-counts live_at (w.refcount a) (w.table a) wi.index l.entries_per_table _ lt
            counted (smc_rtt_fold-IsBalanced rd_addr map_addr level res),
        IsBalanced-counts live_at (w.refcount a) (w.table a) wi.index l.entries_per_table _ lt
            counted (smc_rtt_destroy-IsBalanced rd_addr map_addr level res),
      )
