-- ===== src/Rmm/Discipline/Structure.antt =====
-- `smc_rtt_create`, `smc_rtt_fold` and `smc_rtt_destroy` keep the rules.
use tetd_test.Base.{ℕ, ◌≡◌, true, [], arith}
use tetd_test.Rmm.Interface.{Layer, World}
use tetd_test.Rmm.Outcome.{Res}
use tetd_test.Rmm.Discipline.{keeps, nothing}
use tetd_test.Rmm.Discipline.Addresses.{keeps_addresses, IsApart}
use tetd_test.Rmm.Discipline.Apart.{
  create-keeps_addresses, fold-keeps_addresses, destroy-keeps_addresses,
}
use tetd_test.Rmm.Structure.{
  smc_rtt_create, create_at, smc_rtt_fold, fold_table, fold_into, folded_unreferenced,
  folded_referenced, smc_rtt_destroy, destroy_table,
}

module _ (l : Layer) (w : World) where
  pub create-keeps :
      (rd_addr rtt_addr map_addr level : ℕ)
      → keeps nothing (smc_rtt_create l w rd_addr rtt_addr map_addr level) ≡ true
  unfolding keeps smc_rtt_create create_at
  create-keeps rd_addr rtt_addr map_addr level = ground arith

  pub fold-keeps :
      (rd_addr map_addr level : ℕ) (res : Res)
      → keeps nothing (smc_rtt_fold l w rd_addr map_addr level res) ≡ true
  unfolding keeps smc_rtt_fold fold_table fold_into folded_unreferenced folded_referenced
  fold-keeps rd_addr map_addr level res = ground arith

  pub destroy-keeps :
      (rd_addr map_addr level : ℕ) (res : Res)
      → keeps nothing (smc_rtt_destroy l w rd_addr map_addr level res) ≡ true
  unfolding keeps smc_rtt_destroy destroy_table
  destroy-keeps rd_addr map_addr level res = ground arith

  -- Let granules be found in the state that is asked for, the tables of a realm be in the state
  -- of a table, and no table have an entry for itself. Then `smc_rtt_create`, `smc_rtt_fold` and
  -- `smc_rtt_destroy` keep the rules of `next` on locks, buffers and entries on every path, with
  -- the locks told apart by the variable that holds the granule: a variable is locked while it
  -- holds no lock, and unlocked under its lock when its buffer is not mapped; no slot is mapped
  -- twice or for an unlocked granule; reference counts and states change only under the lock; an
  -- entry of the parent table that was set to 0 is written again only after an invalidation of
  -- the TLB. A call that returns holds no lock and no buffer and leaves no entry in between; one
  -- that fails an assertion keeps the rules until then. They keep the rules of `follow` on
  -- addresses as well: no granule is locked again while it is locked, under whatever variable,
  -- and every invalidation is of the address `map_addr` of the call.
  pub structure_calls-keep_rules :
      IsApart l w
      → (rd_addr rtt_addr map_addr level : ℕ) (res : Res)
      → let create = smc_rtt_create l w rd_addr rtt_addr map_addr level in
        let fold = smc_rtt_fold l w rd_addr map_addr level res in
        let destroy = smc_rtt_destroy l w rd_addr map_addr level res in
        (keeps nothing create ≡ true)
        × (keeps nothing fold ≡ true)
        × (keeps nothing destroy ≡ true)
        × (keeps_addresses map_addr [] create ≡ true)
        × (keeps_addresses map_addr [] fold ≡ true)
        × (keeps_addresses map_addr [] destroy ≡ true)
  structure_calls-keep_rules apart rd_addr rtt_addr map_addr level res = (
    create-keeps rd_addr rtt_addr map_addr level,
    fold-keeps rd_addr map_addr level res,
    destroy-keeps rd_addr map_addr level res,
    create-keeps_addresses l w apart rd_addr rtt_addr map_addr level,
    fold-keeps_addresses l w apart rd_addr map_addr level res,
    destroy-keeps_addresses l w apart rd_addr map_addr level res,
  )
