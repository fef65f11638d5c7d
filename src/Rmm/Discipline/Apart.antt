-- ===== src/Rmm/Discipline/Apart.antt =====
-- `smc_rtt_create`, `smc_rtt_fold` and `smc_rtt_destroy` lock no granule that they hold.
use tetd_test.Base.{
  ℕ, ◌-◌, ◌≡◌, refl, true, false, ◌==◌, [], inl, inr, Bool-cases, if◌then◌else◌, arith,
}
use tetd_test.Rmm.Interface.{state_delegated, state_rd, state_rtt, Layer, World}
use tetd_test.Rmm.Outcome.{Res}
use tetd_test.Rmm.Refcount.{reached}
use tetd_test.Rmm.Discipline.Addresses.{keeps_addresses, IsApart, states-apart}
use tetd_test.Rmm.Structure.{
  smc_rtt_create, create_at, smc_rtt_fold, fold_table, fold_into, folded_unreferenced,
  folded_referenced, smc_rtt_destroy, destroy_table,
}

module _ (l : Layer) (w : World) (apart : IsApart l w) where
  found-create-keeps_addresses :
      (rd_addr rtt_addr map_addr level : ℕ)
      → w.find_lock_two rtt_addr state_delegated rd_addr state_rd ≡ true
      → keeps_addresses map_addr [] (smc_rtt_create l w rd_addr rtt_addr map_addr level) ≡ true
  unfolding keeps_addresses smc_rtt_create create_at
  found-create-keeps_addresses rd_addr rtt_addr map_addr level h =
      let f = apart.found_two_law rtt_addr state_delegated rd_addr state_rd h in
      let g_rtt = (w.rd rd_addr).g_rtt in
      let g_llt = (reached w rd_addr map_addr (level - 1)).g_llt in
      let root = apart.root_law rd_addr (f.1) in
      let table = apart.walk_law rd_addr map_addr (level - 1) (f.1) in
      ground (
        arith,
        h,
        states-apart w.state_of rd_addr rtt_addr state_rd state_delegated (f.1) (f.0) refl,
        states-apart w.state_of g_rtt rd_addr state_rtt state_rd root (f.1) refl,
        states-apart w.state_of g_rtt rtt_addr state_rtt state_delegated root (f.0) refl,
        states-apart w.state_of g_llt rtt_addr state_rtt state_delegated table (f.0) refl,
      )

  pub create-keeps_addresses :
      (rd_addr rtt_addr map_addr level : ℕ)
      → keeps_addresses map_addr [] (smc_rtt_create l w rd_addr rtt_addr map_addr level) ≡ true
  unfolding keeps_addresses smc_rtt_create
  create-keeps_addresses rd_addr rtt_addr map_addr level =
      elim (Bool-cases (w.find_lock_two rtt_addr state_delegated rd_addr state_rd)) [
        | inl h ↦ found-create-keeps_addresses rd_addr rtt_addr map_addr level h
        | inr h ↦ ground (arith, h)
      ]

  -- The table that an entry leads to is not the one that it stands in.
  self-free :
      (rd_addr map_addr level : ℕ)
      → w.find_lock rd_addr state_rd ≡ true
      → let wi = reached w rd_addr map_addr level in
        let e = w.table wi.g_llt wi.index in
        (if l.is_table e level then l.pa_table e level == wi.g_llt else false) ≡ false
  self-free rd_addr map_addr level h =
      let wi = reached w rd_addr map_addr level in
      let e = w.table wi.g_llt wi.index in
      elim (Bool-cases (l.is_table e level)) [
        | inl t ↦
            ground
              (arith, apart.tree_law rd_addr map_addr level (apart.found_law rd_addr state_rd h) t)
        | inr t ↦ ground (arith, t)
      ]

  root-apart :
      (rd_addr : ℕ)
      → w.find_lock rd_addr state_rd ≡ true
      → ((w.rd rd_addr).g_rtt == rd_addr) ≡ false
  root-apart rd_addr h =
      let f = apart.found_law rd_addr state_rd h in
      states-apart w.state_of ((w.rd rd_addr).g_rtt) rd_addr state_rtt state_rd
        (apart.root_law rd_addr f) f refl

  pub fold-keeps_addresses :
      (rd_addr map_addr level : ℕ) (res : Res)
      → keeps_addresses map_addr [] (smc_rtt_fold l w rd_addr map_addr level res) ≡ true
  unfolding keeps_addresses smc_rtt_fold fold_table fold_into folded_unreferenced folded_referenced
  fold-keeps_addresses rd_addr map_addr level res =
      elim (Bool-cases (w.find_lock rd_addr state_rd)) [
        | inl h ↦ ground (arith, h, root-apart rd_addr h, self-free rd_addr map_addr (level - 1) h)
        | inr h ↦ ground (arith, h)
      ]

  pub destroy-keeps_addresses :
      (rd_addr map_addr level : ℕ) (res : Res)
      → keeps_addresses map_addr [] (smc_rtt_destroy l w rd_addr map_addr level res) ≡ true
  unfolding keeps_addresses smc_rtt_destroy destroy_table
  destroy-keeps_addresses rd_addr map_addr level res =
      elim (Bool-cases (w.find_lock rd_addr state_rd)) [
        | inl h ↦ ground (arith, h, root-apart rd_addr h, self-free rd_addr map_addr (level - 1) h)
        | inr h ↦ ground (arith, h)
      ]
