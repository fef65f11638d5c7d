-- ===== src/Rmm/Entry/Fold/Undone.antt =====
-- The fold of a table that `smc_rtt_create` made.
use tetd_test.Base.{
  ℕ, ◌-◌, ◌≡◌, refl, sym, ap, ◌∙◌, true, false, some, if◌then◌else◌, ltb, ◌==◌, arith,
}
use tetd_test.Rmm.Interface.{Table, Layer, World, Walk, state_rd, state_rtt, state_delegated}
use tetd_test.Rmm.Outcome.{Fill, Outcome, result, table_after, rmi_success, Res}
use tetd_test.Rmm.Validate.{validate_rtt_structure_cmds}
use tetd_test.Rmm.Structure.{smc_rtt_create, create_at, smc_rtt_fold, fold_table, fold_into}
use tetd_test.Rmm.Refcount.{reached}
use tetd_test.Rmm.Entry.{View, IsCoded}
use tetd_test.Rmm.Entry.Fold.{IsFilled, IsFoundAfter, fill_of, filled_with, references, is_to_table}
use tetd_test.Rmm.Total.{entry_of}
use tetd_test.Rmm.Entry.Fold.Created.{references_of, view-Tested, Created, create_at-Created}
use tetd_test.Rmm.Entry.Fold.Folded.{folded, view-FoldsBack}

module _ (l : Layer) (view : ℕ → ℕ → View) (fill : Fill → Table) (c : IsCoded l view)
    (k : IsFilled l view fill) where
  fold_table-folds :
      (w : World) (res : Res) (rtt_addr map_addr level s : ℕ) (wi : Walk) (t : Table)
      → folded l view fill c k w (w.table rtt_addr) (w.refcount rtt_addr) level ≡ some s
      → (if w.refcount rtt_addr == 0 then true else w.refcount rtt_addr == l.entries_per_table)
        ≡ true
      → ltb l.min_block_level level ≡ true
      → (result (fold_table l w res rtt_addr map_addr level wi)
          ≡ some (record res { x0 = rmi_success; x1 = rtt_addr }))
        × (table_after t (fold_table l w res rtt_addr map_addr level wi) wi.index ≡ s)
  unfolding fold_table fold_into result table_after
  fold_table-folds w res rtt_addr map_addr level s wi t f r b = (ground arith, ground arith)

  -- A call of `smc_rtt_create` that gets to the entry comes to what `create_at` comes to.
  reaching-Created :
      (w : World) (rd_addr rtt_addr map_addr level : ℕ) (v : View)
      → w.find_lock_two rtt_addr state_delegated rd_addr state_rd ≡ true
      → validate_rtt_structure_cmds l map_addr level (w.rd rd_addr) ≡ true
      → (reached w rd_addr map_addr (level - 1)).last_level ≡ level - 1
      → (let wi = reached w rd_addr map_addr (level - 1) in
          Created l view fill c k
            (create_at l w rtt_addr map_addr level wi)
            (w.table wi.g_llt)
            wi
            v
            rtt_addr
            level)
      → (let wi = reached w rd_addr map_addr (level - 1) in
          Created l view fill c k
            (smc_rtt_create l w rd_addr rtt_addr map_addr level)
            (w.table wi.g_llt)
            wi
            v
            rtt_addr
            level)
  unfolding smc_rtt_create result filled_with references table_after
  reaching-Created w rd_addr rtt_addr map_addr level v lock valid at d = record {
    succeeds = ground (arith, d.succeeds);
    content = ground (arith, d.content);
    count = ground (arith, d.count);
    entry = ground (arith, d.entry);
  }

  -- A call of `smc_rtt_fold` that gets to a table comes to what `fold_table` comes to.
  reaching-folds :
      (w : World) (rd_addr rtt_addr map_addr level : ℕ) (res : Res)
      → l.addr_is_level_aligned rtt_addr l.page_level ≡ true
      → w.find_lock rd_addr state_rd ≡ true
      → validate_rtt_structure_cmds l map_addr level (w.rd rd_addr) ≡ true
      → (reached w rd_addr map_addr (level - 1)).last_level ≡ level - 1
      → (let wi = reached w rd_addr map_addr (level - 1) in
          w.table wi.g_llt wi.index ≡ l.create_table rtt_addr (level - 1))
      → w.find_lock rtt_addr state_rtt ≡ true
      → (let wi = reached w rd_addr map_addr (level - 1) in
          (result (smc_rtt_fold l w rd_addr map_addr level res)
            ≡ result (fold_table l w res rtt_addr map_addr level wi))
          × (table_after (w.table wi.g_llt) (smc_rtt_fold l w rd_addr map_addr level res) wi.index
              ≡ table_after
                  (w.table wi.g_llt)
                  (fold_table l w res rtt_addr map_addr level wi)
                  wi.index))
  unfolding smc_rtt_fold result table_after
  reaching-folds w rd_addr rtt_addr map_addr level res aligned lock valid at e found =
      let is : (l.is_table (l.create_table rtt_addr (level - 1)) (level - 1) ≡ true) =
        k.table_law _ _ ∙ ap is_to_table (k.create_table_law rtt_addr (level - 1)) in
      let pa = k.pa_table_law rtt_addr (level - 1) aligned in (ground arith, ground arith)

  counted_of :
      (v : View) (n : ℕ) → (if references_of v n == 0 then true else references_of v n == n) ≡ true
  counted_of v n = ground arith

  -- The fold, by what the creation came to.
  folds_after_creation :
      (w w' : World) (rd_addr rtt_addr map_addr level : ℕ) (res : Res) (v : View)
      → ltb 0 l.entries_per_table ≡ true
      → l.addr_is_level_aligned rtt_addr l.page_level ≡ true
      → is_to_table v ≡ false
      → validate_rtt_structure_cmds l map_addr level (w.rd rd_addr) ≡ true
      → (reached w rd_addr map_addr (level - 1)).last_level ≡ level - 1
      → ltb l.min_block_level level ≡ true
      → IsFoundAfter w w' fill rd_addr rtt_addr map_addr level
          (smc_rtt_create l w rd_addr rtt_addr map_addr level)
      → (let wi = reached w rd_addr map_addr (level - 1) in
          (view (w.table wi.g_llt wi.index) (level - 1) ≡ v)
          × Created l view fill c k
              (smc_rtt_create l w rd_addr rtt_addr map_addr level)
              (w.table wi.g_llt)
              wi
              v
              rtt_addr
              level)
      → (let wi = reached w rd_addr map_addr (level - 1) in
          let o = smc_rtt_fold l w' rd_addr map_addr level res in
          (result o ≡ some (record res { x0 = rmi_success; x1 = rtt_addr }))
          × (view (table_after (w'.table wi.g_llt) o wi.index) (level - 1) ≡ v))
  folds_after_creation w w' rd_addr rtt_addr map_addr level res v n aligned h valid at below found
        (q, d) =
      let wi = reached w rd_addr map_addr (level - 1) in
      let (s, f, back) =
        view-FoldsBack l view fill c k w' v (w.table wi.g_llt wi.index) level n h q in
      let t =
        found.content
          (fill_of v (w.table wi.g_llt wi.index) (l.pa (w.table wi.g_llt wi.index) (level - 1))
            level)
          (d.content) in
      let count = found.count ∙ d.count in
      let wi' = found.same_walk in
      let folds =
        fold_table-folds w' res rtt_addr map_addr level s wi (w'.table wi.g_llt)
          (ap (λ t. folded l view fill c k w' t (w'.refcount rtt_addr) level) t
            ∙ ap
                (λ n.
                  folded l view fill c k w'
                    (fill (
                      fill_of v (w.table wi.g_llt wi.index)
                        (l.pa (w.table wi.g_llt wi.index) (level - 1)) level))
                    n level)
                count
            ∙ f)
          (rw count (counted_of v l.entries_per_table)) below in
      let reach =
        reaching-folds w' rd_addr rtt_addr map_addr level res aligned found.found_rd
          (rw found.same_rd valid) (rw wi' at) (rw wi' (found.entry ∙ d.entry)) found.found_table in
      let fold = smc_rtt_fold l w' rd_addr map_addr level res in
      let at_table : (Walk → Outcome Res) = fold_table l w' res rtt_addr map_addr level in
      (
        reach.0 ∙ ap (λ x. result (at_table x)) wi' ∙ folds.0,
        ap (λ e. view e (level - 1))
              (ap (λ (x : Walk). table_after (w'.table x.g_llt) fold x.index) (sym wi')
                ∙ reach.1
                ∙ ap (λ (x : Walk). table_after (w'.table x.g_llt) (at_table x) x.index) wi'
                ∙ folds.1)
            ∙ back,
      )

  -- Let `view` tell the meaning of the entries and `fill` the content of new tables, as the tests
  -- and constructors of the layer have it, tables have entries, the level be below the topmost
  -- for blocks, the new table be aligned, and the realm, the table and the address be valid. Let
  -- the walk end at the level above, at an entry for no table. Then `smc_rtt_create` succeeds,
  -- and `smc_rtt_fold`, when it finds what that left, succeeds, returns the address of the table,
  -- and leaves an entry that means what the first one did, with its address, and the attributes
  -- if it maps memory of the host.
  pub smc_rtt_fold-create :
      (w w' : World) (rd_addr rtt_addr map_addr level : ℕ) (res : Res)
      → ltb 0 l.entries_per_table ≡ true
      → ltb l.min_block_level level ≡ true
      → l.addr_is_level_aligned rtt_addr l.page_level ≡ true
      → w.find_lock_two rtt_addr state_delegated rd_addr state_rd ≡ true
      → validate_rtt_structure_cmds l map_addr level (w.rd rd_addr) ≡ true
      → (reached w rd_addr map_addr (level - 1)).last_level ≡ level - 1
      → is_to_table (view (entry_of w (reached w rd_addr map_addr (level - 1))) (level - 1)) ≡ false
      → IsFoundAfter w w' fill rd_addr rtt_addr map_addr level
          (smc_rtt_create l w rd_addr rtt_addr map_addr level)
      → let wi = reached w rd_addr map_addr (level - 1) in
        let fold = smc_rtt_fold l w' rd_addr map_addr level res in
        (result (smc_rtt_create l w rd_addr rtt_addr map_addr level) ≡ some rmi_success)
        × (result fold ≡ some (record res { x0 = rmi_success; x1 = rtt_addr }))
        × (view (table_after (w'.table wi.g_llt) fold wi.index) (level - 1)
            ≡ view (entry_of w wi) (level - 1))
  smc_rtt_fold-create w w' rd_addr rtt_addr map_addr level res n below aligned lock valid at h
        found =
      let wi = reached w rd_addr map_addr (level - 1) in
      let v = view (entry_of w wi) (level - 1) in
      let made =
        create_at-Created l view fill c k w rtt_addr map_addr level wi v below h refl
          (view-Tested l view fill c k (entry_of w wi) (level - 1) v refl) in
      let d = reaching-Created w rd_addr rtt_addr map_addr level v lock valid at made in
      let (f, back) =
        folds_after_creation w w' rd_addr rtt_addr map_addr level res v n aligned h valid at below
          found (refl, d) in
      (d.succeeds, f, back)
