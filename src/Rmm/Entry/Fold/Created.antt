-- ===== src/Rmm/Entry/Fold/Created.antt =====
-- What `smc_rtt_create` makes of an entry, by its meaning.
use tetd_test.Base.{ℕ, ◌-◌, ◌≡◌, ap, ◌∙◌, true, false, some, ltb, arith}
use tetd_test.Rmm.Interface.{ripas_empty, ripas_ram, ripas_destroyed, Table, Layer, World, Walk}
use tetd_test.Rmm.Outcome.{Fill, Outcome, result, table_after, rmi_success}
use tetd_test.Rmm.Structure.{create_at}
use tetd_test.Rmm.Entry.{
  View, unassigned, assigned, unassigned_host, assigned_host, to_table, IsCoded, views_unassigned,
  views_assigned,
}
use tetd_test.Rmm.Entry.Fold.{
  IsFilled, fill_of, filled_with, references, is_unassigned_host, is_assigned_host, is_to_table,
}

-- How many references a view stands for.
abbrev pub references_of : View → (entries : ℕ) → ℕ
references_of (assigned r p) entries = entries
references_of _ entries = 0

module _ (l : Layer) (view : ℕ → ℕ → View) (fill : Fill → Table) (c : IsCoded l view)
    (k : IsFilled l view fill) where
  -- The tests on an entry, by its view.
  pub record Tested (e n : ℕ) (v : View) : Type 0 where
    pub empty : l.is_unassigned_empty e ≡ views_unassigned ripas_empty v
    pub ram : l.is_unassigned_ram e ≡ views_unassigned ripas_ram v
    pub destroyed : l.is_unassigned_destroyed e ≡ views_unassigned ripas_destroyed v
    pub host : l.is_unassigned_ns e ≡ is_unassigned_host v
    pub page_empty : l.is_assigned_empty e n ≡ views_assigned ripas_empty v
    pub page_ram : l.is_assigned_ram e n ≡ views_assigned ripas_ram v
    pub page_destroyed : l.is_assigned_destroyed e n ≡ views_assigned ripas_destroyed v
    pub page_host : l.is_assigned_ns e n ≡ is_assigned_host v
    pub table : l.is_table e n ≡ is_to_table v

  pub view-Tested : (e n : ℕ) (v : View) → view e n ≡ v → Tested e n v
  view-Tested e n v q = record {
    empty = c.unassigned_empty_law e n ∙ ap (views_unassigned ripas_empty) q;
    ram = c.unassigned_ram_law e n ∙ ap (views_unassigned ripas_ram) q;
    destroyed = c.unassigned_destroyed_law e n ∙ ap (views_unassigned ripas_destroyed) q;
    host = k.unassigned_ns_law e n ∙ ap is_unassigned_host q;
    page_empty = c.assigned_empty_law e n ∙ ap (views_assigned ripas_empty) q;
    page_ram = c.assigned_ram_law e n ∙ ap (views_assigned ripas_ram) q;
    page_destroyed = c.assigned_destroyed_law e n ∙ ap (views_assigned ripas_destroyed) q;
    page_host = k.assigned_ns_law e n ∙ ap is_assigned_host q;
    table = k.table_law e n ∙ ap is_to_table q;
  }

  -- The outcome of a creation in the place of an entry of view `v`.
  pub record Created (o : Outcome ℕ) (t : Table) (wi : Walk) (v : View) (rtt_addr level : ℕ)
      : Type 0 where
    pub succeeds : result o ≡ some rmi_success
    pub content :
        filled_with o ≡ some (fill_of v (t wi.index) (l.pa (t wi.index) (level - 1)) level)
    pub count : references o ≡ references_of v l.entries_per_table
    pub entry : table_after t o wi.index ≡ l.create_table rtt_addr (level - 1)

  pub create_at-Created :
      (w : World) (rtt_addr map_addr level : ℕ) (wi : Walk) (v : View)
      → ltb l.min_block_level level ≡ true
      → is_to_table v ≡ false
      → view (w.table wi.g_llt wi.index) (level - 1) ≡ v
      → Tested (w.table wi.g_llt wi.index) (level - 1) v
      → Created (create_at l w rtt_addr map_addr level wi) (w.table wi.g_llt) wi v rtt_addr level
  unfolding create_at result filled_with references table_after
  create_at-Created w rtt_addr map_addr level wi (unassigned ripas_empty) below q e t = record {
    succeeds = ground arith;
    content = ground arith;
    count = ground arith;
    entry = ground arith;
  }
  create_at-Created w rtt_addr map_addr level wi (unassigned ripas_ram) below q e t = record {
    succeeds = ground arith;
    content = ground arith;
    count = ground arith;
    entry = ground arith;
  }
  create_at-Created w rtt_addr map_addr level wi (unassigned ripas_destroyed) below q e t = record {
    succeeds = ground arith;
    content = ground arith;
    count = ground arith;
    entry = ground arith;
  }
  create_at-Created w rtt_addr map_addr level wi (assigned r p) below q e t =
      let pa = c.pa_law (w.table wi.g_llt wi.index) (level - 1) r p e in
      record {
        succeeds = ground arith;
        content = ground (arith, pa);
        count = ground arith;
        entry = ground arith;
      }
  create_at-Created w rtt_addr map_addr level wi unassigned_host below q e t = record {
    succeeds = ground arith;
    content = ground arith;
    count = ground arith;
    entry = ground arith;
  }
  create_at-Created w rtt_addr map_addr level wi (assigned_host p attributes) below q e t = record {
    succeeds = ground arith;
    content = ground arith;
    count = ground arith;
    entry = ground arith;
  }
  create_at-Created w rtt_addr map_addr level wi to_table below q e t = absurd (ground arith)
