-- ===== src/Rmm/Entry/Fold/Folded.antt =====
-- The entry that a table folds into, by what the table was filled with.
use tetd_test.Base.{ℕ, ◌-◌, ◌≡◌, refl, true, false, Option, some, if◌then◌else◌, ltb, ◌==◌, arith}
use tetd_test.Rmm.Interface.{Ripas, ripas_empty, ripas_ram, ripas_destroyed, Table, Layer, World}
use tetd_test.Rmm.Outcome.{
  Fill, unassigned_empty, unassigned_ram, unassigned_destroyed, unassigned_ns, assigned_empty,
  assigned_ram, assigned_destroyed, assigned_ns,
}
use tetd_test.Rmm.Structure.{folded_unreferenced, folded_referenced}
use tetd_test.Rmm.Entry.{
  View, unassigned, assigned, unassigned_host, assigned_host, to_table, IsCoded,
}
use tetd_test.Rmm.Entry.Fold.{
  is_block, IsFilled, fill_of, fills_unassigned, fills_assigned, fills_unassigned_ns,
  fills_assigned_ns, is_to_table,
}
use tetd_test.Rmm.Entry.Fold.Created.{references_of}

module _ (l : Layer) (view : ℕ → ℕ → View) (fill : Fill → Table) (c : IsCoded l view)
    (k : IsFilled l view fill) where
  -- The entry that a table with `count` references folds into.
  abbrev pub folded : World → Table → (count level : ℕ) → Option ℕ
  folded w t count level =
      if count == 0 then folded_unreferenced l w t level else folded_referenced l w t level

  -- An entry of view `v` is what a table that was filled with it folds into.
  abbrev pub FoldsBack : World → View → (e level : ℕ) → Type 0
  FoldsBack w v e level =
      (s : ℕ) × (folded w (fill (fill_of v e (l.pa e (level - 1)) level))
          (references_of v l.entries_per_table) level
        ≡ some s)
      × (view s (level - 1) ≡ v)

  -- The tests on a table that was filled.
  record Told (f : Fill) (level : ℕ) : Type 0 where
    empty : l.all_unassigned_empty (fill f) ≡ fills_unassigned ripas_empty f
    ram : l.all_unassigned_ram (fill f) ≡ fills_unassigned ripas_ram f
    destroyed : l.all_unassigned_destroyed (fill f) ≡ fills_unassigned ripas_destroyed f
    host : l.all_unassigned_ns (fill f) ≡ fills_unassigned_ns f
    page_empty : l.maps_assigned_empty_block (fill f) level ≡ fills_assigned ripas_empty f
    page_ram : l.maps_assigned_ram_block (fill f) level ≡ fills_assigned ripas_ram f
    page_destroyed :
        l.maps_assigned_destroyed_block (fill f) level ≡ fills_assigned ripas_destroyed f
    page_host : l.maps_assigned_ns_block (fill f) level ≡ fills_assigned_ns f

  fill-Told : (f : Fill) (level : ℕ) → is_block l f level ≡ true → Told f level
  fill-Told f level b = record {
    empty = k.all_unassigned_empty_law f;
    ram = k.all_unassigned_ram_law f;
    destroyed = k.all_unassigned_destroyed_law f;
    host = k.all_unassigned_ns_law f;
    page_empty = k.maps_empty_law f level b;
    page_ram = k.maps_ram_law f level b;
    page_destroyed = k.maps_destroyed_law f level b;
    page_host = k.maps_ns_law f level b;
  }

  folds_unreferenced :
      (w : World) (v : View) (e level s : ℕ)
      → folded_unreferenced l w (fill (fill_of v e (l.pa e (level - 1)) level)) level ≡ some s
      → references_of v l.entries_per_table ≡ 0
      → view s (level - 1) ≡ v
      → FoldsBack w v e level
  folds_unreferenced w v e level s f r q = (s, ground arith, q)

  folds_referenced :
      (w : World) (e level p s : ℕ) (r : Ripas)
      → ltb 0 l.entries_per_table ≡ true
      → folded_referenced l w (fill (fill_of (assigned r p) e (l.pa e (level - 1)) level)) level
        ≡ some s
      → view s (level - 1) ≡ assigned r p
      → FoldsBack w (assigned r p) e level
  folds_referenced w e level p s r n f q = (s, ground arith, q)

  pub view-FoldsBack :
      (w : World) (v : View) (e level : ℕ)
      → ltb 0 l.entries_per_table ≡ true
      → is_to_table v ≡ false
      → view e (level - 1) ≡ v
      → FoldsBack w v e level
  unfolding folded_unreferenced folded_referenced
  view-FoldsBack w (unassigned ripas_empty) e level n h q =
      let t = fill-Told unassigned_empty level refl in
      folds_unreferenced w (unassigned ripas_empty) e level l.create_unassigned_empty (ground arith)
        refl (c.create_unassigned_empty_law (level - 1))
  view-FoldsBack w (unassigned ripas_ram) e level n h q =
      let t = fill-Told unassigned_ram level refl in
      folds_unreferenced w (unassigned ripas_ram) e level l.create_unassigned_ram (ground arith)
        refl (c.create_unassigned_ram_law (level - 1))
  view-FoldsBack w (unassigned ripas_destroyed) e level n h q =
      let t = fill-Told unassigned_destroyed level refl in
      folds_unreferenced w (unassigned ripas_destroyed) e level l.create_unassigned_destroyed
        (ground arith) refl (k.create_unassigned_destroyed_law (level - 1))
  view-FoldsBack w (assigned ripas_empty p) e level n h q =
      let b = c.aligned_law e (level - 1) ripas_empty p q in
      let t = fill-Told (assigned_empty p level) level (ground arith) in
      let pa = k.first_empty_law p level b in
      folds_referenced w e level p (l.create_assigned_empty p (level - 1)) ripas_empty n
        (ground arith) (c.create_assigned_empty_law p (level - 1) b)
  view-FoldsBack w (assigned ripas_ram p) e level n h q =
      let b = c.aligned_law e (level - 1) ripas_ram p q in
      let t = fill-Told (assigned_ram p level) level (ground arith) in
      let pa = k.first_ram_law p level b in
      folds_referenced w e level p (l.create_assigned_ram p (level - 1)) ripas_ram n (ground arith)
        (c.create_assigned_ram_law p (level - 1) b)
  view-FoldsBack w (assigned ripas_destroyed p) e level n h q =
      let b = c.aligned_law e (level - 1) ripas_destroyed p q in
      let t = fill-Told (assigned_destroyed p level) level (ground arith) in
      let pa = k.first_destroyed_law p level b in
      folds_referenced w e level p (l.create_assigned_destroyed p (level - 1)) ripas_destroyed n
        (ground arith) (k.create_assigned_destroyed_law p (level - 1) b)
  view-FoldsBack w unassigned_host e level n h q =
      let t = fill-Told unassigned_ns level refl in
      folds_unreferenced w unassigned_host e level l.create_unassigned_ns (ground arith) refl
        (k.create_unassigned_ns_law (level - 1))
  view-FoldsBack w (assigned_host p attributes) e level n h q =
      let b = k.host_aligned_law e (level - 1) p attributes q in
      let pa = k.host_pa_law e (level - 1) p attributes q in
      let f = assigned_ns e (l.pa e (level - 1)) level in
      let t = fill-Told f level (ground arith) in
      let first : view (fill f 0) level ≡ assigned_host p attributes =
        rw pa (k.first_ns_law e level p attributes q) in
      folds_unreferenced w (assigned_host p attributes) e level
        (l.create_assigned_ns (fill f 0) (level - 1)) (ground arith) refl
        (k.create_assigned_ns_law (fill f 0) level p attributes first b)
  view-FoldsBack w to_table e level n h q = absurd (ground arith)
