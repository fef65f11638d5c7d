-- ===== src/Rmm/Tests/Filled.antt =====
-- The tables of the sample monitor, and what a creation in it leaves.
use tetd_test.Base.{
  ℕ, ◌+◌, ◌*◌, ◌/◌, ◌%◌, ◌≡◌, refl, ap, ap₂, sym, ◌∙◌, ◌-◌, true, ◌==◌, if◌then◌else◌, none, some,
  arith,
}
use tetd_test.Rmm.Interface.{ripas_destroyed, Table, World}
use tetd_test.Rmm.Outcome.{
  Fill, unassigned_empty, unassigned_ram, unassigned_ns, unassigned_destroyed, assigned_empty,
  assigned_ram, assigned_destroyed, assigned_ns, table_after,
}
use tetd_test.Rmm.Structure.{smc_rtt_create, create_at}
use tetd_test.Rmm.Validate.{validate_map_addr, validate_rtt_structure_cmds}
use tetd_test.Rmm.Entry.{assigned, assigned_host}
use tetd_test.Rmm.Entry.Fold.{is_assigned_host, IsFilled, IsFoundAfter, filled_with, references}
use tetd_test.Rmm.Tests.Sample.{
  view, view_pa, view_attributes, kind_view, pa-aligned, code, view-code, page_of, sample_layer,
  sample_world, upper_table,
}

abbrev pub sample_fill : Fill → Table
sample_fill unassigned_empty i = 0
sample_fill unassigned_ram i = 1
sample_fill unassigned_destroyed i = 2
sample_fill unassigned_ns i = 3
sample_fill (assigned_empty p n) i = code 4 (p + i * 4096)
sample_fill (assigned_ram p n) i = code 5 (p + i * 4096)
sample_fill (assigned_destroyed p n) i = code 6 (p + i * 4096)
sample_fill (assigned_ns s p n) i = code 7 (p + i * 4096)

first_page : (p : ℕ) → (p % 4096 == 0) ≡ true → (p + 0) / 4096 * 4096 ≡ p
first_page p h = ground arith

-- What a host entry of the sample holds.
host-page : (k g p attributes : ℕ) → kind_view k g ≡ assigned_host p attributes → g * 4096 ≡ p
host-page k g p attributes h = ground (arith, ap view_pa h, ap is_assigned_host h)

host-attributes :
    (k g p attributes : ℕ) → kind_view k g ≡ assigned_host p attributes → 0 ≡ attributes
host-attributes k g p attributes h = ground (arith, ap view_attributes h, ap is_assigned_host h)

host_again :
    (q s n p attributes : ℕ)
    → view s n ≡ assigned_host p attributes
    → q ≡ s / 16 * 4096
    → kind_view 7 (q / 4096) ≡ assigned_host p attributes
host_again q s n p attributes h e =
    let page = host-page (s % 16) (s / 16) p attributes h in
    ap₂ assigned_host (ground arith) (host-attributes (s % 16) (s / 16) p attributes h)

host_page : (s n p attributes : ℕ) → view s n ≡ assigned_host p attributes → p + 0 ≡ s / 16 * 4096
host_page s n p attributes h = let page = host-page (s % 16) (s / 16) p attributes h in ground arith

pub sample-IsFilled : IsFilled sample_layer view sample_fill
sample-IsFilled = record {
  unassigned_ns_law = λ e n. refl;
  assigned_ns_law = λ e n. refl;
  table_law = λ e n. refl;
  create_unassigned_ns_law = λ n. refl;
  create_unassigned_destroyed_law = λ n. refl;
  create_assigned_ns_law = λ s n p attributes h a.
      view-code 7 (s / 16 * 4096) (n - 1) refl ∙ host_again (s / 16 * 4096) s n p attributes h refl;
  first_ns_law = λ s n p attributes h.
      view-code 7 (p + 0) n refl
      ∙ host_again (p + 0) s (n - 1) p attributes h (host_page s n p attributes h);
  host_pa_law = λ e n p attributes h. ap view_pa h;
  create_assigned_destroyed_law =
      λ p n h. view-code 6 p n refl ∙ ap (assigned ripas_destroyed) (page_of p h);
  create_table_law = λ p n. view-code 8 p n refl;
  host_aligned_law = λ e n p attributes h. ap (λ v. view_pa v % 4096 == 0) (sym h) ∙ pa-aligned e n;
  pa_table_law = λ p n h. ground arith;
  all_unassigned_empty_law = λ f. ground arith;
  all_unassigned_ram_law = λ f. ground arith;
  all_unassigned_destroyed_law = λ f. ground arith;
  all_unassigned_ns_law = λ f. ground arith;
  maps_empty_law = λ f n h. ground arith;
  maps_ram_law = λ f n h. ground arith;
  maps_destroyed_law = λ f n h. ground arith;
  maps_ns_law = λ f n h. ground arith;
  first_empty_law = λ p n h. ap view_pa (view-code 4 (p + 0) n refl) ∙ first_page p h;
  first_ram_law = λ p n h. ap view_pa (view-code 5 (p + 0) n refl) ∙ first_page p h;
  first_destroyed_law = λ p n h. ap view_pa (view-code 6 (p + 0) n refl) ∙ first_page p h;
}

-- The monitor after the creation of a table at 12288 in the upper table.
abbrev pub sample_after : World
sample_after = record sample_world {
  table = λ a.
      if a == 24576
      then (λ i. if i == 0 then code 8 12288 else upper_table i)
      else if a == 12288
      then sample_fill unassigned_empty
      else sample_world.table a;
}

content_of :
    (f : Fill) → some unassigned_empty ≡ some f → sample_fill unassigned_empty ≡ sample_fill f
content_of f h = ap (λ o. elim o [ none ↦ (λ i. 0) | some f ↦ sample_fill f ]) h

pub sample-IsFoundAfter :
    IsFoundAfter sample_world sample_after sample_fill 8192 12288 0 3
      (smc_rtt_create sample_layer sample_world 8192 12288 0 3)
unfolding smc_rtt_create create_at table_after filled_with references validate_rtt_structure_cmds
    validate_map_addr
sample-IsFoundAfter = record {
  same_rd = refl;
  found_rd = refl;
  same_walk = refl;
  entry = refl;
  content = content_of;
  count = refl;
  found_table = refl;
}
