-- ===== src/Rmm/Tests/Sample.antt =====
-- A small concrete monitor: an entry is its kind, in the low four bits, and a page number above
-- them.
use tetd_test.Base.{
  ℕ, ◌+◌, ◌*◌, ◌/◌, ◌%◌, ◌^◌, ◌≡◌, refl, Bool, true, false, ◌==◌, ltb, if◌then◌else◌, arith, ap,
  ap₂, sym, ◌∙◌,
}
use tetd_test.Rmm.Interface.{
  state_ns, realm_new, Ripas, ripas_empty, ripas_ram, ripas_destroyed, no_change_destroyed, Table,
  Layer, World,
}
use tetd_test.Rmm.Outcome.{Res}
use tetd_test.Rmm.Entry.Fold.{is_unassigned_host, is_assigned_host, is_to_table}
use tetd_test.Rmm.Entry.{
  View, unassigned, assigned, unassigned_host, assigned_host, to_table, views_unassigned,
  views_assigned, views_ripas, IsCoded,
}
use tetd_test.Rmm.Refcount.{IsLive, reached}
use tetd_test.Rmm.Total.{IsSound, entry_of}

abbrev pub kind_view : (kind page : ℕ) → View
kind_view kind page =
    if kind == 0
    then unassigned ripas_empty
    else if kind == 1
    then unassigned ripas_ram
    else if kind == 2
    then unassigned ripas_destroyed
    else if kind == 3
    then unassigned_host
    else if kind == 4
    then assigned ripas_empty (page * 4096)
    else if kind == 5
    then assigned ripas_ram (page * 4096)
    else if kind == 6
    then assigned ripas_destroyed (page * 4096)
    else if kind == 7
    then assigned_host (page * 4096) 0
    else to_table

abbrev pub view : ℕ → ℕ → View
view e level = kind_view (e % 16) (e / 16)

abbrev pub code : (kind pa : ℕ) → ℕ
code kind pa = pa / 4096 * 16 + kind

abbrev pub view_pa : View → ℕ
view_pa (assigned r p) = p
view_pa (assigned_host p attributes) = p
view_pa _ = 0

abbrev pub view_attributes : View → ℕ
view_attributes (assigned_host p attributes) = attributes
view_attributes _ = 0

abbrev pub is_free : View → Bool
is_free (unassigned r) = true
is_free unassigned_host = true
is_free _ = false

abbrev pub counts : View → ℕ
counts (assigned r p) = 1
counts to_table = 1
counts _ = 0

abbrev pub live : ℕ → ℕ → ℕ
live e level = counts (view e level)

abbrev pub sample_layer : Layer
sample_layer = record {
  page_level = 3;
  min_block_level = 2;
  entries_per_table = 512;
  granule_size = 4096;
  pack_return_code = λ status index. index * 256 + status;
  addr_is_level_aligned = λ a level. a % 4096 == 0;
  map_size = λ level. if level == 3 then 4096 else 4096 * 512;
  ripas_code = λ r. elim r [ ripas_empty ↦ 0 | ripas_ram ↦ 1 | ripas_destroyed ↦ 2 ];
  is_unassigned = λ e. is_free (view e 0);
  is_unassigned_empty = λ e. views_unassigned ripas_empty (view e 0);
  is_unassigned_ram = λ e. views_unassigned ripas_ram (view e 0);
  is_unassigned_ns = λ e. is_unassigned_host (view e 0);
  is_unassigned_destroyed = λ e. views_unassigned ripas_destroyed (view e 0);
  is_assigned_empty = λ e level. views_assigned ripas_empty (view e level);
  is_assigned_ram = λ e level. views_assigned ripas_ram (view e level);
  is_assigned_ns = λ e level. is_assigned_host (view e level);
  is_assigned_destroyed = λ e level. views_assigned ripas_destroyed (view e level);
  is_table = λ e level. is_to_table (view e level);
  has_ripas = λ e level. views_ripas (view e level);
  create_unassigned_empty = 0;
  create_unassigned_ram = 1;
  create_unassigned_ns = 3;
  create_unassigned_destroyed = 2;
  create_assigned_empty = λ pa level. code 4 pa;
  create_assigned_ram = λ pa level. code 5 pa;
  create_assigned_ns = λ s2tte level. code 7 (s2tte / 16 * 4096);
  create_assigned_destroyed = λ pa level. code 6 pa;
  create_assigned_unchanged =
      λ e pa level. if e % 16 == 1 then code 5 pa else if e % 16 == 2 then code 6 pa else code 4 pa;
  create_table = λ pa level. code 8 pa;
  pa = λ e level. view_pa (view e level);
  pa_table = λ e level. e / 16 * 4096;
  host_ns_s2tte = λ e level. e / 16 * 4096;
  host_ns_s2tte_is_valid = λ e level. e % 4096 == 0;
  all_unassigned_empty = λ t. t 0 == 0;
  all_unassigned_ram = λ t. t 0 == 1;
  all_unassigned_ns = λ t. t 0 == 3;
  all_unassigned_destroyed = λ t. t 0 == 2;
  maps_assigned_empty_block = λ t level. t 0 % 16 == 4;
  maps_assigned_ram_block = λ t level. t 0 % 16 == 5;
  maps_assigned_ns_block = λ t level. t 0 % 16 == 7;
  maps_assigned_destroyed_block = λ t level. t 0 % 16 == 6;
  skip_non_live_entries = λ addr t wi. addr + 4096;
}

-- What `code` gives back.
code-kind : (k p : ℕ) → ltb k 16 ≡ true → (code k p % 16 ≡ k) × (code k p / 16 ≡ p / 4096)
code-kind k p h = (ground arith, ground arith)

pub view-code : (k p n : ℕ) → ltb k 16 ≡ true → view (code k p) n ≡ kind_view k (p / 4096)
view-code k p n h = ap₂ kind_view ((code-kind k p h).0) ((code-kind k p h).1)

pub pa-aligned : (e n : ℕ) → view_pa (view e n) % 4096 == 0 ≡ true
pa-aligned e n = ground arith

pub page_of : (p : ℕ) → (p % 4096 == 0) ≡ true → p / 4096 * 4096 ≡ p
page_of p h = ground arith

pub sample-IsCoded : IsCoded sample_layer view
sample-IsCoded = record {
  unassigned_empty_law = λ e n. refl;
  unassigned_ram_law = λ e n. refl;
  unassigned_destroyed_law = λ e n. refl;
  assigned_empty_law = λ e n. refl;
  assigned_ram_law = λ e n. refl;
  assigned_destroyed_law = λ e n. refl;
  has_ripas_law = λ e n. refl;
  pa_law = λ e n r p h. ap view_pa h;
  aligned_law = λ e n r p h. ap (λ v. view_pa v % 4096 == 0) (sym h) ∙ pa-aligned e n;
  create_unassigned_empty_law = λ n. refl;
  create_unassigned_ram_law = λ n. refl;
  create_assigned_empty_law =
      λ p n h. view-code 4 p n refl ∙ ap (assigned ripas_empty) (page_of p h);
  create_assigned_ram_law = λ p n h. view-code 5 p n refl ∙ ap (assigned ripas_ram) (page_of p h);
}

free-counts : (v : View) → is_free v ≡ true → counts v ≡ 0
free-counts v h = ground arith

unassigned-counts : (r : Ripas) (v : View) → views_unassigned r v ≡ true → counts v ≡ 0
unassigned-counts r v h = ground arith

assigned-counts : (r : Ripas) (v : View) → views_assigned r v ≡ true → counts v ≡ 1
assigned-counts r v h = ground arith

pub sample-IsLive : IsLive sample_layer live
sample-IsLive = record {
  unassigned_law = λ e n h. free-counts (view e n) h;
  unassigned_empty_law = λ e n h. unassigned-counts ripas_empty (view e n) h;
  unassigned_ram_law = λ e n h. unassigned-counts ripas_ram (view e n) h;
  unassigned_ns_law = λ e n h. ground arith;
  unassigned_destroyed_law = λ e n h. unassigned-counts ripas_destroyed (view e n) h;
  assigned_ns_law = λ e n h. ground arith;
  assigned_empty_law = λ e n h. assigned-counts ripas_empty (view e n) h;
  assigned_ram_law = λ e n h. assigned-counts ripas_ram (view e n) h;
  assigned_destroyed_law = λ e n h. assigned-counts ripas_destroyed (view e n) h;
  table_law = λ e n h. ground arith;
  create_unassigned_empty_law = λ n. refl;
  create_unassigned_ram_law = λ n. refl;
  create_unassigned_ns_law = λ n. refl;
  create_unassigned_destroyed_law = λ n. refl;
  create_assigned_ns_law = λ s n. ap counts (view-code 7 (s / 16 * 4096) n refl);
  create_assigned_empty_law = λ p n. ap counts (view-code 4 p n refl);
  create_assigned_ram_law = λ p n. ap counts (view-code 5 p n refl);
  create_assigned_destroyed_law = λ p n. ap counts (view-code 6 p n refl);
  create_assigned_unchanged_law = λ e p n h. ground (
    arith,
    ap counts (view-code 4 p n refl),
    ap counts (view-code 5 p n refl),
    ap counts (view-code 6 p n refl),
  );
  create_table_law = λ p n. ap counts (view-code 8 p n refl);
}

-- A realm with two tables below its root: one for pages, with a page, and one above it, with an
-- entry for an empty table.
abbrev pub sample_table : Table
sample_table i = if i == 1 then code 5 40960 else 0

abbrev pub upper_table : Table
upper_table i = if i == 1 then code 8 28672 else 0

abbrev pub sample_world : World
sample_world = record {
  find_lock = λ a s. true;
  find_lock_two = λ a s b t. true;
  find = λ a. true;
  state_of = λ a. state_ns;
  refcount = λ a. if a == 20480 then 1 else if a == 24576 then 1 else 0;
  rd = λ a. record {
    ipa_size = 2 ^ 32;
    starting_level = 1;
    ipa_bits = 32;
    g_rtt = 4096;
    state = realm_new;
    in_par = λ b. ltb b (2 ^ 31);
  };
  rec = λ a. record {
    g_rd = 8192;
    addr = 0;
    top = 8192;
    ripas_val = ripas_empty;
    change = no_change_destroyed;
  };
  walk = λ root start bits addr level. record {
    g_llt = if ltb level 3 then 24576 else 20480;
    index = addr / 4096 % 512;
    last_level = if ltb level 3 then 2 else 3;
  };
  table = λ a. if a == 20480 then sample_table else if a == 24576 then upper_table else (λ i. 0);
  ns_buffer_read = λ a. true;
}

abbrev pub sample_res : Res
sample_res = record { x0 = 0; x1 = 0; x2 = 0; x3 = 0; x4 = 0 }

kind-total :
    (v : View)
    → (if views_unassigned ripas_empty v
        then true
        else if views_unassigned ripas_ram v
        then true
        else if views_unassigned ripas_destroyed v
        then true
        else if is_unassigned_host v
        then true
        else if views_assigned ripas_empty v
        then true
        else if views_assigned ripas_ram v
        then true
        else if views_assigned ripas_destroyed v
        then true
        else if is_assigned_host v
        then true
        else is_to_table v)
      ≡ true
kind-total v = ground arith

pub sample-IsSound : IsSound sample_layer sample_world
sample-IsSound = record {
  kind_law = λ rd_addr map_addr level.
      kind-total (view (entry_of sample_world (reached sample_world rd_addr map_addr level)) 0);
  table_law = λ rd_addr map_addr level h. refl;
  data_law = λ rd_addr map_addr level h k. refl;
  block_law = λ rd_addr map_addr level h. ground arith;
}
