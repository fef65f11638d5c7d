-- ===== src/Rmm/Entry/Fold.antt =====
-- `smc_rtt_fold` undoes `smc_rtt_create`: the entry that the table took the place of means the same
-- again.
pub mod Created
pub mod Folded
pub mod Undone
use tetd_test.Base.{◌==◌, if◌then◌else◌, ℕ, ◌-◌, ◌≡◌, Bool, true, false, Option, none, some}
use tetd_test.Rmm.Interface.{
  Ripas, ripas_empty, ripas_ram, ripas_destroyed, Table, Layer, World, Walk, state_rd, state_rtt,
}
use tetd_test.Rmm.Outcome.{
  Fill, unassigned_empty, unassigned_ram, unassigned_ns, unassigned_destroyed, assigned_empty,
  assigned_ram, assigned_destroyed, assigned_ns, Outcome, done, panic, ◌▷◌, init_table,
  refcount_inc, g_tbl, table_after,
}
use tetd_test.Rmm.Refcount.{reached}
use tetd_test.Rmm.Entry.{
  View, unassigned, assigned, unassigned_host, assigned_host, to_table, IsCoded,
}

-- What a view is filled into a table as.
abbrev pub fill_of : View → (e pa level : ℕ) → Fill
fill_of (unassigned ripas_empty) e pa level = unassigned_empty
fill_of (unassigned ripas_ram) e pa level = unassigned_ram
fill_of (unassigned ripas_destroyed) e pa level = unassigned_destroyed
fill_of (assigned ripas_empty p) e pa level = assigned_empty p level
fill_of (assigned ripas_ram p) e pa level = assigned_ram p level
fill_of (assigned ripas_destroyed p) e pa level = assigned_destroyed p level
fill_of unassigned_host e pa level = unassigned_ns
fill_of (assigned_host p attributes) e pa level = assigned_ns e pa level
fill_of to_table e pa level = unassigned_empty

abbrev pub is_unassigned_host : View → Bool
is_unassigned_host unassigned_host = true
is_unassigned_host _ = false

abbrev pub is_assigned_host : View → Bool
is_assigned_host (assigned_host p attributes) = true
is_assigned_host _ = false

abbrev pub is_to_table : View → Bool
is_to_table to_table = true
is_to_table _ = false

-- The tests on a table, by what it was filled with.
abbrev pub fills_unassigned : Ripas → Fill → Bool
fills_unassigned ripas_empty unassigned_empty = true
fills_unassigned ripas_ram unassigned_ram = true
fills_unassigned ripas_destroyed unassigned_destroyed = true
fills_unassigned _ _ = false

abbrev pub fills_assigned : Ripas → Fill → Bool
fills_assigned ripas_empty (assigned_empty p n) = true
fills_assigned ripas_ram (assigned_ram p n) = true
fills_assigned ripas_destroyed (assigned_destroyed p n) = true
fills_assigned _ _ = false

abbrev pub fills_unassigned_ns : Fill → Bool
fills_unassigned_ns unassigned_ns = true
fills_unassigned_ns _ = false

abbrev pub fills_assigned_ns : Fill → Bool
fills_assigned_ns (assigned_ns s p n) = true
fills_assigned_ns _ = false

-- Whether `fill` is that of a table at a level, and what it maps is aligned for the entry above.
abbrev pub is_block : Layer → Fill → (level : ℕ) → Bool
is_block l (assigned_empty p n) level =
    if n == level then l.addr_is_level_aligned p (level - 1) else false
is_block l (assigned_ram p n) level =
    if n == level then l.addr_is_level_aligned p (level - 1) else false
is_block l (assigned_destroyed p n) level =
    if n == level then l.addr_is_level_aligned p (level - 1) else false
is_block l (assigned_ns s p n) level =
    if n == level then l.addr_is_level_aligned p (level - 1) else false
is_block l f level = true

-- The entries of the host and those of tables; the tables that `fill` makes, and the tests on them;
-- as documented.
pub record IsFilled (l : Layer) (view : ℕ → ℕ → View) (fill : Fill → Table) : Type 0 where
  pub unassigned_ns_law : (e n : ℕ) → l.is_unassigned_ns e ≡ is_unassigned_host (view e n)
  pub assigned_ns_law : (e n : ℕ) → l.is_assigned_ns e n ≡ is_assigned_host (view e n)
  pub table_law : (e n : ℕ) → l.is_table e n ≡ is_to_table (view e n)
  pub create_unassigned_ns_law : (n : ℕ) → view l.create_unassigned_ns n ≡ unassigned_host
  pub create_unassigned_destroyed_law :
      (n : ℕ) → view l.create_unassigned_destroyed n ≡ unassigned ripas_destroyed
  pub create_assigned_ns_law :
      (s n p attributes : ℕ)
      → view s n ≡ assigned_host p attributes
      → l.addr_is_level_aligned p (n - 1) ≡ true
      → view (l.create_assigned_ns s (n - 1)) (n - 1) ≡ assigned_host p attributes
  pub first_ns_law :
      (s n p attributes : ℕ)
      → view s (n - 1) ≡ assigned_host p attributes
      → view (fill (assigned_ns s p n) 0) n ≡ assigned_host p attributes
  pub host_pa_law : (e n p attributes : ℕ) → view e n ≡ assigned_host p attributes → l.pa e n ≡ p
  pub create_assigned_destroyed_law :
      (p n : ℕ)
      → l.addr_is_level_aligned p n ≡ true
      → view (l.create_assigned_destroyed p n) n ≡ assigned ripas_destroyed p
  pub create_table_law : (p n : ℕ) → view (l.create_table p n) n ≡ to_table
  pub host_aligned_law :
      (e n p attributes : ℕ)
      → view e n ≡ assigned_host p attributes
      → l.addr_is_level_aligned p n ≡ true
  pub pa_table_law :
      (p n : ℕ)
      → l.addr_is_level_aligned p l.page_level ≡ true
      → l.pa_table (l.create_table p n) n ≡ p
  pub all_unassigned_empty_law :
      (f : Fill) → l.all_unassigned_empty (fill f) ≡ fills_unassigned ripas_empty f
  pub all_unassigned_ram_law :
      (f : Fill) → l.all_unassigned_ram (fill f) ≡ fills_unassigned ripas_ram f
  pub all_unassigned_destroyed_law :
      (f : Fill) → l.all_unassigned_destroyed (fill f) ≡ fills_unassigned ripas_destroyed f
  pub all_unassigned_ns_law : (f : Fill) → l.all_unassigned_ns (fill f) ≡ fills_unassigned_ns f
  pub maps_empty_law :
      (f : Fill) (n : ℕ)
      → is_block l f n ≡ true
      → l.maps_assigned_empty_block (fill f) n ≡ fills_assigned ripas_empty f
  pub maps_ram_law :
      (f : Fill) (n : ℕ)
      → is_block l f n ≡ true
      → l.maps_assigned_ram_block (fill f) n ≡ fills_assigned ripas_ram f
  pub maps_destroyed_law :
      (f : Fill) (n : ℕ)
      → is_block l f n ≡ true
      → l.maps_assigned_destroyed_block (fill f) n ≡ fills_assigned ripas_destroyed f
  pub maps_ns_law :
      (f : Fill) (n : ℕ)
      → is_block l f n ≡ true
      → l.maps_assigned_ns_block (fill f) n ≡ fills_assigned_ns f
  pub first_empty_law :
      (p n : ℕ)
      → l.addr_is_level_aligned p (n - 1) ≡ true
      → l.pa (fill (assigned_empty p n) 0) n ≡ p
  pub first_ram_law :
      (p n : ℕ) → l.addr_is_level_aligned p (n - 1) ≡ true → l.pa (fill (assigned_ram p n) 0) n ≡ p
  pub first_destroyed_law :
      (p n : ℕ)
      → l.addr_is_level_aligned p (n - 1) ≡ true
      → l.pa (fill (assigned_destroyed p n) 0) n ≡ p

module _ {A : Type 0} where
  -- What the new table of a call is filled with, and the references that it gets.
  unfoldable pub filled_with : Outcome A → Option Fill
  filled_with (done a) = none
  filled_with panic = none
  filled_with (init_table g_tbl f ▷ o) = some f
  filled_with (e ▷ o) = filled_with o

  unfoldable pub references : Outcome A → ℕ
  references (done a) = 0
  references panic = 0
  references (refcount_inc g_tbl n ▷ o) = n
  references (e ▷ o) = references o

-- What a later call finds after `o`: the realm and the walk as before, the entry as `o` left it, and
-- a table at `rtt_addr` with the content and the references that `o` gave it.
pub record IsFoundAfter {A : Type 0} (w w' : World) (fill : Fill → Table)
    (rd_addr rtt_addr map_addr level : ℕ) (o : Outcome A) : Type 0 where
  pub same_rd : w'.rd rd_addr ≡ w.rd rd_addr
  pub found_rd : w'.find_lock rd_addr state_rd ≡ true
  pub same_walk : reached w' rd_addr map_addr (level - 1) ≡ reached w rd_addr map_addr (level - 1)
  pub entry :
      let wi = reached w rd_addr map_addr (level - 1) in
      w'.table wi.g_llt wi.index ≡ table_after (w.table wi.g_llt) o wi.index
  pub content : (f : Fill) → filled_with o ≡ some f → w'.table rtt_addr ≡ fill f
  pub count : w'.refcount rtt_addr ≡ references o
  pub found_table : w'.find_lock rtt_addr state_rtt ≡ true
