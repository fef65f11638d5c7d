-- ===== src/Rmm/Entry.antt =====
-- What the entries of a table mean: the state of an address and its RIPAS.
pub mod Update
pub mod Fold
use tetd_test.Base.{ℕ, ◌≡◌, Bool, true, false}
use tetd_test.Rmm.Interface.{
  GranuleState, state_ns, state_delegated, state_rd, state_data, state_rec, state_rtt, RealmState,
  realm_new, realm_other, Ripas, ripas_empty, ripas_ram, ripas_destroyed, ChangeDestroyed,
  change_destroyed, no_change_destroyed, Table, Rd, Rec, Walk, Layer, World, update,
}

pub data View : Type 0 where
  unassigned : Ripas → View
  assigned : Ripas → (pa : ℕ) → View
  unassigned_host : View
  assigned_host : (pa attributes : ℕ) → View
  to_table : View

abbrev pub same_ripas : Ripas → Ripas → Bool
same_ripas ripas_empty ripas_empty = true
same_ripas ripas_ram ripas_ram = true
same_ripas ripas_destroyed ripas_destroyed = true
same_ripas _ _ = false

-- The tests, on the meaning.
abbrev pub views_unassigned : Ripas → View → Bool
views_unassigned r (unassigned s) = same_ripas r s
views_unassigned r _ = false

abbrev pub views_assigned : Ripas → View → Bool
views_assigned r (assigned s pa) = same_ripas r s
views_assigned r _ = false

abbrev pub views_ripas : View → Bool
views_ripas (unassigned s) = true
views_ripas (assigned s pa) = true
views_ripas _ = false

-- `view` is what the functions of the monitor on entries are documented to go by.
pub record IsCoded (l : Layer) (view : ℕ → ℕ → View) : Type 0 where
  pub unassigned_empty_law :
      (e n : ℕ) → l.is_unassigned_empty e ≡ views_unassigned ripas_empty (view e n)
  pub unassigned_ram_law : (e n : ℕ) → l.is_unassigned_ram e ≡ views_unassigned ripas_ram (view e n)
  pub unassigned_destroyed_law :
      (e n : ℕ) → l.is_unassigned_destroyed e ≡ views_unassigned ripas_destroyed (view e n)
  pub assigned_empty_law :
      (e n : ℕ) → l.is_assigned_empty e n ≡ views_assigned ripas_empty (view e n)
  pub assigned_ram_law : (e n : ℕ) → l.is_assigned_ram e n ≡ views_assigned ripas_ram (view e n)
  pub assigned_destroyed_law :
      (e n : ℕ) → l.is_assigned_destroyed e n ≡ views_assigned ripas_destroyed (view e n)
  pub has_ripas_law : (e n : ℕ) → l.has_ripas e n ≡ views_ripas (view e n)
  pub pa_law : (e n : ℕ) (r : Ripas) (p : ℕ) → view e n ≡ assigned r p → l.pa e n ≡ p
  pub aligned_law :
      (e n : ℕ) (r : Ripas) (p : ℕ) → view e n ≡ assigned r p → l.addr_is_level_aligned p n ≡ true
  pub create_unassigned_empty_law :
      (n : ℕ) → view l.create_unassigned_empty n ≡ unassigned ripas_empty
  pub create_unassigned_ram_law : (n : ℕ) → view l.create_unassigned_ram n ≡ unassigned ripas_ram
  pub create_assigned_empty_law :
      (p n : ℕ)
      → l.addr_is_level_aligned p n ≡ true
      → view (l.create_assigned_empty p n) n ≡ assigned ripas_empty p
  pub create_assigned_ram_law :
      (p n : ℕ)
      → l.addr_is_level_aligned p n ≡ true
      → view (l.create_assigned_ram p n) n ≡ assigned ripas_ram p
