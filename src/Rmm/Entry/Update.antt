-- ===== src/Rmm/Entry/Update.antt =====
-- `update_ripas` sets the RIPAS of an entry, and nothing else of its meaning.
use tetd_test.Base.{
  ℕ, ◌≡◌, refl, ap, ◌∙◌, Bool, true, false, arith, Option, none, some, if◌then◌else◌,
}
use tetd_test.Rmm.Interface.{
  Ripas, ripas_empty, ripas_ram, ripas_destroyed, ChangeDestroyed, no_change_destroyed, Layer,
}
use tetd_test.Rmm.Entry.{
  View, unassigned, assigned, views_unassigned, views_assigned, views_ripas, IsCoded,
}
use tetd_test.Rmm.Ripas.{Updated, refused, kept, written, update_ripas, update_to}

-- A RIPAS that a realm can ask for.
abbrev pub IsWanted : Ripas → Type 0
IsWanted ripas_destroyed = ⊥
IsWanted _ = Unit {0}

-- The specification: the RIPAS changes, unless it is destroyed and that is not to be changed.
abbrev pub may_change : Ripas → ChangeDestroyed → Bool
may_change ripas_destroyed no_change_destroyed = false
may_change _ _ = true

abbrev pub set_ripas : View → Ripas → ChangeDestroyed → Option View
set_ripas (unassigned r) wanted change =
    if may_change r change then some (unassigned wanted) else none
set_ripas (assigned r p) wanted change =
    if may_change r change then some (assigned wanted p) else none
set_ripas _ wanted change = none

-- Whether a page that was there is taken away.
abbrev pub takes_away : View → Ripas → Bool
takes_away (assigned ripas_ram p) ripas_empty = true
takes_away _ _ = false

-- The entry after `update_ripas`, and whether the TLB is invalidated.
abbrev pub entry_after : ℕ → Updated → Option ℕ
entry_after old refused = none
entry_after old kept = some old
entry_after old (written new tlbi) = some new

abbrev pub invalidates : Updated → Bool
invalidates (written new tlbi) = tlbi
invalidates _ = false

abbrev pub view_after : (ℕ → View) → Option ℕ → Option View
view_after f none = none
view_after f (some e) = some (f e)

module _ (l : Layer) (view : ℕ → ℕ → View) (c : IsCoded l view) (level : ℕ) where
  -- The tests on an entry, by what it means.
  record Tests (e : ℕ) (v : View) : Type 0 where
    unassigned_empty_test : l.is_unassigned_empty e ≡ views_unassigned ripas_empty v
    unassigned_ram_test : l.is_unassigned_ram e ≡ views_unassigned ripas_ram v
    unassigned_destroyed_test : l.is_unassigned_destroyed e ≡ views_unassigned ripas_destroyed v
    assigned_empty_test : l.is_assigned_empty e level ≡ views_assigned ripas_empty v
    assigned_ram_test : l.is_assigned_ram e level ≡ views_assigned ripas_ram v
    assigned_destroyed_test : l.is_assigned_destroyed e level ≡ views_assigned ripas_destroyed v
    has_ripas_test : l.has_ripas e level ≡ views_ripas v

  views-Tests : (e : ℕ) (v : View) → view e level ≡ v → Tests e v
  views-Tests e v q = record {
    unassigned_empty_test = c.unassigned_empty_law e level ∙ ap (views_unassigned ripas_empty) q;
    unassigned_ram_test = c.unassigned_ram_law e level ∙ ap (views_unassigned ripas_ram) q;
    unassigned_destroyed_test =
        c.unassigned_destroyed_law e level ∙ ap (views_unassigned ripas_destroyed) q;
    assigned_empty_test = c.assigned_empty_law e level ∙ ap (views_assigned ripas_empty) q;
    assigned_ram_test = c.assigned_ram_law e level ∙ ap (views_assigned ripas_ram) q;
    assigned_destroyed_test =
        c.assigned_destroyed_law e level ∙ ap (views_assigned ripas_destroyed) q;
    has_ripas_test = c.has_ripas_law e level ∙ ap views_ripas q;
  }

  -- The entries that are made of the address of an assigned one.
  made_ram :
      (e : ℕ) (r : Ripas) (p : ℕ)
      → view e level ≡ assigned r p
      → view (l.create_assigned_ram (l.pa e level) level) level ≡ assigned ripas_ram p
  made_ram e r p q =
      rw (c.pa_law e level r p q) (c.create_assigned_ram_law p level (c.aligned_law e level r p q))

  made_empty :
      (e : ℕ) (r : Ripas) (p : ℕ)
      → view e level ≡ assigned r p
      → view (l.create_assigned_empty (l.pa e level) level) level ≡ assigned ripas_empty p
  made_empty e r p q =
      rw (c.pa_law e level r p q)
        (c.create_assigned_empty_law p level (c.aligned_law e level r p q))

  Refines : (e : ℕ) (v : View) (wanted : Ripas) (change : ChangeDestroyed) → Type 0
  Refines e v wanted change =
      (view_after (λ t. view t level) (entry_after e (update_ripas l e level wanted change))
        ≡ set_ripas v wanted change)
      × ((if takes_away v wanted then invalidates (update_ripas l e level wanted change) else true)
          ≡ true)

  update_at :
      (e : ℕ) (v : View) (wanted : Ripas) (change : ChangeDestroyed)
      → IsWanted wanted
      → view e level ≡ v
      → Tests e v
      → Refines e v wanted change
  unfolding update_ripas update_to Refines
  update_at e (assigned r p) ripas_ram change h q t = ground (arith, made_ram e r p q)
  update_at e (assigned r p) ripas_empty change h q t = ground (arith, made_empty e r p q)
  update_at e v ripas_ram change h q t = ground (arith, c.create_unassigned_ram_law level)
  update_at e v ripas_empty change h q t = ground (arith, c.create_unassigned_empty_law level)
  update_at e v ripas_destroyed change h q t = absurd h

  -- Let `view` tell the meaning of the entries as the tests and constructors of the layer have
  -- it. For a RIPAS other than destroyed, `update_ripas` does to the meaning of an entry what
  -- `set_ripas` says: the RIPAS becomes the wanted one and the page stays; an entry of the host,
  -- a table, and a destroyed RIPAS that is not to be changed are refused. If the entry was a page
  -- with RIPAS RAM and becomes empty, the TLB is invalidated.
  pub update_ripas-refines :
      (e : ℕ) (wanted : Ripas) (change : ChangeDestroyed)
      → IsWanted wanted
      → (view_after (λ t. view t level) (entry_after e (update_ripas l e level wanted change))
          ≡ set_ripas (view e level) wanted change)
        × ((if takes_away (view e level) wanted
              then invalidates (update_ripas l e level wanted change)
              else true)
            ≡ true)
  unfolding Refines
  update_ripas-refines e wanted change h =
      update_at e (view e level) wanted change h refl (views-Tests e (view e level) refl)
