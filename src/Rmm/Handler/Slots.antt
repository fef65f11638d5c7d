-- ===== src/Rmm/Handler/Slots.antt =====
-- A call that keeps the rules leaves no slot in use.
use tetd_test.Base.{ℕ, ◌≡◌, refl, ap, ◌∙◌, true, false, List, [], ◌∷◌, Option, none, some, arith}
use tetd_test.Rmm.Outcome.{
  Handle, Slot, Event, lock, unlock, walk_to, map_buffer, unmap_buffer, clear_entry, write_entry,
  invalidate_page, invalidate_block, invalidate_pages_in_block, granule_get, granule_put,
  refcount_inc, refcount_dec, set_state, init_table, zero_granule, copy_in, measure_data,
  measure_ripas, set_ripas_addr, Outcome, done, panic, ◌▷◌, Res,
}
use tetd_test.Rmm.Discipline.{Hold, next, keeps, free_slot}
use tetd_test.Rmm.Handler.{check_slots, without_slot, slots_after, set_x0}

abbrev slots_of : List (Slot × Handle) → List Slot
slots_of [] = []
slots_of ((s, h) ∷ bs) = s ∷ slots_of bs

slots-free_slot :
    (s : Slot) (bs : List (Slot × Handle))
    → slots_of (free_slot s bs) ≡ without_slot s (slots_of bs)
slots-free_slot s [] = refl
slots-free_slot s ((t, h) ∷ bs) =
    ground (arith, ap (λ (ts : List Slot). t ∷ ts) (slots-free_slot s bs))

-- `res->x[0] = ...` does not matter to the rules.
pub keeps-set_x0 : (s : Hold) (res : Res) (o : Outcome ℕ) → keeps s (set_x0 res o) ≡ keeps s o
unfolding set_x0 keeps
keeps-set_x0 s res (done a) = refl
keeps-set_x0 s res panic = refl
keeps-set_x0 s res (e ▷ o) =
    elim (next e s)
      as (λ r.
        elim r [ none ↦ false | some t ↦ keeps t (set_x0 res o) ]
        ≡ elim r [ none ↦ false | some t ↦ keeps t o ]) [
          | none ↦ refl
          | some t ↦ keeps-set_x0 t res o
        ]

next-slots :
    (e : Event) (s t : Hold)
    → next e s ≡ some t
    → slots_after e (slots_of s.buffers) ≡ slots_of t.buffers
next-slots (lock k a) s t q = ground arith
next-slots (unlock k) s t q = ground arith
next-slots (walk_to a) s t q = ground arith
next-slots (map_buffer b k) s t q = ground arith
next-slots (unmap_buffer b) s t q = ground (arith, slots-free_slot b s.buffers)
next-slots (clear_entry i) s t q = ground arith
next-slots (write_entry i v) s t q = ground arith
next-slots (invalidate_page a) s t q = ground arith
next-slots (invalidate_block a) s t q = ground arith
next-slots (invalidate_pages_in_block a) s t q = ground arith
next-slots (granule_get k) s t q = ground arith
next-slots (granule_put k) s t q = ground arith
next-slots (refcount_inc k n) s t q = ground arith
next-slots (refcount_dec k n) s t q = ground arith
next-slots (set_state k st) s t q = ground arith
next-slots (init_table k f) s t q = ground arith
next-slots (zero_granule k) s t q = ground arith
next-slots (copy_in k a) s t q = ground arith
next-slots (measure_data a n) s t q = ground arith
next-slots (measure_ripas a n) s t q = ground arith
next-slots (set_ripas_addr a) s t q = ground arith

pub check_slots-keeps :
    (s : Hold) (o : Outcome Res) → keeps s o ≡ true → check_slots (slots_of s.buffers) o ≡ o
unfolding keeps check_slots
check_slots-keeps s (done a) h = ground arith
check_slots-keeps s panic h = refl
check_slots-keeps s (e ▷ o) h = by_next (next e s) refl h (λ t. check_slots-keeps t o)
  where
    by_next :
        (r : Option Hold)
        → next e s ≡ r
        → elim r [ none ↦ false | some t ↦ keeps t o ] ≡ true
        → ((t : Hold) → keeps t o ≡ true → check_slots (slots_of t.buffers) o ≡ o)
        → check_slots (slots_of s.buffers) (e ▷ o) ≡ (e ▷ o)
    by_next none q k rest = absurd (ground arith)
    by_next (some t) q k rest =
        ap (λ (ss : List Slot). e ▷ check_slots ss o) (next-slots e s t q)
        ∙ ap (λ p. e ▷ p) (rest t k)
