-- ===== src/Rmm/Discipline.antt =====
-- The rules that a call on the tables keeps: its locks, its buffers, and when it writes an entry.
pub mod Addresses
pub mod Apart
pub mod Structure
pub mod Pages
pub mod Ranges
pub mod Access
use tetd_test.Base.{
  Option, none, some, ℕ, ◌≡◌, refl, Bool, true, false, List, [], ◌∷◌, if◌then◌else◌, ◌==◌,
}
use tetd_test.Rmm.Interface.{
  GranuleState, state_ns, state_delegated, state_rd, state_data, state_rec, state_rtt, RealmState,
  realm_new, realm_other, Ripas, ripas_empty, ripas_ram, ripas_destroyed, ChangeDestroyed,
  change_destroyed, no_change_destroyed, Table, Rd, Rec, Walk, Layer, World,
}
use tetd_test.Rmm.Outcome.{
  slot_index, Handle, g_rd, g_tbl, g_table_root, g_llt, g_data, g_rec, Slot, slot_rd, slot_rtt,
  slot_rtt2, slot_delegated, slot_rec, Fill, unassigned_empty, unassigned_ram, unassigned_ns,
  unassigned_destroyed, assigned_empty, assigned_ram, assigned_destroyed, assigned_ns, Event, lock,
  unlock, walk_to, map_buffer, unmap_buffer, clear_entry, write_entry, invalidate_page,
  invalidate_block, invalidate_pages_in_block, granule_get, granule_put, refcount_inc, refcount_dec,
  set_state, init_table, zero_granule, copy_in, measure_data, measure_ripas, set_ripas_addr,
  Outcome, done, panic, ◌▷◌, Res, rmi_success, rmi_error_input, rmi_error_realm, rmi_error_rec,
  rmi_error_rtt, rmi_unassigned, rmi_assigned, rmi_table, rmi_no_measure_content,
  rmi_measure_content,
}

abbrev pub handle_index : Handle → ℕ
handle_index g_rd = 0
handle_index g_tbl = 1
handle_index g_table_root = 2
handle_index g_llt = 3
handle_index g_data = 4
handle_index g_rec = 5

-- Whether the entry of the table of the walk is whole, was set to 0, or was invalidated since.
pub data Entry : Type 0 where
  whole broken flushed : Entry

-- The locks that are held, the buffers that are mapped with their granules, and the entry.
pub record Hold : Type 0 where
  pub locks : List Handle
  pub buffers : List (Slot × Handle)
  pub entry : Entry

abbrev pub holds : Handle → List Handle → Bool
holds h [] = false
holds h (k ∷ ks) = if handle_index h == handle_index k then true else holds h ks

abbrev pub release : Handle → List Handle → List Handle
release h [] = []
release h (k ∷ ks) = if handle_index h == handle_index k then ks else k ∷ release h ks

abbrev pub has_slot : Slot → List (Slot × Handle) → Bool
has_slot s [] = false
has_slot s ((t, h) ∷ bs) = if slot_index s == slot_index t then true else has_slot s bs

abbrev pub free_slot : Slot → List (Slot × Handle) → List (Slot × Handle)
free_slot s [] = []
free_slot s ((t, h) ∷ bs) = if slot_index s == slot_index t then bs else (t, h) ∷ free_slot s bs

-- A granule whose buffer is mapped.
abbrev pub in_use : Handle → List (Slot × Handle) → Bool
in_use h [] = false
in_use h ((t, k) ∷ bs) = if handle_index h == handle_index k then true else in_use h bs

abbrev pub next_lock : Handle → Hold → Option Hold
next_lock h s = if holds h s.locks then none else some (record s { locks = h ∷ s.locks })

abbrev pub under : Handle → Hold → Option Hold
under h s = if holds h s.locks then some s else none

abbrev pub flush : Hold → Option Hold
flush s =
    some
      (record s { entry = elim s.entry [ whole ↦ whole | broken ↦ flushed | flushed ↦ flushed ] })

-- The rules. `none` is a violation. Locks are told apart by the variable that holds the granule, and
-- an invalidation of any address counts as that of the entry.
abbrev pub next : Event → Hold → Option Hold
next (lock h a) s = next_lock h s
next (unlock h) s =
    if holds h s.locks
    then if in_use h s.buffers then none else some (record s { locks = release h s.locks })
    else none
next (walk_to a) s =
    if holds g_table_root s.locks
    then next_lock g_llt (record s { locks = release g_table_root s.locks })
    else none
next (map_buffer b h) s =
    if holds h s.locks
    then if has_slot b s.buffers then none else some (record s { buffers = (b, h) ∷ s.buffers })
    else none
next (unmap_buffer b) s =
    if has_slot b s.buffers then some (record s { buffers = free_slot b s.buffers }) else none
next (clear_entry i) s =
    if has_slot slot_rtt s.buffers then some (record s { entry = broken }) else none
next (write_entry i v) s =
    if has_slot slot_rtt s.buffers
    then elim s.entry [
      | whole ↦ some s
      | broken ↦ none
      | flushed ↦ some (record s { entry = whole })
    ]
    else none
next (invalidate_page a) s = flush s
next (invalidate_block a) s = flush s
next (invalidate_pages_in_block a) s = flush s
next (granule_get h) s = under h s
next (granule_put h) s = under h s
next (refcount_inc h n) s = under h s
next (refcount_dec h n) s = under h s
next (set_state h t) s = under h s
next (init_table h f) s = under h s
next (zero_granule h) s = under h s
next (copy_in h a) s = under h s
next (measure_data a n) s = under g_rd s
next (measure_ripas a b) s = under g_rd s
next (set_ripas_addr a) s = under g_rec s

abbrev pub is_released : Hold → Bool
is_released s = elim s.locks [
  | [] ↦ elim s.buffers [ [] ↦ elim s.entry [ whole ↦ true | _ ↦ false ] | _ ↦ false ]
  | _ ↦ false
]

module _ {A : Type 0} where
  -- A call keeps the rules from `s` on, and holds nothing when it returns.
  unfoldable pub keeps : Hold → Outcome A → Bool
  keeps s (done a) = is_released s
  keeps s panic = true
  keeps s (e ▷ o) = elim (next e s) [ none ↦ false | some t ↦ keeps t o ]

abbrev pub nothing : Hold
nothing = record { locks = []; buffers = []; entry = whole }
