-- ===== src/Rmm/Refcount.antt =====
-- The reference count of a table, and the entries that it counts.
pub mod Sum
pub mod Structure
pub mod Pages
use tetd_test.Base.{ℕ, zero, suc, ◌+◌, ◌-◌, ◌≡◌, true}
use tetd_test.Rmm.Interface.{Table, Layer, World, Walk}
use tetd_test.Rmm.Outcome.{Outcome, table_after, done, panic, ◌▷◌, granule_get, granule_put, g_llt}

-- `live` tells which entries a table counts: those with a page of the realm and those with a table,
-- not the pages of the host.
pub record IsLive (l : Layer) (live : ℕ → ℕ → ℕ) : Type 0 where
  pub unassigned_law : (e n : ℕ) → l.is_unassigned e ≡ true → live e n ≡ 0
  pub unassigned_empty_law : (e n : ℕ) → l.is_unassigned_empty e ≡ true → live e n ≡ 0
  pub unassigned_ram_law : (e n : ℕ) → l.is_unassigned_ram e ≡ true → live e n ≡ 0
  pub unassigned_ns_law : (e n : ℕ) → l.is_unassigned_ns e ≡ true → live e n ≡ 0
  pub unassigned_destroyed_law : (e n : ℕ) → l.is_unassigned_destroyed e ≡ true → live e n ≡ 0
  pub assigned_ns_law : (e n : ℕ) → l.is_assigned_ns e n ≡ true → live e n ≡ 0
  pub assigned_empty_law : (e n : ℕ) → l.is_assigned_empty e n ≡ true → live e n ≡ 1
  pub assigned_ram_law : (e n : ℕ) → l.is_assigned_ram e n ≡ true → live e n ≡ 1
  pub assigned_destroyed_law : (e n : ℕ) → l.is_assigned_destroyed e n ≡ true → live e n ≡ 1
  pub table_law : (e n : ℕ) → l.is_table e n ≡ true → live e n ≡ 1
  pub create_unassigned_empty_law : (n : ℕ) → live l.create_unassigned_empty n ≡ 0
  pub create_unassigned_ram_law : (n : ℕ) → live l.create_unassigned_ram n ≡ 0
  pub create_unassigned_ns_law : (n : ℕ) → live l.create_unassigned_ns n ≡ 0
  pub create_unassigned_destroyed_law : (n : ℕ) → live l.create_unassigned_destroyed n ≡ 0
  pub create_assigned_ns_law : (s n : ℕ) → live (l.create_assigned_ns s n) n ≡ 0
  pub create_assigned_empty_law : (p n : ℕ) → live (l.create_assigned_empty p n) n ≡ 1
  pub create_assigned_ram_law : (p n : ℕ) → live (l.create_assigned_ram p n) n ≡ 1
  pub create_assigned_destroyed_law : (p n : ℕ) → live (l.create_assigned_destroyed p n) n ≡ 1
  pub create_assigned_unchanged_law :
      (e p n : ℕ) → l.is_unassigned e ≡ true → live (l.create_assigned_unchanged e p n) n ≡ 1
  pub create_table_law : (p n : ℕ) → live (l.create_table p n) n ≡ 1

-- The live ones of the first entries.
unfoldable pub live_count : (ℕ → ℕ) → ℕ → Table → ℕ
live_count live zero t = 0
live_count live (suc k) t = live_count live k t + live (t k)

module _ {A : Type 0} where
  -- The reference count of the table of the walk, after a call.
  unfoldable pub refcount_after : ℕ → Outcome A → ℕ
  refcount_after r (done a) = r
  refcount_after r panic = r
  refcount_after r (granule_get g_llt ▷ o) = refcount_after (r + 1) o
  refcount_after r (granule_put g_llt ▷ o) = refcount_after (r - 1) o
  refcount_after r (e ▷ o) = refcount_after r o

-- The walk of a call from the root of the realm.
abbrev pub reached : World → (rd_addr map_addr level : ℕ) → Walk
reached w rd_addr map_addr level =
    let rd = w.rd rd_addr in w.walk rd.g_rtt rd.starting_level rd.ipa_bits map_addr level

-- The count of the table at address `a` is right before a call, and after it.
abbrev pub IsCounted : (l : Layer) (w : World) → (ℕ → ℕ) → ℕ → Type 0
IsCounted l w live a = w.refcount a ≡ live_count live l.entries_per_table (w.table a)

abbrev pub IsCountedAfter :
    {A : Type 0} → (l : Layer) (w : World) → (ℕ → ℕ) → ℕ → Outcome A → Type 0
IsCountedAfter l w live a o =
    refcount_after (w.refcount a) o
    ≡ live_count live l.entries_per_table (table_after (w.table a) o)
