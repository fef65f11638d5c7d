-- ===== src/Rmm/Interface.antt =====
-- What rtt.c uses of the rest of the monitor, whose code is not in the repository: its constants
-- and functions (`Layer`), and what its data structures hold when a call looks at them (`World`).
use tetd_test.Base.{ℕ, Bool, ◌==◌, if◌then◌else◌}

-- `GRANULE_STATE_*`, `REALM_STATE_*` as far as the code tells them apart, `RIPAS_*`, and
-- `CHANGE_DESTROYED` or not.
pub data GranuleState : Type 0 where
  state_ns state_delegated state_rd state_data state_rec state_rtt : GranuleState

pub data RealmState : Type 0 where
  realm_new realm_other : RealmState

pub data Ripas : Type 0 where
  ripas_empty ripas_ram ripas_destroyed : Ripas

pub data ChangeDestroyed : Type 0 where
  change_destroyed no_change_destroyed : ChangeDestroyed

-- The words of a table, by index.
abbrev pub Table : Type 0
Table = ℕ → ℕ

-- `struct rd`: what its accessors return, `s2_ctx.g_rtt` and `addr_in_par`.
pub record Rd : Type 0 where
  pub ipa_size : ℕ
  pub starting_level : ℕ
  pub ipa_bits : ℕ
  pub g_rtt : ℕ
  pub state : RealmState
  pub in_par : ℕ → Bool

-- `struct rec`: `realm_info.g_rd` and `set_ripas`.
pub record Rec : Type 0 where
  pub g_rd : ℕ
  pub addr : ℕ
  pub top : ℕ
  pub ripas_val : Ripas
  pub change : ChangeDestroyed

-- `struct rtt_walk`
pub record Walk : Type 0 where
  pub g_llt : ℕ
  pub index : ℕ
  pub last_level : ℕ

-- Constants and functions without state.
pub record Layer : Type 0 where
  pub page_level : ℕ
  pub min_block_level : ℕ
  pub entries_per_table : ℕ
  pub granule_size : ℕ
  pub pack_return_code : ℕ → ℕ → ℕ
  pub addr_is_level_aligned : ℕ → ℕ → Bool
  pub map_size : ℕ → ℕ
  pub ripas_code : Ripas → ℕ
  -- The tests on an entry.
  pub is_unassigned : ℕ → Bool
  pub is_unassigned_empty : ℕ → Bool
  pub is_unassigned_ram : ℕ → Bool
  pub is_unassigned_ns : ℕ → Bool
  pub is_unassigned_destroyed : ℕ → Bool
  pub is_assigned_empty : ℕ → ℕ → Bool
  pub is_assigned_ram : ℕ → ℕ → Bool
  pub is_assigned_ns : ℕ → ℕ → Bool
  pub is_assigned_destroyed : ℕ → ℕ → Bool
  pub is_table : ℕ → ℕ → Bool
  pub has_ripas : ℕ → ℕ → Bool
  -- Entries made, and their parts.
  pub create_unassigned_empty : ℕ
  pub create_unassigned_ram : ℕ
  pub create_unassigned_ns : ℕ
  pub create_unassigned_destroyed : ℕ
  pub create_assigned_empty : ℕ → ℕ → ℕ
  pub create_assigned_ram : ℕ → ℕ → ℕ
  pub create_assigned_ns : ℕ → ℕ → ℕ
  pub create_assigned_destroyed : ℕ → ℕ → ℕ
  pub create_assigned_unchanged : ℕ → ℕ → ℕ → ℕ
  pub create_table : ℕ → ℕ → ℕ
  pub pa : ℕ → ℕ → ℕ
  pub pa_table : ℕ → ℕ → ℕ
  pub host_ns_s2tte : ℕ → ℕ → ℕ
  pub host_ns_s2tte_is_valid : ℕ → ℕ → Bool
  -- The tests on a whole table.
  pub all_unassigned_empty : Table → Bool
  pub all_unassigned_ram : Table → Bool
  pub all_unassigned_ns : Table → Bool
  pub all_unassigned_destroyed : Table → Bool
  pub maps_assigned_empty_block : Table → ℕ → Bool
  pub maps_assigned_ram_block : Table → ℕ → Bool
  pub maps_assigned_ns_block : Table → ℕ → Bool
  pub maps_assigned_destroyed_block : Table → ℕ → Bool
  pub skip_non_live_entries : ℕ → Table → Walk → ℕ

-- What a call finds. Granules are named by their addresses.
pub record World : Type 0 where
  -- Whether `find_lock_granule` and `find_lock_two_granules` return what they are asked for.
  pub find_lock : ℕ → GranuleState → Bool
  pub find_lock_two : ℕ → GranuleState → ℕ → GranuleState → Bool
  -- `find_granule`, and the state that is read of the granule.
  pub find : ℕ → Bool
  pub state_of : ℕ → GranuleState
  pub refcount : ℕ → ℕ
  pub rd : ℕ → Rd
  pub rec : ℕ → Rec
  -- `rtt_walk_lock_unlock`: root, starting level, IPA bits, address and level.
  pub walk : ℕ → ℕ → ℕ → ℕ → ℕ → Walk
  pub table : ℕ → Table
  pub ns_buffer_read : ℕ → Bool

-- What a table holds after a write.
abbrev pub update : Table → ℕ → ℕ → Table
update table index v i = if i == index then v else table i
