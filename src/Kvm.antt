-- ===== src/Kvm.antt =====
-- tetd_cca/linux/arch/arm64/kvm/rme.c: how the host makes and takes away the tables of a realm by
-- calls to the monitor. Here: the calls, what has happened so far, and the sizes of entries.
pub mod Pages
pub mod Ranges
pub mod Fold
pub mod Ripas
pub mod Invariant
pub mod Ledger
pub mod Hangs
pub mod Level
pub mod Within
mod Tests
pub mod Frees
use tetd_test.Base.{
  ℕ, ◌+◌, ◌-◌, ◌*◌, ◌/◌, ◌%◌, ◌^◌, Bool, leb, ltb, ◌==◌, if◌then◌else◌, List, ◌∷◌, Option,
}

-- The calls to the page allocator and to the monitor.
pub data Call : Type 0 where
  alloc_page : Call
  free_page granule_delegate granule_undelegate : (phys : ℕ) → Call
  rtt_create : (rtt ipa level : ℕ) → Call
  rtt_destroy rtt_fold rtt_unmap_unprotected : (ipa level : ℕ) → Call
  rtt_init_ripas rtt_set_ripas : (base top : ℕ) → Call
  data_destroy : (ipa : ℕ) → Call

-- What a call returns: its code, the page it gives (`out_rtt`, or the page of the allocator), and the
-- address it got to (`out_top`). For the allocator, a code other than 0 stands for no page.
pub record Reply : Type 0 where
  pub ret : ℕ
  pub out : ℕ
  pub top : ℕ

-- What has happened, the last first.
abbrev pub Trace : Type 0
Trace = List (Call × Reply)

-- `struct realm`, with the trace. `PHYS_ADDR_MAX` is `none`.
pub record Realm : Type 0 where
  pub spare_page : Option ℕ
  pub trace : Trace

-- The error codes.
pub data Errno : Type 0 where
  einval ebusy enxio enomem : Errno

-- `RMI_RETURN_STATUS` and `RMI_RETURN_INDEX`
abbrev pub return_status : ℕ → ℕ
return_status ret = ret % 256

abbrev pub return_index : ℕ → ℕ
return_index ret = ret / 256 % 256

-- `RME_RTT_MAX_LEVEL`
abbrev pub rme_rtt_max_level : ℕ
rme_rtt_max_level = 3

-- `rme_rtt_level_mapsize`
abbrev pub rme_rtt_level_shift : ℕ → ℕ
rme_rtt_level_shift level = 9 * (4 - level) + 3

unfoldable pub rme_rtt_level_mapsize : (level : ℕ) → ℕ
rme_rtt_level_mapsize level =
    if ltb rme_rtt_max_level level then 2 ^ 12 else 2 ^ rme_rtt_level_shift level

-- `ALIGN`, `ALIGN_DOWN` and `IS_ALIGNED`, for a size that is a power of two
unfoldable pub align_up : (addr size : ℕ) → ℕ
align_up addr size = (addr + size - 1) % 2 ^ 64 / size * size

unfoldable pub align_floor : (addr size : ℕ) → ℕ
align_floor addr size = addr / size * size

abbrev pub is_aligned : (addr size : ℕ) → Bool
is_aligned addr size = addr % size == 0

module _ (answer : Trace → Call → Reply) where
  -- A call, whose reply may depend on all that has happened.
  abbrev pub invoke : Call → Realm → Reply × Realm
  invoke c r = let a = answer r.trace c in (a, record r { trace = (c, a) ∷ r.trace })

  abbrev pub after : Call → Realm → Realm
  after c r = (invoke c r).1
