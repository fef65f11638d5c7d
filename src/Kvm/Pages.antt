-- ===== src/Kvm/Pages.antt =====
-- The pages that the host has delegated to the monitor, and the creation of tables.
use tetd_test.Base.{ℕ, zero, suc, ◌+◌, ◌-◌, ◌==◌, if◌then◌else◌, Option, none, some}
use tetd_test.Kvm.{
  Call, alloc_page, free_page, granule_delegate, granule_undelegate, rtt_create, Reply, Trace,
  Realm, Errno, enxio, enomem, invoke, after, align_floor, rme_rtt_level_mapsize,
}

-- What follows when there was no error.
abbrev pub or_error : Option Errno × Realm → (Realm → Option Errno × Realm) → Option Errno × Realm
or_error (none, r) next = next r
or_error (some e, r) next = (some e, r)

module _ (answer : Trace → Call → Reply) where
  -- `__alloc_delegated_page`, from the page on that the allocator gave.
  unfoldable pub delegate_page : (phys : ℕ) → Realm → Option ℕ × Realm
  delegate_page phys r =
      let (a, r1) = invoke answer (granule_delegate phys) r in
      if a.ret == 0 then (some phys, r1) else (none, after answer (free_page phys) r1)

  -- `__alloc_delegated_page`
  unfoldable pub alloc_delegated_page : Realm → Option ℕ × Realm
  alloc_delegated_page r = elim r.spare_page [
    | some phys ↦ (some phys, record r { spare_page = none })
    | none ↦
        let (a, r1) = invoke answer alloc_page r in
        if a.ret == 0 then delegate_page a.out r1 else (none, r1)
  ]

  -- `rmi_granule_undelegate` and `free_page`; a page that cannot be undelegated is leaked.
  unfoldable pub undelegate_page : (phys : ℕ) → Realm → Realm
  undelegate_page phys r =
      let (a, r1) = invoke answer (granule_undelegate phys) r in
      if a.ret == 0 then after answer (free_page phys) r1 else r1

  -- `free_delegated_page`
  unfoldable pub free_delegated_page : (phys : ℕ) → Realm → Realm
  free_delegated_page phys r = elim r.spare_page [
    | none ↦ record r { spare_page = some phys }
    | some q ↦ undelegate_page phys r
  ]

  -- `realm_rtt_create`
  unfoldable pub realm_rtt_create : (ipa level rtt : ℕ) → Realm → Reply × Realm
  realm_rtt_create ipa level rtt r =
      invoke answer (rtt_create rtt (align_floor ipa (rme_rtt_level_mapsize (level - 1))) level) r

  -- A table in the page that was allocated, if there is one: one round of `realm_create_rtt_levels`
  -- from the allocation on.
  unfoldable pub attach_table : (ipa level : ℕ) → Option ℕ → Realm → Option Errno × Realm
  attach_table ipa level none r = (some enomem, r)
  attach_table ipa level (some rtt) r =
      let (a, r1) = realm_rtt_create ipa level rtt r in
      if a.ret == 0 then (none, r1) else (some enxio, free_delegated_page rtt r1)

  unfoldable pub create_level : (ipa level : ℕ) → Realm → Option Errno × Realm
  create_level ipa level r =
      let (page, r1) = alloc_delegated_page r in attach_table ipa level page r1

  -- `realm_create_rtt_levels`, with the number of levels that are left.
  unfoldable pub create_levels : (ipa level count : ℕ) → Realm → Option Errno × Realm
  create_levels ipa level zero r = (none, r)
  create_levels ipa level (suc n) r =
      or_error (create_level ipa (level + 1) r) (λ r1. create_levels ipa (level + 1) n r1)

  unfoldable pub realm_create_rtt_levels : (ipa level max_level : ℕ) → Realm → Option Errno × Realm
  realm_create_rtt_levels ipa level max_level r = create_levels ipa level (max_level - level) r

  unfoldable pub keep_page : Option ℕ → Realm → Realm
  keep_page none r = r
  keep_page (some phys) r = free_delegated_page phys r

  -- `ensure_spare_page`
  unfoldable pub ensure_spare_page : Realm → Realm
  ensure_spare_page r = let (page, r1) = alloc_delegated_page r in keep_page page r1
