-- ===== src/Kvm/Ledger.antt =====
-- The pages that the host has to give back to the allocator or to the monitor: those that it has
-- delegated, and those of tables and data that the monitor handed out again.
pub mod Steps
use tetd_test.Base.{
  ℕ, zero, suc, ◌+◌, ◌-◌, ◌≡◌, refl, Bool, true, false, ◌==◌, if◌then◌else◌, Option, none, some, [],
  ◌∷◌, List, arith,
}
use tetd_test.Rmm.Outcome.{rmi_success}
use tetd_test.Kvm.{
  Call, alloc_page, free_page, granule_delegate, granule_undelegate, rtt_create, rtt_destroy,
  rtt_fold, data_destroy, Reply, Trace, Realm, Errno, return_status, invoke, after,
}
use tetd_test.Kvm.Pages.{
  or_error, delegate_page, alloc_delegated_page, undelegate_page, free_delegated_page,
  realm_rtt_create, attach_table, keep_page, create_level, create_levels, realm_create_rtt_levels,
  ensure_spare_page,
}

-- One, if it is this page.
abbrev pub one_if : (phys page : ℕ) → ℕ
one_if phys page = if phys == page then 1 else 0

-- How often a call hands a page to the host, and how often it takes that page from it. A page that
-- cannot be undelegated is given up.
abbrev pub gained : (page : ℕ) → Call → Reply → ℕ
gained page (granule_delegate p) a = if a.ret == 0 then one_if p page else 0
gained page (rtt_destroy i n) a =
    if return_status a.ret == rmi_success then one_if a.out page else 0
gained page (rtt_fold i n) a = if return_status a.ret == rmi_success then one_if a.out page else 0
gained page (data_destroy i) a = if a.ret == 0 then one_if a.out page else 0
gained page c a = 0

abbrev pub given : (page : ℕ) → Call → Reply → ℕ
given page (granule_undelegate p) a = one_if p page
given page (rtt_create p i n) a = if a.ret == 0 then one_if p page else 0
given page c a = 0

abbrev pub all_gained : (page : ℕ) → Trace → ℕ
all_gained page [] = 0
all_gained page ((c, a) ∷ t) = gained page c a + all_gained page t

abbrev pub all_given : (page : ℕ) → Trace → ℕ
all_given page [] = 0
all_given page ((c, a) ∷ t) = given page c a + all_given page t

abbrev pub count : (page : ℕ) → Option ℕ → ℕ
count page none = 0
count page (some p) = one_if p page

-- Each time that the page was gained it was given back, or it is the spare one, or in hand for
-- another reason, `n` times.
abbrev pub IsBalanced : (page n : ℕ) → Realm → Type 0
IsBalanced page n r = all_gained page r.trace ≡ all_given page r.trace + count page r.spare_page + n

module _ (answer : Trace → Call → Reply) (page : ℕ) where
  pub alloc-IsBalanced :
      (n : ℕ) (r : Realm)
      → IsBalanced page n r
      → IsBalanced page
          (count page ((alloc_delegated_page answer r).0) + n)
          ((alloc_delegated_page answer r).1)
  unfolding alloc_delegated_page delegate_page
  alloc-IsBalanced n r b = ground (arith, b)

  pub undelegate-IsBalanced :
      (phys n : ℕ) (r : Realm)
      → IsBalanced page (one_if phys page + n) r
      → IsBalanced page n (undelegate_page answer phys r)
  unfolding undelegate_page
  undelegate-IsBalanced phys n r b = ground (arith, b)

  pub free-IsBalanced :
      (phys n : ℕ) (r : Realm)
      → IsBalanced page (one_if phys page + n) r
      → IsBalanced page n (free_delegated_page answer phys r)
  unfolding free_delegated_page undelegate_page
  free-IsBalanced phys n r b = ground (arith, b)

  attach-IsBalanced :
      (ipa level n : ℕ) (held : Option ℕ) (r : Realm)
      → IsBalanced page (count page held + n) r
      → IsBalanced page n ((attach_table answer ipa level held r).1)
  unfolding attach_table realm_rtt_create free_delegated_page undelegate_page
  attach-IsBalanced ipa level n none r b = ground (arith, b)
  attach-IsBalanced ipa level n (some rtt) r b = ground (arith, b)

  pub create_level-IsBalanced :
      (ipa level n : ℕ) (r : Realm)
      → IsBalanced page n r
      → IsBalanced page n ((create_level answer ipa level r).1)
  unfolding create_level
  create_level-IsBalanced ipa level n r b =
      attach-IsBalanced ipa level n ((alloc_delegated_page answer r).0) _ (alloc-IsBalanced n r b)

  keep_page-IsBalanced :
      (n : ℕ) (held : Option ℕ) (r : Realm)
      → IsBalanced page (count page held + n) r
      → IsBalanced page n (keep_page answer held r)
  unfolding keep_page
  keep_page-IsBalanced n none r b = ground (arith, b)
  keep_page-IsBalanced n (some phys) r b = free-IsBalanced phys n r (ground (arith, b))

  pub ensure_spare_page-IsBalanced :
      (n : ℕ) (r : Realm) → IsBalanced page n r → IsBalanced page n (ensure_spare_page answer r)
  unfolding ensure_spare_page
  ensure_spare_page-IsBalanced n r b =
      keep_page-IsBalanced n ((alloc_delegated_page answer r).0) _ (alloc-IsBalanced n r b)
