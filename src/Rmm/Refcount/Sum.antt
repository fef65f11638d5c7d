-- ===== src/Rmm/Refcount/Sum.antt =====
-- The count of live entries, when one entry changes.
use tetd_test.Base.{
  ℕ, zero, suc, ◌+◌, ◌≤◌, ◌<◌, ◌≡◌, refl, arith, ap, ap₂, false, ◌==◌, Bool-cases, ==_iff, inl, inr,
}
use tetd_test.Rmm.Interface.{Table}
use tetd_test.Rmm.Outcome.{Outcome, table_after}
use tetd_test.Rmm.Refcount.{live_count, refcount_after}

module _ (live : ℕ → ℕ) (s t : Table) where
  live_count-agree :
      (k : ℕ) → ((j : ℕ) → j < k → s j ≡ t j) → live_count live k s ≡ live_count live k t
  unfolding live_count
  live_count-agree zero h = refl
  live_count-agree (suc k) h =
      ap₂ (λ (a b : ℕ). a + b) (live_count-agree k (λ j lt. h j (omega arith)))
        (ap live (h k (omega arith)))

  live_count-changed :
      (i k : ℕ)
      → i < k
      → ((j : ℕ) → (j == i) ≡ false → s j ≡ t j)
      → live_count live k s + live (t i) ≡ live_count live k t + live (s i)
  unfolding live_count
  live_count-changed i zero lt h = absurd (omega arith)
  live_count-changed i (suc k) lt h = elim (Bool-cases (k == i)) [
    | inl same ↦
        let e : k ≡ i = (==_iff k i).0 same in
        let below = live_count-agree k (λ j lt. h j (ground arith)) in
        omega (arith, below, ap (λ j. live (s j)) e, ap (λ j. live (t j)) e)
    | inr other ↦ omega (arith, live_count-changed i k (ground arith) h, ap live (h k other))
  ]

  live-le_count : (i k : ℕ) → i < k → live (t i) ≤ live_count live k t
  unfolding live_count
  live-le_count i zero lt = absurd (omega arith)
  live-le_count i (suc k) lt = elim (Bool-cases (k == i)) [
    | inl same ↦ let e : k ≡ i = (==_iff k i).0 same in omega (arith, ap (λ j. live (t j)) e)
    | inr other ↦ omega (arith, live-le_count i k (ground arith))
  ]

-- What a call does to one entry `i` and to the reference count.
unfoldable pub IsBalanced :
    {A : Type 0} → (live : ℕ → ℕ) (r : ℕ) (t : Table) (i : ℕ) → Outcome A → Type 0
IsBalanced live r t i o =
    ((j : ℕ) → (j == i) ≡ false → table_after t o j ≡ t j)
    × (live (t i) ≤ r → refcount_after r o + live (t i) ≡ r + live (table_after t o i))

-- A call that is balanced at one entry keeps the count.
pub IsBalanced-counts :
    {A : Type 0}
    → (live : ℕ → ℕ) (r : ℕ) (t : Table) (i k : ℕ) (o : Outcome A) → i < k
    → r ≡ live_count live k t
    → IsBalanced live r t i o
    → refcount_after r o ≡ live_count live k (table_after t o)
unfolding IsBalanced
IsBalanced-counts live r t i k o lt counted b = omega (
  arith,
  counted,
  live_count-changed live (table_after t o) t i k lt (b.0),
  b.1 (omega (arith, counted, live-le_count live t t i k lt)),
)
