-- ===== src/Bignum/Mul.antt =====
-- `bignum_mul`. The arrays of the three arguments are distinct in every call.
use tetd_test.Base.{
  ℕ, ◌+◌, ◌-◌, ◌*◌, ◌%◌, ◌^◌, ◌≤◌, ◌<◌, ◌≡◌, refl, sym, ap, ◌∙◌, List, [], ◌∷◌, ltb, if◌then◌else◌,
  arith, add-cong_mod, mod-add-multiple, pow-add, Bool-cases, ltb→ge, inl, inr,
}
use native.Mathlib.Nat.{
  mod-mod, mod-eq_of_lt, mul-le-mul, add_comm, mul_assoc, mul-one, zero-add, zero-mul, add-zero,
}
use tetd_test.Bignum.{bn_array_size, Bn, u64}
use tetd_test.Bignum.Value.{base, val, AreWords, IsBn, capacity, val-lt-capacity, capacity-split}
use tetd_test.Bignum.Init.{
  cleared, from_int, cleared-IsBn, val-cleared, from_int-IsBn, val-from_int,
}
use tetd_test.Bignum.Add.{add}
use tetd_test.Bignum.Add.Laws.{add-IsBn, val-add}
use tetd_test.Bignum.Shift.{lshift_word}
use tetd_test.Bignum.Shift.Words.{val-lshift_word, lshift_word-IsBn}

-- The product of two words in place: `tmp` after `_lshift_word(&tmp, i + j)`.
unfoldable pub product_at : (x y n : ℕ) → Bn
product_at x y n = lshift_word (from_int (u64 (x * y))) n

-- The inner loop over the words of `b` from index `j` on.
pub mul_row : (x i j : ℕ) → List ℕ → Bn → Bn
mul_row x i j [] row = row
mul_row x i j (y ∷ ys) row =
    mul_row x i (j + 1) ys
      (if ltb (i + j) bn_array_size then add (product_at x y (i + j)) row else row)

-- The outer loop over the words of `a` from index `i` on.
pub mul_rows : (i : ℕ) → List ℕ → Bn → Bn → Bn
mul_rows i [] b c = c
mul_rows i (x ∷ xs) b c = mul_rows (i + 1) xs b (add c (mul_row x i 0 b cleared))

-- `bignum_mul`
pub mul : Bn → Bn → Bn
mul a b = mul_rows 0 a b cleared

product-lt : (x y : ℕ) → x < base → y < base → x * y < 2 ^ 64
product-lt x y hx hy = omega (
  arith,
  mul-le-mul {n₁ = x} {m₁ = y} {n₂ = base - 1} {m₂ = base - 1} (omega arith) (omega arith),
)

product_at-IsBn : (x y n : ℕ) → IsBn (product_at x y n)
unfolding product_at
product_at-IsBn x y n = lshift_word-IsBn _ n (from_int-IsBn _)

val-product_at :
    (x y n : ℕ) → x < base → y < base → val (product_at x y n) ≡ (x * y * base ^ n) % capacity
unfolding product_at
val-product_at x y n hx hy =
    val-lshift_word _ n (from_int-IsBn _)
    ∙ ap (λ t. (t * base ^ n) % capacity)
        (val-from_int (u64 (x * y)) (omega arith) ∙ mod-eq_of_lt (product-lt x y hx hy))

-- One round of the inner loop adds the product, modulo the capacity.
row_step : (x y n : ℕ) → Bn → Bn
row_step x y n row = if ltb n bn_array_size then add (product_at x y n) row else row

row_step_lem :
    (x y n : ℕ) (row : Bn)
    → x < base
    → y < base
    → IsBn row
    → IsBn (row_step x y n row)
      × (val (row_step x y n row) % capacity ≡ (val row + x * y * base ^ n) % capacity)
unfolding row_step
row_step_lem x y n row hx hy h = elim (Bool-cases (ltb n bn_array_size)) [
  | inl inside ↦ rw inside (
    add-IsBn _ row (product_at-IsBn x y n) h,
    ap (λ t. t % capacity) (val-add _ row (product_at-IsBn x y n) h)
        ∙ mod-mod _ capacity
        ∙ ap (λ t. (t + val row) % capacity) (val-product_at x y n hx hy)
        ∙ add-cong_mod capacity _ (x * y * base ^ n) (val row) (val row) (mod-mod _ capacity) refl
        ∙ ap (λ t. t % capacity) (add_comm _ _),
  )
  | inr outside ↦ rw outside (
    h,
    sym (
        ap (λ t. (val row + t) % capacity) (multiple (ltb→ge n bn_array_size outside))
        ∙ mod-add-multiple capacity (x * y * base ^ (n - bn_array_size)) (val row)),
  )
]
  where
    multiple : bn_array_size ≤ n → x * y * base ^ n ≡ x * y * base ^ (n - bn_array_size) * capacity
    multiple le = rw (capacity-split n le) (sym (mul_assoc (x * y) _ capacity))

base-next : (i j : ℕ) → base ^ (i + (j + 1)) ≡ base ^ (i + j) * base
base-next i j = let e : i + (j + 1) ≡ i + j + 1 = omega arith in rw e (pow-add base (i + j) 1)

mul_row_lem :
    (x i j : ℕ) (ys : List ℕ) (row : Bn)
    → x < base
    → AreWords ys
    → IsBn row
    → IsBn (mul_row x i j ys row)
      × (val (mul_row x i j ys row) % capacity ≡ (val row + x * val ys * base ^ (i + j)) % capacity)
unfolding mul_row val row_step
mul_row_lem x i j [] row hx hy h = (h, ap (λ t. t % capacity) (omega arith))
mul_row_lem x i j (y ∷ ys) row hx hy h =
    let s = row_step_lem x y (i + j) row hx hy.0 h in
    let r = mul_row_lem x i (j + 1) ys (row_step x y (i + j) row) hx hy.1 s.0 in
    (
      r.0,
      r.1
          ∙ add-cong_mod capacity _ (val row + x * y * base ^ (i + j)) _ _ s.1 refl
          ∙ ap (λ t. t % capacity) regroup,
    )
  where
    regroup :
        val row + x * y * base ^ (i + j) + x * val ys * base ^ (i + (j + 1))
        ≡ val row + x * (y + base * val ys) * base ^ (i + j)
    regroup = rw (base-next i j) (omega arith)

mul_rows_lem :
    (i : ℕ) (xs : List ℕ) (b c : Bn)
    → AreWords xs
    → IsBn b
    → IsBn c
    → IsBn (mul_rows i xs b c)
      × (val (mul_rows i xs b c) % capacity ≡ (val c + val xs * val b * base ^ i) % capacity)
unfolding mul_rows val
mul_rows_lem i [] b c hx hb hc =
    (hc, ap (λ t. t % capacity) (sym (rw (zero-mul, zero-mul) (add-zero (val c)))))
mul_rows_lem i (x ∷ xs) b c hx hb hc =
    let row = mul_row_lem x i 0 b cleared hx.0 hb.words cleared-IsBn in
    let c' = add c (mul_row x i 0 b cleared) in
    let rest = mul_rows_lem (i + 1) xs b c' hx.1 hb (add-IsBn c _ hc row.0) in
    (
      rest.0,
      rest.1
          ∙ add-cong_mod capacity (val c') (val c + x * val b * base ^ i) _ _ (added row.0 row.1)
              refl
          ∙ ap (λ t. t % capacity) regroup,
    )
  where
    added :
        IsBn (mul_row x i 0 b cleared)
        → val (mul_row x i 0 b cleared) % capacity
          ≡ (val cleared + x * val b * base ^ (i + 0)) % capacity
        → val (add c (mul_row x i 0 b cleared)) % capacity
          ≡ (val c + x * val b * base ^ i) % capacity
    added h e =
        ap (λ t. t % capacity) (val-add c _ hc h)
        ∙ mod-mod _ capacity
        ∙ add-cong_mod capacity (val c) (val c) _ (x * val b * base ^ i) refl
            (e ∙ rw (val-cleared, zero-add, add-zero i) refl)

    regroup :
        val c + x * val b * base ^ i + val xs * val b * base ^ (i + 1)
        ≡ val c + (x + base * val xs) * val b * base ^ i
    regroup = rw (pow-add base i 1) (omega arith)

module _ (a b : Bn) (h : IsBn a) (k : IsBn b) where
  pub mul-IsBn : IsBn (mul a b)
  unfolding mul
  mul-IsBn = (mul_rows_lem 0 a b cleared h.words k cleared-IsBn).0

  -- `bignum_mul` is multiplication modulo the capacity.
  pub val-mul : val (mul a b) ≡ (val a * val b) % capacity
  unfolding mul
  val-mul =
      let (bn, e) = mul_rows_lem 0 a b cleared h.words k cleared-IsBn in
      sym (mod-eq_of_lt (val-lt-capacity _ bn))
      ∙ e
      ∙ rw (val-cleared, zero-add) (ap (λ t. t % capacity) (mul-one (val a * val b)))

  -- Where the product fits, it is exact.
  pub val-mul_exact : val a * val b < capacity → val (mul a b) ≡ val a * val b
  val-mul_exact fits = val-mul ∙ mod-eq_of_lt fits
