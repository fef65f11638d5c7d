-- ===== src/Bignum/Compare.antt =====
-- `bignum_cmp` and `bignum_is_zero`.
use tetd_test.Base.{
  ℕ, zero, suc, ◌+◌, ◌*◌, ◌^◌, ◌≤◌, ◌<◌, ◌≡◌, refl, sym, ap₂, ◌∙◌, List, [], ◌∷◌, Bool, true, false,
  ltb, ◌==◌, if◌then◌else◌, arith, length, get_or, take, ltb→lt, ltb→ge, Bool-cases, inl, inr,
  take_all,
}
use native.Mathlib.Nat.{mul-le-mul_left}
use tetd_test.Bignum.{bn_array_size, Bn}
use tetd_test.Bignum.Value.{base, val, AreWords, IsBn, val-take-lt, val-take-suc}

-- The tokens of `bignum_cmp`: -1, 0 and 1.
pub data Token : Type 0 where
  smaller equal larger : Token

-- The tests that callers make on the result: `== LARGER` or `> 0`, and `== SMALLER` or `< 0`.
abbrev pub is_larger : Token → Bool
is_larger larger = true
is_larger _ = false

abbrev pub is_smaller : Token → Bool
is_smaller smaller = true
is_smaller _ = false

abbrev pub is_equal : Token → Bool
is_equal equal = true
is_equal _ = false

-- The loop of `bignum_cmp`, with the words below `i` left to compare.
pub cmp_loop : ℕ → Bn → Bn → Token
cmp_loop zero a b = equal
cmp_loop (suc i) a b =
    if ltb (get_or b i 0) (get_or a i 0)
    then larger
    else if ltb (get_or a i 0) (get_or b i 0)
    then smaller
    else cmp_loop i a b

-- `bignum_cmp`
pub cmp : Bn → Bn → Token
cmp a b = cmp_loop bn_array_size a b

-- `bignum_is_zero`
pub is_zero : Bn → Bool
is_zero [] = true
is_zero (w ∷ ws) = if w == 0 then is_zero ws else false

-- How two numbers compare.
abbrev pub order : ℕ → ℕ → Token
order x y = if ltb y x then larger else if ltb x y then smaller else equal

-- The top word counts first.
order-top :
    (m x y u v : ℕ)
    → x < m
    → y < m
    → order (x + m * u) (y + m * v)
      ≡ (if ltb v u then larger else if ltb u v then smaller else order x y)
order-top m x y u v hx hy = elim (Bool-cases (ltb v u)) [
  | inl gt ↦ rw gt (ground (arith, mul-le-mul_left m (ltb→lt v u gt)))
  | inr ge ↦ rw ge (elim (Bool-cases (ltb u v)) [
    | inl lt ↦ rw lt (ground (arith, mul-le-mul_left m (ltb→lt u v lt)))
    | inr le ↦
        rw le (let e : u ≡ v = omega (arith, ltb→ge v u ge, ltb→ge u v le) in rw e (ground arith))
  ])
]

cmp_loop-eq-order :
    (n : ℕ) (a b : List ℕ)
    → n ≤ length a
    → n ≤ length b
    → AreWords a
    → AreWords b
    → cmp_loop n a b ≡ order (val (take n a)) (val (take n b))
unfolding cmp_loop
cmp_loop-eq-order zero a b h k p q = unfold val in ground arith
cmp_loop-eq-order (suc n) a b h k p q =
    rw
      (
        cmp_loop-eq-order n a b (omega arith) (omega arith) p q,
        val-take-suc n a h,
        val-take-suc n b k,
      )
      (sym (
        order-top (base ^ n) _ _ (get_or a n 0) (get_or b n 0) (val-take-lt n a p (omega arith))
          (val-take-lt n b q (omega arith))))

-- `bignum_cmp` returns `LARGER`, `SMALLER` or `EQUAL` as the values of its arguments compare.
pub cmp-eq-order : (a b : Bn) → IsBn a → IsBn b → cmp a b ≡ order (val a) (val b)
unfolding cmp
cmp-eq-order a b h k =
    cmp_loop-eq-order bn_array_size a b (omega (arith, h.size)) (omega (arith, k.size)) h.words
      k.words
    ∙ ap₂ (λ s t. order (val s) (val t)) (take_all bn_array_size a (omega (arith, h.size)))
        (take_all bn_array_size b (omega (arith, k.size)))

-- `bignum_is_zero` tells whether the value is 0.
pub is_zero-eq-test : (n : Bn) → is_zero n ≡ (val n == 0)
unfolding is_zero val
is_zero-eq-test [] = refl
is_zero-eq-test (w ∷ ws) = rw (is_zero-eq-test ws) (ground arith)

pub smaller→lt : (x y : ℕ) → is_smaller (order x y) ≡ true → x < y
smaller→lt x y h = ground arith

pub smaller→ge : (x y : ℕ) → is_smaller (order x y) ≡ false → y ≤ x
smaller→ge x y h = ground arith

pub larger→gt : (x y : ℕ) → is_larger (order x y) ≡ true → y < x
larger→gt x y h = ground arith

pub larger→le : (x y : ℕ) → is_larger (order x y) ≡ false → x ≤ y
larger→le x y h = ground arith
