-- ===== src/Rsa/Mont/Round.antt =====
-- One round of `montMult`: it halves `t + xi * y`, made even by `m`.
use tetd_test.Base.{
  ℕ, zero, suc, ◌+◌, ◌*◌, ◌/◌, ◌%◌, ◌^◌, ◌≤◌, ◌<◌, ◌≡◌, refl, ap, ◌∙◌, arith, ◌==◌, if◌then◌else◌,
  bit_and, bit_xor, Bool-cases, inl, inr, ◌⊎◌, ==_iff, false,
}
use native.Mathlib.Nat.{div-one}
use tetd_test.Bignum.{Bn}
use tetd_test.Bignum.Value.{val, IsBn, capacity}
use tetd_test.Bignum.Add.{add}
use tetd_test.Bignum.Add.Laws.{add-IsBn, val-add_exact}
use tetd_test.Bignum.Bitwise.{getbit}
use tetd_test.Bignum.Bitwise.Access.{getbit-eq-digit}
use tetd_test.Bignum.Shift.Down.{val-rshift, rshift-IsBn}
use tetd_test.Rsa.Mont.{mont_round}

bit-cases : (n : ℕ) → (n % 2 ≡ 0) ⊎ (n % 2 ≡ 1)
bit-cases n = omega arith

-- The test on the three bits, as arithmetic.
bit_table : (a b c : ℕ) → a < 2 → b < 2 → c < 2 → bit_xor a (bit_and b c) ≡ (a + b * c) % 2
bit_table zero zero zero h k l = refl
bit_table zero zero (suc zero) h k l = refl
bit_table zero (suc zero) zero h k l = refl
bit_table zero (suc zero) (suc zero) h k l = refl
bit_table (suc zero) zero zero h k l = refl
bit_table (suc zero) zero (suc zero) h k l = refl
bit_table (suc zero) (suc zero) zero h k l = refl
bit_table (suc zero) (suc zero) (suc zero) h k l = refl
bit_table _ _ _ h k l = absurd (omega arith)

odd_sum : (t b y : ℕ) → b < 2 → (t % 2 + b * (y % 2)) % 2 ≡ (t + b * y) % 2
odd_sum t zero y h = omega arith
odd_sum t (suc zero) y h = omega arith
odd_sum t (suc (suc b)) y h = absurd (omega arith)

-- Adding an odd number when the sum is odd makes it even.
even_sum : (v s m : ℕ) → m % 2 ≡ 1 → v ≡ s + (s % 2) * m → 2 * (v / 2) ≡ s + (s % 2) * m
even_sum v s m odd e = elim (bit-cases s) [
  | inl f ↦ omega (arith, ap (λ (b : ℕ). b * m) f)
  | inr f ↦ omega (arith, ap (λ (b : ℕ). b * m) f)
]

-- The first addition.
with_y : (x y : Bn) (bit : ℕ) → Bn → Bn
with_y x y bit t = if getbit x bit == 0 then t else add t y

-- The second addition, on the sum `s`; `t` is the number before the first.
with_m : (x y m : Bn) (bit : ℕ) (t s : Bn) → Bn
with_m x y m bit t s =
    if bit_xor (getbit t 0) (bit_and (getbit x bit) (getbit y 0)) == 0 then s else add s m

module _ (x y m : Bn) (bit : ℕ) (t : Bn) (hx : IsBn x) (hy : IsBn y) (hm : IsBn m)
    (ht : IsBn t) where
  pub xi : ℕ
  xi = (val x / 2 ^ bit) % 2

  with_y_lem :
      val t + val y < capacity
      → IsBn (with_y x y bit t) × (val (with_y x y bit t) ≡ val t + xi * val y)
  unfolding with_y xi
  with_y_lem fits = rw (getbit-eq-digit x bit hx) (elim (bit-cases (val x / 2 ^ bit)) [
    | inl e ↦ rw e (ht, omega arith)
    | inr e ↦ rw e (add-IsBn t y ht hy, val-add_exact t y ht hy fits ∙ omega arith)
  ])

  -- Whether `m` is added: exactly when the sum so far is odd.
  pub needs_m : ℕ
  needs_m = (val t + xi * val y) % 2

  parity : bit_xor (getbit t 0) (bit_and (getbit x bit) (getbit y 0)) ≡ needs_m
  unfolding needs_m xi
  parity =
      rw
        (
          getbit-eq-digit x bit hx,
          getbit-eq-digit t 0 ht,
          getbit-eq-digit y 0 hy,
          div-one (val t),
          div-one (val y),
        )
        (bit_table _ _ _ (omega arith) (omega arith) (omega arith)
          ∙ odd_sum (val t) ((val x / 2 ^ bit) % 2) (val y) (omega arith))

  with_m_lem :
      (s : Bn)
      → IsBn s
      → val s ≡ val t + xi * val y
      → val s + val m < capacity
      → IsBn (with_m x y m bit t s) × (val (with_m x y m bit t s) ≡ val s + needs_m * val m)
  unfolding with_m
  with_m_lem s hs e fits = rw parity (elim (Bool-cases (needs_m == 0)) [
    | inl even ↦ rw (even, (==_iff _ 0).0 even) (hs, omega arith)
    | inr odd ↦
        rw (odd, is_one odd) (add-IsBn s m hs hm, val-add_exact s m hs hm fits ∙ omega arith)
  ])
    where
      is_one : (needs_m == 0) ≡ false → needs_m ≡ 1
      is_one h = unfold needs_m in ground arith

  -- The new number, doubled, is the sum of the three parts.
  pub mont_round_lem :
      val m % 2 ≡ 1
      → val t + val y + val m < capacity
      → IsBn (mont_round x y m bit t)
        × (2 * val (mont_round x y m bit t) ≡ val t + xi * val y + needs_m * val m)
  unfolding mont_round with_y with_m
  mont_round_lem odd fits =
      let a = with_y_lem (omega arith) in
      let b = with_m_lem (with_y x y bit t) a.0 a.1 (omega (arith, a.1, xi_small)) in
      (
        rshift-IsBn _ 1 (omega arith) b.0,
        ap (λ v. 2 * v) (val-rshift _ 1 (omega arith) b.0)
            ∙ halved _ (b.1 ∙ ap (λ v. v + needs_m * val m) a.1),
      )
    where
      xi_small : xi * val y ≤ val y
      xi_small =
          unfold xi in
          elim (bit-cases (val x / 2 ^ bit)) [
            | inl e ↦ rw e (omega arith)
            | inr e ↦ rw e (omega arith)
          ]

      halved :
          (v : ℕ)
          → v ≡ val t + xi * val y + needs_m * val m
          → 2 * (v / 2 ^ 1) ≡ val t + xi * val y + needs_m * val m
      halved v e = unfold needs_m in even_sum v (val t + xi * val y) (val m) odd e

  pub xi-eq-digit : xi ≡ (val x / 2 ^ bit) % 2
  unfolding xi
  xi-eq-digit = refl

  pub xi-mul-le : (v : ℕ) → xi * v ≤ v
  unfolding xi
  xi-mul-le v = elim (bit-cases (val x / 2 ^ bit)) [
    | inl e ↦ rw e (omega arith)
    | inr e ↦ rw e (omega arith)
  ]

  pub needs_m-mul-le : (v : ℕ) → needs_m * v ≤ v
  unfolding needs_m
  needs_m-mul-le v = elim (bit-cases (val t + xi * val y)) [
    | inl e ↦ rw e (omega arith)
    | inr e ↦ rw e (omega arith)
  ]
