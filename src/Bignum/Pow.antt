-- ===== src/Bignum/Pow.antt =====
-- `bignum_pow`. Its loop runs on fuel, and `none` means that the fuel ran out.
use tetd_test.Base.{
  ℕ, zero, suc, ◌+◌, ◌*◌, ◌%◌, ◌^◌, ◌≤◌, ◌<◌, ◌≡◌, refl, sym, ap, ◌∙◌, Option, none, some, true,
  false, arith, if◌then◌else◌, Bool-cases, inl, inr, ==_iff, ◌==◌, mod_mul_left,
}
use native.Mathlib.Nat.{mod-eq_of_lt, pow-suc, pow-zero, one-mul}
use tetd_test.Bignum.{Bn}
use tetd_test.Bignum.Value.{val, IsBn, capacity, val-lt-capacity}
use tetd_test.Bignum.Init.{cleared, cleared-IsBn, val-cleared}
use tetd_test.Bignum.Add.{inc, dec}
use tetd_test.Bignum.Add.Laws.{val-inc}
use tetd_test.Bignum.Add.Difference.{dec-IsBn, val-dec}
use tetd_test.Bignum.Compare.{cmp, is_equal, is_zero, order, cmp-eq-order, is_zero-eq-test}
use tetd_test.Bignum.Mul.{mul, mul-IsBn, val-mul}

-- The loop: `tmp` is multiplied by `a`, and `b` counts down, in place.
pub pow_loop : (fuel : ℕ) (a b tmp : Bn) → Option (Bn × Bn)
pow_loop zero a b tmp = none
pow_loop (suc fuel) a b tmp =
    let rest = pow_loop fuel a (dec b) (mul tmp a) in if is_zero b then some (tmp, b) else rest

-- `bignum_pow`: the result and what is left in `b`.
pub pow : (fuel : ℕ) → Bn → Bn → Option (Bn × Bn)
pow fuel a b =
    let run = pow_loop fuel a (dec b) a in
    if is_equal (cmp b cleared) then some (inc cleared, b) else run

equal→eq : (x y : ℕ) → is_equal (order x y) ≡ true → x ≡ y
equal→eq x y h = ground arith

not_equal→pos : (x : ℕ) → is_equal (order x 0) ≡ false → 0 < x
not_equal→pos x h = ground arith

not_zero→pos : (x : ℕ) → (x == 0) ≡ false → 0 < x
not_zero→pos x h = ground arith

pow_loop_lem :
    (fuel k : ℕ) (a b tmp : Bn)
    → IsBn a
    → IsBn b
    → IsBn tmp
    → val b < fuel
    → val tmp ≡ (val a ^ suc k) % capacity
    → (c left : Bn) × (pow_loop fuel a b tmp ≡ some (c, left))
      × (val c ≡ (val a ^ suc (k + val b)) % capacity)
      × (val left ≡ 0)
unfolding pow_loop
pow_loop_lem zero k a b tmp ha hb ht enough e = absurd (omega arith)
pow_loop_lem (suc fuel) k a b tmp ha hb ht enough e = elim (Bool-cases (is_zero b)) [
  | inl done ↦
      let z : val b ≡ 0 = (==_iff (val b) 0).0 (sym (is_zero-eq-test b) ∙ done) in
      (tmp, b, rw done refl, e ∙ ap (λ (t : ℕ). val a ^ suc t % capacity) (omega arith), z)
  | inr more ↦
      let pos : 0 < val b = not_zero→pos (val b) (sym (is_zero-eq-test b) ∙ more) in
      let down : val (dec b) + 1 ≡ val b = val-dec b hb pos in
      let (c, l, run, v, z) =
        pow_loop_lem fuel (suc k) a (dec b) (mul tmp a) ha (dec-IsBn b hb) (mul-IsBn tmp a ht ha)
          (omega arith) next in
      (c, l, rw more run, v ∙ ap (λ (t : ℕ). val a ^ suc t % capacity) (omega arith), z)
]
  where
    next : val (mul tmp a) ≡ (val a ^ suc (suc k)) % capacity
    next =
        val-mul tmp a ht ha
        ∙ ap (λ (t : ℕ). (t * val a) % capacity) e
        ∙ mod_mul_left (val a ^ suc k) (val a) capacity
        ∙ ap (λ (t : ℕ). t % capacity) (sym (pow-suc (val a) (suc k)))

-- With at least `b` rounds of its loop, `bignum_pow` returns the power `a ^ b` modulo the
-- capacity, and leaves 0 in `b`.
pub pow-eq-power :
    (fuel : ℕ) (a b : Bn)
    → IsBn a
    → IsBn b
    → val b ≤ fuel
    → (c left : Bn) × (pow fuel a b ≡ some (c, left))
      × (val c ≡ (val a ^ val b) % capacity)
      × (val left ≡ 0)
unfolding pow
pow-eq-power fuel a b ha hb enough = elim (Bool-cases (is_equal (cmp b cleared))) [
  | inl none_left ↦
      let z : val b ≡ 0 =
        equal→eq (val b) 0
          (rw (cmp-eq-order b cleared hb cleared-IsBn, val-cleared) at none_left) in
      (
        inc cleared,
        b,
        rw none_left refl,
        val-inc cleared cleared-IsBn ∙ rw (val-cleared, z, pow-zero) refl,
        z,
      )
  | inr some_left ↦
      let pos : 0 < val b =
        not_equal→pos (val b)
          (rw (cmp-eq-order b cleared hb cleared-IsBn, val-cleared) at some_left) in
      let down : val (dec b) + 1 ≡ val b = val-dec b hb pos in
      let (c, l, run, v, z) =
        pow_loop_lem fuel 0 a (dec b) a ha (dec-IsBn b hb) ha (omega arith) once in
      (c, l, rw some_left run, v ∙ ap (λ (t : ℕ). val a ^ t % capacity) (omega arith), z)
]
  where
    once : val a ≡ (val a ^ 1) % capacity
    once =
        sym (mod-eq_of_lt (val-lt-capacity a ha))
        ∙ ap (λ (t : ℕ). t % capacity) (sym (pow-suc (val a) 0 ∙ rw pow-zero (one-mul (val a))))
