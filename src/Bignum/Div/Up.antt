-- ===== src/Bignum/Div/Up.antt =====
-- The first loop of `bignum_div`.
use tetd_test.Base.{
  ℕ, zero, suc, ◌+◌, ◌-◌, ◌*◌, ◌%◌, ◌^◌, ◌≤◌, ◌<◌, ◌≡◌, refl, sym, ap, ◌∙◌, ◌⊎◌, inl, inr, Bool,
  true, false, none, some, leb, arith, get_or, Bool-cases, leb→le, leb→gt, lt_of_pow-lt-pow, take,
  take_all,
}
use native.Mathlib.Nat.{
  mul-le-mul_right, lt_of_le_of_lt, zero-mod, mod-eq_of_lt, pow-suc, mul-le-mul_left,
}
use tetd_test.Bignum.{bn_array_size, Bn}
use tetd_test.Bignum.Value.{
  base, val, IsBn, capacity, capacity-eq-pow, capacity-pos, val-lt-capacity, val-take-suc,
  val-take-lt,
}
use tetd_test.Bignum.Compare.{cmp, is_larger, order, cmp-eq-order, larger→gt}
use tetd_test.Bignum.Shift.{lshift_one_bit}
use tetd_test.Bignum.Shift.Up.{lshift_one_bit-IsBn, val-lshift_one_bit}
use tetd_test.Bignum.Div.{Scaled, half_max, scale_up}

half_arith :
    (p low top cap v : ℕ)
    → cap ≡ p * base
    → v ≡ low + p * top
    → low < p
    → ((leb half_max top ≡ true) × (cap ≤ 2 * v)) ⊎ ((leb half_max top ≡ false) × (2 * v < cap))
half_arith p low top cap v ec ev lt = elim (Bool-cases (leb half_max top)) [
  | inl big ↦
      inl (big, omega (arith, mul-le-mul_left {m = half_max} {n = top} p (leb→le half_max top big)))
  | inr small ↦ inr (
    small,
    omega (arith, mul-le-mul_left {m = suc top} {n = half_max} p (leb→gt half_max top small)),
  )
]

-- The top word is at least `half_max` exactly when the number is at least half the capacity.
pub top_half :
    (d : Bn)
    → IsBn d
    → ((leb half_max (get_or d (bn_array_size - 1) 0) ≡ true) × (capacity ≤ 2 * val d))
      ⊎ ((leb half_max (get_or d (bn_array_size - 1) 0) ≡ false) × (2 * val d < capacity))
top_half d h =
    half_arith (base ^ 96) (val (take 96 d)) (get_or d 96 0) capacity (val d)
      (capacity-eq-pow ∙ refl)
      (ap val (sym (take_all 97 d (omega (arith, h.size))))
        ∙ val-take-suc 96 d (omega (arith, h.size)))
      (val-take-lt 96 d h.words (omega (arith, h.size)))

-- What holds when the loop ends: `denom` is `b` doubled `j` times, `current` counts it, and
-- doubling once more would exceed `a`, or `denom` itself does.
pub record IsScaled (a b : Bn) (j : ℕ) (s : Scaled) : Type 0 where
  pub current_bn : IsBn s.current
  pub denom_bn : IsBn s.denom
  pub count : val s.current ≡ 2 ^ j
  pub multiple : val s.denom ≡ val b * 2 ^ j
  pub ended :
      ((s.overflow ≡ false) × (val a < val s.denom))
      ⊎ ((s.overflow ≡ true) × (val a < 2 * val s.denom))

module _ (a b : Bn) (ha : IsBn a) (pos : 0 < val b) where
  double : (d : Bn) (v : ℕ) → IsBn d → val d ≡ v → 2 * v < capacity → val (lshift_one_bit d) ≡ 2 * v
  double d v h e lt = val-lshift_one_bit d h ∙ ap (λ t. (2 * t) % capacity) e ∙ mod-eq_of_lt lt

  -- The exponent stays below the width of the array.
  exponent-lt : (j : ℕ) (d : Bn) → IsBn d → val d ≡ val b * 2 ^ j → (2 ^ j ≤ val d) × (j < 3104)
  exponent-lt j d h e =
      let le : 2 ^ j ≤ val d =
        rw e (grind (arith, mul-le-mul_right {m = 1} {n = val b} (2 ^ j) pos)) in
      (
        le,
        lt_of_pow-lt-pow j 3104 (lt_of_le_of_lt le (rw capacity-eq-pow at (val-lt-capacity d h))),
      )

  -- With fuel for the width of the array the loop ends, in such a state.
  pub scale_up-IsScaled :
      (fuel j : ℕ) (current denom : Bn)
      → IsBn current
      → IsBn denom
      → val current ≡ 2 ^ j
      → val denom ≡ val b * 2 ^ j
      → 3104 ≤ j + fuel
      → (k : ℕ) × ((s : Scaled) × (scale_up (suc fuel) a current denom ≡ some s) × IsScaled a b k s)
  unfolding scale_up
  scale_up-IsScaled zero j current denom hc hd ec ed enough =
      absurd (omega (arith, exponent-lt j denom hd ed))
  scale_up-IsScaled (suc fuel) j current denom hc hd ec ed enough =
      elim (Bool-cases (is_larger (cmp denom a))) [
        | inl larger ↦
            rw larger (j, (_, refl, stop false (inl (refl, larger→gt _ _ (compared ∙ larger)))))
        | inr fits ↦ rw fits (elim (top_half denom hd) [
          | inl (full, top) ↦
              rw full (j, (_, refl, stop true (inr (refl, omega (arith, val-lt-capacity a ha)))))
          | inr (free, room) ↦ rw free (
              scale_up-IsScaled fuel (suc j) (lshift_one_bit current) (lshift_one_bit denom)
                (lshift_one_bit-IsBn current hc) (lshift_one_bit-IsBn denom hd)
                (double current (2 ^ j) hc ec (omega (arith, exponent-lt j denom hd ed))
                  ∙ omega (arith, pow-suc 2 j))
                (double denom (val b * 2 ^ j) hd ed (omega arith)
                  ∙ omega (arith, ap (λ (t : ℕ). val b * t) (pow-suc 2 j)))
                (omega arith))
        ])
      ]
    where
      compared : is_larger (order (val denom) (val a)) ≡ is_larger (cmp denom a)
      compared = ap is_larger (sym (cmp-eq-order denom a hd ha))

      stop :
          (o : Bool)
          → ((o ≡ false) × (val a < val denom)) ⊎ ((o ≡ true) × (val a < 2 * val denom))
          → IsScaled a b j (record { current = current; denom = denom; overflow = o })
      stop o e = record { current_bn = hc; denom_bn = hd; count = ec; multiple = ed; ended = e }

-- A divisor 0 is doubled for ever.
pub scale_up-zero :
    (fuel : ℕ) (a current denom : Bn)
    → IsBn a
    → IsBn denom
    → val denom ≡ 0
    → scale_up fuel a current denom ≡ none
unfolding scale_up
scale_up-zero zero a current denom ha hd e = refl
scale_up-zero (suc fuel) a current denom ha hd e = rw never (elim (top_half denom hd) [
  | inl (full, top) ↦ absurd (omega (arith, capacity-pos))
  | inr (free, room) ↦ rw free (
      scale_up-zero fuel a (lshift_one_bit current) (lshift_one_bit denom) ha
        (lshift_one_bit-IsBn denom hd) doubled)
])
  where
    never : is_larger (cmp denom a) ≡ false
    never = ap is_larger (cmp-eq-order denom a hd ha) ∙ rw e (ground arith)

    doubled : val (lshift_one_bit denom) ≡ 0
    doubled = val-lshift_one_bit denom hd ∙ rw e (zero-mod capacity)
