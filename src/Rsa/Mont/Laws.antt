-- ===== src/Rsa/Mont/Laws.antt =====
-- What `montMult` computes: `x * y / R` modulo an odd `m`, for `R = 2 ^ mBits`.
use tetd_test.Base.{
  ℕ, zero, suc, ◌+◌, ◌-◌, ◌*◌, ◌/◌, ◌%◌, ◌^◌, ◌≤◌, ◌<◌, ◌≡◌, sym, ap, ◌∙◌, arith, Bool-cases, inl,
  inr, mod-add-multiple, mod_unique, pow-pos,
}
use native.Mathlib.Nat.{pow-suc, div-add-mod', mod-eq_of_lt, mod-one, mod-lt, mul-le-mul_right}
use tetd_test.Bignum.{Bn}
use tetd_test.Bignum.Value.{val, IsBn, capacity}
use tetd_test.Bignum.Init.{cleared, cleared-IsBn, val-cleared}
use tetd_test.Bignum.Add.Difference.{sub-IsBn, val-sub}
use tetd_test.Bignum.Compare.{is_smaller, order, cmp-eq-order, smaller→lt, smaller→ge}
use tetd_test.Rsa.Mont.{mont_round, mont_loop, reduce_once, mont_mult}
use tetd_test.Rsa.Mont.Round.{xi, needs_m, mont_round_lem, xi-eq-digit, xi-mul-le, needs_m-mul-le}

-- A modulus that `montMult` can take: odd, and small enough that no addition wraps.
pub record IsModulus (m : Bn) : Type 0 where
  pub bn : IsBn m
  pub odd : val m % 2 ≡ 1
  pub room : 4 * val m ≤ capacity

-- The next binary digit extends the low part.
pub low_digits : (v j : ℕ) → v % 2 ^ suc j ≡ v % 2 ^ j + (v / 2 ^ j) % 2 * 2 ^ j
low_digits v j = sym (
    mod_unique (2 ^ suc j) _ (v / 2 ^ j / 2) v
      (omega (
        arith,
        div-add-mod' v (2 ^ j),
        ap (λ (t : ℕ). t * 2 ^ j) (div-add-mod' (v / 2 ^ j) 2),
        ap (λ (t : ℕ). v / 2 ^ j / 2 * t) (pow-suc 2 j),
      ))
      (omega (
        arith,
        mod-lt v (pow-pos 2 j (omega arith)),
        mul-le-mul_right {m = (v / 2 ^ j) % 2} {n = 1} (2 ^ j) (omega arith),
        pow-suc 2 j,
      )))

recombine :
    (v u m p t low x y k : ℕ)
    → t ≡ v + u * m
    → t * p ≡ low * y + k * m
    → low ≡ x
    → v * p + u * p * m ≡ x * y + k * m
recombine v u m p t low x y k e f g =
    omega (arith, ap (λ (z : ℕ). z * p) e, f, ap (λ (z : ℕ). z * y) g)

-- After `j` rounds `t * 2 ^ j` is the product with the low `j` bits of `x`, but for a multiple of
-- `m`, and `t` has not left its range.
pub record IsPartial (x y m : Bn) (j : ℕ) (t : Bn) : Type 0 where
  pub bn : IsBn t
  pub range : val t < val m + val y
  pub multiple : ℕ
  pub product : val t * 2 ^ j ≡ val x % 2 ^ j * val y + multiple * val m

module _ (x y m : Bn) (hx : IsBn x) (hy : IsBn y) (hm : IsModulus m) (small : val y < val m) where
  round-IsPartial :
      (j : ℕ) (t : Bn) → IsPartial x y m j t → IsPartial x y m (suc j) (mont_round x y m j t)
  round-IsPartial j t p =
      let (bn, e) =
        mont_round_lem x y m j t hx hy hm.bn p.bn hm.odd (omega (arith, p.range, hm.room)) in
      let q = needs_m x y m j t hx hy hm.bn p.bn in
      let b = xi x y m j t hx hy hm.bn p.bn in
      record {
        bn = bn;
        range = omega (
          arith,
          p.range,
          e,
          xi-mul-le x y m j t hx hy hm.bn p.bn (val y),
          needs_m-mul-le x y m j t hx hy hm.bn p.bn (val m),
        );
        multiple = p.multiple + q * 2 ^ j;
        product = omega (
          arith,
          p.product,
          ap (λ (v : ℕ). v * 2 ^ j) e,
          ap (λ (v : ℕ). val (mont_round x y m j t) * v) (pow-suc 2 j),
          ap (λ (v : ℕ). v * val y) (low_digits (val x) j),
          ap (λ (v : ℕ). v * 2 ^ j * val y) (xi-eq-digit x y m j t hx hy hm.bn p.bn),
        );
      }

  mont_loop-IsPartial :
      (m_bits i j : ℕ) (t : Bn)
      → j + i ≡ m_bits
      → IsPartial x y m j t
      → IsPartial x y m m_bits (mont_loop x y m m_bits i t)
  unfolding mont_loop
  mont_loop-IsPartial m_bits zero j t e p = let e' : j ≡ m_bits = omega arith in rw (← e') p
  mont_loop-IsPartial m_bits (suc i) j t e p =
      let here : m_bits - suc i ≡ j = omega arith in
      mont_loop-IsPartial m_bits i (suc j) (mont_round x y m (m_bits - suc i) t) (omega arith)
        (rw here (round-IsPartial j t p))

  cleared-IsPartial : IsPartial x y m 0 cleared
  cleared-IsPartial = record {
    bn = cleared-IsBn;
    range = rw val-cleared (omega arith);
    multiple = 0;
    product = rw (val-cleared, mod-one) (omega arith);
  }

  -- The last subtraction brings a number below `2 * m` below `m`, and changes no remainder.
  reduce_once_lem :
      (t : Bn)
      → IsBn t
      → val t < val m + val m
      → IsBn (reduce_once t m)
        × (val (reduce_once t m) < val m)
        × ((u : ℕ) × (val t ≡ val (reduce_once t m) + u * val m))
  unfolding reduce_once
  reduce_once_lem t h lt =
      rw (cmp-eq-order t m h hm.bn) (elim (Bool-cases (is_smaller (order (val t) (val m)))) [
        | inl less ↦ rw less (h, smaller→lt _ _ less, (0, omega arith))
        | inr rest ↦ rw rest (
          sub-IsBn t m h hm.bn,
          omega (arith, val-sub t m h hm.bn (smaller→ge _ _ rest)),
          (1, omega (arith, val-sub t m h hm.bn (smaller→ge _ _ rest))),
        )
      ])

  module _ (m_bits : ℕ) where
    mont_parts : IsPartial x y m m_bits (mont_loop x y m m_bits m_bits cleared)
    mont_parts = mont_loop-IsPartial m_bits m_bits 0 cleared (omega arith) cleared-IsPartial

    pub mont_mult-IsBn : IsBn (mont_mult x y m m_bits)
    unfolding mont_mult
    mont_mult-IsBn = (reduce_once_lem _ mont_parts.bn (omega (arith, mont_parts.range))).0

    pub mont_mult-lt : val (mont_mult x y m m_bits) < val m
    unfolding mont_mult
    mont_mult-lt = (reduce_once_lem _ mont_parts.bn (omega (arith, mont_parts.range))).1

    pub mont_mult-mod :
        val x < 2 ^ m_bits
        → (val (mont_mult x y m m_bits) * 2 ^ m_bits) % val m ≡ (val x * val y) % val m
    unfolding mont_mult
    mont_mult-mod fits =
        let p = mont_parts in
        let (bn, lt, (u, e)) = reduce_once_lem _ p.bn (omega (arith, p.range)) in
        sym (mod-add-multiple (val m) (u * 2 ^ m_bits) _)
        ∙ ap (λ v. v % val m)
            (recombine _ u (val m) (2 ^ m_bits) _ _ (val x) (val y) p.multiple e p.product
              (mod-eq_of_lt fits))
        ∙ mod-add-multiple (val m) p.multiple (val x * val y)
