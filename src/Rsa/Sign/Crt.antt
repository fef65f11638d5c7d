-- ===== src/Rsa/Sign/Crt.antt =====
-- `r_squared` and `combine`: the number that Garner's formula gives has the two residues.
use tetd_test.Base.{
  lt_of_pow-lt-pow, ℕ, ◌+◌, ◌*◌, ◌%◌, ◌^◌, ◌≤◌, ◌<◌, ◌≡◌, refl, sym, ap, ◌∙◌, some, arith, ◌>>=◌,
  Bool-cases, inl, inr, true, suc, add-cong_mod, mul-cong_mod, mod-add-multiple, mod_mul_left,
}
use native.Mathlib.Nat.{
  mod-eq_of_lt, mod-lt, mul-le-mul, mul-le-mul_right, mod-mod, lt_of_lt_of_le, le_of_lt,
}
use tetd_test.Bignum.{Bn}
use tetd_test.Bignum.Value.{val, IsBn, capacity, capacity-eq-pow}
use tetd_test.Bignum.Init.{from_int, from_int-IsBn, val-from_int}
use tetd_test.Bignum.Add.{add, sub}
use tetd_test.Bignum.Add.Laws.{add-IsBn, val-add_exact}
use tetd_test.Bignum.Add.Difference.{sub-IsBn, val-sub}
use tetd_test.Bignum.Bitwise.{numbits}
use tetd_test.Bignum.Bitwise.Access.{numbits-eq-length}
use tetd_test.Bignum.Compare.{is_smaller, cmp-eq-order, smaller→lt, smaller→ge, order}
use tetd_test.Bignum.Div.Laws.{mod_bn-eq-mod}
use tetd_test.Bignum.Mul.{mul, mul-IsBn, val-mul_exact}
use tetd_test.Bignum.Shift.{lshift}
use tetd_test.Bignum.Shift.Up.{lshift-IsBn, val-lshift}
use tetd_test.Rsa.Mont.Laws.{IsModulus}
use tetd_test.Rsa.Exp.{lut_size}
use tetd_test.Rsa.Exp.Form.{IsSetup}
use tetd_test.Rsa.Sign.{Key, r_squared, difference, combine}

-- A prime of the key, as far as the code relies on it.
pub record IsFactor (p : Bn) : Type 0 where
  pub bn : IsBn p
  pub odd : val p % 2 ≡ 1
  pub wide : 2 ^ 256 ≤ val p
  pub small : val p < 2 ^ 1536

-- A key that `rsa_sign` can use.
pub record IsKey (key : Key) : Type 0 where
  pub p_factor : IsFactor key.p
  pub q_factor : IsFactor key.q
  pub dp_bn : IsBn key.dp
  pub dq_bn : IsBn key.dq
  pub qinv_bn : IsBn key.qinv
  pub q-le-p : val key.q ≤ val key.p
  pub dp-lt : val key.dp < val key.p
  pub dq-lt : val key.dq < val key.q
  pub qinv-lt : val key.qinv < val key.p
  pub inverse : (val key.qinv * val key.q) % val key.p ≡ 1

-- Products of numbers of at most 1537 bits fit.
product_fits : (x y : ℕ) → x ≤ 2 ^ 1537 → y ≤ 2 ^ 1537 → x * y < capacity
product_fits x y h k =
    rw capacity-eq-pow
      (omega (arith, mul-le-mul {n₁ = x} {m₁ = y} {n₂ = 2 ^ 1537} {m₂ = 2 ^ 1537} h k))

module _ (p : Bn) (f : IsFactor p) where
  factor-IsModulus : IsModulus p
  factor-IsModulus = record {
    bn = f.bn;
    odd = f.odd;
    room = rw capacity-eq-pow (omega (arith, f.small));
  }

  bits : (val p < 2 ^ numbits p) × (2 ^ numbits p ≤ 2 * val p)
  bits = elim (numbits-eq-length p f.bn) [
    | inl (lt, e) ↦ absurd (omega (arith, f.wide))
    | inr (ge, lt, le, two) ↦ (lt, le)
  ]

  -- The table of powers is wide enough.
  pub numbits-lt : numbits p < lut_size
  numbits-lt = lt_of_pow-lt-pow (numbits p) 1537 (omega (arith, bits.1, f.small))

  -- For an odd factor of at least 2 ^ 256 and below 2 ^ 1536, the computation of `R^2 mod p` with
  -- `R = 2 ^ numbits(p)` returns, with fuel 3105 or more, a number that sets `montMult` up for
  -- `p`: it is below `p` and congruent to `R * R`, and `R` exceeds `p`.
  pub r_squared-IsSetup :
      (fuel : ℕ)
      → 3105 ≤ fuel
      → (r2p : Bn) × (r_squared fuel p ≡ some r2p) × IsSetup p (numbits p) r2p
  unfolding r_squared
  r_squared-IsSetup fuel enough =
      let (r2p, e, h, v) =
        mod_bn-eq-mod (mul r r) p (mul-IsBn r r r_bn r_bn) f.bn (omega (arith, f.wide)) fuel
          enough in
      (
        r2p,
        e,
        record {
          modulus = factor-IsModulus;
          above_one = omega (arith, f.wide);
          width = bits.0;
          bn = h;
          reduced = rw v (mod-lt (val (mul r r)) (omega (arith, f.wide)));
          square =
              rw v (mod-mod _ _)
              ∙ ap (λ (t : ℕ). t % val p)
                  (val-mul_exact r r r_bn r_bn (rw val-r fits) ∙ rw val-r refl);
        },
      )
    where
      r : Bn
      r = lshift (from_int 1) (numbits p)

      r_bn : IsBn r
      r_bn = lshift-IsBn (from_int 1) (numbits p) (from_int-IsBn 1)

      fits : 2 ^ numbits p * 2 ^ numbits p < capacity
      fits = product_fits _ _ (omega (arith, bits.1, f.small)) (omega (arith, bits.1, f.small))

      val-r : val r ≡ 2 ^ numbits p
      val-r =
          val-lshift (from_int 1) (numbits p) (from_int-IsBn 1)
          ∙ ap (λ t. (t * 2 ^ numbits p) % capacity) (val-from_int 1 (omega arith))
          ∙ ap (λ t. t % capacity) (omega arith)
          ∙ mod-eq_of_lt (rw capacity-eq-pow (omega (arith, bits.1, f.small)))

module _ (p m1 m2 : Bn) (f : IsFactor p) (h1 : IsBn m1) (h2 : IsBn m2) where
  -- `h` makes up `m1` again, modulo `p`.
  difference_lem :
      val m1 < val p
      → val m2 ≤ val p
      → IsBn (difference p m1 m2)
        × (val (difference p m1 m2) < val p)
        × ((val (difference p m1 m2) + val m2) % val p ≡ val m1)
  unfolding difference
  difference_lem lt le =
      rw (cmp-eq-order m1 m2 h1 h2) (elim (Bool-cases (is_smaller (order (val m1) (val m2)))) [
        | inl below ↦ rw below (
            let e = whole below in
            (
              sub-IsBn _ m2 (add-IsBn m1 p h1 f.bn) h2,
              omega (arith, e, smaller→lt (val m1) (val m2) below),
              ap (λ (t : ℕ). t % val p) e
                  ∙ ap (λ (t : ℕ). t % val p) (omega arith)
                  ∙ mod-add-multiple (val p) 1 (val m1)
                  ∙ mod-eq_of_lt lt,
            ))
        | inr above ↦ rw above (
            let e = val-sub m1 m2 h1 h2 (smaller→ge (val m1) (val m2) above) in
            (sub-IsBn m1 m2 h1 h2, omega (arith, e), ap (λ (t : ℕ). t % val p) e ∙ mod-eq_of_lt lt))
      ])
    where
      sum : val (add m1 p) ≡ val m1 + val p
      sum = val-add_exact m1 p h1 f.bn (rw capacity-eq-pow (omega (arith, f.small)))

      whole :
          is_smaller (order (val m1) (val m2)) ≡ true
          → val (sub (add m1 p) m2) + val m2 ≡ val m1 + val p
      whole below = val-sub (add m1 p) m2 (add-IsBn m1 p h1 f.bn) h2 (rw sum (omega arith)) ∙ sum

-- Adding `h * qinv * q` to `m2` reaches the residue of `m1`.
garner :
    (p q qinv d m1 m2 : ℕ)
    → (qinv * q) % p ≡ 1 % p
    → (d + m2) % p ≡ m1
    → (m2 + (d * qinv) % p * q) % p ≡ m1
garner p q qinv d m1 m2 inverse e =
    add-cong_mod p m2 m2 _ d refl (
      mod_mul_left (d * qinv) q p
      ∙ ap (λ (t : ℕ). t % p) (omega arith)
      ∙ mul-cong_mod p d d (qinv * q) 1 refl inverse
      ∙ ap (λ (t : ℕ). t % p) (omega arith))
    ∙ ap (λ (t : ℕ). t % p) (omega arith)
    ∙ e

module _ (key : Key) (k : IsKey key) (m1 m2 : Bn) (h1 : IsBn m1) (h2 : IsBn m2) where
  -- For a key whose factors `p` and `q` are odd, at least 2 ^ 256 and below 2 ^ 1536, with `q` at
  -- most `p`, `dp` and `qinv` below `p`, `dq` below `q` and `qinv * q` congruent to 1 modulo `p`,
  -- and for `m1` below `p` and `m2` below `q`, the steps of `rsa_sign` from `h = (m1 - m2) mod p`
  -- on return, with fuel 3105 or more, a number below `p * q` whose remainders are `m1` modulo
  -- `p` and `m2` modulo `q`.
  pub combine-eq-crt :
      (fuel : ℕ)
      → 3105 ≤ fuel
      → val m1 < val key.p
      → val m2 < val key.q
      → (s : Bn) × (combine fuel key m1 m2 ≡ some s)
        × IsBn s
        × (val s < val key.p * val key.q)
        × (val s % val key.p ≡ val m1)
        × (val s % val key.q ≡ val m2)
  unfolding combine
  combine-eq-crt fuel enough lt1 lt2 =
      let (d_bn, d_lt, d_sum) =
        difference_lem key.p m1 m2 k.p_factor h1 h2 lt1 (omega (arith, k.q-le-p)) in
      let d = difference key.p m1 m2 in
      let small_p = k.p_factor.small in
      let small_q = k.q_factor.small in
      let product : val (mul d key.qinv) ≡ val d * val key.qinv =
        val-mul_exact d key.qinv d_bn k.qinv_bn
          (product_fits _ _ (omega (arith, d_lt, small_p)) (omega (arith, k.qinv-lt, small_p))) in
      let (h, e, h_bn, v) =
        mod_bn-eq-mod (mul d key.qinv) key.p (mul-IsBn d key.qinv d_bn k.qinv_bn) k.p_factor.bn
          (omega (arith, k.p_factor.wide)) fuel enough in
      let h_lt : val h < val key.p = rw v (mod-lt _ (omega (arith, k.p_factor.wide))) in
      let hq : val (mul h key.q) ≡ val h * val key.q =
        val-mul_exact h key.q h_bn k.q_factor.bn
          (product_fits _ _ (omega (arith, h_lt, small_p)) (omega (arith, small_q))) in
      let below : val m2 + val h * val key.q < val key.p * val key.q = omega (
        arith,
        mul-le-mul_right {m = suc (val h)} {n = val key.p} (val key.q) (omega (arith, h_lt)),
      ) in
      let total : val (add m2 (mul h key.q)) ≡ val m2 + val h * val key.q =
        val-add_exact m2 (mul h key.q) h2 (mul-IsBn h key.q h_bn k.q_factor.bn) (
          rw hq (
            lt_of_lt_of_le below
              (le_of_lt (product_fits _ _ (omega (arith, small_p)) (omega (arith, small_q))))))
        ∙ rw hq refl in
      (
        add m2 (mul h key.q),
        ap (λ o. o >>= λ h. some (add m2 (mul h key.q))) e,
        add-IsBn m2 (mul h key.q) h2 (mul-IsBn h key.q h_bn k.q_factor.bn),
        rw total below,
        ap (λ (t : ℕ). t % val key.p)
              (total
                ∙ ap (λ (t : ℕ). val m2 + t * val key.q)
                    (v ∙ ap (λ (t : ℕ). t % val key.p) product))
            ∙ garner (val key.p) (val key.q) (val key.qinv) (val d) (val m1) (val m2)
                (k.inverse ∙ sym (mod-eq_of_lt (omega (arith, k.p_factor.wide)))) d_sum,
        ap (λ (t : ℕ). t % val key.q) total
            ∙ mod-add-multiple (val key.q) (val h) (val m2)
            ∙ mod-eq_of_lt lt2,
      )
