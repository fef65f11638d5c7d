-- ===== src/Rsa/Exp/Power.antt =====
-- `modExp` computes a power.
use tetd_test.Base.{
  ℕ, zero, suc, ◌+◌, ◌*◌, ◌%◌, ◌^◌, ◌<◌, ◌≡◌, sym, ap, ◌∙◌, arith, pow-add, ◌==◌, if◌then◌else◌,
  Bool-cases, ==_iff, inl, inr, true, false,
}
use native.Mathlib.Nat.{mod-one, add-zero, pow-suc, pow-zero, one-mul, two-pow-succ, zero-add}
use tetd_test.Bignum.Init.{from_int}
use native.Mathlib.Numerals.{add-one}
use tetd_test.Bignum.{Bn}
use tetd_test.Bignum.Value.{val, IsBn}
use tetd_test.Bignum.Bitwise.{getbit}
use tetd_test.Bignum.Bitwise.Access.{getbit-eq-digit}
use tetd_test.Rsa.Mont.{mont_mult}
use tetd_test.Rsa.Mont.Laws.{low_digits}
use tetd_test.Rsa.Exp.{mod_exp_loop, mod_exp}
use tetd_test.Rsa.Exp.Form.{IsForm, IsSetup, to-IsForm, mul-IsForm, one-IsForm, from_form}

pow-one : (v : ℕ) → v ^ 1 ≡ v
pow-one v = pow-suc v 0 ∙ rw pow-zero (one-mul v)

module _ (e m : Bn) (m_bits : ℕ) (r2m : Bn) (s : IsSetup m m_bits r2m) (he : IsBn e) where
  -- The exponent read so far grows by one binary digit.
  pub digit-IsForm :
      (v i : ℕ) (p z : Bn)
      → IsForm m m_bits (v ^ (2 ^ i)) p
      → IsForm m m_bits (v ^ (val e % 2 ^ i)) z
      → IsForm m m_bits
          (v ^ (val e % 2 ^ suc i))
          (if getbit e i == 0 then z else mont_mult z p m m_bits)
  digit-IsForm v i p z hp hz = elim (Bool-cases (getbit e i == 0)) [
    | inl clear ↦ rw clear (rw (sym (same clear)) hz)
    | inr present ↦ rw present (rw (grown present) (mul-IsForm m m_bits r2m s _ _ z p hz hp))
  ]
    where
      digits : val e % 2 ^ suc i ≡ val e % 2 ^ i + getbit e i * 2 ^ i
      digits =
          low_digits (val e) i ∙ ap (λ t. val e % 2 ^ i + t * 2 ^ i) (sym (getbit-eq-digit e i he))

      same : (getbit e i == 0) ≡ true → v ^ (val e % 2 ^ i) ≡ v ^ (val e % 2 ^ suc i)
      same h =
          let z : getbit e i ≡ 0 = (==_iff _ 0).0 h in
          ap (λ (t : ℕ). v ^ t) (sym (digits ∙ rw z (omega arith)))

      is_one : (getbit e i == 0) ≡ false → getbit e i ≡ 1
      is_one h = ground (arith, getbit-eq-digit e i he)

      grown :
          (getbit e i == 0) ≡ false → v ^ (val e % 2 ^ suc i) ≡ v ^ (val e % 2 ^ i) * v ^ (2 ^ i)
      grown h =
          let o : getbit e i ≡ 1 = is_one h in
          ap (λ (t : ℕ). v ^ t) (digits ∙ rw (o, one-mul (2 ^ i)))
          ∙ pow-add v (val e % 2 ^ i) (2 ^ i)

  -- Squaring the form of `v ^ (2 ^ i)`.
  pub square-IsForm :
      (v i : ℕ) (p : Bn)
      → IsForm m m_bits (v ^ (2 ^ i)) p
      → IsForm m m_bits (v ^ (2 ^ suc i)) (mont_mult p p m m_bits)
  square-IsForm v i p hp = rw doubled (mul-IsForm m m_bits r2m s _ _ p p hp hp)
    where
      doubled : v ^ (2 ^ suc i) ≡ v ^ (2 ^ i) * v ^ (2 ^ i)
      doubled = ap (λ (t : ℕ). v ^ t) (two-pow-succ i) ∙ pow-add v (2 ^ i) (2 ^ i)

  mod_exp_loop-IsForm :
      (v rounds i : ℕ) (p z : Bn)
      → IsForm m m_bits (v ^ (2 ^ i)) p
      → IsForm m m_bits (v ^ (val e % 2 ^ i)) z
      → IsForm m m_bits (v ^ (val e % 2 ^ (i + rounds))) (mod_exp_loop e m m_bits rounds i p z)
  unfolding mod_exp_loop
  mod_exp_loop-IsForm v zero i p z hp hz = rw (add-zero i) hz
  mod_exp_loop-IsForm v (suc rounds) i p z hp hz =
      let next : i + suc rounds ≡ suc i + rounds = omega arith in
      rw (next, add-one i)
        (mod_exp_loop-IsForm v rounds (suc i) _ _ (square-IsForm v i p hp)
          (digit-IsForm v i p z hp hz))

  module _ (x : Bn) (e_bits : ℕ) (hx : IsBn x) (fits : val x < 2 ^ m_bits) where
    mod_exp_parts :
        IsBn (mod_exp x e e_bits m m_bits r2m)
        × (val (mod_exp x e e_bits m m_bits r2m) ≡ val x ^ (val e % 2 ^ e_bits) % val m)
    unfolding mod_exp
    mod_exp_parts = from_form m m_bits r2m s _ _ (
        rw (zero-add e_bits) at (mod_exp_loop-IsForm (val x) e_bits 0 _ _ base-IsForm start-IsForm))
      where
        base-IsForm : IsForm m m_bits (val x ^ (2 ^ 0)) (mont_mult x r2m m m_bits)
        base-IsForm = rw (pow-one (val x)) (to-IsForm m m_bits r2m s x hx fits)

        start-IsForm :
            IsForm m m_bits (val x ^ (val e % 2 ^ 0)) (mont_mult (from_int 1) r2m m m_bits)
        start-IsForm = rw (mod-one (val e), pow-zero (val x)) (one-IsForm m m_bits r2m s)

    pub mod_exp-IsBn : IsBn (mod_exp x e e_bits m m_bits r2m)
    mod_exp-IsBn = mod_exp_parts.0

    -- Let `m` be odd, above 1, below `R = 2 ^ mBits` and at most a quarter of the capacity, and
    -- `r2m` be below `m` and congruent to `R * R`. For `x` below `R` and every `eBits`, `modExp`
    -- returns `x ^ e mod m`, with the low `eBits` bits of `e` as the exponent.
    pub mod_exp-eq-pow :
        val (mod_exp x e e_bits m m_bits r2m) ≡ val x ^ (val e % 2 ^ e_bits) % val m
    mod_exp-eq-pow = mod_exp_parts.1
