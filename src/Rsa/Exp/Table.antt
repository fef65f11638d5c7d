-- ===== src/Rsa/Exp/Table.antt =====
-- `modExpLUT` with the table of `init_lut` does what `modExp` does.
use tetd_test.Base.{
  ℕ, zero, suc, ◌+◌, ◌%◌, ◌^◌, ◌≤◌, ◌<◌, ◌≡◌, refl, sym, ap, ◌∙◌, List, [], ◌∷◌, arith, ◌==◌,
  if◌then◌else◌, get_or, length, Bool-cases, ==_iff, inl, inr, false, true, ltb, some, ◌>>=◌,
}
use native.Mathlib.Nat.{add-zero, zero-add}
use tetd_test.Bignum.Init.{from_int}
use tetd_test.Bignum.{Bn}
use tetd_test.Bignum.Value.{val, IsBn}
use tetd_test.Bignum.Bitwise.{getbit}
use tetd_test.Bignum.Bitwise.Access.{getbit-eq-digit}
use tetd_test.Rsa.Mont.{mont_mult}
use tetd_test.Rsa.Exp.{
  mod_exp_loop, mod_exp, lut_after, lut_size, lut_entries, init_lut, lut_loop, lut_power,
  mod_exp_lut,
}
use tetd_test.Rsa.Exp.Form.{IsSetup}
use tetd_test.Rsa.Exp.Power.{mod_exp-eq-pow}

module _ (m : Bn) (m_bits : ℕ) where
  -- `i` squarings.
  squared : ℕ → Bn → Bn
  squared zero p = p
  squared (suc i) p = squared i (mont_mult p p m m_bits)

  length-lut_after : (n : ℕ) (p : Bn) → length (lut_after m m_bits n p) ≡ n
  unfolding lut_after
  length-lut_after zero p = refl
  length-lut_after (suc n) p = ap suc (length-lut_after n (mont_mult p p m m_bits))

  -- Entry `i` of the table is the first one, squared `i` times.
  lut_entry :
      (n : ℕ) (p : Bn) (i : ℕ) → i ≤ n → get_or (p ∷ lut_after m m_bits n p) i [] ≡ squared i p
  unfolding squared lut_after
  lut_entry n p zero h = refl
  lut_entry zero p (suc i) h = absurd (omega arith)
  lut_entry (suc n) p (suc i) h = lut_entry n (mont_mult p p m m_bits) i (omega arith)

  -- A table that holds the squares from entry `i` on makes the two loops agree.
  lut_loop-eq-mod_exp_loop :
      (lut : List Bn) (e : Bn) (rounds i : ℕ) (p z : Bn)
      → IsBn e
      → ((j : ℕ) → j < rounds → get_or lut (i + j) [] ≡ squared j p)
      → lut_loop lut e m m_bits rounds i z ≡ mod_exp_loop e m m_bits rounds i p z
  unfolding lut_loop mod_exp_loop squared
  lut_loop-eq-mod_exp_loop lut e zero i p z he entries = refl
  lut_loop-eq-mod_exp_loop lut e (suc rounds) i p z he entries =
      ap (λ t. lut_loop lut e m m_bits rounds (i + 1) t) same_round
      ∙ lut_loop-eq-mod_exp_loop lut e rounds (i + 1) (mont_mult p p m m_bits) _ he
          (λ j h. ap (λ t. get_or lut t []) (omega arith) ∙ entries (suc j) (omega arith))
    where
      here : get_or lut i [] ≡ p
      here = ap (λ t. get_or lut t []) (sym (add-zero i)) ∙ entries 0 (omega arith)

      same_round :
          (if getbit e i == 1 then mont_mult z (get_or lut i []) m m_bits else z)
          ≡ (if getbit e i == 0 then z else mont_mult z p m m_bits)
      same_round = rw here (elim (Bool-cases (getbit e i == 0)) [
        | inl c ↦ rw (c, (==_iff _ 0).0 c)
        | inr c ↦ rw (c, is_one c)
      ])
        where
          is_one : (getbit e i == 0) ≡ false → getbit e i ≡ 1
          is_one h = ground (arith, getbit-eq-digit e i he)

  -- `init_lut` writes the entries 0 to `mBits`.
  pub length-lut_entries : (x r2m : Bn) → length (lut_entries x m m_bits r2m) ≡ suc m_bits
  unfolding lut_entries
  length-lut_entries x r2m = ap suc (length-lut_after m_bits _)

  module _ (x e : Bn) (e_bits : ℕ) (r2m : Bn) (he : IsBn e) (fits : e_bits ≤ m_bits) where
    pub lut_power-eq-mod_exp :
        lut_power (lut_entries x m m_bits r2m) e e_bits m m_bits r2m
        ≡ mod_exp x e e_bits m m_bits r2m
    unfolding lut_power mod_exp lut_entries
    lut_power-eq-mod_exp =
        ap (λ z. mont_mult z (from_int 1) m m_bits)
          (lut_loop-eq-mod_exp_loop _ e e_bits 0 (mont_mult x r2m m m_bits) _ he (λ j h.
            ap (λ t. get_or (lut_entries x m m_bits r2m) t []) (zero-add j)
            ∙ lut_entry m_bits _ j (omega arith)))

    module _ (in_table : m_bits < lut_size) where
      -- For `mBits` below `LUT_SIZE`, every number `e` and `eBits` at most `mBits`, `init_lut`
      -- and then `modExpLUT` stay within the table, and the result is the very array that
      -- `modExp` gives, whatever the modulus is.
      pub mod_exp_lut-eq-mod_exp :
          (init_lut x m m_bits r2m >>= λ lut. mod_exp_lut lut e e_bits m m_bits r2m)
          ≡ some (mod_exp x e e_bits m m_bits r2m)
      unfolding init_lut mod_exp_lut
      mod_exp_lut-eq-mod_exp =
          let a : ltb m_bits lut_size ≡ true = ground arith in
          let b : ltb e_bits lut_size ≡ true = ground arith in
          rw (a, b) (ap some lut_power-eq-mod_exp)

      -- Let `m` be odd, above 1, below `R = 2 ^ mBits` and at most a quarter of the capacity,
      -- `mBits` be below `LUT_SIZE`, and `r2m` be below `m` and congruent to `R * R`. For `x`
      -- below `R` and `eBits` at most `mBits`, `init_lut` and then `modExpLUT` stay within the
      -- table, and the result is `x ^ e mod m`, with the low `eBits` bits of `e` as the exponent.
      pub mod_exp_lut-eq-pow :
          IsSetup m m_bits r2m
          → IsBn x
          → val x < 2 ^ m_bits
          → (y : Bn) × ((init_lut x m m_bits r2m >>= λ lut. mod_exp_lut lut e e_bits m m_bits r2m)
              ≡ some y)
            × (val y ≡ val x ^ (val e % 2 ^ e_bits) % val m)
      mod_exp_lut-eq-pow s hx small = (
        mod_exp x e e_bits m m_bits r2m,
        mod_exp_lut-eq-mod_exp,
        mod_exp-eq-pow e m m_bits r2m s he x e_bits hx small,
      )
