-- ===== src/Rsa/Exp/Form.antt =====
-- Montgomery form: `r` stands for `a` if it is `a * R` modulo `m`.
use tetd_test.Base.{
  ℕ, ◌*◌, ◌%◌, ◌^◌, ◌<◌, ◌≡◌, refl, sym, ap, ◌∙◌, arith, mul-cong_mod, cancel-pow_mod,
}
use native.Mathlib.Nat.{mod-eq_of_lt, mul-one}
use tetd_test.Bignum.{Bn}
use tetd_test.Bignum.Value.{val, IsBn}
use tetd_test.Bignum.Init.{from_int, from_int-IsBn, val-from_int}
use tetd_test.Rsa.Mont.{mont_mult}
use tetd_test.Rsa.Mont.Laws.{IsModulus, mont_mult-IsBn, mont_mult-lt, mont_mult-mod}

module _ (m : Bn) (m_bits : ℕ) where
  pub record IsForm (a : ℕ) (r : Bn) : Type 0 where
    pub bn : IsBn r
    pub reduced : val r < val m
    pub form : val r % val m ≡ (a * 2 ^ m_bits) % val m

  -- `r2m` is `R * R` modulo `m`, and `R` exceeds `m`.
  pub record IsSetup (r2m : Bn) : Type 0 where
    pub modulus : IsModulus m
    pub above_one : 1 < val m
    pub width : val m < 2 ^ m_bits
    pub bn : IsBn r2m
    pub reduced : val r2m < val m
    pub square : val r2m % val m ≡ (2 ^ m_bits * 2 ^ m_bits) % val m

module _ (m : Bn) (m_bits : ℕ) (r2m : Bn) (s : IsSetup m m_bits r2m) where
  -- Multiplying by `R * R` goes into Montgomery form.
  pub to-IsForm :
      (x : Bn) → IsBn x → val x < 2 ^ m_bits → IsForm m m_bits (val x) (mont_mult x r2m m m_bits)
  to-IsForm x h fits = record {
    bn = mont_mult-IsBn x r2m m h s.bn s.modulus s.reduced m_bits;
    reduced = mont_mult-lt x r2m m h s.bn s.modulus s.reduced m_bits;
    form = cancel-pow_mod (val m) m_bits _ _ s.modulus.odd (
        mont_mult-mod x r2m m h s.bn s.modulus s.reduced m_bits fits
        ∙ mul-cong_mod (val m) (val x) (val x) (val r2m) _ refl s.square
        ∙ ap (λ t. t % val m) (omega arith));
  }

  -- `montMult` multiplies forms.
  pub mul-IsForm :
      (a b : ℕ) (x y : Bn)
      → IsForm m m_bits a x
      → IsForm m m_bits b y
      → IsForm m m_bits (a * b) (mont_mult x y m m_bits)
  mul-IsForm a b x y h k = record {
    bn = mont_mult-IsBn x y m h.bn k.bn s.modulus k.reduced m_bits;
    reduced = mont_mult-lt x y m h.bn k.bn s.modulus k.reduced m_bits;
    form = cancel-pow_mod (val m) m_bits _ _ s.modulus.odd (
        mont_mult-mod x y m h.bn k.bn s.modulus k.reduced m_bits (omega (arith, h.reduced, s.width))
        ∙ mul-cong_mod (val m) (val x) _ (val y) _ h.form k.form
        ∙ ap (λ t. t % val m) (omega arith));
  }

  one_fits : val (from_int 1) < val m
  one_fits = omega (arith, val-from_int 1 (omega arith), s.above_one)

  pub one-IsForm : IsForm m m_bits 1 (mont_mult (from_int 1) r2m m m_bits)
  one-IsForm =
      rw (val-from_int 1 (omega arith)) at
        (to-IsForm (from_int 1) (from_int-IsBn 1) (omega (arith, one_fits, s.width)))

  -- Multiplying by 1 leaves the form.
  pub from_form :
      (a : ℕ) (x : Bn)
      → IsForm m m_bits a x
      → IsBn (mont_mult x (from_int 1) m m_bits)
        × (val (mont_mult x (from_int 1) m m_bits) ≡ a % val m)
  from_form a x h = (
    mont_mult-IsBn x (from_int 1) m h.bn (from_int-IsBn 1) s.modulus one_fits m_bits,
    sym (
          mod-eq_of_lt
            (mont_mult-lt x (from_int 1) m h.bn (from_int-IsBn 1) s.modulus one_fits m_bits))
        ∙ cancel-pow_mod (val m) m_bits _ a s.modulus.odd (
            mont_mult-mod x (from_int 1) m h.bn (from_int-IsBn 1) s.modulus one_fits m_bits
              (omega (arith, h.reduced, s.width))
            ∙ ap (λ t. (val x * t) % val m) (val-from_int 1 (omega arith))
            ∙ ap (λ t. t % val m) (mul-one (val x))
            ∙ h.form),
  )
