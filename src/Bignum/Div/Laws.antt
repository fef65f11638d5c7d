-- ===== src/Bignum/Div/Laws.antt =====
-- `bignum_div`, `bignum_divmod` and `bignum_mod` divide, and do not return on a divisor 0.
use tetd_test.Base.{
  ℕ, zero, suc, ◌+◌, ◌*◌, ◌/◌, ◌%◌, ◌^◌, ◌≤◌, ◌<◌, ◌≡◌, sym, ap, ◌∙◌, inl, inr, ◌⊎◌, true, false,
  none, some, arith, ◌>>=◌, lt_of_pow-lt-pow,
}
use native.Mathlib.Nat.{
  div-add-mod', lt_of_le_of_lt, div-mul-le_self, mul-one, one-mul, pow-suc, lt_of_lt_of_le,
  div-eq_of_lt,
}
use tetd_test.Bignum.{Bn}
use tetd_test.Bignum.Value.{val, IsBn, capacity-eq-pow, val-lt-capacity}
use tetd_test.Bignum.Init.{
  cleared, from_int, cleared-IsBn, val-cleared, from_int-IsBn, val-from_int,
}
use tetd_test.Bignum.Add.{sub}
use tetd_test.Bignum.Add.Difference.{sub-IsBn, val-sub}
use tetd_test.Bignum.Mul.{mul, mul-IsBn, val-mul_exact}
use tetd_test.Bignum.Shift.{rshift_one_bit}
use tetd_test.Bignum.Shift.Down.{rshift_one_bit-IsBn, val-rshift_one_bit}
use tetd_test.Bignum.Div.{Scaled, step_back, collect, div, divmod, mod_bn}
use tetd_test.Bignum.Div.Up.{IsScaled, scale_up-IsScaled, scale_up-zero}
use tetd_test.Bignum.Div.Down.{IsCollecting, collect-eq-quotient, collect_stop, half}

step_back_full : (s : Scaled) → s.overflow ≡ true → step_back s ≡ s
unfolding step_back
step_back_full s h = rw h

step_back_past :
    (s : Scaled)
    → s.overflow ≡ false
    → step_back s ≡ record s { current = rshift_one_bit s.current; denom = rshift_one_bit s.denom }
unfolding step_back
step_back_past s h = rw h

module _ (a b : Bn) (ha : IsBn a) (hb : IsBn b) (pos : 0 < val b) where
  start_IsCollecting : (j : ℕ) → val a < val b * 2 ^ j → IsCollecting (val a) (val b) j a cleared
  start_IsCollecting j lt = record {
    tmp_bn = ha;
    c_bn = cleared-IsBn;
    total = rw val-cleared (omega arith);
    range = lt;
    digits = 0;
    multiple = rw val-cleared (omega arith);
  }

  collected :
      (f k : ℕ) (s : Scaled)
      → 3104 ≤ f
      → IsScaled a b k s
      → (q : Bn) × (collect (suc f) (step_back s).current (step_back s).denom a cleared ≡ some q)
        × IsBn q
        × (val q ≡ val a / val b)
  collected f k s enough p = by_end p.ended
    where
      below : (j : ℕ) (c : Bn) → IsBn c → val c ≡ 2 ^ j → j < f
      below j c h e =
          lt_of_lt_of_le
            (lt_of_pow-lt-pow j 3104 (rw (e, capacity-eq-pow) at (val-lt-capacity c h))) enough

      by_count :
          (j : ℕ)
          → val s.current ≡ 2 ^ j
          → val s.denom ≡ val b * 2 ^ j
          → val a < val s.denom
          → (q : Bn) × (collect
                (suc f)
                (rshift_one_bit s.current)
                (rshift_one_bit s.denom)
                a
                cleared
              ≡ some q)
            × IsBn q
            × (val q ≡ val a / val b)
      by_count zero ec ed lt = (
        cleared,
        collect_stop (val a) (val b) f _ _ a cleared
            (val-rshift_one_bit s.current p.current_bn ∙ omega arith),
        cleared-IsBn,
        val-cleared ∙ sym (div-eq_of_lt (rw (mul-one (val b)) at (rw ed at lt))),
      )
      by_count (suc j) ec ed lt =
          let c =
            half (val a) (val b) 1 j s.current p.current_bn (ec ∙ sym (one-mul (2 ^ suc j)))
            ∙ one-mul (2 ^ j) in
          collect-eq-quotient (val a) (val b) j f _ _ a cleared
            (below j _ (rshift_one_bit-IsBn _ p.current_bn) c) (rshift_one_bit-IsBn _ p.current_bn)
            (rshift_one_bit-IsBn _ p.denom_bn) c
            (half (val a) (val b) (val b) j s.denom p.denom_bn ed)
            (start_IsCollecting (suc j) (rw ed at lt))

      by_end :
          ((s.overflow ≡ false) × (val a < val s.denom))
            ⊎ ((s.overflow ≡ true) × (val a < 2 * val s.denom))
          → (q : Bn) × (collect (suc f) (step_back s).current (step_back s).denom a cleared
              ≡ some q)
            × IsBn q
            × (val q ≡ val a / val b)
      by_end (inl (o, lt)) = rw (step_back_past s o) (by_count k p.count p.multiple lt)
      by_end (inr (o, lt)) = rw (step_back_full s o) (
          collect-eq-quotient (val a) (val b) k f _ _ a cleared (below k _ p.current_bn p.count)
            p.current_bn p.denom_bn p.count p.multiple
            (start_IsCollecting (suc k)
              (omega (arith, p.multiple, ap (λ (t : ℕ). val b * t) (pow-suc 2 k)))))

  -- For a divisor that is not 0, `bignum_div` returns the quotient, once each of its two loops
  -- may make 3105 rounds.
  pub div-eq-quotient :
      (fuel : ℕ)
      → 3105 ≤ fuel
      → (q : Bn) × (div fuel a b ≡ some q) × IsBn q × (val q ≡ val a / val b)
  unfolding div
  div-eq-quotient zero enough = absurd (omega arith)
  div-eq-quotient (suc f) enough =
      let (k, (s, e, p)) =
        scale_up-IsScaled a b ha pos f 0 (from_int 1) b (from_int-IsBn 1) hb
          (val-from_int 1 (omega arith)) (sym (mul-one (val b))) (omega arith) in
      let (q, e', h, v) = collected f k s (omega arith) p in
      (
        q,
        ap (λ o. o >>= λ s. collect (suc f) (step_back s).current (step_back s).denom a cleared) e
            ∙ e',
        h,
        v,
      )

  -- For a divisor that is not 0, `bignum_divmod` returns the quotient and the remainder, once
  -- each of the two loops of `bignum_div` may make 3105 rounds.
  pub divmod-eq-div_mod :
      (fuel : ℕ)
      → 3105 ≤ fuel
      → (q r : Bn) × (divmod fuel a b ≡ some (q, r))
        × IsBn r
        × (val q ≡ val a / val b)
        × (val r ≡ val a % val b)
  unfolding divmod
  divmod-eq-div_mod fuel enough =
      let (q, e, h, v) = div-eq-quotient fuel enough in
      (
        q,
        sub a (mul q b),
        ap (λ o. o >>= λ c. some (c, sub a (mul c b))) e,
        sub-IsBn a (mul q b) ha (mul-IsBn q b h hb),
        v,
        omega (arith, left q h v, ap (λ (t : ℕ). t * val b) v, div-add-mod' (val a) (val b)),
      )
    where
      product : (q : Bn) → IsBn q → val q ≡ val a / val b → val (mul q b) ≡ val q * val b
      product q h v =
          val-mul_exact q b h hb
            (rw v (lt_of_le_of_lt (div-mul-le_self (val a) (val b)) (val-lt-capacity a ha)))

      left :
          (q : Bn) → IsBn q → val q ≡ val a / val b → val (sub a (mul q b)) + val q * val b ≡ val a
      left q h v =
          let e = product q h v in
          ap (λ t. val (sub a (mul q b)) + t) (sym e)
          ∙ val-sub a (mul q b) ha (mul-IsBn q b h hb) (rw (e, v) (div-mul-le_self (val a) (val b)))

  -- For a divisor that is not 0, `bignum_mod` returns the remainder, once each of the two loops
  -- of `bignum_div` may make 3105 rounds.
  pub mod_bn-eq-mod :
      (fuel : ℕ)
      → 3105 ≤ fuel
      → (r : Bn) × (mod_bn fuel a b ≡ some r) × IsBn r × (val r ≡ val a % val b)
  unfolding mod_bn
  mod_bn-eq-mod fuel enough =
      let (q, r, e, h, v, w) = divmod-eq-div_mod fuel enough in
      (r, ap (λ o. o >>= λ p. some (p.1)) e, h, w)

-- On a divisor 0 no number of rounds is enough for `bignum_div` to return.
pub div-zero_hangs : (fuel : ℕ) (a b : Bn) → IsBn a → IsBn b → val b ≡ 0 → div fuel a b ≡ none
unfolding div
div-zero_hangs fuel a b ha hb e = rw (scale_up-zero fuel a (from_int 1) b ha hb e)
