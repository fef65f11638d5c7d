-- ===== src/Bignum/Div/Down.antt =====
-- The second loop of `bignum_div`: long division, one binary digit a round.
use tetd_test.Base.{
  ℕ, zero, suc, ◌+◌, ◌*◌, ◌/◌, ◌^◌, ◌≤◌, ◌<◌, ◌≡◌, sym, ap, ◌∙◌, inl, inr, false, some, arith,
  if◌then◌else◌, Bool-cases, pow-pos, div_unique, bit_or-fields,
}
use native.Mathlib.Nat.{pow-suc, one-mul, mul-one, add_comm}
use tetd_test.Bignum.{Bn}
use tetd_test.Bignum.Value.{val, IsBn}
use tetd_test.Bignum.Add.{sub}
use tetd_test.Bignum.Add.Difference.{sub-IsBn, val-sub}
use tetd_test.Bignum.Bitwise.{or_bn}
use tetd_test.Bignum.Bitwise.Laws.{or_bn-IsBn, val-or_bn}
use tetd_test.Bignum.Compare.{
  cmp, is_smaller, is_zero, order, cmp-eq-order, is_zero-eq-test, smaller→lt, smaller→ge,
}
use tetd_test.Bignum.Shift.{rshift_one_bit}
use tetd_test.Bignum.Shift.Down.{rshift_one_bit-IsBn, val-rshift_one_bit}
use tetd_test.Bignum.Div.{collect}

-- What is left of the dividend and the quotient so far, with the digits below `j` to come.
pub record IsCollecting (a b : ℕ) (j : ℕ) (tmp c : Bn) : Type 0 where
  pub tmp_bn : IsBn tmp
  pub c_bn : IsBn c
  pub total : val tmp + val c * b ≡ a
  pub range : val tmp < b * 2 ^ j
  pub digits : ℕ
  pub multiple : val c ≡ digits * 2 ^ j

module _ (a b : ℕ) where
  -- One round of the loop.
  round_IsCollecting :
      (j : ℕ) (current denom tmp c : Bn)
      → IsBn current
      → IsBn denom
      → val current ≡ 2 ^ j
      → val denom ≡ b * 2 ^ j
      → IsCollecting a b (suc j) tmp c
      → IsCollecting a b j
          (if is_smaller (cmp tmp denom) then tmp else sub tmp denom)
          (if is_smaller (cmp tmp denom) then c else or_bn c current)
  round_IsCollecting j current denom tmp c hc hd ec ed p =
      rw (cmp-eq-order tmp denom p.tmp_bn hd)
        (elim (Bool-cases (is_smaller (order (val tmp) (val denom)))) [
          | inl less ↦ rw less (record {
            tmp_bn = p.tmp_bn;
            c_bn = p.c_bn;
            total = p.total;
            range = omega (arith, smaller→lt (val tmp) (val denom) less);
            digits = 2 * p.digits;
            multiple = p.multiple ∙ omega (arith, ap (λ (t : ℕ). p.digits * t) (pow-suc 2 j));
          })
          | inr fits ↦ rw fits (record {
            tmp_bn = sub-IsBn tmp denom p.tmp_bn hd;
            c_bn = or_bn-IsBn c current p.c_bn hc;
            total = omega (arith, p.total, rest fits, ap (λ (t : ℕ). t * b) joined);
            range = omega (arith, p.range, rest fits, ap (λ (t : ℕ). b * t) (pow-suc 2 j));
            digits = 2 * p.digits + 1;
            multiple =
                joined ∙ omega (arith, p.multiple, ap (λ (t : ℕ). p.digits * t) (pow-suc 2 j));
          })
        ])
    where
      rest :
          is_smaller (order (val tmp) (val denom)) ≡ false
          → val (sub tmp denom) + b * 2 ^ j ≡ val tmp
      rest h =
          ap (λ t. val (sub tmp denom) + t) (sym ed)
          ∙ val-sub tmp denom p.tmp_bn hd (smaller→ge (val tmp) (val denom) h)

      joined : val (or_bn c current) ≡ val c + 2 ^ j
      joined =
          val-or_bn c current p.c_bn hc
          ∙ rw (ec, p.multiple)
              (bit_or-fields (suc j) p.digits (2 ^ j)
                (omega (arith, pow-suc 2 j, pow-pos 2 j (omega arith))))

  -- The loop stops at once when the digit is 0.
  pub collect_stop :
      (fuel : ℕ) (current denom tmp c : Bn)
      → val current ≡ 0
      → collect (suc fuel) current denom tmp c ≡ some c
  unfolding collect
  collect_stop fuel current denom tmp c e = rw (is_zero-eq-test current, e)

  collect_step :
      (fuel : ℕ) (current denom tmp c : Bn)
      → 1 ≤ val current
      → collect (suc fuel) current denom tmp c
        ≡ collect fuel
            (rshift_one_bit current)
            (rshift_one_bit denom)
            (if is_smaller (cmp tmp denom) then tmp else sub tmp denom)
            (if is_smaller (cmp tmp denom) then c else or_bn c current)
  unfolding collect
  collect_step fuel current denom tmp c h =
      let e : is_zero current ≡ false = is_zero-eq-test current ∙ ground arith in rw e

  pub half :
      (v j : ℕ) (d : Bn) → IsBn d → val d ≡ v * 2 ^ suc j → val (rshift_one_bit d) ≡ v * 2 ^ j
  half v j d h e =
      val-rshift_one_bit d h
      ∙ ap (λ t. t / 2) e
      ∙ omega (arith, ap (λ (t : ℕ). v * t) (pow-suc 2 j))

  -- From digit `j` on, the loop ends with the quotient.
  pub collect-eq-quotient :
      (j fuel : ℕ) (current denom tmp c : Bn)
      → j < fuel
      → IsBn current
      → IsBn denom
      → val current ≡ 2 ^ j
      → val denom ≡ b * 2 ^ j
      → IsCollecting a b (suc j) tmp c
      → (q : Bn) × (collect (suc fuel) current denom tmp c ≡ some q) × IsBn q × (val q ≡ a / b)
  collect-eq-quotient zero zero current denom tmp c lt hc hd ec ed p = absurd (omega arith)
  collect-eq-quotient (suc j) zero current denom tmp c lt hc hd ec ed p = absurd (omega arith)
  collect-eq-quotient zero (suc fuel) current denom tmp c lt hc hd ec ed p =
      let r = round_IsCollecting 0 current denom tmp c hc hd ec ed p in
      (
        _,
        collect_step (suc fuel) current denom tmp c (omega arith)
            ∙ collect_stop fuel _ _ _ _ (val-rshift_one_bit current hc ∙ omega arith),
        r.c_bn,
        div_unique b (val _) (val _) a (add_comm _ _ ∙ r.total) (rw (mul-one b) at r.range),
      )
  collect-eq-quotient (suc j) (suc fuel) current denom tmp c lt hc hd ec ed p =
      let (q, e, h, v) =
        collect-eq-quotient j fuel (rshift_one_bit current) (rshift_one_bit denom) _ _ (omega arith)
          (rshift_one_bit-IsBn current hc) (rshift_one_bit-IsBn denom hd)
          (half 1 j current hc (ec ∙ sym (one-mul (2 ^ suc j))) ∙ one-mul (2 ^ j))
          (half b j denom hd ed) (round_IsCollecting (suc j) current denom tmp c hc hd ec ed p) in
      (
        q,
        collect_step (suc fuel) current denom tmp c (omega (arith, pow-pos 2 (suc j) (omega arith)))
            ∙ e,
        h,
        v,
      )
