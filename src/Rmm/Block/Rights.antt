-- ===== src/Rmm/Block/Rights.antt =====
-- What blocking and unblocking do to the fields of an entry.
use tetd_test.Base.{
  ℕ, zero, suc, ◌+◌, ◌-◌, ◌*◌, ◌^◌, ◌<◌, ◌≡◌, refl, ap, ap₂, ◌∙◌, arith, bit_and, bit_or,
  bit_and-IsDigitwise, bit_or-IsDigitwise, IsDigitwise, digitwise-split, bit_and-ones, bit_and-zero,
  bit_or-zero,
}
use Prim.Native.Nat.{min, max}
use tetd_test.Rmm.Block.{blocked, unblocked, xn, not_64}

-- An entry by its fields: the bits below the access permissions, these, the bits up to XN, XN, and
-- the bits above.
abbrev pub entry : (low permissions middle no_execute high : ℕ) → ℕ
entry low permissions middle no_execute high =
    low + 2 ^ 6 * (permissions + 2 ^ 2 * (middle + 2 ^ 46 * (no_execute + 2 ^ 1 * high)))

-- An operation goes field by field.
by_fields :
    (op f : ℕ → ℕ → ℕ) (d : IsDigitwise op f) (a b c x h a' b' c' x' h' : ℕ)
    → a < 2 ^ 6
    → a' < 2 ^ 6
    → b < 2 ^ 2
    → b' < 2 ^ 2
    → c < 2 ^ 46
    → c' < 2 ^ 46
    → x < 2 ^ 1
    → x' < 2 ^ 1
    → op (entry a b c x h) (entry a' b' c' x' h')
      ≡ entry (op a a') (op b b') (op c c') (op x x') (op h h')
by_fields op f d a b c x h a' b' c' x' h' la la' lb lb' lc lc' lx lx' =
    digitwise-split op f d 6 a _ a' _ la la'
    ∙ ap (λ (t : ℕ). op a a' + 2 ^ 6 * t) (digitwise-split op f d 2 b _ b' _ lb lb')
    ∙ ap (λ (t : ℕ). op a a' + 2 ^ 6 * (op b b' + 2 ^ 2 * t))
        (digitwise-split op f d 46 c _ c' _ lc lc')
    ∙ ap (λ (t : ℕ). op a a' + 2 ^ 6 * (op b b' + 2 ^ 2 * (op c c' + 2 ^ 46 * t)))
        (digitwise-split op f d 1 x h x' h' lx lx')

or_three : (b : ℕ) → b < 4 → bit_or b 3 ≡ 3
or_three zero h = refl
or_three (suc zero) h = refl
or_three (suc (suc zero)) h = refl
or_three (suc (suc (suc zero))) h = refl
or_three (suc (suc (suc (suc b)))) h = absurd (omega arith)

abbrev ones : ℕ → ℕ → ℕ
ones b x = entry (2 ^ 6 - 1) b (2 ^ 46 - 1) x (2 ^ 9 - 1)

bit : (x : ℕ) → x < 2 → (bit_or x 1 ≡ 1) × (bit_and x 0 ≡ 0)
bit zero h = (refl, refl)
bit (suc zero) h = (refl, refl)
bit (suc (suc x)) h = absurd (omega arith)

module _ (low middle high : ℕ) (low-lt : low < 2 ^ 6) (middle-lt : middle < 2 ^ 46)
    (high-lt : high < 2 ^ 9) where
  kept_by_and :
      (a b x y : ℕ)
      → a < 2 ^ 2
      → b < 2 ^ 2
      → x < 2 ^ 1
      → y < 2 ^ 1
      → bit_and (entry low a middle x high) (ones b y)
        ≡ entry low (bit_and a b) middle (bit_and x y) high
  kept_by_and a b x y ha hb hx hy =
      by_fields bit_and min bit_and-IsDigitwise low a middle x high (2 ^ 6 - 1) b (2 ^ 46 - 1) y
        (2 ^ 9 - 1) low-lt (omega arith) ha hb middle-lt (omega arith) hx hy
      ∙ (ap₂ (λ (s t : ℕ). s + 2 ^ 6 * (bit_and a b + 2 ^ 2 * t)) (bit_and-ones 6 low low-lt)
          (ap₂ (λ (s t : ℕ). s + 2 ^ 46 * (bit_and x y + 2 ^ 1 * t))
            (bit_and-ones 46 middle middle-lt) (bit_and-ones 9 high high-lt)))

  kept_by_or :
      (a b x y : ℕ)
      → a < 2 ^ 2
      → b < 2 ^ 2
      → x < 2 ^ 1
      → y < 2 ^ 1
      → bit_or (entry low a middle x high) (entry 0 b 0 y 0)
        ≡ entry low (bit_or a b) middle (bit_or x y) high
  kept_by_or a b x y ha hb hx hy =
      by_fields bit_or max bit_or-IsDigitwise low a middle x high 0 b 0 y 0 low-lt (omega arith) ha
        hb middle-lt (omega arith) hx hy
      ∙ (ap₂ (λ (s t : ℕ). s + 2 ^ 6 * (bit_or a b + 2 ^ 2 * t)) (bit_or-zero low)
          (ap₂ (λ (s t : ℕ). s + 2 ^ 46 * (bit_or x y + 2 ^ 1 * t)) (bit_or-zero middle)
            (bit_or-zero high)))

  module _ (permissions no_execute : ℕ) (permissions-lt : permissions < 2 ^ 2)
      (no_execute-lt : no_execute < 2 ^ 1) where
    blocked-entry :
        blocked (entry low permissions middle no_execute high) ≡ entry low 0 middle 1 high
    unfolding blocked
    blocked-entry =
        let none : bit_and permissions 0 ≡ 0 = bit_and-zero 2 permissions permissions-lt in
        let low_bit : bit_and no_execute 1 ≡ no_execute = bit_and-ones 1 no_execute no_execute-lt in
        ap (λ (e : ℕ). bit_or e xn)
          (kept_by_and permissions 0 no_execute 1 permissions-lt (omega arith) no_execute-lt
              (omega arith)
            ∙ ap₂ (λ (a x : ℕ). entry low a middle x high) none low_bit)
        ∙ kept_by_or 0 0 no_execute 1 (omega arith) (omega arith) no_execute-lt (omega arith)
        ∙ ap (λ (x : ℕ). entry low 0 middle x high) ((bit no_execute no_execute-lt).0)

    unblocked-entry :
        unblocked (entry low permissions middle no_execute high) ≡ entry low 3 middle 0 high
    unfolding unblocked
    unblocked-entry =
        ap (λ (e : ℕ). bit_and e (not_64 xn))
          (kept_by_or permissions 3 no_execute 0 permissions-lt (omega arith) no_execute-lt
              (omega arith)
            ∙ ap₂ (λ (a x : ℕ). entry low a middle x high) (or_three permissions permissions-lt)
                (bit_or-zero no_execute))
        ∙ kept_by_and 3 3 no_execute 0 (omega arith) (omega arith) no_execute-lt (omega arith)
        ∙ ap (λ (x : ℕ). entry low 3 middle x high) ((bit no_execute no_execute-lt).1)

module _ (low middle high : ℕ) (low-lt : low < 2 ^ 6) (middle-lt : middle < 2 ^ 46)
    (high-lt : high < 2 ^ 9) where
  -- In an entry of 64 bits that is given by its fields, blocking clears the two access permission
  -- bits, sets the execute-never bit, and keeps all others. Unblocking after it leaves both
  -- permission bits set and the execute-never bit clear: an entry with these rights is back.
  pub unblocked-blocked :
      (permissions no_execute : ℕ)
      → permissions < 2 ^ 2
      → no_execute < 2 ^ 1
      → (blocked (entry low permissions middle no_execute high) ≡ entry low 0 middle 1 high)
        × (unblocked (blocked (entry low permissions middle no_execute high))
            ≡ entry low 3 middle 0 high)
  unblocked-blocked permissions no_execute hp hx =
      let b = blocked-entry low middle high low-lt middle-lt high-lt permissions no_execute hp hx in
      (
        b,
        ap unblocked b
            ∙ unblocked-entry low middle high low-lt middle-lt high-lt 0 1 (omega arith)
                (omega arith),
      )
