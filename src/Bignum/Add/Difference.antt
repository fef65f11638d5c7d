-- ===== src/Bignum/Add/Difference.antt =====
-- `bignum_sub` and `bignum_dec` are subtractions modulo the capacity.
use tetd_test.Base.{
  ℕ, suc, ◌+◌, ◌-◌, ◌*◌, ◌%◌, ◌^◌, ◌≤◌, ◌<◌, ◌≡◌, refl, sym, ap, ◌∙◌, List, [], ◌∷◌, ltb, leb,
  bit_of, arith, length, mod_unique, Bool-cases, inl, inr, ltb→ge, ltb→lt, no_borrow,
}
use native.Mathlib.Nat.{pow-suc, pow-zero}
use tetd_test.Bignum.{Bn, u32, u64, max_val}
use tetd_test.Bignum.Value.{base, val, val-lt, AreWords, IsBn, capacity, base-pow-length}
use tetd_test.Bignum.Add.{sub_loop, sub, dec}

-- One word: the word stored and the borrow.
sub-split :
    (x y c : ℕ)
    → x < base
    → y < base
    → c ≤ 1
    → let res = u64 (u64 (x + (max_val + 1)) + 2 ^ 64 - u64 (y + c)) in
      (u32 res + y + c ≡ x + base * bit_of (leb res max_val)) × (bit_of (leb res max_val) ≤ 1)
sub-split x y c hx hy hc = ground arith

sub-balance :
    (c : ℕ) (a b : List ℕ)
    → c ≤ 1
    → length a ≡ length b
    → AreWords a
    → AreWords b
    → (k : ℕ) × (val (sub_loop c a b) + val b + c ≡ val a + k * base ^ length a)
      × (length (sub_loop c a b) ≡ length a)
      × AreWords (sub_loop c a b)
unfolding sub_loop val
sub-balance c [] [] small e h k = (c, rw pow-zero (omega arith), refl, tt)
sub-balance c [] (y ∷ ys) small e h k = absurd (omega arith)
sub-balance c (x ∷ xs) [] small e h k = absurd (omega arith)
sub-balance c (x ∷ xs) (y ∷ ys) small e h k =
    let res = u64 (u64 (x + (max_val + 1)) + 2 ^ 64 - u64 (y + c)) in
    let split = sub-split x y c h.0 k.0 small in
    let (q, p, l, r) = sub-balance (bit_of (leb res max_val)) xs ys split.1 (omega arith) h.1 k.1 in
    (
      q,
      omega (arith, split.0, p, ap (λ (t : ℕ). q * t) (pow-suc base (length xs))),
      ap suc l,
      (omega arith, r),
    )

module _ (a b : Bn) (h : IsBn a) (k : IsBn b) where
  pub sub-IsBn : IsBn (sub a b)
  unfolding sub
  sub-IsBn =
      let (q, e, l, r) = sub-balance 0 a b (omega arith) (h.size ∙ sym k.size) h.words k.words in
      record { size = l ∙ h.size; words = r }

  -- `bignum_sub` is subtraction modulo the capacity: its result and the subtrahend add up to the
  -- minuend, modulo the capacity.
  pub sub-mod : (val (sub a b) + val b) % capacity ≡ val a
  unfolding sub
  sub-mod =
      let (q, e, l, r) = sub-balance 0 a b (omega arith) (h.size ∙ sym k.size) h.words k.words in
      sym (
        rw (base-pow-length a h) at (
          mod_unique (base ^ length a) (val a) q (val (sub_loop 0 a b) + val b) (omega (arith, e))
            (val-lt a h.words)))

  -- Where the subtrahend is not the larger number, the result of `bignum_sub` and the subtrahend
  -- add up to the minuend itself.
  pub val-sub : val b ≤ val a → val (sub a b) + val b ≡ val a
  unfolding sub
  val-sub le =
      let (q, e, l, r) = sub-balance 0 a b (omega arith) (h.size ∙ sym k.size) h.words k.words in
      no_borrow q (base ^ length a) (val (sub_loop 0 a b)) (val a) (val b) (omega (arith, e))
        (rw l at (val-lt _ r)) le

dec-balance :
    (n : List ℕ)
    → AreWords n
    → (k : ℕ) × (val (dec n) + 1 ≡ val n + k * base ^ length n)
      × (length (dec n) ≡ length n)
      × AreWords (dec n)
unfolding dec val
dec-balance [] h = (1, omega arith, refl, tt)
dec-balance (w ∷ ws) h =
    let (k, e, l, r) = dec-balance ws h.1 in
    elim (Bool-cases (ltb w (u32 (w + 2 ^ 32 - 1)))) [
      | inr stop ↦
          rw stop (0, omega (arith, ltb→ge w (u32 (w + 2 ^ 32 - 1)) stop), refl, (omega arith, h.1))
      | inl wrap ↦ rw wrap (
        k,
        omega (
          arith,
          ltb→lt w (u32 (w + 2 ^ 32 - 1)) wrap,
          ap (λ (t : ℕ). k * t) (pow-suc base (length ws)),
        ),
        ap suc l,
        (omega arith, r),
      )
    ]

pub dec-IsBn : (n : Bn) → IsBn n → IsBn (dec n)
dec-IsBn n h = let (k, e, l, r) = dec-balance n h.words in record { size = l ∙ h.size; words = r }

-- `bignum_dec` takes 1 from every number but 0.
pub val-dec : (n : Bn) → IsBn n → 1 ≤ val n → val (dec n) + 1 ≡ val n
val-dec n h pos =
    let (k, e, l, r) = dec-balance n h.words in
    no_borrow k (base ^ length n) (val (dec n)) (val n) 1 e (rw l at (val-lt (dec n) r)) pos
