-- ===== src/Bignum/Shift/Down.antt =====
-- Right shifts by bits, and what `_rshift_word` does to larger counts.
use tetd_test.Base.{
  ℕ, suc, ◌+◌, ◌-◌, ◌*◌, ◌/◌, ◌%◌, ◌^◌, ◌≤◌, ◌<◌, ◌≡◌, refl, sym, ap, ◌∙◌, ◌↔◌, List, [], ◌∷◌,
  arith, bit_or, get_or, length, bit_or_comm, bit_or-fields, mul-mod-mul, div_unique, pow-pos,
  Bool-cases, ==_iff, if◌then◌else◌, ◌==◌, inl, inr,
}
use native.Mathlib.Nat.{
  div-add-mod', div-lt_iff_lt-mul, mul_comm, mod-lt, mul-le-mul_right, div-le_self, div-one,
  sub-zero,
}
use tetd_test.Bignum.{Bn, u32}
use tetd_test.Bignum.Value.{base, val, AreWords, IsBn}
use tetd_test.Bignum.Shift.{word_down, down_loop, rshift_one_bit, rshift_word, rshift}
use tetd_test.Bignum.Shift.Up.{split-base}

word_down-eq-sum :
    (k w v : ℕ) → k ≤ 32 → w < base → word_down k w v ≡ v % 2 ^ k * 2 ^ (32 - k) + w / 2 ^ k
unfolding word_down
word_down-eq-sum k w v h hw =
    ap (λ t. bit_or (w / 2 ^ k) t) kept
    ∙ bit_or_comm (w / 2 ^ k) _
    ∙ bit_or-fields (32 - k) (v % 2 ^ k) (w / 2 ^ k)
        ((div-lt_iff_lt-mul (pow-pos 2 k (omega arith))).1 (rw (flipped) hw))
  where
    flipped : 2 ^ (32 - k) * 2 ^ k ≡ base
    flipped = mul_comm (2 ^ (32 - k)) (2 ^ k) ∙ split-base k h

    kept : u32 (v * 2 ^ (32 - k)) ≡ v % 2 ^ k * 2 ^ (32 - k)
    kept =
        ap (λ t. (v * 2 ^ (32 - k)) % t) (sym flipped)
        ∙ mul-mod-mul v (2 ^ (32 - k)) (2 ^ k) (pow-pos 2 (32 - k) (omega arith))
            (pow-pos 2 k (omega arith))

-- The bits shifted out, and the result.
down_loop-balance :
    (k : ℕ) (a : List ℕ)
    → k ≤ 32
    → AreWords a
    → val (down_loop k a) * 2 ^ k + get_or a 0 0 % 2 ^ k ≡ val a
unfolding down_loop val
down_loop-balance k [] h ha = omega (arith, pow-pos 2 k (omega arith))
down_loop-balance k (w ∷ []) h ha = omega (arith, div-add-mod' w (2 ^ k))
down_loop-balance k (w ∷ v ∷ ws) h ha =
    let sum : (word_down k w v + base * val (down_loop k (v ∷ ws))) * 2 ^ k + w % 2 ^ k
        ≡ w + base * val (v ∷ ws) =
      omega (
        arith,
        ap (λ (t : ℕ). t * 2 ^ k) (word_down-eq-sum k w v h ha.0),
        down_loop-balance k (v ∷ ws) h ha.1,
        div-add-mod' w (2 ^ k),
        ap (λ (t : ℕ). v % 2 ^ k * t) (split-base k h),
      ) in
    sum

length-down_loop : (k : ℕ) (a : List ℕ) → length (down_loop k a) ≡ length a
unfolding down_loop
length-down_loop k [] = refl
length-down_loop k (w ∷ []) = refl
length-down_loop k (w ∷ v ∷ ws) = ap suc (length-down_loop k (v ∷ ws))

word_down-lt : (k w v : ℕ) → k ≤ 32 → w < base → word_down k w v < base
word_down-lt k w v h hw = omega (
  arith,
  word_down-eq-sum k w v h hw,
  split-base k h,
  (div-lt_iff_lt-mul {x = w} {y = 2 ^ (32 - k)} (pow-pos 2 k (omega arith))).1
      (omega (arith, split-base k h)),
  mul-le-mul_right (2 ^ (32 - k)) (mod-lt v (pow-pos 2 k (omega arith))),
)

AreWords-down_loop : (k : ℕ) (a : List ℕ) → k ≤ 32 → AreWords a → AreWords (down_loop k a)
unfolding down_loop
AreWords-down_loop k [] h ha = tt
AreWords-down_loop k (w ∷ []) h ha = (omega (arith, div-le_self w (2 ^ k)), tt)
AreWords-down_loop k (w ∷ v ∷ ws) h ha =
    (word_down-lt k w v h ha.0, AreWords-down_loop k (v ∷ ws) h ha.1)

module _ (k : ℕ) (small : k ≤ 32) (a : Bn) (h : IsBn a) where
  down_loop-IsBn : IsBn (down_loop k a)
  down_loop-IsBn = record {
    size = length-down_loop k a ∙ h.size;
    words = AreWords-down_loop k a small h.words;
  }

  val-down_loop : val (down_loop k a) ≡ val a / 2 ^ k
  val-down_loop =
      div_unique (2 ^ k) _ (get_or a 0 0 % 2 ^ k) (val a) (down_loop-balance k a small h.words)
        (mod-lt _ (pow-pos 2 k (omega arith)))

module _ (a : Bn) (h : IsBn a) where
  pub rshift_one_bit-IsBn : IsBn (rshift_one_bit a)
  unfolding rshift_one_bit
  rshift_one_bit-IsBn = down_loop-IsBn 1 (omega arith) a h

  -- `_rshift_one_bit` halves.
  pub val-rshift_one_bit : val (rshift_one_bit a) ≡ val a / 2
  unfolding rshift_one_bit
  val-rshift_one_bit = val-down_loop 1 (omega arith) a h

rshift_small : (a : Bn) (n : ℕ) → n < 32 → rshift a n ≡ (if n == 0 then a else down_loop n a)
unfolding rshift
rshift_small a n h = let q : n / 32 ≡ 0 = omega arith in rw (q, sub-zero n)

pub rshift-IsBn : (a : Bn) (n : ℕ) → n < 32 → IsBn a → IsBn (rshift a n)
rshift-IsBn a n small h = rw (rshift_small a n small) (elim (Bool-cases (n == 0)) [
  | inl e ↦ rw e h
  | inr e ↦ rw e (down_loop-IsBn n (omega arith) a h)
])

-- For counts below 32, `bignum_rshift` leaves in `a` the quotient by 2 ^ nbits.
pub val-rshift : (a : Bn) (n : ℕ) → n < 32 → IsBn a → val (rshift a n) ≡ val a / 2 ^ n
val-rshift a n small h = rw (rshift_small a n small) (elim (Bool-cases (n == 0)) [
  | inl e ↦ rw (e, (==_iff n 0).0 e) (sym (div-one (val a)))
  | inr e ↦ rw e (val-down_loop n (omega arith) a h)
])

val-rshift_word_zero : (xs : List ℕ) → val (rshift_word xs 0) ≡ 0
unfolding rshift_word val
val-rshift_word_zero [] = refl
val-rshift_word_zero (x ∷ xs) = omega (arith, val-rshift_word_zero xs)

-- `bignum_rshift` by 32 leaves the quotient by 2 ^ 32 in `a` for the numbers below 2 ^ 64, and
-- for no other.
pub rshift_word-loses_words :
    (a : Bn) → IsBn a → (val (rshift a 32) ≡ val a / 2 ^ 32) ↔ (val a < 2 ^ 64)
unfolding rshift
rshift_word-loses_words a h = second_word a (omega (arith, h.size)) h.words
  where
    second_word :
        (b : Bn)
        → 2 ≤ length b
        → AreWords b
        → (val (rshift_word b 1) ≡ val b / 2 ^ 32) ↔ (val b < 2 ^ 64)
    second_word [] two words = absurd (omega arith)
    second_word (x ∷ []) two words = absurd (omega arith)
    second_word (x ∷ y ∷ ys) two words =
        unfold rshift_word val in
        (
          (λ e. omega (arith, val-rshift_word_zero ys)),
          (λ lt. omega (arith, val-rshift_word_zero ys)),
        )
