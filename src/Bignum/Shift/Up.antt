-- ===== src/Bignum/Shift/Up.antt =====
-- Left shifts by bits.
use tetd_test.Base.{
  ℕ, zero, suc, ◌+◌, ◌-◌, ◌*◌, ◌/◌, ◌%◌, ◌^◌, ◌≤◌, ◌<◌, ◌≡◌, refl, sym, ap, ◌∙◌, List, [], ◌∷◌,
  arith, bit_or, get_or, set, length, bit_or-zero, bit_or-fields, mul-mod-mul, mod_unique, pow-add,
  pow-pos, Bool-cases, ==_iff, if◌then◌else◌, ◌==◌, inl, inr, mod_mul_left,
}
use native.Mathlib.Nat.{
  pow-suc, div-add-mod', div-lt_iff_lt-mul, zero-div, mul-le-mul_right, mod-lt, mul_comm, mul-one,
  mod-eq_of_lt, mul_assoc,
}
use tetd_test.Bignum.{bn_array_size, Bn}
use tetd_test.Bignum.Value.{
  base, val, val-lt, AreWords, IsBn, capacity, base-pow-length, val-lt-capacity, base-pow,
}
use tetd_test.Bignum.Shift.{word_up, up_loop, lshift_one_bit, lshift_word, lshift}
use tetd_test.Bignum.Shift.Words.{val-lshift_word, lshift_word-IsBn}

-- The two parts of a word.
pub split-base : (k : ℕ) → k ≤ 32 → 2 ^ k * 2 ^ (32 - k) ≡ base
split-base k h = let e : k + (32 - k) ≡ 32 = omega arith in sym (pow-add 2 k (32 - k)) ∙ rw e

-- The bits that a word hands to the next one.
below_top : (k p : ℕ) → k ≤ 32 → p < base → p / 2 ^ (32 - k) < 2 ^ k
below_top k p h hp =
    (div-lt_iff_lt-mul (pow-pos 2 (32 - k) (omega arith))).1 (rw (split-base k h) hp)

-- What `word_up` stores, as a sum.
word_up-eq-sum :
    (k w p : ℕ) → k ≤ 32 → p < base → word_up k w p ≡ w % 2 ^ (32 - k) * 2 ^ k + p / 2 ^ (32 - k)
unfolding word_up
word_up-eq-sum k w p h hp =
    ap (λ t. bit_or t (p / 2 ^ (32 - k)))
      (ap (λ t. (w * 2 ^ k) % t) (sym (split-base k h))
        ∙ mul-mod-mul w (2 ^ k) (2 ^ (32 - k)) (pow-pos 2 k (omega arith))
            (pow-pos 2 (32 - k) (omega arith)))
    ∙ bit_or-fields k (w % 2 ^ (32 - k)) (p / 2 ^ (32 - k)) (below_top k p h hp)

-- The whole loop as a recursion from the lowest word, `p` being the word below.
up_words : (k p : ℕ) → List ℕ → List ℕ
up_words k p [] = []
up_words k p (w ∷ ws) = word_up k w p ∷ up_words k w ws

-- The loop with a word `p` below the array.
up_below : (k p i : ℕ) → Bn → Bn
up_below k p zero a = set a 0 (word_up k (get_or a 0 0) p)
up_below k p (suc i) a =
    up_below k p i (set a (suc i) (word_up k (get_or a (suc i) 0) (get_or a i 0)))

up_loop-eq-up_below : (k i : ℕ) (a : Bn) → up_loop k i a ≡ up_below k 0 i a
unfolding up_loop up_below word_up
up_loop-eq-up_below k zero a = ap (set a 0) (sym (rw zero-div (bit_or-zero _)))
up_loop-eq-up_below k (suc i) a = up_loop-eq-up_below k i _

-- The lowest word comes off the front.
up_below-cons :
    (k p i x : ℕ) (xs : Bn) → up_below k p (suc i) (x ∷ xs) ≡ word_up k x p ∷ up_below k x i xs
unfolding up_below
up_below-cons k p zero x xs = refl
up_below-cons k p (suc i) x xs = up_below-cons k p i x _

up_below-eq-up_words : (k p i : ℕ) (a : Bn) → length a ≡ suc i → up_below k p i a ≡ up_words k p a
unfolding up_words
up_below-eq-up_words k p i [] e = absurd (omega arith)
up_below-eq-up_words k p zero (x ∷ []) e = unfold up_below in refl
up_below-eq-up_words k p zero (x ∷ y ∷ xs) e = absurd (omega arith)
up_below-eq-up_words k p (suc i) (x ∷ xs) e =
    up_below-cons k p i x xs
    ∙ ap (λ t. word_up k x p ∷ t) (up_below-eq-up_words k x i xs (omega arith))

length-up_words : (k p : ℕ) (a : List ℕ) → length (up_words k p a) ≡ length a
unfolding up_words
length-up_words k p [] = refl
length-up_words k p (w ∷ ws) = ap suc (length-up_words k w ws)

word_up-lt : (k w p : ℕ) → k ≤ 32 → p < base → word_up k w p < base
word_up-lt k w p h hp = omega (
  arith,
  word_up-eq-sum k w p h hp,
  split-base k h,
  below_top k p h hp,
  mul-le-mul_right (2 ^ k) (mod-lt w (pow-pos 2 (32 - k) (omega arith))),
)

AreWords-up_words :
    (k p : ℕ) (a : List ℕ) → k ≤ 32 → p < base → AreWords a → AreWords (up_words k p a)
unfolding up_words
AreWords-up_words k p [] h hp ha = tt
AreWords-up_words k p (w ∷ ws) h hp ha =
    (word_up-lt k w p h hp, AreWords-up_words k w ws h ha.0 ha.1)

up_words-balance :
    (k p : ℕ) (a : List ℕ)
    → k ≤ 32
    → p < base
    → AreWords a
    → (c : ℕ) × (val (up_words k p a) + c * base ^ length a ≡ val a * 2 ^ k + p / 2 ^ (32 - k))
unfolding up_words val
up_words-balance k p [] h hp ha = (p / 2 ^ (32 - k), omega arith)
up_words-balance k p (w ∷ ws) h hp ha =
    let (c, e) = up_words-balance k w ws h ha.0 ha.1 in
    (
      c,
      omega (
        arith,
        word_up-eq-sum k w p h hp,
        e,
        ap (λ (t : ℕ). t * 2 ^ k) (div-add-mod' w (2 ^ (32 - k))),
        ap (λ (t : ℕ). w / 2 ^ (32 - k) * t) (split-base k h),
        ap (λ (t : ℕ). c * t) (pow-suc base (length ws)),
      ),
    )

module _ (k : ℕ) (small : k ≤ 32) (a : Bn) (h : IsBn a) where
  up_loop-eq-up_words : up_loop k (bn_array_size - 1) a ≡ up_words k 0 a
  up_loop-eq-up_words = up_loop-eq-up_below k 96 a ∙ up_below-eq-up_words k 0 96 a (h.size)

  pub up_loop-IsBn : IsBn (up_loop k (bn_array_size - 1) a)
  up_loop-IsBn = rw up_loop-eq-up_words (record {
    size = length-up_words k 0 a ∙ h.size;
    words = AreWords-up_words k 0 a small (omega arith) h.words;
  })

  -- The bit loop multiplies by a power of two, modulo the capacity.
  pub val-up_loop : val (up_loop k (bn_array_size - 1) a) ≡ (val a * 2 ^ k) % capacity
  val-up_loop =
      let (c, e) = up_words-balance k 0 a small (omega arith) h.words in
      rw up_loop-eq-up_words (
        rw (base-pow-length a h) at (
          mod_unique (base ^ length a) _ c (val a * 2 ^ k)
            (omega (arith, e, zero-div (2 ^ (32 - k))))
            (rw (length-up_words k 0 a) at
              (val-lt _ (AreWords-up_words k 0 a small (omega arith) h.words)))))

module _ (a : Bn) (h : IsBn a) where
  pub lshift_one_bit-IsBn : IsBn (lshift_one_bit a)
  unfolding lshift_one_bit
  lshift_one_bit-IsBn = up_loop-IsBn 1 (omega arith) a h

  -- `_lshift_one_bit` doubles, modulo the capacity.
  pub val-lshift_one_bit : val (lshift_one_bit a) ≡ (2 * val a) % capacity
  unfolding lshift_one_bit
  val-lshift_one_bit = val-up_loop 1 (omega arith) a h ∙ ap (λ t. t % capacity) (mul_comm (val a) 2)

-- The word part of `bignum_lshift`.
word_part : Bn → ℕ → Bn
word_part a n = if n == 0 then a else lshift_word a n

word_part_lem :
    (a : Bn) (n : ℕ)
    → IsBn a
    → IsBn (word_part a n) × (val (word_part a n) ≡ (val a * base ^ n) % capacity)
unfolding word_part
word_part_lem a n h = elim (Bool-cases (n == 0)) [
  | inl zero_count ↦
      rw (zero_count, (==_iff n 0).0 zero_count)
        (h, sym (rw mul-one (mod-eq_of_lt (val-lt-capacity a h))))
  | inr some_count ↦ rw some_count (lshift_word-IsBn a n h, val-lshift_word a n h)
]

-- The bit part of `bignum_lshift`.
bit_part : Bn → ℕ → Bn
bit_part a k = if k == 0 then a else up_loop k (bn_array_size - 1) a

bit_part_lem :
    (a : Bn) (k : ℕ)
    → k ≤ 32
    → IsBn a
    → IsBn (bit_part a k) × (val (bit_part a k) ≡ (val a * 2 ^ k) % capacity)
unfolding bit_part
bit_part_lem a k small h = elim (Bool-cases (k == 0)) [
  | inl zero_count ↦
      rw (zero_count, (==_iff k 0).0 zero_count)
        (h, sym (rw mul-one (mod-eq_of_lt (val-lt-capacity a h))))
  | inr some_count ↦ rw some_count (up_loop-IsBn k small a h, val-up_loop k small a h)
]

module _ (a : Bn) (nbits : ℕ) (h : IsBn a) where
  lshift_parts :
      IsBn (lshift a nbits)
      × (val (lshift a nbits)
          ≡ (val a * base ^ (nbits / 32) % capacity * 2 ^ (nbits - nbits / 32 * 32)) % capacity)
  unfolding lshift word_part bit_part
  lshift_parts =
      let w = word_part_lem a (nbits / 32) h in
      let b = bit_part_lem (word_part a (nbits / 32)) (nbits - nbits / 32 * 32) (omega arith) w.0 in
      (b.0, b.1 ∙ ap (λ t. (t * 2 ^ (nbits - nbits / 32 * 32)) % capacity) w.1)

  pub lshift-IsBn : IsBn (lshift a nbits)
  lshift-IsBn = lshift_parts.0

  -- `bignum_lshift` multiplies by 2 ^ nbits, modulo the capacity, for every shift count.
  pub val-lshift : val (lshift a nbits) ≡ (val a * 2 ^ nbits) % capacity
  val-lshift =
      lshift_parts.1
      ∙ mod_mul_left (val a * base ^ (nbits / 32)) (2 ^ (nbits - nbits / 32 * 32)) capacity
      ∙ ap (λ t. t % capacity) joined
    where
      joined : val a * base ^ (nbits / 32) * 2 ^ (nbits - nbits / 32 * 32) ≡ val a * 2 ^ nbits
      joined =
          rw
            (
              base-pow (nbits / 32),
              mul_assoc,
              ← pow-add 2 (32 * (nbits / 32)) (nbits - nbits / 32 * 32),
            )
            (let e : 32 * (nbits / 32) + (nbits - nbits / 32 * 32) ≡ nbits = omega arith in rw e)
