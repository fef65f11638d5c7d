-- ===== src/Bignum/Bitwise/Access.antt =====
-- `bignum_getbit` reads a binary digit of the value, and `bignum_numbits` finds the highest.
use tetd_test.Base.{
  ℕ, zero, suc, ◌+◌, ◌-◌, ◌*◌, ◌/◌, ◌%◌, ◌^◌, ◌≤◌, ◌<◌, ◌≡◌, refl, sym, ap, ◌∙◌, List, [], ◌∷◌,
  arith, get_or, mod-add-multiple, pow-add, pow-pos, Bool-cases, ==_iff, ◌==◌, inl, inr, ◌⊎◌, ◌≢◌,
  false,
}
use native.Mathlib.Nat.{
  div-div-eq-div-mul, mul_comm, pow-suc, add-mul-div_left, mod-eq_of_lt, div-lt_iff_lt-mul,
  div-mul-le_self, one-mul, zero-div, div-one,
}
use native.Mathlib.Numerals.{add-one}
use tetd_test.Bignum.{Bn}
use tetd_test.Bignum.Value.{base, val, AreWords, IsBn, base-pow, capacity-eq-pow, val-lt-capacity}
use tetd_test.Bignum.Bitwise.{getbit, numbits_loop, numbits}

-- A field of `n` bits of the lowest word is one of the number.
low_word_field : (x v r n : ℕ) → r + n ≤ 32 → ((x + base * v) / 2 ^ r) % 2 ^ n ≡ (x / 2 ^ r) % 2 ^ n
low_word_field x v r n small =
    ap (λ t. ((x + t) / 2 ^ r) % 2 ^ n) upper
    ∙ ap (λ t. t % 2 ^ n)
        (add-mul-div_left x (2 ^ (32 - (r + n)) * v * 2 ^ n) (pow-pos 2 r (omega arith)))
    ∙ mod-add-multiple (2 ^ n) (2 ^ (32 - (r + n)) * v) (x / 2 ^ r)
  where
    upper : base * v ≡ 2 ^ r * (2 ^ (32 - (r + n)) * v * 2 ^ n)
    upper =
        let e : r + (n + (32 - (r + n))) ≡ 32 = omega arith in
        omega (
          arith,
          ap (λ (t : ℕ). 2 ^ t * v) e,
          ap (λ (t : ℕ). t * v) (pow-add 2 r (n + (32 - (r + n)))),
          ap (λ (t : ℕ). 2 ^ r * t * v) (pow-add 2 n (32 - (r + n))),
        )

-- A field of word `q` is a field of the value.
word_field :
    (xs : List ℕ) (q r n : ℕ)
    → AreWords xs
    → r + n ≤ 32
    → (get_or xs q 0 / 2 ^ r) % 2 ^ n ≡ (val xs / base ^ q / 2 ^ r) % 2 ^ n
unfolding val
word_field [] q r n h small = rw (zero-div (base ^ q))
word_field (x ∷ xs) zero r n h small = sym (
    ap (λ (t : ℕ). (t / 2 ^ r) % 2 ^ n) (div-one (x + base * val xs))
    ∙ low_word_field x (val xs) r n small)
word_field (x ∷ xs) (suc q) r n h small =
    word_field xs q r n h.1 small ∙ ap (λ (t : ℕ). (t / 2 ^ r) % 2 ^ n) dropped
  where
    dropped : val xs / base ^ q ≡ (x + base * val xs) / base ^ suc q
    dropped =
        ap (λ (t : ℕ). t / base ^ q) (omega arith)
        ∙ div-div-eq-div-mul (x + base * val xs) base (base ^ q)
        ∙ ap (λ (t : ℕ). (x + base * val xs) / t) (mul_comm base (base ^ q) ∙ sym (pow-suc base q))

-- The same with the position in bits.
pub field_at :
    (a : Bn) (q r n : ℕ)
    → IsBn a
    → r + n ≤ 32
    → (get_or a q 0 / 2 ^ r) % 2 ^ n ≡ (val a / 2 ^ (32 * q + r)) % 2 ^ n
field_at a q r n h small =
    word_field a q r n h.words small
    ∙ ap (λ t. t % 2 ^ n)
        (div-div-eq-div-mul (val a) (base ^ q) (2 ^ r)
          ∙ ap (λ t. val a / t) (ap (λ t. t * 2 ^ r) (base-pow q) ∙ sym (pow-add 2 (32 * q) r)))

-- `bignum_getbit` is the binary digit of the value at the index, and 0 above the array.
pub getbit-eq-digit : (a : Bn) (n : ℕ) → IsBn a → getbit a n ≡ (val a / 2 ^ n) % 2
unfolding getbit
getbit-eq-digit a n h =
    field_at a (n / 32) (n - n / 32 * 32) 1 h (omega arith)
    ∙ ap (λ t. (val a / 2 ^ t) % 2) (omega arith)

-- The digit at the top of a number of `f + 2` bits.
top_digit : (f v : ℕ) → v < 2 ^ suc (suc f) → (v / 2 ^ suc f) % 2 ≡ v / 2 ^ suc f
top_digit f v lt =
    mod-eq_of_lt
      ((div-lt_iff_lt-mul (pow-pos 2 (suc f) (omega arith))).1 (omega (arith, pow-suc 2 (suc f))))

not_one : (n : ℕ) → (n == 1) ≡ false → n ≢ 1
not_one n h = ground arith

top_set :
    (f : ℕ) (a : Bn) → IsBn a → val a < 2 ^ suc (suc f) → getbit a (suc f) ≡ 1 → 2 ^ suc f ≤ val a
top_set f a h lt e = omega (
  arith,
  getbit-eq-digit a (suc f) h,
  top_digit f (val a) lt,
  div-mul-le_self (val a) (2 ^ suc f),
  ap (λ (t : ℕ). t * 2 ^ suc f)
      (sym (top_digit f (val a) lt) ∙ sym (getbit-eq-digit a (suc f) h) ∙ e),
)

top_clear :
    (f : ℕ) (a : Bn)
    → IsBn a
    → val a < 2 ^ suc (suc f)
    → (getbit a (suc f) == 1) ≡ false
    → val a < 2 ^ suc f
top_clear f a h lt e = rw (one-mul (2 ^ suc f)) at (
    (div-lt_iff_lt-mul {x = val a} {y = 1} (pow-pos 2 (suc f) (omega arith))).0 (
      omega
        (arith, getbit-eq-digit a (suc f) h, top_digit f (val a) lt, not_one (getbit a (suc f)) e)))

-- What the downward search finds in a number below `2 ^ (f + 1)`.
numbits_loop_lem :
    (f : ℕ) (a : Bn)
    → IsBn a
    → val a < 2 ^ suc f
    → ((val a < 2) × (numbits_loop f a ≡ 0))
      ⊎ ((2 ≤ val a)
          × (val a < 2 ^ numbits_loop f a)
          × (2 ^ numbits_loop f a ≤ 2 * val a)
          × (2 ≤ numbits_loop f a))
unfolding numbits_loop
numbits_loop_lem zero a h lt = inl (omega arith, refl)
numbits_loop_lem (suc f) a h lt = elim (Bool-cases (getbit a (suc f) == 1)) [
  | inl found ↦ rw found (
      inr (
        omega (
          arith,
          top_set f a h lt ((==_iff _ 1).0 found),
          pow-suc 2 f,
          pow-pos 2 f (omega arith),
        ),
        rw add-one lt,
        rw add-one (omega (arith, top_set f a h lt ((==_iff _ 1).0 found), pow-suc 2 (suc f))),
        omega arith,
      ))
  | inr clear ↦ rw clear (numbits_loop_lem f a h (top_clear f a h lt clear))
]

-- `bignum_numbits` is the length in binary digits of every number from 2 on, and 0 for the
-- numbers 0 and 1.
pub numbits-eq-length :
    (a : Bn)
    → IsBn a
    → ((val a < 2) × (numbits a ≡ 0))
      ⊎ ((2 ≤ val a) × (val a < 2 ^ numbits a) × (2 ^ numbits a ≤ 2 * val a) × (2 ≤ numbits a))
unfolding numbits
numbits-eq-length a h = numbits_loop_lem 3103 a h (rw capacity-eq-pow at (val-lt-capacity a h))
