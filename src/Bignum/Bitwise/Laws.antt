-- ===== src/Bignum/Bitwise/Laws.antt =====
-- The bitwise operations on arrays are those on the values.
use tetd_test.Base.{
  ℕ, suc, ◌+◌, ◌*◌, ◌≡◌, refl, sym, ap, ◌∙◌, List, [], ◌∷◌, arith, length, bit_and, bit_or, bit_xor,
  IsDigitwise, digitwise-lt, digitwise-split, bit_and-IsDigitwise, bit_or-IsDigitwise,
  bit_xor-IsDigitwise,
}
use tetd_test.Bignum.{Bn}
use tetd_test.Bignum.Value.{base, val, AreWords, IsBn}
use tetd_test.Bignum.Bitwise.{zip_words, and_bn, or_bn, xor_bn}

module _ (op f : ℕ → ℕ → ℕ) (d : IsDigitwise op f) where
  val-zip_words :
      (a b : List ℕ)
      → length a ≡ length b
      → AreWords a
      → AreWords b
      → val (zip_words op a b) ≡ op (val a) (val b)
  unfolding val zip_words
  val-zip_words [] [] e h k = omega (arith, d.digit 0 0, d.zeros)
  val-zip_words [] (y ∷ ys) e h k = absurd (omega arith)
  val-zip_words (x ∷ xs) [] e h k = absurd (omega arith)
  val-zip_words (x ∷ xs) (y ∷ ys) e h k =
      ap (λ t. op x y + base * t) (val-zip_words xs ys (omega arith) h.1 k.1)
      ∙ sym (digitwise-split op f d 32 x (val xs) y (val ys) h.0 k.0)

  AreWords-zip_words :
      (a b : List ℕ)
      → length a ≡ length b
      → AreWords a
      → AreWords b
      → (length (zip_words op a b) ≡ length a) × AreWords (zip_words op a b)
  unfolding zip_words
  AreWords-zip_words [] b e h k = (refl, tt)
  AreWords-zip_words (x ∷ xs) [] e h k = absurd (omega arith)
  AreWords-zip_words (x ∷ xs) (y ∷ ys) e h k =
      let (l, r) = AreWords-zip_words xs ys (omega arith) h.1 k.1 in
      (ap suc l, (digitwise-lt op f d 32 x y h.0 k.0, r))

  zip_words-IsBn : (a b : Bn) → IsBn a → IsBn b → IsBn (zip_words op a b)
  zip_words-IsBn a b h k =
      let (l, r) = AreWords-zip_words a b (h.size ∙ sym k.size) h.words k.words in
      record { size = l ∙ h.size; words = r }

module _ (a b : Bn) (h : IsBn a) (k : IsBn b) where
  pub or_bn-IsBn : IsBn (or_bn a b)
  unfolding or_bn
  or_bn-IsBn = zip_words-IsBn bit_or _ bit_or-IsDigitwise a b h k

  pub val-or_bn : val (or_bn a b) ≡ bit_or (val a) (val b)
  unfolding or_bn
  val-or_bn = val-zip_words bit_or _ bit_or-IsDigitwise a b (h.size ∙ sym k.size) h.words k.words

  -- `bignum_and`, `bignum_or` and `bignum_xor` compute `&`, `|` and `^` of the values.
  pub val-bitwise :
      (val (and_bn a b) ≡ bit_and (val a) (val b))
      × (val (or_bn a b) ≡ bit_or (val a) (val b))
      × (val (xor_bn a b) ≡ bit_xor (val a) (val b))
  unfolding and_bn xor_bn
  val-bitwise = (
    val-zip_words bit_and _ bit_and-IsDigitwise a b (h.size ∙ sym k.size) h.words k.words,
    val-or_bn,
    val-zip_words bit_xor _ bit_xor-IsDigitwise a b (h.size ∙ sym k.size) h.words k.words,
  )
