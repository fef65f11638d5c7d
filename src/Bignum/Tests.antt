-- ===== src/Bignum/Tests.antt =====
-- The theorems on s4/bignum.c at concrete numbers.
use tetd_test.Base.{
  ℕ, ◌*◌, ◌/◌, ◌%◌, ◌^◌, ◌≤◌, ◌<◌, ◌≡◌, refl, ◌∷◌, arith, replicate, length-replicate, none, some,
  ◌⊎◌, ◌↔◌,
}
use tetd_test.Bignum.{Bn}
use tetd_test.Bignum.Value.{val, IsBn, AreWords-zeros}
use tetd_test.Bignum.Init.{cleared, cleared-IsBn, val-cleared}
use tetd_test.Base.{codes, drop}
use tetd_test.Bignum.Text.{from_string}
use tetd_test.Bignum.Text.Laws.{hex_number, val-from_string}
use tetd_test.Bignum.Shift.{rshift}
use tetd_test.Bignum.Shift.Down.{rshift_word-loses_words}
use tetd_test.Bignum.Bitwise.{numbits}
use tetd_test.Bignum.Bitwise.Access.{numbits-eq-length}
use tetd_test.Bignum.Div.{div, divmod}
use tetd_test.Bignum.Div.Laws.{divmod-eq-div_mod, div-zero_hangs}

-- Three words, and one word that is full.
abbrev large : Bn
large = 5 ∷ 7 ∷ 9 ∷ replicate 94 0

abbrev full : Bn
full = 0xFFFFFFFF ∷ replicate 96 0

large-IsBn : IsBn large
large-IsBn = record {
  size = length-replicate {A = ℕ} 97 0;
  words = (omega arith, (omega arith, (omega arith, AreWords-zeros 94)));
}

full-IsBn : IsBn full
full-IsBn = record {
  size = length-replicate {A = ℕ} 97 0;
  words = (omega arith, AreWords-zeros 96);
}

full-pos : 0 < val full
unfolding val
full-pos = omega arith

full-le-large : val full ≤ val large
unfolding val
full-le-large = omega arith

rshift_word-loses_words_example :
    (val (rshift large 32) ≡ val large / 2 ^ 32) ↔ (val large < 2 ^ 64)
rshift_word-loses_words_example = rshift_word-loses_words large large-IsBn

numbits-eq-length_example :
    ((val large < 2) × (numbits large ≡ 0))
    ⊎ ((2 ≤ val large)
        × (val large < 2 ^ numbits large)
        × (2 ^ numbits large ≤ 2 * val large)
        × (2 ≤ numbits large))
numbits-eq-length_example = numbits-eq-length large large-IsBn

divmod-eq-div_mod_example :
    (q r : Bn) × (divmod 3105 large full ≡ some (q, r))
    × IsBn r
    × (val q ≡ val large / val full)
    × (val r ≡ val large % val full)
divmod-eq-div_mod_example =
    divmod-eq-div_mod large full large-IsBn full-IsBn full-pos 3105 (omega arith)

div-zero_hangs_example : div 4000 large cleared ≡ none
div-zero_hangs_example = div-zero_hangs 4000 large cleared large-IsBn cleared-IsBn val-cleared

-- Ten digits, of which the first two are not read.
val-from_string_example :
    (n : Bn) × (from_string (codes "0112345678") ≡ some n)
    × IsBn n
    × (val n ≡ hex_number (drop 2 (codes "0112345678")))
val-from_string_example =
    val-from_string (codes "0112345678")
      (refl, (refl, (refl, (refl, (refl, (refl, (refl, (refl, (refl, (refl, tt))))))))))
      (omega arith) (omega arith) refl
