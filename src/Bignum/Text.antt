-- ===== src/Bignum/Text.antt =====
-- `bignum_from_string`, on the character codes of its text.
pub mod Laws
use tetd_test.Base.{
  ℕ, zero, suc, ◌+◌, ◌-◌, ◌*◌, ◌/◌, List, [], ◌∷◌, Bool, true, false, ltb, leb, if◌then◌else◌, set,
  ◌==◌, ◌%◌, Option, none, some, drop, length,
}
use tetd_test.Bignum.{word_size, Bn}
use tetd_test.Bignum.Init.{cleared}

-- The hexadecimal digits `0` to `9`, `A` to `F` and `a` to `f`, and what they count.
abbrev pub is_hex : ℕ → Bool
is_hex c =
    if ltb c 48
    then false
    else if leb c 57
    then true
    else if ltb c 65
    then false
    else if leb c 70
    then true
    else if ltb c 97
    then false
    else leb c 102

abbrev pub hex_digit : ℕ → ℕ
hex_digit c = if leb c 57 then c - 48 else if leb c 70 then c - 55 else c - 87

-- `sscanf` with `%8x` on a text of hexadecimal digits: it reads at most `width` of them. Its
-- blanks, signs and prefix `0x` do not occur in such a text.
pub scan_hex : (width acc : ℕ) → List ℕ → ℕ
scan_hex zero acc s = acc
scan_hex (suc width) acc [] = acc
scan_hex (suc width) acc (c ∷ s) =
    let rest = scan_hex width (acc * 16 + hex_digit c) s in if is_hex c then rest else acc

-- The loop of `bignum_from_string`: `i` is the index into the text, which goes down by 8 a round
-- and is below 0 after the last one.
pub string_loop : List ℕ → (rounds i j : ℕ) → Bn → Bn
string_loop str zero i j n = n
string_loop str (suc rounds) i j n =
    string_loop str rounds (i - 2 * word_size) (j + 1)
      (set n j (scan_hex (2 * word_size) 0 (drop i str)))

-- `bignum_from_string` after its assertions, with all of the text as in the code's calls. The index
-- starts 8 below the length, so there are as many rounds as there are whole groups of 8 digits.
pub read_string : List ℕ → Bn
read_string str =
    string_loop str (length str / (2 * word_size)) (length str - 2 * word_size) 0 cleared

-- `bignum_from_string`; `none` is an assertion on `nbytes` that fails.
unfoldable pub from_string : List ℕ → Option Bn
from_string str =
    if ltb 0 (length str)
    then if length str % 2 == 0 then some (read_string str) else none
    else none
