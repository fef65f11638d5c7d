-- ===== src/Bignum/Text/Laws.antt =====
-- The number that `bignum_from_string` reads.
use tetd_test.Base.{
  ℕ, zero, suc, ◌+◌, ◌-◌, ◌*◌, ◌/◌, ◌%◌, ◌^◌, ◌≤◌, ◌<◌, ◌≡◌, refl, sym, ap, ◌∙◌, List, [], ◌∷◌,
  arith, true, some, get_or, set, drop, length, length-set, length-drop, drop_all, drop-drop,
  pow-add,
}
use native.Mathlib.Nat.{pow-suc, mul-le-mul_right, lt_of_mul-lt-mul_right, lt_of_le_of_lt, pow-zero}
use tetd_test.Bignum.{Bn}
use tetd_test.Bignum.Value.{base, val, IsBn, base-pow}
use tetd_test.Bignum.Write.{val-set_add, word-le-val, AreWords-set}
use tetd_test.Bignum.Init.{cleared, cleared-IsBn, val-cleared}
use tetd_test.Bignum.Text.{is_hex, hex_digit, scan_hex, string_loop, read_string, from_string}

abbrev pub AreHex : List ℕ → Type 0
AreHex [] = Unit {0}
AreHex (c ∷ s) = (is_hex c ≡ true) × AreHex s

-- The number that hexadecimal digits stand for, the most significant first.
unfoldable pub hex_number : List ℕ → ℕ
hex_number [] = 0
hex_number (c ∷ s) = hex_digit c * 16 ^ length s + hex_number s

hex_digit-lt : (c : ℕ) → is_hex c ≡ true → hex_digit c < 16
hex_digit-lt c h = ground arith

hex_number-lt : (s : List ℕ) → AreHex s → hex_number s < 16 ^ length s
unfolding hex_number
hex_number-lt [] h = rw pow-zero (omega arith)
hex_number-lt (c ∷ s) h = omega (
  arith,
  hex_number-lt s h.1,
  pow-suc 16 (length s),
  mul-le-mul_right {m = hex_digit c} {n = 15} (16 ^ length s) (omega (arith, hex_digit-lt c h.0)),
)

AreHex-drop : (k : ℕ) (s : List ℕ) → AreHex s → AreHex (drop k s)
AreHex-drop zero s h = h
AreHex-drop (suc k) [] h = tt
AreHex-drop (suc k) (c ∷ s) h = AreHex-drop k s h.1

-- What `sscanf` reads, with the digits that it leaves.
scan_hex-rest :
    (w acc : ℕ) (s : List ℕ)
    → AreHex s
    → w ≤ length s
    → scan_hex w acc s * 16 ^ (length s - w) + hex_number (drop w s)
      ≡ acc * 16 ^ length s + hex_number s
unfolding scan_hex hex_number
scan_hex-rest zero acc s h le = let e : length s - 0 ≡ length s = omega arith in rw e refl
scan_hex-rest (suc w) acc [] h le = absurd (omega arith)
scan_hex-rest (suc w) acc (c ∷ s) h le =
    let e : suc (length s) - suc w ≡ length s - w = omega arith in
    rw (h.0, e)
      (omega (
        arith,
        scan_hex-rest w (acc * 16 + hex_digit c) s h.1 (omega arith),
        ap (λ (t : ℕ). acc * t) (pow-suc 16 (length s)),
      ))

hex-pow : (n : ℕ) → 16 ^ n ≡ 2 ^ (4 * n)
hex-pow zero = refl
hex-pow (suc n) = omega (arith, pow-suc 16 n, hex-pow n, pow-add 2 (4 * n) 4, shifted)
  where
    shifted : 2 ^ (4 * n + 4) ≡ 2 ^ (4 * suc n)
    shifted = let e : 4 * n + 4 ≡ 4 * suc n = omega arith in rw e

-- Eight digits make a word.
weight : (j : ℕ) → 16 ^ (8 * j) ≡ base ^ j
weight j = hex-pow (8 * j) ∙ ap (λ (t : ℕ). 2 ^ t) (omega arith) ∙ sym (base-pow j)

module _ (str : List ℕ) (hs : AreHex str) (fits : length str ≤ 776) where
  -- After `j` rounds the number is that of the last `8 * j` digits.
  record IsRead (j : ℕ) (n : Bn) : Type 0 where
    bn : IsBn n
    value : val n ≡ hex_number (drop (length str - 8 * j) str)

  module _ (i j : ℕ) (n : Bn) (left : i + 8 * suc j ≡ length str) (r : IsRead j n) where
    rest_length : length (drop i str) ≡ 8 * suc j
    rest_length = omega (arith, length-drop i str)

    tail-eq : drop 8 (drop i str) ≡ drop (length str - 8 * j) str
    tail-eq = let e : i + 8 ≡ length str - 8 * j = omega arith in drop-drop 8 i str ∙ rw e refl

    -- The digits of this round above those read before.
    joined : scan_hex 8 0 (drop i str) * base ^ j + val n ≡ hex_number (drop i str)
    joined =
        let e : length (drop i str) - 8 ≡ 8 * j = omega (arith, rest_length) in
        omega (
          arith,
          rw (e, tail-eq, weight j) at
              (scan_hex-rest 8 0 (drop i str) (AreHex-drop i str hs) (omega (arith, rest_length))),
          r.value,
        )

    digits_lt : hex_number (drop i str) < base ^ suc j
    digits_lt =
        rw (rest_length, weight (suc j)) at (hex_number-lt (drop i str) (AreHex-drop i str hs))

    scanned-lt : scan_hex 8 0 (drop i str) < base
    scanned-lt =
        lt_of_mul-lt-mul_right (base ^ j) (omega (arith, joined, digits_lt, pow-suc base j))

    below : val n < base ^ j
    below =
        let e : length (drop (length str - 8 * j) str) ≡ 8 * j =
          omega (arith, length-drop (length str - 8 * j) str) in
        rw r.value (rw (e, weight j) at (hex_number-lt _ (AreHex-drop (length str - 8 * j) str hs)))

    -- The word to be written is still clear.
    still_clear : get_or n j 0 ≡ 0
    still_clear =
        let lt : get_or n j 0 < 1 =
          lt_of_mul-lt-mul_right (base ^ j)
            (omega (arith, lt_of_le_of_lt (word-le-val n j) below)) in
        omega arith

    IsRead-step : IsRead (j + 1) (set n j (scan_hex 8 0 (drop i str)))
    IsRead-step =
        let w = scan_hex 8 0 (drop i str) in
        let written : val (set n j w) ≡ val n + w * base ^ j =
          ap (λ (t : ℕ). val (set n j t)) (sum w) ∙ val-set_add n j w (omega (arith, r.bn.size)) in
        let here : i ≡ length str - 8 * (j + 1) = omega arith in
        record {
          bn = record {
            size = length-set n j w ∙ r.bn.size;
            words = AreWords-set n j w r.bn.words scanned-lt;
          };
          value = written ∙ omega (arith, joined) ∙ ap (λ t. hex_number (drop t str)) here;
        }
      where
        sum : (w : ℕ) → w ≡ get_or n j 0 + w
        sum w = omega (arith, still_clear)

  string_loop_lem :
      (rounds i j : ℕ) (n : Bn)
      → i ≡ length str - 8 * suc j
      → rounds + j ≡ length str / 8
      → IsRead j n
      → IsRead (length str / 8) (string_loop str rounds i j n)
  unfolding string_loop
  string_loop_lem zero i j n left count r = let e : j ≡ length str / 8 = omega arith in rw (← e) r
  string_loop_lem (suc rounds) i j n left count r =
      string_loop_lem rounds (i - 8) (j + 1) _ (omega arith) (omega arith)
        (IsRead-step i j n (omega arith) r)

  read_string-IsRead : IsRead (length str / 8) (read_string str)
  unfolding read_string
  read_string-IsRead =
      string_loop_lem (length str / 8) (length str - 8) 0 cleared (omega arith) (omega arith)
        (record {
          bn = cleared-IsBn;
          value =
              val-cleared
              ∙ sym (ap hex_number (drop_all str _ (omega arith)) ∙ unfold hex_number in refl);
        })

  pub read_string-IsBn : IsBn (read_string str)
  read_string-IsBn = read_string-IsRead.bn

  -- What is read: the number of the digits, without those at the front that do not fill a group of 8.
  pub val-read_string : val (read_string str) ≡ hex_number (drop (length str % 8) str)
  val-read_string = read_string-IsRead.value ∙ ap (λ t. hex_number (drop t str)) (omega arith)

-- A text of 2 to 776 hexadecimal digits, an even number of them, passes the assertions of
-- `bignum_from_string`, and what that reads is a number of the C type: the one that the digits
-- stand for, the most significant first, without the digits at the front that do not fill a group
-- of 8.
pub val-from_string :
    (str : List ℕ)
    → AreHex str
    → length str ≤ 776
    → 0 < length str
    → length str % 2 ≡ 0
    → (n : Bn) × (from_string str ≡ some n)
      × IsBn n
      × (val n ≡ hex_number (drop (length str % 8) str))
unfolding from_string
val-from_string str hs fits positive even =
    (read_string str, ground arith, read_string-IsBn str hs fits, val-read_string str hs fits)
