-- ===== src/Rsa/Bytes/Read.antt =====
-- `bytes_to_bn` reads positional notation, and `bn_to_bytes` undoes it.
use tetd_test.Base.{
  ℕ, zero, suc, ◌+◌, ◌-◌, ◌*◌, ◌/◌, ◌%◌, ◌^◌, ◌≤◌, ◌<◌, ◌≡◌, refl, sym, ap, ap₂, ◌∙◌, List, [], ◌∷◌,
  arith, bit_or, bit_or_comm, bit_or-fields, get_or, set, drop, length, length-set, length-drop,
  drop_all, pow-pos, pow-add,
}
use native.Mathlib.Nat.{
  pow-suc, mod-eq_of_lt, mul-le-mul_right, pow-le-pow_right, lt_of_mul-lt-mul_right, lt_of_le_of_lt,
  pow-zero,
}
use tetd_test.Bignum.{Bn, u32}
use tetd_test.Bignum.Value.{base, val, IsBn, base-pow}
use tetd_test.Bignum.Write.{val-set_add, word-le-val, AreWords-set}
use tetd_test.Bignum.Init.{cleared, cleared-IsBn, val-cleared}
use tetd_test.Rsa.Bytes.{bytes_loop, bytes_to_bn, bn_to_bytes}
use tetd_test.Rsa.Bytes.Laws.{
  AreBytes, big_endian, byte-pow, big_endian-lt, big_endian-injective, big_endian-bn_to_bytes,
  length-bn_to_bytes, bn_to_bytes-AreBytes,
}

get_or-byte : (bs : List ℕ) (i : ℕ) → AreBytes bs → get_or bs i 0 < 256
get_or-byte [] i h = omega arith
get_or-byte (b ∷ bs) zero h = h.0
get_or-byte (b ∷ bs) (suc i) h = get_or-byte bs i h.1

-- One more byte at the front of the end of the list.
drop-here : (bs : List ℕ) (j : ℕ) → j < length bs → drop j bs ≡ get_or bs j 0 ∷ drop (suc j) bs
drop-here [] j h = absurd (omega arith)
drop-here (b ∷ bs) zero h = refl
drop-here (b ∷ bs) (suc j) h = drop-here bs j (omega arith)

byte_room : (off : ℕ) → off < 4 → 256 * 2 ^ (8 * off) ≤ 2 ^ 32
byte_room off h =
    omega (arith, pow-le-pow_right {n = 2} (omega arith) {i = 8 * off} {j = 24} (omega arith))

module _ (input : List ℕ) (hb : AreBytes input) (fits : length input ≤ 388) where
  -- The number read so far.
  record IsRead (i : ℕ) (n : Bn) : Type 0 where
    bn : IsBn n
    value : val n ≡ big_endian (drop (length input - i) input)
    range : val n < 256 ^ i

  -- The weight of byte `i`, split at its word.
  weight : (i : ℕ) → 2 ^ (8 * (i % 4)) * base ^ (i / 4) ≡ 256 ^ i
  weight i =
      ap (λ (t : ℕ). 2 ^ (8 * (i % 4)) * t) (base-pow (i / 4))
      ∙ sym (pow-add 2 (8 * (i % 4)) (32 * (i / 4)))
      ∙ ap (λ (t : ℕ). 2 ^ t) (omega arith)
      ∙ sym (byte-pow i)

  -- The word that a byte goes to has nothing at or above the place of the byte.
  free_above : (i : ℕ) (n : Bn) → val n < 256 ^ i → get_or n (i / 4) 0 < 2 ^ (8 * (i % 4))
  free_above i n h =
      lt_of_mul-lt-mul_right (base ^ (i / 4))
        (rw (weight i) (lt_of_le_of_lt (word-le-val n (i / 4)) h))

  -- `|=` of a byte adds it.
  or_byte :
      (i b : ℕ) (n : Bn)
      → val n < 256 ^ i
      → b < 256
      → bit_or (get_or n (i / 4) 0) (u32 (b * 2 ^ (8 * (i % 4))))
        ≡ get_or n (i / 4) 0 + b * 2 ^ (8 * (i % 4))
  or_byte i b n h hb =
      ap (bit_or (get_or n (i / 4) 0)) (
        mod-eq_of_lt (
          omega (
            arith,
            byte_room (i % 4) (omega arith),
            mul-le-mul_right {m = b} {n = 255} (2 ^ (8 * (i % 4))) (omega arith),
            pow-pos 2 (8 * (i % 4)) (omega arith),
          )))
      ∙ bit_or_comm _ _
      ∙ bit_or-fields (8 * (i % 4)) b _ (free_above i n h)
      ∙ omega arith

  IsRead-step :
      (i : ℕ) (n : Bn)
      → i < length input
      → IsRead i n
      → IsRead (i + 1) (
          set n (i / 4) (
            bit_or
              (get_or n (i / 4) 0)
              (u32 (get_or input (length input - 1 - i) 0 * 2 ^ (8 * (i % 4))))))
  IsRead-step i n lt r =
      let b = get_or input (length input - 1 - i) 0 in
      let small : b < 256 = get_or-byte input (length input - 1 - i) hb in
      rw (or_byte i b n r.range small) (record {
        bn = record {
          size = length-set n (i / 4) _ ∙ r.bn.size;
          words = AreWords-set n (i / 4) _ r.bn.words (
              omega (
                arith,
                free_above i n r.range,
                byte_room (i % 4) (omega arith),
                mul-le-mul_right {m = b} {n = 255} (2 ^ (8 * (i % 4))) (omega arith),
              ));
        };
        value = added ∙ omega (arith, r.value, longer);
        range = omega (
          arith,
          added,
          r.range,
          mul-le-mul_right {m = b} {n = 255} (256 ^ i) (omega arith),
          pow-suc 256 i,
          ap (λ (t : ℕ). 256 ^ t) one_more,
        );
      })
    where
      b : ℕ
      b = get_or input (length input - 1 - i) 0

      one_more : i + 1 ≡ suc i
      one_more = omega arith

      added : val (set n (i / 4) (get_or n (i / 4) 0 + b * 2 ^ (8 * (i % 4)))) ≡ val n + b * 256 ^ i
      added =
          val-set_add n (i / 4) _ (omega (arith, r.bn.size))
          ∙ omega (arith, ap (λ (t : ℕ). b * t) (weight i))

      longer :
          big_endian (drop (length input - (i + 1)) input)
          ≡ b * 256 ^ i + big_endian (drop (length input - i) input)
      longer =
          ap big_endian (drop-here input j (omega arith))
          ∙ unfold big_endian in
            (ap₂ (λ (d k : ℕ). get_or input d 0 * 256 ^ k + big_endian (drop (suc j) input)) front
                count
              ∙ ap (λ t. b * 256 ^ i + big_endian (drop t input)) tail)
        where
          j : ℕ
          j = length input - (i + 1)

          front : j ≡ length input - 1 - i
          front = omega arith

          tail : suc j ≡ length input - i
          tail = omega arith

          count : length (drop (suc j) input) ≡ i
          count = omega (arith, length-drop (suc j) input)

  IsRead-loop :
      (rounds i : ℕ) (n : Bn)
      → i + rounds ≡ length input
      → IsRead i n
      → IsRead (length input) (bytes_loop input rounds i n)
  unfolding bytes_loop
  IsRead-loop zero i n e r = let f : i ≡ length input = omega arith in rw f at r
  IsRead-loop (suc rounds) i n e r =
      IsRead-loop rounds (i + 1) _ (omega arith) (IsRead-step i n (omega arith) r)

  bytes_to_bn-IsRead : IsRead (length input) (bytes_to_bn input)
  unfolding bytes_to_bn
  bytes_to_bn-IsRead = IsRead-loop (length input) 0 cleared (omega arith) (record {
    bn = cleared-IsBn;
    value =
        val-cleared
        ∙ sym (ap big_endian (drop_all input _ (omega arith)) ∙ unfold big_endian in refl);
    range = rw (val-cleared, pow-zero) (omega arith);
  })

  pub bytes_to_bn-IsBn : IsBn (bytes_to_bn input)
  bytes_to_bn-IsBn = bytes_to_bn-IsRead.bn

  -- `bytes_to_bn` of at most 388 bytes is the number that they stand for, the most significant
  -- byte first.
  pub bytes_to_bn-eq-big_endian : val (bytes_to_bn input) ≡ big_endian input
  bytes_to_bn-eq-big_endian =
      let e : length input - length input ≡ 0 = omega arith in bytes_to_bn-IsRead.value ∙ rw e refl

  -- `bn_to_bytes` gives the bytes back that `bytes_to_bn` has read, when these are at most 388.
  pub bn_to_bytes-bytes_to_bn : bn_to_bytes (bytes_to_bn input) (length input) ≡ input
  bn_to_bytes-bytes_to_bn =
      big_endian-injective _ input (length-bn_to_bytes (bytes_to_bn input) (length input))
        (bn_to_bytes-AreBytes (bytes_to_bn input) (length input)) hb
        (big_endian-bn_to_bytes (bytes_to_bn input) (length input) bytes_to_bn-IsBn
          ∙ ap (λ (t : ℕ). t % 256 ^ length input) bytes_to_bn-eq-big_endian
          ∙ mod-eq_of_lt (big_endian-lt input hb))
