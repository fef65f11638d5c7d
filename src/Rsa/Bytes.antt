-- ===== src/Rsa/Bytes.antt =====
-- `bytes_to_bn` and `bn_to_bytes`: numbers as bytes, the most significant first.
pub mod Laws
pub mod Read
use tetd_test.Base.{
  ℕ, zero, suc, ◌+◌, ◌-◌, ◌*◌, ◌/◌, ◌%◌, ◌^◌, List, [], ◌∷◌, bit_or, get_or, set, length,
}
use tetd_test.Bignum.{word_size, Bn, u32}
use tetd_test.Bignum.Init.{cleared}

-- The loop of `bytes_to_bn` from byte `i` on.
pub bytes_loop : (input : List ℕ) (rounds i : ℕ) → Bn → Bn
bytes_loop input zero i n = n
bytes_loop input (suc rounds) i n =
    let b = get_or input (length input - 1 - i) 0 in
    let w = i / word_size in
    let off = i % word_size in
    bytes_loop input rounds (i + 1) (set n w (bit_or (get_or n w 0) (u32 (b * 2 ^ (8 * off)))))

-- `bytes_to_bn`
pub bytes_to_bn : List ℕ → Bn
bytes_to_bn input = bytes_loop input (length input) 0 cleared

-- What `bn_to_bytes` stores for byte `i`.
pub byte_at : Bn → ℕ → ℕ
byte_at n i = (get_or n (i / word_size) 0 / 2 ^ (8 * (i % word_size))) % 2 ^ 8

-- `bn_to_bytes`: byte `i` goes to index `in_len - 1 - i`, so the last one comes first.
pub bn_to_bytes : Bn → ℕ → List ℕ
bn_to_bytes n zero = []
bn_to_bytes n (suc i) = byte_at n i ∷ bn_to_bytes n i
