-- ===== src/Bignum.antt =====
-- s4/bignum.h and s4/bignum.c: the data type and its constants.
pub mod Value
pub mod Write
pub mod Init
pub mod Add
pub mod Compare
pub mod Shift
pub mod Mul
pub mod Bitwise
pub mod Div
pub mod Pow
pub mod Text
mod Tests
use tetd_test.Base.{ℕ, ◌+◌, ◌*◌, ◌/◌, ◌%◌, ◌^◌, ◌≡◌, List, length}

-- `WORD_SIZE`, in bytes.
abbrev pub word_size : ℕ
word_size = 4

-- `BN_ARRAY_SIZE`
abbrev pub bn_array_size : ℕ
bn_array_size = 384 / word_size + 1

-- `MAX_VAL`
abbrev pub max_val : ℕ
max_val = 0xFFFFFFFF

-- The conversion to `DTYPE`, `uint32_t`.
abbrev pub u32 : ℕ → ℕ
u32 n = n % 2 ^ 32

-- The conversion to `DTYPE_TMP`, `uint64_t`.
abbrev pub u64 : ℕ → ℕ
u64 n = n % 2 ^ 64

-- `struct bn`: its words, the least significant first.
abbrev pub Bn : Type 0
Bn = List ℕ
