-- ===== src/Bignum/Shift.antt =====
-- The shifts: `_lshift_word`, `_rshift_word`, `_lshift_one_bit`, `_rshift_one_bit`,
-- `bignum_lshift` and `bignum_rshift`.
pub mod Words
pub mod Up
pub mod Down
use tetd_test.Base.{
  ℕ, zero, suc, ◌+◌, ◌-◌, ◌*◌, ◌/◌, ◌%◌, ◌^◌, List, [], ◌∷◌, leb, ◌==◌, if◌then◌else◌, get_or, set,
  replicate, length, bit_or,
}
use tetd_test.Bignum.{word_size, bn_array_size, Bn, u32}

-- `_lshift_word`: both loops, over the indices below `i`, from the top. A word from index `nwords`
-- on takes the word `nwords` below it, which is not written yet; the others are cleared.
pub lshift_word_loop : (i nwords : ℕ) → Bn → Bn
lshift_word_loop zero nwords a = a
lshift_word_loop (suc i) nwords a =
    lshift_word_loop i nwords (set a i (if leb nwords i then get_or a (i - nwords) 0 else 0))

pub lshift_word : Bn → ℕ → Bn
lshift_word a nwords = lshift_word_loop bn_array_size nwords a

-- `_rshift_word` as it is written: each of the first `nwords` words takes the word above it, and
-- all the others are cleared. The read past the last word, which only `nwords` above 96 makes, is
-- undefined in C and reads 0 here.
pub rshift_word : Bn → ℕ → Bn
rshift_word [] nwords = []
rshift_word (x ∷ xs) zero = 0 ∷ rshift_word xs zero
rshift_word (x ∷ xs) (suc k) = get_or xs 0 0 ∷ rshift_word xs k

-- `(w << k) | (below >> (32 - k))`, in 32 bits.
pub word_up : (k w below : ℕ) → ℕ
word_up k w below = bit_or (u32 (w * 2 ^ k)) (below / 2 ^ (32 - k))

-- `(w >> k) | (above << (32 - k))`, in 32 bits.
pub word_down : (k w above : ℕ) → ℕ
word_down k w above = bit_or (w / 2 ^ k) (u32 (above * 2 ^ (32 - k)))

-- The bit loop of `bignum_lshift` and of `_lshift_one_bit`, from index `i` down, in place.
pub up_loop : (k i : ℕ) → Bn → Bn
up_loop k zero a = set a 0 (u32 (get_or a 0 0 * 2 ^ k))
up_loop k (suc i) a = up_loop k i (set a (suc i) (word_up k (get_or a (suc i) 0) (get_or a i 0)))

-- The bit loop of `bignum_rshift` and of `_rshift_one_bit`: upwards, each word reads the next
-- one before that is written, and the last is shifted alone.
pub down_loop : ℕ → Bn → Bn
down_loop k [] = []
down_loop k (w ∷ []) = w / 2 ^ k ∷ []
down_loop k (w ∷ v ∷ ws) = word_down k w v ∷ down_loop k (v ∷ ws)

pub lshift_one_bit : Bn → Bn
lshift_one_bit a = up_loop 1 (bn_array_size - 1) a

pub rshift_one_bit : Bn → Bn
rshift_one_bit a = down_loop 1 a

-- `bignum_lshift`: the new value of `b`.
pub lshift : Bn → ℕ → Bn
lshift a nbits =
    let nwords = nbits / (word_size * 8) in
    let b = if nwords == 0 then a else lshift_word a nwords in
    let rest = nbits - nwords * (word_size * 8) in
    if rest == 0 then b else up_loop rest (bn_array_size - 1) b

-- `bignum_rshift`: the new value of `a`, which is shifted in place; `b` is never touched.
pub rshift : Bn → ℕ → Bn
rshift a nbits =
    let nwords = nbits / 2 ^ 5 in
    let b = if nwords == 0 then a else rshift_word a nwords in
    let rest = nbits - nwords * 2 ^ 5 in if rest == 0 then b else down_loop rest b
