-- ===== src/Bignum/Add.antt =====
-- `bignum_add`, `bignum_inc`, `bignum_sub` and `bignum_dec`.
-- A pointer that is passed twice, as in `bignum_add(&t, y, &t)`, makes no difference here: word `i`
-- of the result is written after word `i` of the operands is read, and no later step reads it.
pub mod Laws
pub mod Difference
use tetd_test.Base.{
  ℕ, zero, suc, ◌+◌, ◌-◌, ◌%◌, ◌^◌, List, [], ◌∷◌, ltb, leb, bit_of, if◌then◌else◌,
}
use tetd_test.Bignum.{Bn, u32, u64, max_val}

-- The 64-bit sum of two words and the carry.
abbrev pub sum_of : ℕ → ℕ → ℕ → ℕ
sum_of x y carry = u64 (u64 (x + y) + carry)

-- `carry = (tmp > MAX_VAL)`
abbrev pub carry_of : ℕ → ℕ
carry_of tmp = bit_of (ltb max_val tmp)

-- The loop of `bignum_add`: four words a round.
pub add_loop : (rounds carry : ℕ) → List ℕ → List ℕ → List ℕ
add_loop zero carry a b = []
add_loop (suc rounds) carry (a0 ∷ a1 ∷ a2 ∷ a3 ∷ xs) (b0 ∷ b1 ∷ b2 ∷ b3 ∷ ys) =
    let t0 = sum_of a0 b0 carry in
    let t1 = sum_of a1 b1 (carry_of t0) in
    let t2 = sum_of a2 b2 (carry_of t1) in
    let t3 = sum_of a3 b3 (carry_of t2) in
    u32 t0 ∷ u32 t1 ∷ u32 t2 ∷ u32 t3 ∷ add_loop rounds (carry_of t3) xs ys
add_loop (suc rounds) carry _ _ = []

-- `bignum_add`: word 0 first, then 24 rounds of four words.
pub add : Bn → Bn → Bn
add (a0 ∷ xs) (b0 ∷ ys) = let t = sum_of a0 b0 0 in u32 t ∷ add_loop 24 (carry_of t) xs ys
add _ _ = []

-- The plain loop that the comment below `bignum_add` keeps.
pub add_plain : ℕ → List ℕ → List ℕ → List ℕ
add_plain carry (x ∷ xs) (y ∷ ys) = let t = sum_of x y carry in u32 t ∷ add_plain (carry_of t) xs ys
add_plain carry _ _ = []

-- `bignum_inc`: the loop ends at the first word that does not wrap.
pub inc : Bn → Bn
inc [] = []
inc (w ∷ ws) =
    let res = u32 (w + 1) in let rest = inc ws in if ltb w res then res ∷ ws else res ∷ rest

-- The loop of `bignum_sub`.
pub sub_loop : ℕ → List ℕ → List ℕ → List ℕ
sub_loop borrow (x ∷ xs) (y ∷ ys) =
    let tmp1 = u64 (x + (max_val + 1)) in
    let tmp2 = u64 (y + borrow) in
    let res = u64 (tmp1 + 2 ^ 64 - tmp2) in u32 res ∷ sub_loop (bit_of (leb res max_val)) xs ys
sub_loop borrow _ _ = []

-- `bignum_sub`
pub sub : Bn → Bn → Bn
sub a b = sub_loop 0 a b

-- `bignum_dec`: the loop ends at the first word that does not wrap.
pub dec : Bn → Bn
dec [] = []
dec (w ∷ ws) =
    let res = u32 (w + 2 ^ 32 - 1) in
    let rest = dec ws in if ltb w res then res ∷ rest else res ∷ ws
