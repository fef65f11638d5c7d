-- ===== src/Bignum/Bitwise.antt =====
-- `bignum_and`, `bignum_or`, `bignum_xor`, `bignum_getbit` and `bignum_numbits`.
pub mod Laws
pub mod Access
use tetd_test.Base.{
  ℕ, zero, suc, ◌+◌, ◌-◌, ◌*◌, ◌/◌, ◌%◌, ◌^◌, List, [], ◌∷◌, ◌==◌, if◌then◌else◌, get_or, bit_and,
  bit_or, bit_xor,
}
use tetd_test.Bignum.{bn_array_size, Bn}

-- The loop that the three operations share: `c[i] = a[i] op b[i]`.
pub zip_words : (ℕ → ℕ → ℕ) → List ℕ → List ℕ → List ℕ
zip_words op (x ∷ xs) (y ∷ ys) = op x y ∷ zip_words op xs ys
zip_words op _ _ = []

pub and_bn : Bn → Bn → Bn
and_bn a b = zip_words bit_and a b

pub or_bn : Bn → Bn → Bn
or_bn a b = zip_words bit_or a b

pub xor_bn : Bn → Bn → Bn
xor_bn a b = zip_words bit_xor a b

-- `bignum_getbit`. An index past the array, which C leaves undefined, reads 0 here.
pub getbit : Bn → ℕ → ℕ
getbit a n =
    let array_ind = n / 2 ^ 5 in
    let shift = n - array_ind * 2 ^ 5 in (get_or a array_ind 0 / 2 ^ shift) % 2

-- The loop of `bignum_numbits`, from bit `f` down to bit 1.
pub numbits_loop : ℕ → Bn → ℕ
numbits_loop zero bn = 0
numbits_loop (suc f) bn = if getbit bn (suc f) == 1 then suc f + 1 else numbits_loop f bn

pub numbits : Bn → ℕ
numbits bn = numbits_loop (bn_array_size * 2 ^ 5 - 1) bn
