-- ===== src/Bignum/Div.antt =====
-- `bignum_div`, `bignum_divmod` and `bignum_mod`. The two loops of `bignum_div` run on fuel, and
-- `none` means that the fuel ran out.
pub mod Up
pub mod Down
pub mod Laws
use tetd_test.Base.{
  ℕ, zero, suc, ◌+◌, ◌-◌, ◌/◌, Bool, true, false, Option, none, some, leb, if◌then◌else◌, get_or,
  ◌>>=◌,
}
use tetd_test.Bignum.{bn_array_size, Bn, max_val}
use tetd_test.Bignum.Init.{cleared, from_int}
use tetd_test.Bignum.Add.{sub}
use tetd_test.Bignum.Bitwise.{or_bn}
use tetd_test.Bignum.Compare.{cmp, is_larger, is_smaller, is_zero}
use tetd_test.Bignum.Mul.{mul}
use tetd_test.Bignum.Shift.{lshift_one_bit, rshift_one_bit}

-- `half_max`
abbrev pub half_max : ℕ
half_max = 1 + max_val / 2

-- What the first loop leaves: its two numbers, and whether it broke off.
pub record Scaled : Type 0 where
  pub current : Bn
  pub denom : Bn
  pub overflow : Bool

-- The first loop doubles the divisor until it exceeds `a`, or its top bit is set.
pub scale_up : (fuel : ℕ) (a current denom : Bn) → Option Scaled
scale_up zero a current denom = none
scale_up (suc fuel) a current denom =
    let rest = scale_up fuel a (lshift_one_bit current) (lshift_one_bit denom) in
    if is_larger (cmp denom a)
    then some (record { current = current; denom = denom; overflow = false })
    else if leb half_max (get_or denom (bn_array_size - 1) 0)
    then some (record { current = current; denom = denom; overflow = true })
    else rest

-- `if (!overflow)`: one step back.
pub step_back : Scaled → Scaled
step_back s =
    if s.overflow
    then s
    else record s { current = rshift_one_bit s.current; denom = rshift_one_bit s.denom }

-- The second loop collects the quotient in `c`.
pub collect : (fuel : ℕ) (current denom tmp c : Bn) → Option Bn
collect zero current denom tmp c = none
collect (suc fuel) current denom tmp c =
    let fits = is_smaller (cmp tmp denom) in
    let tmp' = if fits then tmp else sub tmp denom in
    let c' = if fits then c else or_bn c current in
    let rest = collect fuel (rshift_one_bit current) (rshift_one_bit denom) tmp' c' in
    if is_zero current then some c else rest

-- `bignum_div`, each loop with the fuel given.
pub div : (fuel : ℕ) → Bn → Bn → Option Bn
div fuel a b = scale_up fuel a (from_int 1) b >>= λ s.
    let t = step_back s in collect fuel t.current t.denom a cleared

-- `bignum_divmod`: the quotient and the remainder.
pub divmod : (fuel : ℕ) → Bn → Bn → Option (Bn × Bn)
divmod fuel a b = div fuel a b >>= λ c. some (c, sub a (mul c b))

-- `bignum_mod`
pub mod_bn : (fuel : ℕ) → Bn → Bn → Option Bn
mod_bn fuel a b = divmod fuel a b >>= λ r. some (r.1)
