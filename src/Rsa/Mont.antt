-- ===== src/Rsa/Mont.antt =====
-- `montMult`: Montgomery multiplication, one bit of `x` a round.
pub mod Round
pub mod Laws
use tetd_test.Base.{ℕ, zero, suc, ◌-◌, ◌==◌, if◌then◌else◌, bit_and, bit_xor}
use tetd_test.Bignum.{Bn}
use tetd_test.Bignum.Init.{cleared}
use tetd_test.Bignum.Add.{add, sub}
use tetd_test.Bignum.Bitwise.{getbit}
use tetd_test.Bignum.Compare.{cmp, is_smaller}
use tetd_test.Bignum.Shift.{rshift}

-- The body of the loop: `bit` is the index `mBits - i` into `x`.
pub mont_round : (x y m : Bn) (bit : ℕ) → Bn → Bn
mont_round x y m bit t =
    let t0 = getbit t 0 in
    let xi = getbit x bit in
    let y0 = getbit y 0 in
    let t1 = if xi == 0 then t else add t y in
    let t2 = if bit_xor t0 (bit_and xi y0) == 0 then t1 else add t1 m in rshift t2 1

-- The loop, with `i` rounds left.
pub mont_loop : (x y m : Bn) (m_bits i : ℕ) → Bn → Bn
mont_loop x y m m_bits zero t = t
mont_loop x y m m_bits (suc i) t = mont_loop x y m m_bits i (mont_round x y m (m_bits - suc i) t)

-- `if(bignum_cmp(&t, m) >= 0) bignum_sub(&t, m, &t);`
pub reduce_once : Bn → Bn → Bn
reduce_once t m = if is_smaller (cmp t m) then t else sub t m

-- `montMult`
pub mont_mult : (x y m : Bn) (m_bits : ℕ) → Bn
mont_mult x y m m_bits = reduce_once (mont_loop x y m m_bits m_bits cleared) m
