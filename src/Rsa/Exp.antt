-- ===== src/Rsa/Exp.antt =====
-- `modExp`, `init_lut` and `modExpLUT`: the power of a number modulo another.
pub mod Form
pub mod Power
pub mod Table
use tetd_test.Base.{
  ℕ, zero, suc, ◌+◌, List, [], ◌∷◌, ◌==◌, if◌then◌else◌, get_or, ltb, Option, some, none,
}
use tetd_test.Bignum.{Bn}
use tetd_test.Bignum.Bitwise.{getbit}
use tetd_test.Bignum.Init.{from_int}
use tetd_test.Rsa.Mont.{mont_mult}

-- The loop of `modExp` from bit `i` on: `p1` and `z1` at the start of each round.
pub mod_exp_loop : (e m : Bn) (m_bits rounds i : ℕ) → (p1 z1 : Bn) → Bn
mod_exp_loop e m m_bits zero i p1 z1 = z1
mod_exp_loop e m m_bits (suc rounds) i p1 z1 =
    let p2 = mont_mult p1 p1 m m_bits in
    let z2 = if getbit e i == 0 then z1 else mont_mult z1 p1 m m_bits in
    mod_exp_loop e m m_bits rounds (i + 1) p2 z2

-- `modExp`
pub mod_exp : (x e : Bn) (e_bits : ℕ) (m : Bn) (m_bits : ℕ) (r2m : Bn) → Bn
mod_exp x e e_bits m m_bits r2m =
    let z1 = mont_mult (from_int 1) r2m m m_bits in
    let p1 = mont_mult x r2m m m_bits in
    mont_mult (mod_exp_loop e m m_bits e_bits 0 p1 z1) (from_int 1) m m_bits

-- The entries that the loop of `init_lut` writes after the entry `prev`.
pub lut_after : (m : Bn) (m_bits rounds : ℕ) → Bn → List Bn
lut_after m m_bits zero prev = []
lut_after m m_bits (suc rounds) prev =
    let next = mont_mult prev prev m m_bits in next ∷ lut_after m m_bits rounds next

-- `LUT_SIZE`
abbrev pub lut_size : ℕ
lut_size = 1537

-- The entries 0 to `mBits`.
pub lut_entries : (x m : Bn) (m_bits : ℕ) (r2m : Bn) → List Bn
lut_entries x m m_bits r2m =
    let first = mont_mult x r2m m m_bits in first ∷ lut_after m m_bits m_bits first

-- `init_lut`: the entries that it writes to `lut`; the later ones keep what they held. `none` is a
-- write past the end of the table.
unfoldable pub init_lut : (x m : Bn) (m_bits : ℕ) (r2m : Bn) → Option (List Bn)
init_lut x m m_bits r2m = if ltb m_bits lut_size then some (lut_entries x m m_bits r2m) else none

-- The loop of `modExpLUT` from bit `i` on. Its copies `parr` of the table are never read.
pub lut_loop : (lut : List Bn) (e m : Bn) (m_bits rounds i : ℕ) → Bn → Bn
lut_loop lut e m m_bits zero i z1 = z1
lut_loop lut e m m_bits (suc rounds) i z1 =
    lut_loop lut e m m_bits rounds (i + 1)
      (if getbit e i == 1 then mont_mult z1 (get_or lut i []) m m_bits else z1)

-- `modExpLUT`, with the table that it reads, where it reads within it.
pub lut_power : (lut : List Bn) (e : Bn) (e_bits : ℕ) (m : Bn) (m_bits : ℕ) (r2m : Bn) → Bn
lut_power lut e e_bits m m_bits r2m =
    let z1 = mont_mult (from_int 1) r2m m m_bits in
    mont_mult (lut_loop lut e m m_bits e_bits 0 z1) (from_int 1) m m_bits

-- `modExpLUT`. It reads the entries 0 to `eBits`; `none` is a read past the end of the table.
unfoldable pub mod_exp_lut :
    (lut : List Bn) (e : Bn) (e_bits : ℕ) (m : Bn) (m_bits : ℕ) (r2m : Bn) → Option Bn
mod_exp_lut lut e e_bits m m_bits r2m =
    if ltb e_bits lut_size then some (lut_power lut e e_bits m m_bits r2m) else none
