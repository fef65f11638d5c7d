-- ===== src/Rsa/Sign.antt =====
-- `rsa_sign`, from the hash on: the signature by the Chinese remainder theorem. The numbers that the
-- code reads from its hexadecimal constants, and the hash of the external `sha256_ni_transform`,
-- are arguments here; the prints of the hash and of the signature are left out.
pub mod Crt
pub mod Laws
pub mod Unique
use tetd_test.Base.{ℕ, List, Option, some, if◌then◌else◌, ◌>>=◌, ◌/◌}
use tetd_test.Bignum.{Bn}
use tetd_test.Bignum.Init.{from_int}
use tetd_test.Bignum.Add.{add, sub}
use tetd_test.Bignum.Bitwise.{numbits}
use tetd_test.Bignum.Compare.{cmp, is_smaller}
use tetd_test.Bignum.Div.{mod_bn}
use tetd_test.Bignum.Mul.{mul}
use tetd_test.Bignum.Shift.{lshift}
use tetd_test.Rsa.Bytes.{bytes_to_bn, bn_to_bytes}
use tetd_test.Rsa.Exp.{init_lut, mod_exp_lut}

-- `RSA_KEY_BYTES`
abbrev pub rsa_key_bytes : ℕ
rsa_key_bytes = 3072 / 8

-- The numbers of the key that `rsa_sign` computes with.
pub record Key : Type 0 where
  pub p : Bn
  pub q : Bn
  pub dp : Bn
  pub dq : Bn
  pub qinv : Bn

-- `R^2 mod p` and `R^2 mod q`
pub r_squared : (fuel : ℕ) → Bn → Option Bn
r_squared fuel p = let r = lshift (from_int 1) (numbits p) in mod_bn fuel (mul r r) p

-- `init_lut` and `modExpLUT` in a row, for one prime.
unfoldable pub half_power : (m e p r2p : Bn) → Option Bn
half_power m e p r2p =
    let p_bits = numbits p in
    init_lut m p p_bits r2p >>= λ lut. mod_exp_lut lut e p_bits p p_bits r2p

-- `h = (m1 - m2) mod p`
pub difference : (p m1 m2 : Bn) → Bn
difference p m1 m2 = if is_smaller (cmp m1 m2) then sub (add m1 p) m2 else sub m1 m2

-- The steps from `h = (m1 - m2) mod p` to `s = m2 + h * q`.
pub combine : (fuel : ℕ) → Key → (m1 m2 : Bn) → Option Bn
combine fuel key m1 m2 =
    mod_bn fuel (mul (difference key.p m1 m2) key.qinv) key.p >>= λ h. some (add m2 (mul h key.q))

-- `rsa_sign`: the bytes that it writes to `output`.
pub rsa_sign : (fuel : ℕ) → Key → (hash : List ℕ) → Option (List ℕ)
rsa_sign fuel key hash = r_squared fuel key.p >>= λ r2p. r_squared fuel key.q >>= λ r2q.
    let m = bytes_to_bn hash in
    half_power m key.dp key.p r2p >>= λ m1. half_power m key.dq key.q r2q >>= λ m2.
    combine fuel key m1 m2 >>= λ s. some (bn_to_bytes s rsa_key_bytes)
