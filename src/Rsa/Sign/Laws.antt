-- ===== src/Rsa/Sign/Laws.antt =====
-- `rsa_sign` signs: what the bytes of the signature stand for.
use tetd_test.Base.{ℕ, ◌*◌, ◌%◌, ◌^◌, ◌≤◌, ◌<◌, ◌≡◌, refl, ap, ◌∙◌, List, length, some, arith}
use native.Mathlib.Nat.{mod-eq_of_lt, mod-lt, mul-le-mul, lt_of_lt_of_le, le_refl}
use tetd_test.Bignum.{Bn}
use tetd_test.Bignum.Value.{val, IsBn}
use tetd_test.Bignum.Bitwise.{numbits}
use tetd_test.Rsa.Bytes.{bytes_to_bn, bn_to_bytes}
use tetd_test.Rsa.Bytes.Laws.{
  AreBytes, big_endian, big_endian-lt, big_endian-bn_to_bytes, length-bn_to_bytes,
  bn_to_bytes-AreBytes,
}
use tetd_test.Rsa.Bytes.Read.{bytes_to_bn-IsBn, bytes_to_bn-eq-big_endian}
use tetd_test.Rsa.Exp.{mod_exp}
use tetd_test.Rsa.Exp.Form.{IsSetup}
use tetd_test.Rsa.Exp.Power.{mod_exp-IsBn, mod_exp-eq-pow}
use tetd_test.Rsa.Exp.Table.{mod_exp_lut-eq-mod_exp}
use tetd_test.Rsa.Sign.{Key, rsa_key_bytes, half_power, rsa_sign}
use tetd_test.Rsa.Sign.Crt.{numbits-lt, IsFactor, IsKey, r_squared-IsSetup, combine-eq-crt}

module _ (m e p r2p : Bn) (s : IsSetup p (numbits p) r2p) (f : IsFactor p) (hm : IsBn m)
    (he : IsBn e) where
  -- One half of the signature is a power modulo one prime.
  pub half_power-eq-pow :
      val m < 2 ^ 256
      → val e < val p
      → (y : Bn) × (half_power m e p r2p ≡ some y) × IsBn y × (val y ≡ val m ^ val e % val p)
  unfolding half_power
  half_power-eq-pow small lt =
      let bound : val m < 2 ^ numbits p = omega (arith, f.wide, s.width) in
      (
        mod_exp m e (numbits p) p (numbits p) r2p,
        mod_exp_lut-eq-mod_exp p (numbits p) m e (numbits p) r2p he (le_refl _) (numbits-lt p f),
        mod_exp-IsBn e p (numbits p) r2p s he m (numbits p) hm bound,
        mod_exp-eq-pow e p (numbits p) r2p s he m (numbits p) hm bound
            ∙ ap (λ (t : ℕ). val m ^ t % val p) (mod-eq_of_lt (omega (arith, lt, s.width))),
      )

-- What the bytes that `rsa_sign` writes stand for: 384 bytes, a number below the modulus, with the
-- two powers of the hash as its residues.
pub record IsSignature (key : Key) (hash sig : List ℕ) : Type 0 where
  pub width : length sig ≡ rsa_key_bytes
  pub bytes : AreBytes sig
  pub range : big_endian sig < val key.p * val key.q
  pub residue_p : big_endian sig % val key.p ≡ big_endian hash ^ val key.dp % val key.p
  pub residue_q : big_endian sig % val key.q ≡ big_endian hash ^ val key.dq % val key.q

module _ (key : Key) (k : IsKey key) (hash : List ℕ) (hb : AreBytes hash)
    (size : length hash ≡ 32) where
  hash-lt : big_endian hash < 2 ^ 256
  hash-lt = rw size at (big_endian-lt hash hb)

  message : val (bytes_to_bn hash) ≡ big_endian hash
  message = bytes_to_bn-eq-big_endian hash hb (omega arith)

  message-IsBn : IsBn (bytes_to_bn hash)
  message-IsBn = bytes_to_bn-IsBn hash hb (omega arith)

  message-lt : val (bytes_to_bn hash) < 2 ^ 256
  message-lt = rw message hash-lt

  -- The bytes of a number below the modulus stand for it.
  output_lem :
      (s : Bn)
      → IsBn s
      → val s < val key.p * val key.q
      → big_endian (bn_to_bytes s rsa_key_bytes) ≡ val s
  output_lem s h lt =
      big_endian-bn_to_bytes s rsa_key_bytes h
      ∙ mod-eq_of_lt (
          lt_of_lt_of_le lt (
            omega (
              arith,
              mul-le-mul {n₁ = val key.p} {m₁ = val key.q} {n₂ = 2 ^ 1536} {m₂ = 2 ^ 1536}
                  (omega (arith, k.p_factor.small)) (omega (arith, k.q_factor.small)),
            )))

  -- For a key whose factors `p` and `q` are odd, at least 2 ^ 256 and below 2 ^ 1536, with `q` at
  -- most `p`, `dp` and `qinv` below `p`, `dq` below `q` and `qinv * q` congruent to 1 modulo `p`,
  -- and for a hash of 32 bytes, `rsa_sign` returns, once each division loop may make 3105 rounds.
  -- What it writes are 384 bytes that stand, the most significant first, for a number below `p *
  -- q` that is congruent to `hash ^ dp` modulo `p` and to `hash ^ dq` modulo `q`.
  pub rsa_sign-IsSignature :
      (fuel : ℕ)
      → 3105 ≤ fuel
      → (sig : List ℕ) × (rsa_sign fuel key hash ≡ some sig) × IsSignature key hash sig
  unfolding rsa_sign
  rsa_sign-IsSignature fuel enough =
      let (r2p, ep, sp) = r_squared-IsSetup key.p k.p_factor fuel enough in
      let (r2q, eq, sq) = r_squared-IsSetup key.q k.q_factor fuel enough in
      let m = bytes_to_bn hash in
      let (m1, e1, bn1, v1) =
        half_power-eq-pow m key.dp key.p r2p sp k.p_factor message-IsBn k.dp_bn message-lt
          k.dp-lt in
      let (m2, e2, bn2, v2) =
        half_power-eq-pow m key.dq key.q r2q sq k.q_factor message-IsBn k.dq_bn message-lt
          k.dq-lt in
      let (s, ec, s_bn, lt, res_p, res_q) =
        combine-eq-crt key k m1 m2 bn1 bn2 fuel enough
          (rw v1 (mod-lt _ (omega (arith, k.p_factor.wide))))
          (rw v2 (mod-lt _ (omega (arith, k.q_factor.wide)))) in
      let out = output_lem s s_bn lt in
      (
        bn_to_bytes s rsa_key_bytes,
        rw (ep, eq, e1, e2) (rw ec refl),
        record {
          width = length-bn_to_bytes s rsa_key_bytes;
          bytes = bn_to_bytes-AreBytes s rsa_key_bytes;
          range = rw out lt;
          residue_p = rw out (res_p ∙ v1 ∙ ap (λ (t : ℕ). t ^ val key.dp % val key.p) message);
          residue_q = rw out (res_q ∙ v2 ∙ ap (λ (t : ℕ). t ^ val key.dq % val key.q) message);
        },
      )
