-- ===== src/Rsa/Sign/Unique.antt =====
-- `rsa_sign` returns the only signature there is.
use tetd_test.Base.{
  ℕ, ◌+◌, ◌-◌, ◌*◌, ◌/◌, ◌%◌, ◌≤◌, ◌<◌, ◌≡◌, refl, sym, ap, ◌∙◌, List, length, some, arith,
  add-cong_mod, mul-cong_mod, mod-add-multiple,
}
use native.Mathlib.Nat.{mod-eq_of_lt, div-add-mod', div-lt_iff_lt-mul}
use tetd_test.Bignum.Value.{val}
use tetd_test.Rsa.Bytes.Laws.{AreBytes, big_endian, big_endian-injective}
use tetd_test.Rsa.Sign.{Key, rsa_sign}
use tetd_test.Rsa.Sign.Crt.{IsKey}
use tetd_test.Rsa.Sign.Laws.{IsSignature, rsa_sign-IsSignature}

-- Modulo `p`, an equal summand and a factor with an inverse can be dropped.
cancel :
    (p q qinv u v r : ℕ)
    → 1 < p
    → (qinv * q) % p ≡ 1
    → (u * q + r) % p ≡ (v * q + r) % p
    → u % p ≡ v % p
cancel p q qinv u v r big inverse e = sym (unscaled u) ∙ scaled ∙ unscaled v
  where
    shifted : (w : ℕ) → (w * q + r + r * (p - 1)) % p ≡ (w * q) % p
    shifted w =
        let one : p - 1 + 1 ≡ p = omega arith in
        ap (λ (t : ℕ). t % p) (omega (arith, ap (λ (t : ℕ). r * t) one))
        ∙ mod-add-multiple p r (w * q)

    scaled : (u * q * qinv) % p ≡ (v * q * qinv) % p
    scaled =
        mul-cong_mod p (u * q) (v * q) qinv qinv
          (sym (shifted u) ∙ add-cong_mod p (u * q + r) (v * q + r) _ _ e refl ∙ shifted v) refl

    unscaled : (w : ℕ) → (w * q * qinv) % p ≡ w % p
    unscaled w =
        ap (λ (t : ℕ). t % p) (omega arith)
        ∙ mul-cong_mod p w w (qinv * q) 1 refl (inverse ∙ sym (mod-eq_of_lt big))
        ∙ ap (λ (t : ℕ). t % p) (omega arith)

-- Two remainders determine a number below the product.
crt_unique :
    (p q qinv x y : ℕ)
    → 1 < p
    → 0 < q
    → (qinv * q) % p ≡ 1
    → x < p * q
    → y < p * q
    → x % p ≡ y % p
    → x % q ≡ y % q
    → x ≡ y
crt_unique p q qinv x y big pos inverse hx hy ep eq =
    sym (div-add-mod' x q)
    ∙ ap (λ (t : ℕ). t * q + x % q) same
    ∙ ap (λ (t : ℕ). y / q * q + t) eq
    ∙ div-add-mod' y q
  where
    same : x / q ≡ y / q
    same =
        sym (mod-eq_of_lt ((div-lt_iff_lt-mul pos).1 hx))
        ∙ cancel p q qinv (x / q) (y / q) (x % q) big inverse (
            ap (λ (t : ℕ). t % p) (div-add-mod' x q)
            ∙ ep
            ∙ ap (λ (t : ℕ). t % p) (sym (div-add-mod' y q))
            ∙ ap (λ (t : ℕ). (y / q * q + t) % p) (sym eq))
        ∙ mod-eq_of_lt ((div-lt_iff_lt-mul pos).1 hy)

module _ (key : Key) (k : IsKey key) (hash : List ℕ) where
  -- Signatures of one hash are the same bytes.
  IsSignature-unique : (s t : List ℕ) → IsSignature key hash s → IsSignature key hash t → s ≡ t
  IsSignature-unique s t a b = big_endian-injective s t (a.width ∙ sym b.width) a.bytes b.bytes (
      crt_unique (val key.p) (val key.q) (val key.qinv) (big_endian s) (big_endian t)
        (omega (arith, k.p_factor.wide)) (omega (arith, k.q_factor.wide)) k.inverse a.range b.range
        (a.residue_p ∙ sym b.residue_p) (a.residue_q ∙ sym b.residue_q))

  -- For a key whose factors `p` and `q` are odd, at least 2 ^ 256 and below 2 ^ 1536, with `q` at
  -- most `p`, `dp` and `qinv` below `p`, `dq` below `q` and `qinv * q` congruent to 1 modulo `p`,
  -- for a hash of 32 bytes and fuel 3105 or more, `rsa_sign` returns every list of 384 bytes that
  -- stands for a number below `p * q` congruent to `hash ^ dp` modulo `p` and to `hash ^ dq`
  -- modulo `q`: there is only one, and it is the result.
  pub rsa_sign-eq-signature :
      AreBytes hash
      → length hash ≡ 32
      → (fuel : ℕ) → 3105 ≤ fuel
      → (sig : List ℕ) → IsSignature key hash sig
      → rsa_sign fuel key hash ≡ some sig
  rsa_sign-eq-signature hb size fuel enough sig h =
      let (out, e, o) = rsa_sign-IsSignature key k hash hb size fuel enough in
      e ∙ ap some (IsSignature-unique out sig o h)
