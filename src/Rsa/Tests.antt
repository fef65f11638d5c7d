-- ===== src/Rsa/Tests.antt =====
-- The theorems on s4/sign_main.c at concrete numbers: the modulus 13 with 4 bits, and a key with the
-- factors 2 ^ 257 + 1 and 2 ^ 256 + 1.
use tetd_test.Base.{
  ◌>>=◌, ℕ, zero, suc, ◌+◌, ◌*◌, ◌%◌, ◌^◌, ◌<◌, ◌≡◌, refl, List, [], ◌∷◌, ◌++◌, arith, replicate,
  some,
}
use tetd_test.Bignum.{Bn}
use tetd_test.Bignum.Value.{val, IsBn, capacity-eq-pow, AreWords-zeros, AreWords-append}
use tetd_test.Bignum.Init.{from_int, from_int-IsBn, val-from_int}
use tetd_test.Rsa.Mont.Laws.{IsModulus}
use tetd_test.Rsa.Exp.{init_lut, mod_exp, mod_exp_lut}
use tetd_test.Rsa.Exp.Form.{IsSetup}
use tetd_test.Rsa.Exp.Table.{mod_exp_lut-eq-mod_exp, mod_exp_lut-eq-pow}
use tetd_test.Rsa.Bytes.Laws.{AreBytes}
use tetd_test.Rsa.Sign.{Key, combine, rsa_sign}
use tetd_test.Rsa.Sign.Crt.{IsFactor, IsKey, combine-eq-crt}
use tetd_test.Rsa.Sign.Unique.{rsa_sign-eq-signature}
use tetd_test.Rsa.Key.{loaded_key}
use tetd_test.Rsa.Key.Loaded.{IsProgramSignature, loaded_key-signs}
use tetd_test.Rsa.Sign.Laws.{IsSignature, rsa_sign-IsSignature}

thirteen : val (from_int 13) ≡ 13
thirteen = val-from_int 13 (omega arith)

five : val (from_int 5) ≡ 5
five = val-from_int 5 (omega arith)

nine : val (from_int 9) ≡ 9
nine = val-from_int 9 (omega arith)

thirteen-IsModulus : IsModulus (from_int 13)
thirteen-IsModulus = record {
  bn = from_int-IsBn 13;
  odd = omega (arith, thirteen);
  room = rw capacity-eq-pow (omega (arith, thirteen));
}

-- `R` is 16, and `R * R` is 9 modulo 13.
thirteen-IsSetup : IsSetup (from_int 13) 4 (from_int 9)
thirteen-IsSetup = record {
  modulus = thirteen-IsModulus;
  above_one = omega (arith, thirteen);
  width = omega (arith, thirteen);
  bn = from_int-IsBn 9;
  reduced = omega (arith, thirteen, nine);
  square = rw (thirteen, nine) refl;
}

mod_exp_lut-eq-mod_exp_example :
    (init_lut (from_int 5) (from_int 13) 4 (from_int 9) >>= λ lut.
    mod_exp_lut lut (from_int 11) 3 (from_int 13) 4 (from_int 9))
    ≡ some (mod_exp (from_int 5) (from_int 11) 3 (from_int 13) 4 (from_int 9))
mod_exp_lut-eq-mod_exp_example =
    mod_exp_lut-eq-mod_exp (from_int 13) 4 (from_int 5) (from_int 11) 3 (from_int 9)
      (from_int-IsBn 11) (omega arith) (omega arith)

mod_exp_lut-eq-pow_example :
    (y : Bn) × ((init_lut (from_int 5) (from_int 13) 4 (from_int 9) >>= λ lut.
    mod_exp_lut lut (from_int 11) 4 (from_int 13) 4 (from_int 9))
      ≡ some y)
    × (val y ≡ val (from_int 5) ^ (val (from_int 11) % 2 ^ 4) % val (from_int 13))
mod_exp_lut-eq-pow_example =
    mod_exp_lut-eq-pow (from_int 13) 4 (from_int 5) (from_int 11) 4 (from_int 9) (from_int-IsBn 11)
      (omega arith) (omega arith) thirteen-IsSetup (from_int-IsBn 5) (omega (arith, five))

-- 0x01 0x02 0xFF 0x80 0x00
abbrev some_bytes : List ℕ
some_bytes = 1 ∷ 2 ∷ 255 ∷ 128 ∷ 0 ∷ []

some_bytes-AreBytes : AreBytes some_bytes
some_bytes-AreBytes = (omega arith, (omega arith, (omega arith, (omega arith, (omega arith, tt)))))

-- The word 1, and the word `w` at index 8.
abbrev two_words : ℕ → Bn
two_words w = 1 ∷ (replicate 7 0 ++ w ∷ replicate 88 0)

two_words-IsBn : (w : ℕ) → w < 2 ^ 32 → IsBn (two_words w)
two_words-IsBn w h = record {
  size = refl;
  words = (
    omega arith,
    AreWords-append (replicate 7 0) (w ∷ replicate 88 0) (AreWords-zeros 7) (h, AreWords-zeros 88),
  );
}

abbrev key : Key
key = record {
  p = two_words 2;
  q = two_words 1;
  dp = from_int 3;
  dq = from_int 5;
  qinv = from_int 2;
}

val-p : val (two_words 2) ≡ 2 ^ 257 + 1
unfolding val
val-p = refl

val-q : val (two_words 1) ≡ 2 ^ 256 + 1
unfolding val
val-q = refl

p-IsFactor : IsFactor (two_words 2)
p-IsFactor = record {
  bn = two_words-IsBn 2 (omega arith);
  odd = omega (arith, val-p);
  wide = omega (arith, val-p);
  small = omega (arith, val-p);
}

q-IsFactor : IsFactor (two_words 1)
q-IsFactor = record {
  bn = two_words-IsBn 1 (omega arith);
  odd = omega (arith, val-q);
  wide = omega (arith, val-q);
  small = omega (arith, val-q);
}

key-IsKey : IsKey key
key-IsKey = record {
  p_factor = p-IsFactor;
  q_factor = q-IsFactor;
  dp_bn = from_int-IsBn 3;
  dq_bn = from_int-IsBn 5;
  qinv_bn = from_int-IsBn 2;
  q-le-p = omega (arith, val-p, val-q);
  dp-lt = omega (arith, val-p, val-from_int 3 (omega arith));
  dq-lt = omega (arith, val-q, five);
  qinv-lt = omega (arith, val-p, val-from_int 2 (omega arith));
  inverse = rw (val-p, val-q, val-from_int 2 (omega arith)) refl;
}

combine-eq-crt_example :
    (s : Bn) × (combine 3105 key (from_int 5) (from_int 9) ≡ some s)
    × IsBn s
    × (val s < val (two_words 2) * val (two_words 1))
    × (val s % val (two_words 2) ≡ val (from_int 5))
    × (val s % val (two_words 1) ≡ val (from_int 9))
combine-eq-crt_example =
    combine-eq-crt key key-IsKey (from_int 5) (from_int 9) (from_int-IsBn 5) (from_int-IsBn 9) 3105
      (omega arith) (omega (arith, five, val-p)) (omega (arith, nine, val-q))

abbrev hash : List ℕ
hash = 7 ∷ replicate 31 200

repeated-AreBytes : (n : ℕ) → AreBytes (replicate n 200)
repeated-AreBytes zero = tt
repeated-AreBytes (suc n) = (omega arith, repeated-AreBytes n)

hash-AreBytes : AreBytes hash
hash-AreBytes = (omega arith, repeated-AreBytes 31)

rsa_sign-IsSignature_example :
    (sig : List ℕ) × (rsa_sign 3105 key hash ≡ some sig) × IsSignature key hash sig
rsa_sign-IsSignature_example =
    rsa_sign-IsSignature key key-IsKey hash hash-AreBytes refl 3105 (omega arith)

loaded_key-signs_example :
    (sig : List ℕ) × ((loaded_key >>= λ key. rsa_sign 3105 key hash) ≡ some sig)
    × IsProgramSignature hash sig
loaded_key-signs_example = loaded_key-signs hash hash-AreBytes refl 3105 (omega arith)

-- The signature that the theorem on `rsa_sign` gives for this key and this hash.
signed : (sig : List ℕ) × (rsa_sign 3105 key hash ≡ some sig) × IsSignature key hash sig
signed = rsa_sign-IsSignature key key-IsKey hash hash-AreBytes refl 3105 (omega arith)

rsa_sign-eq-signature_example : rsa_sign 4000 key hash ≡ some (signed.0)
rsa_sign-eq-signature_example =
    rsa_sign-eq-signature key key-IsKey hash hash-AreBytes refl 4000 (omega arith) (signed.0)
      (signed.2)
