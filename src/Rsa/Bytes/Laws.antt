-- ===== src/Rsa/Bytes/Laws.antt =====
-- The conversions are those of positional notation, and undo one another.
use tetd_test.Base.{
  ℕ, zero, suc, ◌+◌, ◌*◌, ◌/◌, ◌%◌, ◌^◌, ◌<◌, ◌≡◌, refl, sym, ap, ap₂, ◌∙◌, List, [], ◌∷◌, arith,
  length, pow-pos, pow-add, mod_unique, div_unique,
}
use native.Mathlib.Nat.{pow-suc, mod-lt, mod-one, pow-zero, mul-le-mul_right, div-add-mod'}
use tetd_test.Bignum.{Bn}
use tetd_test.Bignum.Value.{val, IsBn}
use tetd_test.Bignum.Bitwise.Access.{field_at}
use tetd_test.Rsa.Bytes.{byte_at, bn_to_bytes}

abbrev pub AreBytes : List ℕ → Type 0
AreBytes [] = Unit {0}
AreBytes (b ∷ bs) = (b < 256) × AreBytes bs

-- The number that bytes stand for, the most significant first.
unfoldable pub big_endian : List ℕ → ℕ
big_endian [] = 0
big_endian (b ∷ bs) = b * 256 ^ length bs + big_endian bs

pub byte-pow : (n : ℕ) → 256 ^ n ≡ 2 ^ (8 * n)
byte-pow zero = refl
byte-pow (suc n) = omega (arith, pow-suc 256 n, byte-pow n, pow-add 2 (8 * n) 8, shifted)
  where
    shifted : 2 ^ (8 * n + 8) ≡ 2 ^ (8 * suc n)
    shifted = let e : 8 * n + 8 ≡ 8 * suc n = omega arith in rw e

-- `byte_at` is a digit in base 256.
byte_at-eq-digit : (n : Bn) (i : ℕ) → IsBn n → byte_at n i ≡ (val n / 256 ^ i) % 256
unfolding byte_at
byte_at-eq-digit n i h =
    field_at n (i / 4) (8 * (i % 4)) 8 h (omega arith)
    ∙ ap (λ t. (val n / t) % 256) (ap (λ (t : ℕ). 2 ^ t) (omega arith) ∙ sym (byte-pow i))

pub length-bn_to_bytes : (n : Bn) (k : ℕ) → length (bn_to_bytes n k) ≡ k
unfolding bn_to_bytes
length-bn_to_bytes n zero = refl
length-bn_to_bytes n (suc k) = ap suc (length-bn_to_bytes n k)

next_byte : (v P : ℕ) → 0 < P → v % (256 * P) ≡ (v / P) % 256 * P + v % P
next_byte v P pos = sym (
    mod_unique (256 * P) _ (v / P / 256) v
      (omega (arith, div-add-mod' v P, ap (λ (t : ℕ). t * P) (div-add-mod' (v / P) 256)))
      (omega (arith, mod-lt v pos, mul-le-mul_right {m = (v / P) % 256} {n = 255} P (omega arith))))

-- The `k` bytes of `bn_to_bytes` stand, the most significant first, for the value modulo 256 ^ k.
pub big_endian-bn_to_bytes :
    (n : Bn) (k : ℕ) → IsBn n → big_endian (bn_to_bytes n k) ≡ val n % 256 ^ k
unfolding big_endian bn_to_bytes
big_endian-bn_to_bytes n zero h = sym (mod-one (val n))
big_endian-bn_to_bytes n (suc k) h =
    rw (length-bn_to_bytes n k, byte_at-eq-digit n k h, big_endian-bn_to_bytes n k h)
      (sym (next_byte (val n) (256 ^ k) (pow-pos 256 k (omega arith)))
        ∙ ap (λ (t : ℕ). val n % t) (omega (arith, pow-suc 256 k)))

pub bn_to_bytes-AreBytes : (n : Bn) (k : ℕ) → AreBytes (bn_to_bytes n k)
unfolding bn_to_bytes byte_at
bn_to_bytes-AreBytes n zero = tt
bn_to_bytes-AreBytes n (suc k) = (omega arith, bn_to_bytes-AreBytes n k)

pub big_endian-lt : (bs : List ℕ) → AreBytes bs → big_endian bs < 256 ^ length bs
unfolding big_endian
big_endian-lt [] h = rw pow-zero (omega arith)
big_endian-lt (b ∷ bs) h = omega (
  arith,
  big_endian-lt bs h.1,
  pow-suc 256 (length bs),
  mul-le-mul_right {m = b} {n = 255} (256 ^ length bs) (omega (arith, h.0)),
)

same_front : (x y u v p : ℕ) → u < p → v < p → x * p + u ≡ y * p + v → (x ≡ y) × (u ≡ v)
same_front x y u v p hu hv e =
    let q =
      div_unique p x u (x * p + u) refl hu
      ∙ ap (λ (t : ℕ). t / p) e
      ∙ sym (div_unique p y v (y * p + v) refl hv) in
    (q, omega (arith, e, ap (λ (t : ℕ). t * p) q))

-- Bytes of one length that stand for one number are the same.
pub big_endian-injective :
    (xs ys : List ℕ)
    → length xs ≡ length ys
    → AreBytes xs
    → AreBytes ys
    → big_endian xs ≡ big_endian ys
    → xs ≡ ys
unfolding big_endian
big_endian-injective [] [] e h k v = refl
big_endian-injective [] (y ∷ ys) e h k v = absurd (omega arith)
big_endian-injective (x ∷ xs) [] e h k v = absurd (omega arith)
big_endian-injective (x ∷ xs) (y ∷ ys) e h k v =
    let len : length ys ≡ length xs = omega arith in
    let (here, rest) =
      same_front x y _ _ (256 ^ length xs) (big_endian-lt xs h.1) (rw len at (big_endian-lt ys k.1))
        (rw len at v) in
    ap₂ ◌∷◌ here (big_endian-injective xs ys (omega arith) h.1 k.1 rest)
