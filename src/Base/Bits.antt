-- ===== src/Base/Bits.antt =====
-- `|`, `&` and `^` of the machine, one binary digit at a time, and `|` of disjoint fields.
use Prim.Native.Nat.{
  ℕ, zero, suc, ◌+◌, ◌-◌, ◌*◌, ◌/◌, ◌%◌, ◌^◌, ◌≤◌, ◌<◌, min, max, differ, bit_and, bit_or, bit_xor,
  digits, bit_and-bitwise, bit_or-bitwise, bit_xor-bitwise,
}
use mathlib.Core.Path.{◌≡◌, refl, ap, ap₂, ◌∙◌}
use native.Mathlib.Nat.{pow-suc}
use tetd_test.Base.Arith.{pow-pos}
use native.Mathlib.Omega.{arith}

-- The digit recursion does not depend on its fuel, once that reaches the first operand.
digits_enough :
    (z : ℕ → ℕ) (f : ℕ → ℕ → ℕ) (n m a b : ℕ) → a ≤ n → a ≤ m → digits z f n a b ≡ digits z f m a b
digits_enough z f zero zero a b p q = refl
digits_enough z f zero (suc m) zero b p q = refl
digits_enough z f zero (suc m) (suc a) b p q = absurd (omega arith)
digits_enough z f (suc n) zero zero b p q = refl
digits_enough z f (suc n) zero (suc a) b p q = absurd (omega arith)
digits_enough z f (suc n) (suc m) zero b p q = refl
digits_enough z f (suc n) (suc m) (suc a) b p q =
    rw (digits_enough z f n m (suc a / 2) (b / 2) (omega arith) (omega arith))

pub bit_or-digit : (a b : ℕ) → bit_or a b ≡ bit_or (a / 2) (b / 2) * 2 + max (a % 2) (b % 2)
bit_or-digit zero b = omega (arith, bit_or-bitwise 0 b, bit_or-bitwise 0 (b / 2))
bit_or-digit (suc a) b = omega (
  arith,
  bit_or-bitwise (suc a) b,
  bit_or-bitwise (suc a / 2) (b / 2),
  digits_enough (λ y. y) max a (suc a / 2) (suc a / 2) (b / 2) (omega arith) (omega arith),
)

bit_or-zero_below : (n a : ℕ) → a ≤ n → bit_or a 0 ≡ a
bit_or-zero_below n zero h = refl
bit_or-zero_below zero (suc a) h = absurd (omega arith)
bit_or-zero_below (suc n) (suc a) h =
    omega (arith, bit_or-digit (suc a) 0, bit_or-zero_below n (suc a / 2) (omega arith))

-- `(q << k) | r` is a sum when `r` has at most `k` bits.
pub bit_or-fields : (k q r : ℕ) → r < 2 ^ k → bit_or (q * 2 ^ k) r ≡ q * 2 ^ k + r
bit_or-fields zero q r h =
    let e : r ≡ 0 = omega arith in
    rw e (bit_or-zero_below (q * 1) (q * 1) (omega arith) ∙ omega arith)
bit_or-fields (suc k) q r h = omega (
  arith,
  bit_or-digit (q * 2 ^ suc k) r,
  twice,
  ap (λ (t : ℕ). bit_or t (r / 2)) halved,
  bit_or-fields k q (r / 2) (omega (arith, pow-suc 2 k)),
)
  where
    twice : q * 2 ^ suc k ≡ 2 * (q * 2 ^ k)
    twice = omega (arith, ap (λ (t : ℕ). q * t) (pow-suc 2 k))

    halved : q * 2 ^ suc k / 2 ≡ q * 2 ^ k
    halved = omega (arith, twice)

pub bit_or-zero : (a : ℕ) → bit_or a 0 ≡ a
bit_or-zero a = bit_or-zero_below a a (omega arith)

bit_or_comm_below : (n a b : ℕ) → a ≤ n → b ≤ n → bit_or a b ≡ bit_or b a
bit_or_comm_below zero a b h k =
    let e : a ≡ 0 = omega arith in let f : b ≡ 0 = omega arith in rw (e, f)
bit_or_comm_below (suc n) a b h k = omega (
  arith,
  bit_or-digit a b,
  bit_or-digit b a,
  bit_or_comm_below n (a / 2) (b / 2) (omega arith) (omega arith),
)

pub bit_or_comm : (a b : ℕ) → bit_or a b ≡ bit_or b a
bit_or_comm a b = bit_or_comm_below (max a b) a b (omega arith) (omega arith)

pub bit_and-digit : (a b : ℕ) → bit_and a b ≡ bit_and (a / 2) (b / 2) * 2 + min (a % 2) (b % 2)
bit_and-digit zero b = omega (arith, bit_and-bitwise 0 b, bit_and-bitwise 0 (b / 2))
bit_and-digit (suc a) b = omega (
  arith,
  bit_and-bitwise (suc a) b,
  bit_and-bitwise (suc a / 2) (b / 2),
  digits_enough (λ y. 0) min a (suc a / 2) (suc a / 2) (b / 2) (omega arith) (omega arith),
)

pub bit_xor-digit : (a b : ℕ) → bit_xor a b ≡ bit_xor (a / 2) (b / 2) * 2 + differ (a % 2) (b % 2)
bit_xor-digit zero b = omega (arith, bit_xor-bitwise 0 b, bit_xor-bitwise 0 (b / 2))
bit_xor-digit (suc a) b = omega (
  arith,
  bit_xor-bitwise (suc a) b,
  bit_xor-bitwise (suc a / 2) (b / 2),
  digits_enough (λ y. y) differ a (suc a / 2) (suc a / 2) (b / 2) (omega arith) (omega arith),
)

-- An operation that works digit by digit, `f` on each pair of binary digits.
pub record IsDigitwise (op : ℕ → ℕ → ℕ) (f : ℕ → ℕ → ℕ) : Type 0 where
  pub digit : (a b : ℕ) → op a b ≡ op (a / 2) (b / 2) * 2 + f (a % 2) (b % 2)
  pub bit : (x y : ℕ) → x < 2 → y < 2 → f x y < 2
  pub zeros : f 0 0 ≡ 0

differ-lt : (x y : ℕ) → x < 2 → y < 2 → differ x y < 2
differ-lt zero y h k = k
differ-lt (suc x) zero h k = h
differ-lt (suc zero) (suc zero) h k = omega arith
differ-lt (suc zero) (suc (suc y)) h k = absurd (omega arith)
differ-lt (suc (suc x)) (suc y) h k = absurd (omega arith)

pub bit_and-IsDigitwise : IsDigitwise bit_and min
bit_and-IsDigitwise = record { digit = bit_and-digit; bit = λ x y h k. omega arith; zeros = refl }

pub bit_or-IsDigitwise : IsDigitwise bit_or max
bit_or-IsDigitwise = record { digit = bit_or-digit; bit = λ x y h k. omega arith; zeros = refl }

pub bit_xor-IsDigitwise : IsDigitwise bit_xor differ
bit_xor-IsDigitwise = record { digit = bit_xor-digit; bit = differ-lt; zeros = refl }

module _ (op f : ℕ → ℕ → ℕ) (d : IsDigitwise op f) where
  op-zero_zero : op 0 0 ≡ 0
  op-zero_zero = omega (arith, d.digit 0 0, d.zeros)

  pub digitwise-lt : (k x y : ℕ) → x < 2 ^ k → y < 2 ^ k → op x y < 2 ^ k
  digitwise-lt zero x y h k =
      let e : x ≡ 0 = omega arith in
      let e' : y ≡ 0 = omega arith in rw (e, e', op-zero_zero) (omega arith)
  digitwise-lt (suc k) x y hx hy = omega (
    arith,
    pow-suc 2 k,
    d.digit x y,
    d.bit (x % 2) (y % 2) (omega arith) (omega arith),
    digitwise-lt k (x / 2) (y / 2) (omega (arith, pow-suc 2 k)) (omega (arith, pow-suc 2 k)),
  )

  -- The low and the high digits are apart.
  pub digitwise-split :
      (k x a y b : ℕ)
      → x < 2 ^ k
      → y < 2 ^ k
      → op (x + 2 ^ k * a) (y + 2 ^ k * b) ≡ op x y + 2 ^ k * op a b
  digitwise-split zero x a y b h k =
      let e : x ≡ 0 = omega arith in
      let e' : y ≡ 0 = omega arith in
      let l : 0 + 1 * a ≡ a = omega arith in
      let r : 0 + 1 * b ≡ b = omega arith in rw (e, e', op-zero_zero, l, r) (omega arith)
  digitwise-split (suc k) x a y b hx hy = omega (
    arith,
    d.digit (x + 2 ^ suc k * a) (y + 2 ^ suc k * b),
    d.digit x y,
    ap₂ f (low x a) (low y b),
    ap₂ op (half x a) (half y b),
    digitwise-split k (x / 2) a (y / 2) b (omega (arith, pow-suc 2 k)) (omega (arith, pow-suc 2 k)),
    twice (op a b),
  )
    where
      twice : (c : ℕ) → 2 ^ suc k * c ≡ 2 * (2 ^ k * c)
      twice c = omega (arith, ap (λ (t : ℕ). t * c) (pow-suc 2 k))

      half : (z c : ℕ) → (z + 2 ^ suc k * c) / 2 ≡ z / 2 + 2 ^ k * c
      half z c = omega (arith, twice c)

      low : (z c : ℕ) → (z + 2 ^ suc k * c) % 2 ≡ z % 2
      low z c = omega (arith, twice c)

pub bit_and-ones : (k x : ℕ) → x < 2 ^ k → bit_and x (2 ^ k - 1) ≡ x
bit_and-ones zero x h = let e : x ≡ 0 = omega arith in rw e refl
bit_and-ones (suc k) x h =
    let half : (2 ^ suc k - 1) / 2 ≡ 2 ^ k - 1 = omega (arith, pow-suc 2 k) in
    let odd : (2 ^ suc k - 1) % 2 ≡ 1 = omega (arith, pow-suc 2 k, pow-pos 2 k (omega arith)) in
    omega (
      arith,
      bit_and-IsDigitwise.digit x (2 ^ suc k - 1),
      ap (λ (t : ℕ). bit_and (x / 2) t) half,
      ap (λ (t : ℕ). min (x % 2) t) odd,
      bit_and-ones k (x / 2) (omega (arith, pow-suc 2 k)),
    )

pub bit_and-zero : (k x : ℕ) → x < 2 ^ k → bit_and x 0 ≡ 0
bit_and-zero zero x h = let e : x ≡ 0 = omega arith in rw e refl
bit_and-zero (suc k) x h =
    omega
      (arith, bit_and-IsDigitwise.digit x 0, bit_and-zero k (x / 2) (omega (arith, pow-suc 2 k)))
