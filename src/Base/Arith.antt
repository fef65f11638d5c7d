-- ===== src/Base/Arith.antt =====
-- Arithmetic that the components share: remainders, congruences and powers.
use Prim.Native.Nat.{ℕ, zero, suc, ◌+◌, ◌-◌, ◌*◌, ◌/◌, ◌%◌, ◌^◌, ◌≤◌, ◌<◌, zero-le}
use mathlib.Core.Path.{◌≡◌, sym, ap, ap₂, ◌∙◌}
use native.Mathlib.Nat.{
  mod-eq_of_lt, add-mul-mod_self_right, div-add-mod', pow-suc, add-mod, mul_assoc, add-zero,
  add-suc, pow-zero, mul-pos, pow-le-pow_right, mul_comm, mul-lt-mul_of_pos_right, mod-lt,
  mod-eq-sub-mod, mul-one, mul-add-div_right, div-eq_of_lt, lt_of_le_of_lt,
}
use native.Mathlib.Decide.{dec_lt}
use mathlib.Core.Logic.{◌⊎◌, inl, inr}
use native.Mathlib.Omega.{arith}

-- A number below the modulus that differs from `x` by a multiple of it is the remainder of `x`.
pub mod_unique : (m r k x : ℕ) → r + k * m ≡ x → r < m → r ≡ x % m
mod_unique m r k x e h =
    sym (ap (λ t. t % m) (sym e) ∙ add-mul-mod_self_right r k m ∙ mod-eq_of_lt h)

pub mod_mul_left : (x y m : ℕ) → (x % m * y) % m ≡ (x * y) % m
mod_mul_left x y m = sym (ap (λ t. t % m) split ∙ add-mul-mod_self_right (x % m * y) (x / m * y) m)
  where
    split : x * y ≡ x % m * y + x / m * y * m
    split = omega (arith, ap (λ (t : ℕ). t * y) (div-add-mod' x m))

pub mod_mul_right : (x y m : ℕ) → (x * (y % m)) % m ≡ (x * y) % m
mod_mul_right x y m =
    ap (λ t. t % m) (omega arith) ∙ mod_mul_left y x m ∙ ap (λ t. t % m) (omega arith)

-- Sums and products respect congruence.
pub add-cong_mod : (m x x' y y' : ℕ) → x % m ≡ x' % m → y % m ≡ y' % m → (x + y) % m ≡ (x' + y') % m
add-cong_mod m x x' y y' p q = add-mod x y m ∙ ap₂ (λ s t. (s + t) % m) p q ∙ sym (add-mod x' y' m)

pub mul-cong_mod : (m x x' y y' : ℕ) → x % m ≡ x' % m → y % m ≡ y' % m → (x * y) % m ≡ (x' * y') % m
mul-cong_mod m x x' y y' p q =
    sym (mod_mul_left x y m)
    ∙ ap (λ t. (t * y) % m) p
    ∙ mod_mul_left x' y m
    ∙ sym (mod_mul_right x' y m)
    ∙ ap (λ t. (x' * t) % m) q
    ∙ mod_mul_right x' y' m

pub pow-add : (b n k : ℕ) → b ^ (n + k) ≡ b ^ n * b ^ k
pow-add b n zero = rw (add-zero n, pow-zero b) (omega arith)
pow-add b n (suc k) =
    rw (add-suc n k, pow-suc b (n + k), pow-suc b k, pow-add b n k) (mul_assoc (b ^ n) (b ^ k) b)

pub pow-pos : (b n : ℕ) → 0 < b → 0 < b ^ n
pow-pos b zero h = rw pow-zero (omega arith)
pow-pos b (suc n) h = rw pow-suc (mul-pos (pow-pos b n h) h)

-- A difference below the modulus that borrowed nothing is exact.
pub no_borrow : (q m r x y : ℕ) → r + y ≡ x + q * m → r < m → y ≤ x → r + y ≡ x
no_borrow zero m r x y e h le = omega arith
no_borrow (suc q) m r x y e h le = absurd (omega arith)

-- A quotient by `p` and the digits that `p * q` leaves to it.
pub mul-mod-mul : (w p q : ℕ) → 0 < p → 0 < q → (w * p) % (p * q) ≡ w % q * p
mul-mod-mul w p q hp hq = sym (
    mod_unique (p * q) (w % q * p) (w / q) (w * p)
      (omega (arith, ap (λ (t : ℕ). t * p) (div-add-mod' w q)))
      (rw (mul_comm p q) (mul-lt-mul_of_pos_right (mod-lt w hq) hp)))

-- A quotient from its remainder.
pub div_unique : (p q r x : ℕ) → q * p + r ≡ x → r < p → q ≡ x / p
div_unique p q r x e h = sym (
    ap (λ t. t / p) (sym e)
    ∙ mul-add-div_right (lt_of_le_of_lt zero-le h) q r
    ∙ rw (div-eq_of_lt h) (add-zero q))

-- A multiple of the modulus does not count.
pub mod-add-multiple : (m k x : ℕ) → (x + k * m) % m ≡ x % m
mod-add-multiple m k x = add-mul-mod_self_right x k m

-- Below the modulus, doubling wraps at most once.
double_mod : (u m : ℕ) → u < m → ((2 * u) % m ≡ 2 * u) ⊎ ((2 * u) % m + m ≡ 2 * u)
double_mod u m h = elim (dec_lt (2 * u) m) [
  | yes small ↦ inl (mod-eq_of_lt small)
  | no large ↦ inr (
      let e : (2 * u) % m ≡ 2 * u - m = mod-eq-sub-mod (omega arith) ∙ mod-eq_of_lt (omega arith) in
      omega arith)
]

halve_reduced : (m u v : ℕ) → m % 2 ≡ 1 → u < m → v < m → (2 * u) % m ≡ (2 * v) % m → u ≡ v
halve_reduced m u v odd hu hv e = omega (arith, double_mod u m hu, double_mod v m hv)

-- Modulo an odd number a factor 2 can be dropped, and so can a power of it.
halve_mod : (m u v : ℕ) → m % 2 ≡ 1 → (2 * u) % m ≡ (2 * v) % m → u % m ≡ v % m
halve_mod m u v odd e =
    halve_reduced m (u % m) (v % m) odd (mod-lt u pos) (mod-lt v pos)
      (mod_mul_right 2 u m ∙ e ∙ sym (mod_mul_right 2 v m))
  where
    pos : 0 < m
    pos = omega arith

pub cancel-pow_mod : (m k u v : ℕ) → m % 2 ≡ 1 → (u * 2 ^ k) % m ≡ (v * 2 ^ k) % m → u % m ≡ v % m
cancel-pow_mod m zero u v odd e =
    ap (λ t. t % m) (sym (mul-one u)) ∙ e ∙ ap (λ t. t % m) (mul-one v)
cancel-pow_mod m (suc k) u v odd e =
    cancel-pow_mod m k u v odd
      (halve_mod m (u * 2 ^ k) (v * 2 ^ k) odd (rw (twice u, twice v) at e))
  where
    twice : (w : ℕ) → w * 2 ^ suc k ≡ 2 * (w * 2 ^ k)
    twice w = omega (arith, ap (λ (t : ℕ). w * t) (pow-suc 2 k))

-- Powers of two keep the order of the exponents.
pub lt_of_pow-lt-pow : (i j : ℕ) → 2 ^ i < 2 ^ j → i < j
lt_of_pow-lt-pow i j h = elim (dec_lt i j) [
  | yes lt ↦ lt
  | no ge ↦
      absurd (omega (arith, pow-le-pow_right {n = 2} (omega arith) {i = j} {j = i} (omega arith)))
]
