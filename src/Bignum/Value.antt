-- ===== src/Bignum/Value.antt =====
-- The number that an array of words stands for, and the arrays that the C type allows.
use tetd_test.Base.{
  ℕ, zero, suc, ◌+◌, ◌-◌, ◌*◌, ◌%◌, ◌^◌, ◌≤◌, ◌<◌, ◌≡◌, refl, sym, ap, ◌∙◌, List, [], ◌∷◌, ◌++◌,
  arith, length, take, drop, replicate, length-take, get_or, mod_unique, pow-pos, pow-add,
}
use native.Mathlib.Nat.{pow-suc, pow-zero}
use tetd_test.Bignum.{bn_array_size, Bn}

-- The weight of a word.
abbrev pub base : ℕ
base = 2 ^ 32

unfoldable pub val : List ℕ → ℕ
val [] = 0
val (w ∷ ws) = w + base * val ws

abbrev pub AreWords : List ℕ → Type 0
AreWords [] = Unit {0}
AreWords (w ∷ ws) = (w < base) × AreWords ws

-- What the C type guarantees of every `struct bn`.
pub record IsBn (a : Bn) : Type 0 where
  pub size : length a ≡ bn_array_size
  pub words : AreWords a

-- One more than the largest value of a `struct bn`. It stays shut.
unfoldable pub capacity : ℕ
capacity = base ^ bn_array_size

pub capacity-pos : 0 < capacity
unfolding capacity
capacity-pos = pow-pos base bn_array_size (omega arith)

pub val-lt : (ws : List ℕ) → AreWords ws → val ws < base ^ length ws
unfolding val
val-lt [] h = rw pow-zero (omega arith)
val-lt (w ∷ ws) h = omega (arith, pow-suc base (length ws), val-lt ws h.1)

pub base-pow-length : (a : Bn) → IsBn a → base ^ length a ≡ capacity
unfolding capacity
base-pow-length a h = rw h.size

pub val-lt-capacity : (a : Bn) → IsBn a → val a < capacity
val-lt-capacity a h = rw (base-pow-length a h) at (val-lt a h.words)

pub val-append : (xs ys : List ℕ) → val (xs ++ ys) ≡ val xs + base ^ length xs * val ys
unfolding val
val-append [] ys = rw pow-zero (omega arith)
val-append (x ∷ xs) ys =
    omega (arith, val-append xs ys, ap (λ (t : ℕ). t * val ys) (pow-suc base (length xs)))

pub val-zeros : (n : ℕ) → val (replicate n 0) ≡ 0
unfolding val
val-zeros zero = refl
val-zeros (suc n) = omega (arith, val-zeros n)

pub AreWords-append : (xs ys : List ℕ) → AreWords xs → AreWords ys → AreWords (xs ++ ys)
AreWords-append [] ys h k = k
AreWords-append (x ∷ xs) ys h k = (h.0, AreWords-append xs ys h.1 k)

pub AreWords-zeros : (n : ℕ) → AreWords (replicate n 0)
AreWords-zeros zero = tt
AreWords-zeros (suc n) = (omega arith, AreWords-zeros n)

pub AreWords-take : (n : ℕ) (xs : List ℕ) → AreWords xs → AreWords (take n xs)
AreWords-take zero xs h = tt
AreWords-take (suc n) [] h = tt
AreWords-take (suc n) (x ∷ xs) h = (h.0, AreWords-take n xs h.1)

-- An array determines its value, and its value the array, at one length.
pub val-injective :
    (xs ys : List ℕ) → length xs ≡ length ys → AreWords xs → AreWords ys → val xs ≡ val ys → xs ≡ ys
unfolding val
val-injective [] [] e h k v = refl
val-injective [] (y ∷ ys) e h k v = absurd (omega arith)
val-injective (x ∷ xs) [] e h k v = absurd (omega arith)
val-injective (x ∷ xs) (y ∷ ys) e h k v =
    let here : x ≡ y = omega arith in
    let rest = val-injective xs ys (omega arith) h.1 k.1 (omega arith) in λ i. here i ∷ rest i

pub val-take-suc :
    (n : ℕ) (xs : List ℕ)
    → n < length xs
    → val (take (suc n) xs) ≡ val (take n xs) + base ^ n * get_or xs n 0
unfolding val
val-take-suc n [] h = absurd (omega arith)
val-take-suc zero (x ∷ xs) h = omega arith
val-take-suc (suc n) (x ∷ xs) h =
    omega
      (arith, val-take-suc n xs (omega arith), ap (λ (t : ℕ). t * get_or xs n 0) (pow-suc base n))

pub val-take-lt : (n : ℕ) (xs : List ℕ) → AreWords xs → n ≤ length xs → val (take n xs) < base ^ n
val-take-lt n xs h le =
    let e : length (take n xs) ≡ n = omega (arith, length-take n xs) in
    rw e at (val-lt (take n xs) (AreWords-take n xs h))

pub val-take-drop :
    (m : ℕ) (ys : List ℕ) → m ≤ length ys → val (take m ys) + val (drop m ys) * base ^ m ≡ val ys
unfolding val
val-take-drop zero ys e = omega arith
val-take-drop (suc m) [] e = absurd (omega arith)
val-take-drop (suc m) (y ∷ ys) e =
    omega (
      arith,
      val-take-drop m ys (omega arith),
      ap (λ (t : ℕ). val (drop m ys) * t) (pow-suc base m),
    )

-- Keeping the low words is the remainder.
pub val-take :
    (n : ℕ) (xs : List ℕ) → AreWords xs → n ≤ length xs → val (take n xs) ≡ val xs % base ^ n
val-take n xs h le =
    mod_unique (base ^ n) _ (val (drop n xs)) _ (val-take-drop n xs le) (val-take-lt n xs h le)

pub val-take_array :
    (xs : List ℕ)
    → AreWords xs
    → bn_array_size ≤ length xs
    → val (take bn_array_size xs) ≡ val xs % capacity
unfolding capacity
val-take_array xs h le = val-take bn_array_size xs h le

-- The weight of word `n`, in bits.
pub base-pow : (n : ℕ) → base ^ n ≡ 2 ^ (32 * n)
base-pow zero = refl
base-pow (suc n) = omega (arith, pow-suc base n, base-pow n, pow-add 2 (32 * n) 32, shifted)
  where
    shifted : 2 ^ (32 * n + 32) ≡ 2 ^ (32 * suc n)
    shifted = let e : 32 * n + 32 ≡ 32 * suc n = omega arith in rw e

-- A weight past the array is a multiple of the capacity.
pub capacity-split : (n : ℕ) → bn_array_size ≤ n → base ^ n ≡ base ^ (n - bn_array_size) * capacity
unfolding capacity
capacity-split n le =
    let e : n - bn_array_size + bn_array_size ≡ n = omega arith in
    ap (λ (t : ℕ). base ^ t) (sym e) ∙ pow-add base (n - bn_array_size) bn_array_size

-- The capacity, in bits.
pub capacity-eq-pow : capacity ≡ 2 ^ 3104
unfolding capacity
capacity-eq-pow = refl
