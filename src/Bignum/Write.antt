-- ===== src/Bignum/Write.antt =====
-- What a write to one word does to the number of an array.
use tetd_test.Base.{
  ℕ, zero, suc, ◌+◌, ◌*◌, ◌^◌, ◌≤◌, ◌<◌, ◌≡◌, ap, List, [], ◌∷◌, arith, get_or, set, length,
}
use native.Mathlib.Nat.{pow-suc}
use tetd_test.Bignum.Value.{base, val, AreWords}

-- Adding to one word adds to the value.
pub val-set_add :
    (n : List ℕ) (w d : ℕ) → w < length n → val (set n w (get_or n w 0 + d)) ≡ val n + d * base ^ w
unfolding val
val-set_add [] w d h = absurd (omega arith)
val-set_add (x ∷ xs) zero d h = omega arith
val-set_add (x ∷ xs) (suc w) d h =
    omega (arith, val-set_add xs w d (omega arith), ap (λ (t : ℕ). d * t) (pow-suc base w))

pub word-le-val : (n : List ℕ) (w : ℕ) → get_or n w 0 * base ^ w ≤ val n
unfolding val
word-le-val [] w = omega arith
word-le-val (x ∷ xs) zero = omega arith
word-le-val (x ∷ xs) (suc w) =
    omega (arith, word-le-val xs w, ap (λ (t : ℕ). get_or xs w 0 * t) (pow-suc base w))

pub AreWords-set : (n : List ℕ) (w v : ℕ) → AreWords n → v < base → AreWords (set n w v)
AreWords-set [] w v h k = tt
AreWords-set (x ∷ xs) zero v h k = (k, h.1)
AreWords-set (x ∷ xs) (suc w) v h k = (h.0, AreWords-set xs w v h.1 k)
