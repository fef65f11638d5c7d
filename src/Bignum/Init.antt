-- ===== src/Bignum/Init.antt =====
-- `bignum_init`, `bignum_assign`, `bignum_from_int` and `bignum_to_int`.
use tetd_test.Base.{
  ℕ, zero, suc, ◌+◌, ◌-◌, ◌*◌, ◌/◌, ◌%◌, ◌^◌, ◌≤◌, ◌<◌, ◌≡◌, refl, [], ◌∷◌, arith, ◌∙◌, length,
  get_or, set, replicate, length-set, length-replicate, get_or_ext, get_or_past, sym, ap, ltb, leb,
  if◌then◌else◌, get_or-set, get_or-replicate,
}
use tetd_test.Bignum.{bn_array_size, Bn, u32}
use tetd_test.Bignum.Value.{base, val, IsBn, val-zeros, AreWords-zeros}

-- The loop shape of `bignum_init` and `bignum_assign`: four words a round, downwards from `i`,
-- word `j` getting the value `f j`.
fill_down : (ℕ → ℕ) → (rounds i : ℕ) → Bn → Bn
fill_down f zero i n = n
fill_down f (suc rounds) i n =
    fill_down f rounds (i - 4)
      (set (set (set (set n i (f i)) (i - 1) (f (i - 1))) (i - 2) (f (i - 2))) (i - 3) (f (i - 3)))

-- `bignum_init`, on an array that may hold anything.
pub init : Bn → Bn
init n = fill_down (λ _. 0) 24 (bn_array_size - 1) (set n 0 0)

-- `bignum_assign`
pub assign : Bn → Bn → Bn
assign dst src = set (fill_down (λ j. get_or src j 0) 24 (bn_array_size - 1) dst) 0 (get_or src 0 0)

-- What `bignum_init` leaves in an array.
abbrev pub cleared : Bn
cleared = replicate bn_array_size 0

-- `bignum_from_int`: the two halves of a `uint64_t`, the others cleared.
pub from_int : ℕ → Bn
from_int i = set (set cleared 0 (u32 i)) 1 (u32 (i / 2 ^ 32))

-- `bignum_to_int`: the bit pattern of the `int`.
pub to_int : Bn → ℕ
to_int n = u32 (get_or n 0 0)

length-fill_down : (f : ℕ → ℕ) (r i : ℕ) (n : Bn) → length (fill_down f r i n) ≡ length n
unfolding fill_down
length-fill_down f zero i n = refl
length-fill_down f (suc r) i n =
    length-fill_down f r (i - 4) _ ∙ rw (length-set, length-set, length-set, length-set)

-- One round writes the words `i - 3` to `i`.
quad-get_or :
    (f : ℕ → ℕ) (n : Bn) (i j : ℕ)
    → i < length n
    → 4 ≤ i
    → get_or
        (set
          (set (set (set n i (f i)) (i - 1) (f (i - 1))) (i - 2) (f (i - 2)))
          (i - 3)
          (f (i - 3)))
        j
        0
      ≡ (if ltb (i - 4) j then if leb j i then f j else get_or n j 0 else get_or n j 0)
quad-get_or f n i j h k =
    let n1 = set n i (f i) in
    let n2 = set n1 (i - 1) (f (i - 1)) in
    let n3 = set n2 (i - 2) (f (i - 2)) in
    let l1 = length-set n i (f i) in
    let l2 = length-set n1 (i - 1) (f (i - 1)) in
    let l3 = length-set n2 (i - 2) (f (i - 2)) in
    rw (get_or-set n3 (i - 3) (f (i - 3)) j 0 (omega arith)) (
      rw (get_or-set n2 (i - 2) (f (i - 2)) j 0 (omega arith)) (
        rw (get_or-set n1 (i - 1) (f (i - 1)) j 0 (omega arith))
          (rw (get_or-set n i (f i) j 0 (omega arith)) (ground arith))))

-- The rounds write the words 1 to 4 * r, and no other.
fill_down-get_or :
    (f : ℕ → ℕ) (r i : ℕ) (n : Bn) (j : ℕ)
    → i ≡ 4 * r
    → i < length n
    → get_or (fill_down f r i n) j 0
      ≡ (if ltb 0 j then if leb j i then f j else get_or n j 0 else get_or n j 0)
unfolding fill_down
fill_down-get_or f zero i n j e h = ground arith
fill_down-get_or f (suc r) i n j e h =
    fill_down-get_or f r (i - 4) _ j (omega arith) (rw quad-length (omega arith))
    ∙ rw (quad-get_or f n i j h (omega arith)) (ground arith)
  where
    quad-length :
        length (
          set
            (set (set (set n i (f i)) (i - 1) (f (i - 1))) (i - 2) (f (i - 2)))
            (i - 3)
            (f (i - 3)))
        ≡ length n
    quad-length = rw (length-set, length-set, length-set, length-set)

-- The unrolled `bignum_init` clears every word, whatever the array held.
pub init-eq-cleared : (n : Bn) → length n ≡ bn_array_size → init n ≡ cleared
unfolding init
init-eq-cleared n h =
    get_or_ext 0 _ cleared
      (length-fill_down _ 24 _ _ ∙ length-set n 0 0 ∙ h ∙ sym (length-replicate {A = ℕ} 97 0))
      λ j.
        fill_down-get_or (λ _. 0) 24 96 (set n 0 0) j (omega arith)
          (rw (length-set, h) (omega arith))
        ∙ rw (get_or-set n 0 0 j 0 (omega arith), get_or-replicate {A = ℕ} 97 j 0)
            (ground (arith, get_or_past n j 0))

-- The unrolled `bignum_assign` makes the target the source, whatever the target held.
pub assign-eq-src :
    (dst src : Bn) → length dst ≡ bn_array_size → length src ≡ bn_array_size → assign dst src ≡ src
unfolding assign
assign-eq-src dst src h k =
    get_or_ext 0 _ src (length-set _ 0 _ ∙ length-fill_down _ 24 _ _ ∙ h ∙ sym k) λ j.
      get_or-set _ 0 _ j 0 (rw (length-fill_down, h) (omega arith))
      ∙ rw (fill_down-get_or (λ i. get_or src i 0) 24 96 dst j (omega arith) (rw h (omega arith)))
          (ground (arith, get_or_past dst j 0, get_or_past src j 0, ap (λ (i : ℕ). get_or src i 0)))

set_two-val : (n a b : ℕ) → val (set (set (replicate (suc (suc n)) 0) 0 a) 1 b) ≡ a + base * b
unfolding val
set_two-val n a b = omega (arith, val-zeros n)

-- `bignum_from_int` holds its 64-bit argument.
pub val-from_int : (i : ℕ) → i < 2 ^ 64 → val (from_int i) ≡ i
unfolding from_int
val-from_int i h = set_two-val 95 (u32 i) (u32 (i / 2 ^ 32)) ∙ omega arith

pub from_int-IsBn : (i : ℕ) → IsBn (from_int i)
unfolding from_int
from_int-IsBn i = record {
  size = length-replicate {A = ℕ} 97 0;
  words = (omega arith, (omega arith, AreWords-zeros 95));
}

pub cleared-IsBn : IsBn cleared
cleared-IsBn = record { size = length-replicate {A = ℕ} 97 0; words = AreWords-zeros 97 }

pub val-cleared : val cleared ≡ 0
val-cleared = val-zeros 97

-- `bignum_to_int` has the bit pattern of the value modulo 2 ^ 32.
pub to_int-eq-mod : (n : Bn) → to_int n ≡ val n % 2 ^ 32
unfolding to_int val
to_int-eq-mod [] = refl
to_int-eq-mod (w ∷ ws) = omega arith
