-- ===== src/Bignum/Add/Laws.antt =====
-- `bignum_add` and `bignum_inc` are additions modulo the capacity.
use tetd_test.Base.{
  ℕ, zero, suc, ◌+◌, ◌*◌, ◌%◌, ◌^◌, ◌≤◌, ◌<◌, ◌≡◌, refl, sym, ap, ◌∙◌, List, [], ◌∷◌, ltb, arith,
  length, mod_unique, Bool-cases, inl, inr, ltb→ge,
}
use native.Mathlib.Nat.{pow-suc, pow-zero, add-zero, mod-eq_of_lt}
use tetd_test.Bignum.{Bn, u32}
use tetd_test.Bignum.Value.{base, val, val-lt, AreWords, IsBn, capacity, base-pow-length}
use tetd_test.Bignum.Add.{sum_of, carry_of, add_loop, add, add_plain, inc}

pub length-add_plain :
    (c : ℕ) (a b : List ℕ) → length a ≡ length b → length (add_plain c a b) ≡ length a
unfolding add_plain
length-add_plain c [] b h = refl
length-add_plain c (x ∷ xs) [] h = absurd (omega arith)
length-add_plain c (x ∷ xs) (y ∷ ys) h =
    ap suc (length-add_plain (carry_of (sum_of x y c)) xs ys (omega arith))

AreWords-add_plain : (c : ℕ) (a b : List ℕ) → AreWords (add_plain c a b)
unfolding add_plain
AreWords-add_plain c [] b = tt
AreWords-add_plain c (x ∷ xs) [] = tt
AreWords-add_plain c (x ∷ xs) (y ∷ ys) =
    (omega arith, AreWords-add_plain (carry_of (sum_of x y c)) xs ys)

-- One word: the word stored and the carry make up the sum.
sum_of-split :
    (x y c : ℕ)
    → x < base
    → y < base
    → c ≤ 1
    → (u32 (sum_of x y c) + base * carry_of (sum_of x y c) ≡ x + y + c)
      × (carry_of (sum_of x y c) ≤ 1)
sum_of-split x y c hx hy hc = ground arith

-- The carry out of the plain loop, and the equation that it balances.
add_plain-balance :
    (c : ℕ) (a b : List ℕ)
    → c ≤ 1
    → length a ≡ length b
    → AreWords a
    → AreWords b
    → (k : ℕ) × (val (add_plain c a b) + k * base ^ length a ≡ val a + val b + c)
unfolding add_plain val
add_plain-balance c [] [] small e h k = (c, rw pow-zero (omega arith))
add_plain-balance c [] (y ∷ ys) small e h k = absurd (omega arith)
add_plain-balance c (x ∷ xs) [] small e h k = absurd (omega arith)
add_plain-balance c (x ∷ xs) (y ∷ ys) small e h k =
    let split = sum_of-split x y c h.0 k.0 small in
    let (q, p) = add_plain-balance (carry_of (sum_of x y c)) xs ys split.1 (omega arith) h.1 k.1 in
    (q, omega (arith, split.0, p, ap (λ (t : ℕ). q * t) (pow-suc base (length xs))))

add_plain-mod :
    (c : ℕ) (a b : List ℕ)
    → c ≤ 1
    → length a ≡ length b
    → AreWords a
    → AreWords b
    → val (add_plain c a b) ≡ (val a + val b + c) % base ^ length a
add_plain-mod c a b small e h k =
    let (q, p) = add_plain-balance c a b small e h k in
    mod_unique (base ^ length a) _ q _ p
      (rw (length-add_plain c a b e) at (val-lt _ (AreWords-add_plain c a b)))

-- The unrolled loop does what the plain loop does, on arrays of whole rounds.
add_loop-eq-add_plain :
    (r c : ℕ) (a b : List ℕ)
    → length a ≡ 4 * r
    → length b ≡ 4 * r
    → add_loop r c a b ≡ add_plain c a b
unfolding add_loop add_plain
add_loop-eq-add_plain zero c [] b h k = refl
add_loop-eq-add_plain zero c (x ∷ xs) b h k = absurd (omega arith)
add_loop-eq-add_plain (suc r) c (a0 ∷ a1 ∷ a2 ∷ a3 ∷ xs) (b0 ∷ b1 ∷ b2 ∷ b3 ∷ ys) h k =
    rw (add_loop-eq-add_plain r _ xs ys (omega arith) (omega arith))
add_loop-eq-add_plain (suc r) c _ _ h k = absurd (omega arith)

-- The unrolled `bignum_add` gives the very array of the plain loop that the comment below it
-- keeps.
pub add-eq-add_plain : (a b : Bn) → IsBn a → IsBn b → add a b ≡ add_plain 0 a b
unfolding add add_plain
add-eq-add_plain [] [] h k = refl
add-eq-add_plain [] (y ∷ ys) h k = refl
add-eq-add_plain (x ∷ xs) [] h k = refl
add-eq-add_plain (x ∷ xs) (y ∷ ys) h k =
    rw (add_loop-eq-add_plain 24 _ xs ys (omega (arith, h.size)) (omega (arith, k.size)))

pub add-IsBn : (a b : Bn) → IsBn a → IsBn b → IsBn (add a b)
add-IsBn a b h k = rw (add-eq-add_plain a b h k) (record {
  size = length-add_plain 0 a b (h.size ∙ sym k.size) ∙ h.size;
  words = AreWords-add_plain 0 a b;
})

-- `bignum_add` is addition modulo the capacity.
pub val-add : (a b : Bn) → IsBn a → IsBn b → val (add a b) ≡ (val a + val b) % capacity
val-add a b h k = rw (
  add-eq-add_plain a b h k,
  add_plain-mod 0 a b (omega arith) (h.size ∙ sym k.size) h.words k.words,
  base-pow-length a h,
  add-zero,
)

-- Where the sum fits, it is exact.
pub val-add_exact :
    (a b : Bn) → IsBn a → IsBn b → val a + val b < capacity → val (add a b) ≡ val a + val b
val-add_exact a b h k fits = val-add a b h k ∙ mod-eq_of_lt fits

inc-balance :
    (n : List ℕ)
    → AreWords n
    → (k : ℕ) × (val (inc n) + k * base ^ length n ≡ val n + 1)
      × (length (inc n) ≡ length n)
      × AreWords (inc n)
unfolding inc val
inc-balance [] h = (1, omega arith, refl, tt)
inc-balance (w ∷ ws) h =
    let (k, e, l, r) = inc-balance ws h.1 in
    elim (Bool-cases (ltb w (u32 (w + 1)))) [
      | inl stop ↦ rw stop (0, ground arith, refl, (omega arith, h.1))
      | inr wrap ↦ rw wrap (
        k,
        omega
            (arith, ltb→ge w (u32 (w + 1)) wrap, ap (λ (t : ℕ). k * t) (pow-suc base (length ws))),
        ap suc l,
        (omega arith, r),
      )
    ]

pub inc-IsBn : (n : Bn) → IsBn n → IsBn (inc n)
inc-IsBn n h = let (k, e, l, r) = inc-balance n h.words in record { size = l ∙ h.size; words = r }

-- `bignum_inc` adds 1, modulo the capacity.
pub val-inc : (n : Bn) → IsBn n → val (inc n) ≡ (val n + 1) % capacity
val-inc n h =
    let (k, e, l, r) = inc-balance n h.words in
    rw (base-pow-length n h) at (mod_unique (base ^ length n) _ k _ e (rw l at (val-lt (inc n) r)))
