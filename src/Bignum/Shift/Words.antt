-- ===== src/Bignum/Shift/Words.antt =====
-- Shifts by whole words.
use tetd_test.Base.{
  ℕ, zero, suc, ◌-◌, ◌*◌, ◌%◌, ◌^◌, ◌≤◌, ◌≡◌, refl, ap, ◌∙◌, List, [], ◌∷◌, ◌++◌, arith, ltb, leb,
  if◌then◌else◌, get_or, take, replicate, length, length-set, length-take, length-append,
  length-replicate, get_or-set, get_or_past, get_or_ext,
}
use native.Mathlib.Nat.{sub-zero, suc-sub-suc}
use tetd_test.Bignum.{bn_array_size, Bn}
use tetd_test.Bignum.Value.{
  base, val, IsBn, capacity, val-append, val-zeros, val-take_array, AreWords-take, AreWords-append,
  AreWords-zeros,
}
use tetd_test.Bignum.Shift.{lshift_word_loop, lshift_word}

length-lshift_word_loop : (i n : ℕ) (a : Bn) → length (lshift_word_loop i n a) ≡ length a
unfolding lshift_word_loop
length-lshift_word_loop zero n a = refl
length-lshift_word_loop (suc i) n a = length-lshift_word_loop i n _ ∙ length-set a i _

lshift_word_loop-get_or :
    (i n : ℕ) (a : Bn) (j : ℕ)
    → i ≤ length a
    → get_or (lshift_word_loop i n a) j 0
      ≡ (if ltb j i then if leb n j then get_or a (j - n) 0 else 0 else get_or a j 0)
unfolding lshift_word_loop
lshift_word_loop-get_or zero n a j h = ground arith
lshift_word_loop-get_or (suc i) n a j h =
    lshift_word_loop-get_or i n _ j (rw length-set (omega arith))
    ∙ rw (get_or-set a i _ (j - n) 0 h, get_or-set a i _ j 0 h) (ground arith)

get_or-take :
    (m : ℕ) (l : List ℕ) (j : ℕ) → get_or (take m l) j 0 ≡ (if ltb j m then get_or l j 0 else 0)
get_or-take zero l j = ground arith
get_or-take (suc m) [] j = ground arith
get_or-take (suc m) (x ∷ l) zero = ground arith
get_or-take (suc m) (x ∷ l) (suc j) = get_or-take m l j ∙ ground arith

get_or-pad :
    (n : ℕ) (l : List ℕ) (j : ℕ)
    → get_or (replicate n 0 ++ l) j 0 ≡ (if leb n j then get_or l (j - n) 0 else 0)
get_or-pad zero l j = ground (arith, sub-zero j)
get_or-pad (suc n) l zero = ground arith
get_or-pad (suc n) l (suc j) = get_or-pad n l j ∙ rw suc-sub-suc (ground arith)

-- `_lshift_word` puts the cleared words below and drops the same number at the top.
pub lshift_word-eq-pad :
    (a : Bn) (n : ℕ) → IsBn a → lshift_word a n ≡ take bn_array_size (replicate n 0 ++ a)
unfolding lshift_word
lshift_word-eq-pad a n h =
    get_or_ext 0 _ _
      (rw (length-lshift_word_loop, length-take, length-append, length-replicate)
        (omega (arith, h.size)))
      λ j.
        rw
          (
            lshift_word_loop-get_or 97 n a j (omega (arith, h.size)),
            get_or-take 97 _ j,
            get_or-pad n a j,
          )
          (ground (arith, get_or_past a j 0, h.size))

pub lshift_word-IsBn : (a : Bn) (n : ℕ) → IsBn a → IsBn (lshift_word a n)
lshift_word-IsBn a n h = rw (lshift_word-eq-pad a n h) (record {
  size = rw (length-take, length-append, length-replicate) (omega (arith, h.size));
  words =
      AreWords-take bn_array_size _ (AreWords-append (replicate n 0) a (AreWords-zeros n) h.words);
})

-- `_lshift_word` multiplies by a power of 2 ^ 32, modulo the capacity, for every number of words.
pub val-lshift_word :
    (a : Bn) (n : ℕ) → IsBn a → val (lshift_word a n) ≡ (val a * base ^ n) % capacity
val-lshift_word a n h = rw (lshift_word-eq-pad a n h) (
    val-take_array _ (AreWords-append (replicate n 0) a (AreWords-zeros n) h.words)
      (rw (length-append, length-replicate) (omega (arith, h.size)))
    ∙ ap (λ t. t % capacity) padded)
  where
    padded : val (replicate n 0 ++ a) ≡ val a * base ^ n
    padded =
        rw (val-append (replicate n 0) a, val-zeros n, length-replicate {A = ℕ} n 0) (omega arith)
