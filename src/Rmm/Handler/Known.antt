-- ===== src/Rmm/Handler/Known.antt =====
-- The function identifiers that are answered.
use tetd_test.Base.{
  ℕ, ◌+◌, ◌-◌, ◌*◌, ◌/◌, ◌%◌, ◌^◌, ◌<◌, ◌≤◌, ◌≡◌, refl, sym, ap, ap₂, ◌∙◌, Bool, true, not, ◌==◌,
  if◌then◌else◌, arith, bit_and, bit_and-IsDigitwise, digitwise-split, bit_and-ones, bit_and-zero,
  Bool-cases, inl, inr, Option, none, some, get_or, [],
}
use Prim.Native.Nat.{min}
use tetd_test.Rmm.Interface.{Layer, World}
use tetd_test.Rmm.Outcome.{Outcome, Res}
use tetd_test.Rmm.Handler.{
  Others, handled, handle_ns_smc, call_handler, handler_of, rmi_fid, smc_sve_hint, function_number,
  not_32, is_rmi_fid, rmi_handler_id, smc_handlers, Handler, check_slots, run_handler,
}
use tetd_test.Rmm.Handler.Dispatch.{with_hint}

-- The fields of an identifier: the number, the bit of the SVE hint, and the rest.
abbrev fields : (number hint rest : ℕ) → ℕ
fields number hint rest = number + 2 ^ 16 * (hint + 2 ^ 1 * rest)

module _ (number hint rest : ℕ) (number-lt : number < 2 ^ 16) (hint-lt : hint < 2 ^ 1)
    (rest-lt : rest < 2 ^ 15) where
  and_fields :
      (n h r : ℕ)
      → n < 2 ^ 16
      → h < 2 ^ 1
      → bit_and (fields number hint rest) (fields n h r)
        ≡ fields (bit_and number n) (bit_and hint h) (bit_and rest r)
  and_fields n h r ln lh =
      digitwise-split bit_and min bit_and-IsDigitwise 16 number (hint + 2 ^ 1 * rest) n
        (h + 2 ^ 1 * r) number-lt ln
      ∙ ap (λ (t : ℕ). bit_and number n + 2 ^ 16 * t)
          (digitwise-split bit_and min bit_and-IsDigitwise 1 hint rest h r hint-lt lh)

  number_of : function_number (fields number hint rest) ≡ number
  number_of =
      and_fields (2 ^ 16 - 1) 0 0 (omega arith) (omega arith)
      ∙ omega (
        arith,
        bit_and-ones 16 number number-lt,
        bit_and-zero 1 hint hint-lt,
        bit_and-zero 15 rest rest-lt,
      )

  rest_of : bit_and (fields number hint rest) (not_32 (2 ^ 16 - 1)) ≡ 2 ^ 16 * (hint + 2 ^ 1 * rest)
  rest_of =
      and_fields 0 1 (2 ^ 15 - 1) (omega arith) (omega arith)
      ∙ omega (
        arith,
        bit_and-zero 16 number number-lt,
        bit_and-ones 1 hint hint-lt,
        bit_and-ones 15 rest rest-lt,
      )

  hint_of : bit_and (fields number hint rest) smc_sve_hint ≡ 2 ^ 16 * hint
  hint_of =
      and_fields 0 1 0 (omega arith) (omega arith)
      ∙ omega (
        arith,
        bit_and-zero 16 number number-lt,
        bit_and-ones 1 hint hint-lt,
        bit_and-zero 15 rest rest-lt,
      )

  cleared_of : bit_and (fields number hint rest) (not_32 smc_sve_hint) ≡ fields number 0 rest
  cleared_of =
      and_fields (2 ^ 16 - 1) 0 (2 ^ 15 - 1) (omega arith) (omega arith)
      ∙ omega (
        arith,
        bit_and-ones 16 number number-lt,
        bit_and-zero 1 hint hint-lt,
        bit_and-ones 15 rest rest-lt,
      )

fields_of : (fid : ℕ) → fid ≡ fields (fid % 2 ^ 16) (fid / 2 ^ 16 % 2) (fid / 2 ^ 17)
fields_of fid = omega arith

-- An identifier of the range, without the hint.
is_rmi_fid-eq_fid :
    (number rest : ℕ)
    → number < 2 ^ 16
    → rest < 2 ^ 15
    → is_rmi_fid (fields number 0 rest) ≡ true
    → fields number 0 rest ≡ rmi_fid (rmi_handler_id (fields number 0 rest))
is_rmi_fid-eq_fid number rest ln lr h =
    let n = number_of number 0 rest ln (omega arith) lr in
    let r = rest_of number 0 rest ln (omega arith) lr in
    let e : bit_and (fields number 0 rest) (not_32 (2 ^ 16 - 1)) ≡ 2 ^ 30 + 2 ^ 31 + 4 * 2 ^ 24 =
      ground arith in
    let le : 336 ≤ function_number (fields number 0 rest) = ground arith in
    omega (arith, n, r, e, le)

-- The hint, and the identifier without it.
abbrev has_hint : ℕ → Bool
has_hint fid = not (bit_and fid smc_sve_hint == 0)

abbrev without_hint : ℕ → ℕ
without_hint fid = if has_hint fid then bit_and fid (not_32 smc_sve_hint) else fid

without_hint-eq_fields :
    (fid : ℕ) → fid < 2 ^ 32 → without_hint fid ≡ fields (fid % 2 ^ 16) 0 (fid / 2 ^ 17)
without_hint-eq_fields fid lt =
    let s = fields_of fid in
    let hint =
      ap (λ (f : ℕ). bit_and f smc_sve_hint) s
      ∙ hint_of (fid % 2 ^ 16) (fid / 2 ^ 16 % 2) (fid / 2 ^ 17) (omega arith) (omega arith)
          (omega arith) in
    let cleared =
      ap (λ (f : ℕ). bit_and f (not_32 smc_sve_hint)) s
      ∙ cleared_of (fid % 2 ^ 16) (fid / 2 ^ 16 % 2) (fid / 2 ^ 17) (omega arith) (omega arith)
          (omega arith) in
    ground (arith, s, hint, cleared)

with_hint-without : (fid : ℕ) → fid < 2 ^ 32 → fid ≡ with_hint (has_hint fid) (without_hint fid)
with_hint-without fid lt =
    let s = fields_of fid in
    let hint =
      ap (λ (f : ℕ). bit_and f smc_sve_hint) s
      ∙ hint_of (fid % 2 ^ 16) (fid / 2 ^ 16 % 2) (fid / 2 ^ 17) (omega arith) (omega arith)
          (omega arith) in
    ground (arith, s, hint, without_hint-eq_fields fid lt)

module _ (l : Layer) (w : World) (others : Others) (use_at_rel2 : Bool) where
  -- What an answer tells of a handler.
  Called :
      (handler : Option Handler) (fid a b c d e : ℕ) (res : Res) (hint : Bool) (o : Outcome Res)
      → Bool
      → Type 0
  Called handler fid a b c d e res hint o test =
      (h : Handler) × (handler ≡ some h)
      × (test ≡ hint)
      × (o ≡ check_slots [] (run_handler h a b c d e res))

  call_handler-Called :
      (handler : Option Handler) (fid a b c d e : ℕ) (res : Res) (hint saved : Bool)
      (o : Outcome Res) (test : Bool)
      → call_handler l w others use_at_rel2 handler test fid a b c d e res ≡ handled hint saved o
      → Called handler fid a b c d e res hint o test
  unfolding call_handler Called
  call_handler-Called none fid a b c d e res hint saved o test q = absurd (ground arith)
  call_handler-Called (some h) fid a b c d e res hint saved o test q =
      (h, refl, ground arith, ground arith)

  handler_of-found :
      (fid : ℕ) (h : Handler)
      → handler_of l w others fid ≡ some h
      → (is_rmi_fid fid ≡ true)
        × (get_or (smc_handlers l w others) (rmi_handler_id fid) none ≡ some h)
  unfolding handler_of
  handler_of-found fid h q = elim (Bool-cases (is_rmi_fid fid)) [
    | inl t ↦ (t, (sym (rw t refl)) ∙ q)
    | inr f ↦
        let e : handler_of l w others fid ≡ none = rw f refl in
        let clash : none ≡ some h = sym e ∙ q in absurd (ground arith)
  ]

  -- When `handle_ns_smc` does not answer that a 32-bit function identifier is unknown, it is that
  -- of a call in the table of handlers, with the SVE hint if the hint is passed on and without it
  -- otherwise, and the call is the one at its number in the table.
  pub handle_ns_smc-known :
      (fid a b c d e : ℕ) (res : Res) (hint saved : Bool) (o : Outcome Res)
      → fid < 2 ^ 32
      → handle_ns_smc l w others use_at_rel2 fid a b c d e res ≡ handled hint saved o
      → (number : ℕ) × (h : Handler) × (fid ≡ with_hint hint (rmi_fid number))
        × (get_or (smc_handlers l w others) number none ≡ some h)
        × (o ≡ check_slots [] (run_handler h a b c d e res))
  unfolding handle_ns_smc Called
  handle_ns_smc-known fid a b c d e res hint saved o lt q =
      let r =
        call_handler-Called (handler_of l w others (without_hint fid)) (without_hint fid) a b c d e
          res hint saved o (has_hint fid) q in
      let found = handler_of-found (without_hint fid) (r.0) (r.1) in
      let s = without_hint-eq_fields fid lt in
      let number =
        s
        ∙ is_rmi_fid-eq_fid (fid % 2 ^ 16) (fid / 2 ^ 17) (omega arith) (omega arith)
            (ap is_rmi_fid (sym s) ∙ found.0)
        ∙ ap (λ (f : ℕ). rmi_fid (rmi_handler_id f)) (sym s) in
      (
        rmi_handler_id (without_hint fid),
        r.0,
        with_hint-without fid lt ∙ ap₂ with_hint (r.2) number,
        found.1,
        r.3,
      )
