-- ===== src/Kvm/Hangs.antt =====
-- `realm_fold_rtt_level` on tables that the monitor refuses to fold.
use tetd_test.Base.{
  ℕ, zero, suc, ◌+◌, ◌-◌, ◌*◌, ◌≡◌, refl, Bool, true, false, ◌==◌, ltb, if◌then◌else◌, arith, inl,
  inr, Bool-cases,
}
use tetd_test.Rmm.Outcome.{rmi_error_rtt}
use tetd_test.Kvm.{Call, rtt_fold, Reply, Trace, Realm, after, align_up, rme_rtt_level_mapsize}
use tetd_test.Kvm.Ranges.{Ending, ended, failed, no_fuel}
use tetd_test.Kvm.Fold.{
  stop, go, deeper, after_below, fold_step, realm_fold_rtt_level, realm_fold_rtt_range,
}

abbrev has_failed : Ending → Bool
has_failed (failed e) = true
has_failed _ = false

-- The loop has not ended, or says that all its tables are folded.
abbrev is_done : Ending → Bool
is_done no_fuel = true
is_done (ended c) = c == 0
is_done (failed e) = false

-- The monitor answers that the table of the level cannot be folded.
abbrev pub Refuses : (Trace → Call → Reply) → Type 0
Refuses answer =
    (t : Trace) (ipa level : ℕ) → (answer t (rtt_fold ipa level)).ret ≡ level * 256 + rmi_error_rtt

module _ (answer : Trace → Call → Reply) (refuses : Refuses answer) where
  abbrev next_of : (level addr : ℕ) → ℕ
  next_of level addr = align_up (addr + 1) (rme_rtt_level_mapsize (level - 1))

  abbrev asked : (level addr : ℕ) → Realm → Realm
  asked level addr r =
      after answer (rtt_fold (align_up addr (rme_rtt_level_mapsize (level - 1))) level) r

  step-deeper :
      (level addr end c : ℕ) (r : Realm)
      → ltb level 3 ≡ true
      → ltb addr end ≡ true
      → fold_step answer level addr end c r ≡ deeper addr (next_of level addr) (asked level addr r)
  unfolding fold_step
  step-deeper level addr end c r h k =
      let a = refuses r.trace (align_up addr (rme_rtt_level_mapsize (level - 1))) level in
      ground arith

  step-ends :
      (level addr end c : ℕ) (r : Realm)
      → ltb level 4 ≡ true
      → ltb addr end ≡ false
      → fold_step answer level addr end c r ≡ stop (ended c) r
  unfolding fold_step
  step-ends level addr end c r h k = ground arith

  step_last-goes :
      (addr end c : ℕ) (r : Realm)
      → ltb addr end ≡ true
      → fold_step answer 3 addr end c r ≡ go (next_of 3 addr) (c + 1) (asked 3 addr r)
  unfolding fold_step
  step_last-goes addr end c r k =
      let a = refuses r.trace (align_up addr (rme_rtt_level_mapsize 2)) 3 in ground arith

  last-ends :
      (fuel addr end c : ℕ) (r : Realm)
      → has_failed ((realm_fold_rtt_level answer fuel 3 addr end c r).0) ≡ false
  unfolding realm_fold_rtt_level
  last-ends zero addr end c r = refl
  last-ends (suc f) addr end c r = elim (Bool-cases (ltb addr end)) [
    | inl h ↦
        rw (step_last-goes addr end c r h)
          (last-ends f (next_of 3 addr) end (c + 1) (asked 3 addr r))
    | inr h ↦ rw (step-ends 3 addr end c r refl h) refl
  ]

  after_last-is_done :
      (x : Ending × Realm) (addr next : ℕ) (go_on : ℕ → ℕ → Realm → Ending × Realm)
      → has_failed (x.0) ≡ false
      → ((at : ℕ) (r : Realm) → is_done ((go_on at 0 r).0) ≡ true)
      → is_done ((after_below x addr next 0 go_on).0) ≡ true
  after_last-is_done (ended c, r) addr next go_on h g = g (if c == 0 then addr else next) r
  after_last-is_done (failed e, r) addr next go_on h g = absurd (ground arith)
  after_last-is_done (no_fuel, r) addr next go_on h g = refl

  middle-is_done :
      (fuel addr end : ℕ) (r : Realm)
      → is_done ((realm_fold_rtt_level answer fuel 2 addr end 0 r).0) ≡ true
  unfolding realm_fold_rtt_level
  middle-is_done zero addr end r = refl
  middle-is_done (suc f) addr end r = elim (Bool-cases (ltb addr end)) [
    | inl h ↦ rw (step-deeper 2 addr end 0 r refl h) (
        after_last-is_done
          (realm_fold_rtt_level answer f 3 addr (next_of 2 addr) 0 (asked 2 addr r)) addr
          (next_of 2 addr) _ (last-ends f addr (next_of 2 addr) 0 (asked 2 addr r))
          λ at r. middle-is_done f at end r)
    | inr h ↦ rw (step-ends 2 addr end 0 r refl h) refl
  ]

  after_middle-hangs :
      (x : Ending × Realm) (addr next : ℕ) (go_on : ℕ → ℕ → Realm → Ending × Realm)
      → is_done (x.0) ≡ true
      → ((r : Realm) → (go_on addr 0 r).0 ≡ no_fuel)
      → (after_below x addr next 0 go_on).0 ≡ no_fuel
  after_middle-hangs (ended c, r) addr next go_on h g =
      let e : (c == 0 ≡ true) = h in rw (e, after_below) (g r)
  after_middle-hangs (failed e, r) addr next go_on h g = absurd (ground arith)
  after_middle-hangs (no_fuel, r) addr next go_on h g = refl

  top-hangs :
      (fuel addr end : ℕ) (r : Realm)
      → ltb addr end ≡ true
      → (realm_fold_rtt_level answer fuel 1 addr end 0 r).0 ≡ no_fuel
  unfolding realm_fold_rtt_level
  top-hangs zero addr end r h = refl
  top-hangs (suc f) addr end r h = rw (step-deeper 1 addr end 0 r refl h) (
      after_middle-hangs (realm_fold_rtt_level answer f 2 addr (next_of 1 addr) 0 (asked 1 addr r))
        addr (next_of 1 addr) _ (middle-is_done f addr (next_of 1 addr) (asked 1 addr r))
        λ r. top-hangs f addr end r h)

  -- For a realm whose tables start at level 0, and a monitor that refuses to fold every table
  -- with the error of its level, `realm_fold_rtt_range` never ends, however many rounds it may
  -- make: the loop of level 1 calls that of level 2 again and again, which does not count the
  -- tables that level 3 could not fold.
  pub realm_fold_rtt_range-hangs :
      (fuel start end : ℕ) (r : Realm)
      → ltb start end ≡ true
      → (realm_fold_rtt_range answer fuel 0 start end r).0 ≡ no_fuel
  unfolding realm_fold_rtt_range
  realm_fold_rtt_range-hangs fuel start end r h = top-hangs fuel start end r h
