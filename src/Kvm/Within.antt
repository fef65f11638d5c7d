-- ===== src/Kvm/Within.antt =====
-- `realm_tear_down_rtt_level` destroys no table that reaches out of its range.
use tetd_test.Base.{
  ℕ, zero, suc, ◌+◌, ◌-◌, ◌*◌, ◌/◌, ◌%◌, ◌^◌, ◌<◌, ◌≤◌, ◌≡◌, sym, ap, ◌∙◌, Bool, true, false, ltb,
  leb, ◌==◌, if◌then◌else◌, [], ◌∷◌, arith, div_unique, Bool-cases, inl, inr,
}
use native.Mathlib.Nat.{div-add-mod', mod-lt}
use tetd_test.Rmm.Outcome.{rmi_success}
use tetd_test.Kvm.{
  Call, rtt_destroy, Reply, Trace, Realm, after, return_status, align_up, rme_rtt_level_mapsize,
}
use tetd_test.Kvm.Pages.{undelegate_page}
use tetd_test.Kvm.Ranges.{
  Ending, ended, failed, no_fuel, Step, stop, go, deeper, ended_then, resume, lower,
  tear_down_reply, tear_down_step, realm_tear_down_rtt_level, realm_tear_down_rtt_range,
}

size-bounds :
    (level : ℕ)
    → leb level 3 ≡ true
    → (0 < rme_rtt_level_mapsize level) × (rme_rtt_level_mapsize level ≤ 2 ^ 39)
unfolding rme_rtt_level_mapsize
size-bounds zero h = (omega arith, omega arith)
size-bounds (suc zero) h = (omega arith, omega arith)
size-bounds (suc (suc zero)) h = (omega arith, omega arith)
size-bounds (suc (suc (suc zero))) h = (omega arith, omega arith)
size-bounds (suc (suc (suc (suc n)))) h = absurd (ground arith)

no_wrap : (x s : ℕ) → x < 2 ^ 62 → s ≤ 2 ^ 39 → (x + s - 1) % 2 ^ 64 ≡ x + s - 1
no_wrap x s h k = omega arith

next-bounds : (addr s : ℕ) → 0 < s → s ≤ 2 ^ 39 → addr + 1 < 2 ^ 62 → addr < align_up (addr + 1) s
unfolding align_up
next-bounds addr s p b h =
    let d = div-add-mod' (addr + 1 + s - 1) s in
    let m = mod-lt (addr + 1 + s - 1) p in rw (no_wrap (addr + 1) s h b) (omega arith)

next-exact :
    (addr s : ℕ)
    → 0 < s
    → s ≤ 2 ^ 39
    → addr + 1 < 2 ^ 62
    → align_up addr s ≡ addr
    → align_up (addr + 1) s ≡ addr + s
unfolding align_up
next-exact addr s p b h e =
    let k = (addr + s - 1) / s in
    let e1 : (k * s ≡ addr) = ap (λ x. x / s * s) (sym (no_wrap addr s (omega arith) b)) ∙ e in
    let q : (k + 1 ≡ (addr + 1 + s - 1) / s) =
      div_unique s (k + 1) 0 (addr + 1 + s - 1) (omega arith) p in
    rw (no_wrap (addr + 1) s h b) (rw (← q) (omega arith))

-- The monitor never says that a destroyed table ended before it began.
abbrev pub IsForward : (Trace → Call → Reply) → Type 0
IsForward answer =
    (t : Trace) (ipa level : ℕ)
    → (if return_status (answer t (rtt_destroy ipa level)).ret == rmi_success
        then leb ipa (answer t (rtt_destroy ipa level)).top
        else true)
      ≡ true

module _ (lo hi : ℕ) where
  -- Every table that was to be destroyed was one of addresses from `lo` up to `hi`.
  abbrev pub destroys_within : Trace → Bool
  destroys_within [] = true
  destroys_within ((rtt_destroy ipa level, a) ∷ t) =
      if leb lo ipa
      then (if leb (ipa + rme_rtt_level_mapsize (level - 1)) hi then destroys_within t else false)
      else false
  destroys_within ((c, a) ∷ t) = destroys_within t

  -- A round keeps to the range, and so do the ranges and addresses that it goes on with.
  abbrev keeps_within : Step → Bool
  keeps_within (stop e r) = destroys_within r.trace
  keeps_within (go next r) = if leb lo next then destroys_within r.trace else false
  keeps_within (deeper base top next r) =
      if leb lo base
      then (if leb top hi then if leb lo next then destroys_within r.trace else false else false)
      else false

  module _ (answer : Trace → Call → Reply) (forward : IsForward answer) (low : hi < 2 ^ 61) where
    undelegate-within :
        (phys : ℕ) (r : Realm)
        → destroys_within (undelegate_page answer phys r).trace ≡ destroys_within r.trace
    unfolding undelegate_page
    undelegate-within phys r = ground arith

    reply-within :
        (level addr next : ℕ) (a : Reply) (r : Realm)
        → leb lo addr ≡ true
        → leb next hi ≡ true
        → (if return_status a.ret == rmi_success then leb addr a.top else true) ≡ true
        → destroys_within r.trace ≡ true
        → keeps_within (tear_down_reply answer level addr next a r) ≡ true
    unfolding tear_down_reply
    reply-within level addr next a r h k f w = ground (arith, undelegate-within a.out r)

    -- A round at an address below the end, by what is known of the next one.
    round-within :
        (level addr end next aligned : ℕ) (r : Realm)
        → leb lo addr ≡ true
        → leb end hi ≡ true
        → addr < next
        → (aligned ≡ addr → next ≡ addr + rme_rtt_level_mapsize (level - 1))
        → destroys_within r.trace ≡ true
        → keeps_within (
            if (if leb next end then aligned == addr else false)
            then tear_down_reply answer level addr next
                (answer r.trace (rtt_destroy addr level))
                (after answer (rtt_destroy addr level) r)
            else deeper addr (lower next end) next r)
          ≡ true
    round-within level addr end next aligned r h k l e w =
        elim (Bool-cases (if leb next end then aligned == addr else false)) [
          | inl q ↦
              let exact : (next ≡ addr + rme_rtt_level_mapsize (level - 1)) =
                e (ground (arith, q)) in
              rw q (
                reply-within level addr next (answer r.trace (rtt_destroy addr level))
                  (after answer (rtt_destroy addr level) r) h (ground (arith, q))
                  (forward r.trace addr level) (ground (arith, q, exact)))
          | inr q ↦ rw q (ground arith)
        ]

    step-within :
        (level addr end : ℕ) (r : Realm)
        → ltb 0 level ≡ true
        → leb lo addr ≡ true
        → leb end hi ≡ true
        → destroys_within r.trace ≡ true
        → keeps_within (tear_down_step answer level addr end r) ≡ true
    unfolding tear_down_step
    step-within level addr end r p h k w = elim (Bool-cases (ltb 3 level)) [
      | inl q ↦ rw q w
      | inr q ↦ rw q (elim (Bool-cases (ltb addr end)) [
        | inl l ↦
            let s = rme_rtt_level_mapsize (level - 1) in
            let b = size-bounds (level - 1) (ground arith) in
            let room : (addr + 1 < 2 ^ 62) = ground arith in
            rw l (
              round-within level addr end (align_up (addr + 1) s) (align_up addr s) r h k
                (next-bounds addr s (b.0) (b.1) room) (next-exact addr s (b.0) (b.1) room) w)
        | inr l ↦ rw l w
      ])
    ]

    abbrev Within : Ending × Realm → Type 0
    Within x = destroys_within (x.1).trace ≡ true

    ended_then-Within :
        (x : Ending × Realm) (next : Realm → Ending × Realm)
        → Within x
        → ((r : Realm) → destroys_within r.trace ≡ true → Within (next r))
        → Within (ended_then x next)
    ended_then-Within (ended c, r) next b h = h r b
    ended_then-Within (failed e, r) next b h = b
    ended_then-Within (no_fuel, r) next b h = b

    resume-Within :
        (s : Step) (go_on : ℕ → Realm → Ending × Realm)
        (below : (base top : ℕ) → Realm → Ending × Realm)
        → keeps_within s ≡ true
        → ((next : ℕ) (r : Realm)
            → leb lo next ≡ true
            → destroys_within r.trace ≡ true
            → Within (go_on next r))
        → ((base top : ℕ) (r : Realm)
            → leb lo base ≡ true
            → leb top hi ≡ true
            → destroys_within r.trace ≡ true
            → Within (below base top r))
        → Within (resume s go_on below)
    resume-Within (stop e r) go_on below w g d = w
    resume-Within (go next r) go_on below w g d = g next r (ground (arith, w)) (ground (arith, w))
    resume-Within (deeper base top next r) go_on below w g d =
        ended_then-Within (below base top r) (go_on next)
          (d base top r (ground (arith, w)) (ground (arith, w)) (ground (arith, w)))
          (λ r. g next r (ground (arith, w)))

    level-Within :
        (fuel level addr end : ℕ) (r : Realm)
        → ltb 0 level ≡ true
        → leb lo addr ≡ true
        → leb end hi ≡ true
        → destroys_within r.trace ≡ true
        → Within (realm_tear_down_rtt_level answer fuel level addr end r)
    unfolding realm_tear_down_rtt_level
    level-Within zero level addr end r p h k w = w
    level-Within (suc f) level addr end r p h k w =
        resume-Within (tear_down_step answer level addr end r) _ _
          (step-within level addr end r p h k w)
          (λ next r l w. level-Within f level next end r p l k w)
          (λ base top r l t w. level-Within f (level + 1) base top r (ground arith) l t w)

-- For a range that ends below 2 ^ 61, and a monitor that never says that a destroyed table ended
-- before it began, every table that `realm_tear_down_rtt_range` asks to be destroyed, at any
-- point of its course, is one whose addresses lie in the range, if it was so before.
pub realm_tear_down_rtt_range-within :
    (answer : Trace → Call → Reply) (fuel start_level start end : ℕ) (r : Realm)
    → IsForward answer
    → end < 2 ^ 61
    → destroys_within start end r.trace ≡ true
    → destroys_within start end
        ((realm_tear_down_rtt_range answer fuel start_level start end r).1).trace
      ≡ true
unfolding realm_tear_down_rtt_range
realm_tear_down_rtt_range-within answer fuel start_level start end r forward low w =
    level-Within start end answer forward low fuel (start_level + 1) start end r (ground arith)
      (ground arith) (ground arith) w
