-- ===== src/Sip/Runner/Pace.antt =====
-- src/sip.rs: when `run_call` places its calls, and when `run_wait` stops waiting.
use sipbot.Prelude.{
  ℕ, zero, suc, ◌+◌, ◌*◌, ◌≤◌, ◌<◌, ◌≡◌, ◌⊎◌, inl, inr, refl, subst, arith, Bool, true, false,
  Bool-cases, ltb, ◌==◌, ◌&&◌, ◌||◌, Option, none, some, get_elem?, if◌then◌else◌,
}
use native.Mathlib.Nat.{suc-mul}
use sipbot.Sip.Flows.{is_before}
use sipbot.Sip.Flows.Timing.{is_before-later}
use sipbot.Sip.Runner.{place_calls, drain}

next_time : (now delay i : ℕ) → now + suc i * delay ≡ now + delay + i * delay
next_time now delay i = let e = suc-mul i delay in omega (arith, e)

if_no {ℓ} : {A : Type ℓ} (b : Bool) (x : Option A) → none ≡ (if b && false then x else none)
if_no true x = refl
if_no false x = refl

first_or_later :
    (cancelled : Option ℕ) (now delay left i : ℕ)
    → is_before (now + delay) cancelled ≡ true
    → (if ltb i (suc left) && (i == 0 || is_before (now + delay + i * delay) cancelled)
        then some (now + delay + i * delay)
        else none)
      ≡ (if ltb i (suc left) && is_before (now + delay + i * delay) cancelled
          then some (now + delay + i * delay)
          else none)
first_or_later cancelled now delay left zero t =
    let z : now + delay + 0 * delay ≡ now + delay = omega arith in rw (z, t) refl
first_or_later cancelled now delay left (suc i) t =
    let positive : suc i == 0 ≡ false = ground arith in rw positive refl

-- The calls are placed one `delay` after another, the first at once: the call of number `i` is
-- placed if there are more than `i`, and, but for the first, if its time comes before the
-- cancellation.
pub get_elem?-place_calls :
    (cancelled : Option ℕ) (delay now total i : ℕ)
    → get_elem? (place_calls cancelled (some delay) now total) i ≡ (
        if ltb i total && (i == 0 || is_before (now + i * delay) cancelled)
        then some (now + i * delay)
        else none)
unfolding place_calls
get_elem?-place_calls cancelled delay now zero i = ground arith
get_elem?-place_calls cancelled delay now (suc zero) zero = ground arith
get_elem?-place_calls cancelled delay now (suc zero) (suc i) = ground arith
get_elem?-place_calls cancelled delay now (suc (suc left)) zero =
    elim (Bool-cases (is_before (now + delay) cancelled)) [
      | inl t ↦ rw t (ground arith)
      | inr f ↦ rw f (ground arith)
    ]
get_elem?-place_calls cancelled delay now (suc (suc left)) (suc i) =
    let m : now + suc i * delay ≡ now + delay + i * delay = next_time now delay i in
    let rest = get_elem?-place_calls cancelled delay (now + delay) (suc left) i in
    let positive : suc i == 0 ≡ false = ground arith in
    let fewer : ltb (suc i) (suc (suc left)) ≡ ltb i (suc left) = ground arith in
    elim (Bool-cases (is_before (now + delay) cancelled)) [
      | inl t ↦ rw (t, rest, m, positive, fewer) (first_or_later cancelled now delay left i t)
      | inr f ↦
          rw (f, m, is_before-later (now + delay) (i * delay) cancelled f, positive, fewer)
            (if_no (ltb i (suc left)) (some (now + delay + i * delay)))
    ]

-- from a round on, with as much fuel as rounds are left
drain-from :
    (current : ℕ → ℕ) (left from : ℕ)
    → left + from ≡ 50
    → ((k : ℕ) → (current k ≡ 0) → k < from → ⊥)
    → (w : ℕ) × (drain (suc left) current from ≡ some w)
      × (w ≤ 50)
      × ((current w ≡ 0) ⊎ (w ≡ 50))
      × ((k : ℕ) → (current k ≡ 0) → k < w → ⊥)
unfolding drain
drain-from current zero from e before =
    let last : ltb from 50 ≡ false = ground (arith, e) in
    elim (Bool-cases (ltb 0 (current from))) [
      | inl active ↦
          (from, rw (active, last) refl, omega (arith, e), inr (omega (arith, e)), before)
      | inr idle ↦ (from, rw (idle) refl, omega (arith, e), inr (omega (arith, e)), before)
    ]
drain-from current (suc left) from e before =
    let more : ltb from 50 ≡ true = ground (arith, e) in
    elim (Bool-cases (ltb 0 (current from))) [
      | inl active ↦
          let later : (k : ℕ) → (current k ≡ 0) → k < suc from → ⊥ = λ k z l.
            elim (Bool-cases (k == from)) [
              | inl here ↦
                  let h : k ≡ from = ground (arith, here) in
                  let z' : current from ≡ 0 = subst (λ j. current j ≡ 0) h z in
                  ground (arith, active, z')
              | inr there ↦ before k z (ground (arith, there, l))
            ] in
          let (w, d, bound, why, first) =
            drain-from current left (suc from) (omega (arith, e)) later in
          (w, rw (active, more) d, bound, why, first)
      | inr idle ↦ (from, rw idle refl, omega (arith, e), inl (ground (arith, idle)), before)
    ]

-- Waiting for the calls ends, after at most 50 rounds, whatever they do: with the first round that
-- finds none active, or after 50 that did not.
pub drain_ends :
    (current : ℕ → ℕ)
    → (w : ℕ) × (drain 51 current 0 ≡ some w)
      × (w ≤ 50)
      × ((current w ≡ 0) ⊎ (w ≡ 50))
      × ((k : ℕ) → (current k ≡ 0) → k < w → ⊥)
drain_ends current =
    let (w, d, bound, why, first) = drain-from current 50 0 refl (λ k e l. omega (arith, l)) in
    (w, d, bound, why, first)
