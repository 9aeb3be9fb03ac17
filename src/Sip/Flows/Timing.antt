-- ===== src/Sip/Flows/Timing.antt =====
-- src/sip.rs: when the requests of an established call are sent.
use sipbot.Prelude.{
  ℕ, ◌+◌, ◌≤◌, ◌≡◌, max, refl, ap, subst, arith, Bool, true, false, Option, none, some, List, [],
  ◌∷◌, map, All, Bool-cases, inl, inr,
}
use sipbot.Prelude.Text.{Text}
use sipbot.Config.Account.{AccountConfig}
use sipbot.Config.Flows.{
  Parsed, ok, failed, panicked, ◌>>=◌, parse_dtmf_flows, parse_reinvite_flows, parse_transfer_flows,
  parse_info_flows,
}
use sipbot.Sip.Flows.{
  is_before, run_gaps, run_offsets, Request, dtmf, hold, resume, refer, refer_to, info, Ending,
  end_of, delay_of, takes_of, requests, gap_flow, offset_flow, refer_once, dtmf_request,
  reinvite_request, refer_request, info_request, established, flows_of,
}

-- The times are in order, none is before `from`, and all are before the end.
abbrev pub IsTimely {ℓ} : {A : Type ℓ} → Option ℕ → ℕ → List (ℕ × A) → Type 0
IsTimely stop from [] = Unit
IsTimely stop from ((at, a) ∷ xs) = (from ≤ at) × ((is_before at stop ≡ true) × IsTimely stop at xs)

pub is_before-later : (m k : ℕ) (o : Option ℕ) → is_before m o ≡ false → is_before (m + k) o ≡ false
is_before-later m k none h = h
is_before-later m k (some stop) h = ground (arith, h)

IsTimely-weaken {ℓ} :
    {A : Type ℓ} (stop : Option ℕ) (m n : ℕ) (xs : List (ℕ × A))
    → m ≤ n
    → IsTimely stop n xs
    → IsTimely stop m xs
IsTimely-weaken stop m n [] h t = tt
IsTimely-weaken stop m n ((at, a) ∷ xs) h (le, rest) = (omega (arith, h, le), rest)

module _ {Entry : Type 0} (delay takes : Entry → ℕ) where
  run_gaps-IsTimely :
      (stop : Option ℕ) (now : ℕ) (es : List Entry)
      → IsTimely stop now (run_gaps delay takes stop now es)
  unfolding run_gaps
  run_gaps-IsTimely stop now [] = tt
  run_gaps-IsTimely stop now (e ∷ es) =
      let at = now + delay e in
      elim (Bool-cases (is_before at stop)) [
        | inl t ↦
            let rest = run_gaps delay takes stop (at + takes e) es in
            rw t (
              omega arith,
              (
                t,
                IsTimely-weaken stop at (at + takes e) rest (omega arith)
                    (run_gaps-IsTimely stop (at + takes e) es),
              ),
            )
        | inr f ↦ rw f tt
      ]

  run_offsets-IsTimely :
      (stop : Option ℕ) (flow_start now : ℕ) (es : List Entry)
      → IsTimely stop now (run_offsets delay takes stop flow_start now es)
  unfolding run_offsets
  run_offsets-IsTimely stop flow_start now [] = tt
  run_offsets-IsTimely stop flow_start now (e ∷ es) =
      let at = max now (flow_start + delay e) in
      elim (Bool-cases (is_before at stop)) [
        | inl t ↦
            let rest = run_offsets delay takes stop flow_start (at + takes e) es in
            rw t (
              omega arith,
              (
                t,
                IsTimely-weaken stop at (at + takes e) rest (omega arith)
                    (run_offsets-IsTimely stop flow_start (at + takes e) es),
              ),
            )
        | inr f ↦ rw f tt
      ]

  -- Each delay can be kept: it is not over when the action before is.
  abbrev pub Fits : ℕ → List Entry → Type 0
  Fits now [] = Unit
  Fits now (e ∷ es) = (now ≤ delay e) × Fits (delay e + takes e) es

  -- Where no action lasts past the delay of the next, every action of a re-INVITE flow that nothing
  -- ends is taken, in order, at its own delay from the start of the flow.
  run_offsets-Fits :
      (now : ℕ) (es : List Entry)
      → Fits now es
      → run_offsets delay takes none 0 now es ≡ map (λ e. (delay e, e)) es
  unfolding run_offsets
  run_offsets-Fits now [] h = refl
  run_offsets-Fits now (e ∷ es) (le, h) =
      let at : max now (0 + delay e) ≡ delay e = omega (arith, le) in
      rw at (ap (λ rest. (delay e, e) ∷ rest) (run_offsets-Fits (delay e + takes e) es h))

-- A property of the result, if there is one.
abbrev Holds {ℓ} : {A : Type ℓ} → (A → Type 0) → Parsed A → Type 0
Holds P (ok a) = P a
Holds P failed = Unit
Holds P panicked = Unit

Holds->>= {ℓ κ} :
    {A : Type ℓ} {B : Type κ} (P : B → Type 0) (p : Parsed A) (f : A → Parsed B)
    → ((a : A) → Holds P (f a))
    → Holds P (p >>= f)
Holds->>= P (ok a) f h = h a
Holds->>= P failed f h = tt
Holds->>= P panicked f h = tt

module _ {F : Type 0} (parse_f64 : Text → Option F) (from_secs_f64 : F → Option ℕ)
    (is_uri : Text → Bool) (takes : Request → ℕ) where
  requests-IsTimely :
      (stop : Option ℕ) (from : ℕ) (es : List (ℕ × (ℕ × Request)))
      → IsTimely stop from es
      → IsTimely stop from (requests parse_f64 from_secs_f64 is_uri takes es)
  requests-IsTimely stop from [] h = tt
  requests-IsTimely stop from ((at, (d, refer target)) ∷ es) (le, (t, h)) =
      let rest = requests-IsTimely stop at es h in
      elim (Bool-cases (is_uri target)) [
        | inl e ↦ rw e (le, (t, rest))
        | inr e ↦ rw e (
            IsTimely-weaken stop from at (requests parse_f64 from_secs_f64 is_uri takes es) le rest)
      ]
  requests-IsTimely stop from ((at, (d, dtmf c)) ∷ es) (le, (t, h)) =
      (le, (t, requests-IsTimely stop at es h))
  requests-IsTimely stop from ((at, (d, hold)) ∷ es) (le, (t, h)) =
      (le, (t, requests-IsTimely stop at es h))
  requests-IsTimely stop from ((at, (d, resume)) ∷ es) (le, (t, h)) =
      (le, (t, requests-IsTimely stop at es h))
  requests-IsTimely stop from ((at, (d, refer_to x y)) ∷ es) (le, (t, h)) =
      (le, (t, requests-IsTimely stop at es h))
  requests-IsTimely stop from ((at, (d, info x y)) ∷ es) (le, (t, h)) =
      (le, (t, requests-IsTimely stop at es h))

  gap_flow-IsTimely :
      (stop : Option ℕ) (es : List (ℕ × Request))
      → IsTimely stop 0 (gap_flow parse_f64 from_secs_f64 is_uri takes stop es)
  unfolding gap_flow
  gap_flow-IsTimely stop es =
      let run =
        run_gaps-IsTimely (delay_of parse_f64 from_secs_f64 is_uri takes)
          (takes_of parse_f64 from_secs_f64 is_uri takes) stop 0 es in
      requests-IsTimely stop 0
        (run_gaps (delay_of parse_f64 from_secs_f64 is_uri takes)
          (takes_of parse_f64 from_secs_f64 is_uri takes) stop 0 es)
        run

  offset_flow-IsTimely :
      (stop : Option ℕ) (es : List (ℕ × Request))
      → IsTimely stop 0 (offset_flow parse_f64 from_secs_f64 is_uri takes stop es)
  unfolding offset_flow
  offset_flow-IsTimely stop es =
      let run =
        run_offsets-IsTimely (delay_of parse_f64 from_secs_f64 is_uri takes)
          (takes_of parse_f64 from_secs_f64 is_uri takes) stop 0 0 es in
      requests-IsTimely stop 0
        (run_offsets (delay_of parse_f64 from_secs_f64 is_uri takes)
          (takes_of parse_f64 from_secs_f64 is_uri takes) stop 0 0 es)
        run

  -- The requests of an established call are sent in the order of their times, flow by flow, and each
  -- before the call is over: before the time is up or the playback ends, before the other side hangs
  -- up, and before the call is cancelled.
  pub established-IsTimely :
      (a : AccountConfig) (e : Ending) (flows : List (List (ℕ × Request)))
      → established parse_f64 from_secs_f64 is_uri takes a e ≡ ok flows
      → All (λ flow. IsTimely (end_of e) 0 flow) flows
  unfolding established
  established-IsTimely a e flows h =
      let Timely : List (List (ℕ × Request)) → Type 0 =
        λ fs. All (λ flow. IsTimely (end_of e) 0 flow) fs in
      subst (Holds Timely) h (
        Holds->>= Timely (flows_of (parse_dtmf_flows parse_f64 from_secs_f64) a.dtmf_flows) _
          (λ dtmfs.
            Holds->>= Timely
              (flows_of (parse_reinvite_flows parse_f64 from_secs_f64) a.reinvite_flows) _
              (λ reinvites.
                Holds->>= Timely
                  (flows_of (parse_transfer_flows parse_f64 from_secs_f64) a.transfer_flows) _
                  (λ refers.
                    Holds->>= Timely
                      (flows_of (parse_info_flows parse_f64 from_secs_f64) a.info_flows) _
                      (λ infos. (
                        gap_flow-IsTimely (end_of e)
                            (map (dtmf_request parse_f64 from_secs_f64 is_uri takes) dtmfs),
                        (
                          offset_flow-IsTimely (end_of e) (
                              map (reinvite_request parse_f64 from_secs_f64 is_uri takes)
                                reinvites),
                          (
                            gap_flow-IsTimely (end_of e)
                                (map (refer_request parse_f64 from_secs_f64 is_uri takes) refers),
                            (
                              gap_flow-IsTimely (end_of e)
                                  (refer_once parse_f64 from_secs_f64 is_uri takes a),
                              (
                                gap_flow-IsTimely (end_of e)
                                    (map (info_request parse_f64 from_secs_f64 is_uri takes) infos),
                                tt,
                              ),
                            ),
                          ),
                        ),
                      ))))))
