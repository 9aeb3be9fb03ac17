-- ===== src/Tests/Pace.antt =====
-- Concrete runs in time: the flows of a call, registrations, and the pace of calls.
use sipbot.Prelude.{
  ℕ, ◌≡◌, ◌⊎◌, ◌≤◌, ◌<◌, refl, arith, true, false, ltb, Option, none, some, List, [], ◌∷◌, All,
  get_elem?, or_else, ◌*◌, if◌then◌else◌,
}
use sipbot.Prelude.Text.{Text, codes, text_eq, trim, split, split_once}
use sipbot.Prelude.Decimal.{parse_uint, to_string}
use sipbot.Config.Account.{AccountConfig}
use sipbot.Config.Flows.{parse_transfer_flows, ok, parse_dtmf_flows}
use sipbot.Status.{lookup}
use sipbot.Sip.Flows.{
  answered_flows, refer, Ending, Request, dtmf, end_of, established, gap_flow, offset_flow,
  refer_once, run_gaps, run_offsets,
}
use sipbot.Sip.Flows.Timing.{IsTimely, established-IsTimely}
use sipbot.Sip.Registration.{RegisterResult, response, register_error, registration_loop}
use sipbot.Sip.Registration.Renewal.{
  IsRenewed, lookup_in, last_status, registration_loop-IsRenewed, lookup-registration_loop,
}
use sipbot.Sip.Runner.{place_calls, drain}
use sipbot.Sip.Runner.Pace.{get_elem?-place_calls, drain_ends}
use sipbot.Dtmf.Sdp.Caps.{free_pt, has}
use sipbot.Dtmf.Sdp.Caps.Free.{free_pt_ends}
use sipbot.Tests.Flows.{account}

-- seconds are printed whole, and are milliseconds where they are a duration
abbrev seconds : Text → Option ℕ
seconds s = parse_uint 1000000 s

abbrev duration : ℕ → Option ℕ
duration s = some (s * 1000)

abbrev dialing : AccountConfig
dialing = record account { dtmf_flows = some (codes "1s:1,5s:2") }

-- hung up after three seconds
abbrev ending : Ending
ending = record { after_secs = some 3; playback = none; remote_bye = some 9000; cancelled = none }

abbrev takes : Request → ℕ
takes request = 100

abbrev sent : List (List (ℕ × Request))
sent = ((1000, dtmf b'1') ∷ []) ∷ [] ∷ [] ∷ [] ∷ [] ∷ []

sent_run : established seconds duration (λ s. true) takes dialing ending ≡ ok sent
unfolding established gap_flow offset_flow refer_once run_gaps run_offsets end_of parse_dtmf_flows
    split split_once trim parse_uint
sent_run = refl

established-IsTimely_example : All (λ flow. IsTimely (end_of ending) 0 flow) sent
established-IsTimely_example =
    established-IsTimely seconds duration (λ s. true) takes dialing ending sent sent_run

-- The call is over after three seconds, and the REFER is sent after five.
late_refer :
    answered_flows seconds duration
      (λ s. true)
      takes
      (record dialing { transfer_flows = some (codes "5:sip:a@b") })
      (some 3000)
      none
    ≡ ok (((1000, dtmf b'1') ∷ []) ∷ ((5000, refer (codes "sip:a@b")) ∷ []) ∷ [])
unfolding answered_flows gap_flow run_gaps parse_dtmf_flows parse_transfer_flows split split_once
    trim parse_uint
late_refer = refl

-- a registration, its renewal, which fails, and another try
abbrev results : List (ℕ × RegisterResult)
results = (1, response 200 60) ∷ (2, response 503 0) ∷ (1, register_error (codes "timeout")) ∷ []

abbrev print_status : ℕ → Text
print_status code = to_string code

registration_loop-IsRenewed_example :
    IsRenewed
      (some 80)
      0
      results
      (registration_loop print_status
        (λ s. true)
        account
        1700000000
        (some 80)
        0
        results
        (some [])).0
registration_loop-IsRenewed_example =
    registration_loop-IsRenewed print_status (λ s. true) account 1700000000 (some 80) 0 results
      (some [])

lookup-registration_loop_example :
    lookup_in print_status
      (λ s. true)
      account
      1700000000
      (registration_loop print_status
        (λ s. true)
        account
        1700000000
        (some 80)
        0
        results
        (some [])).1
      (codes "bot@d")
    ≡ (if text_eq (codes "bot@d") (codes "bot@d")
        then or_else
            (last_status print_status
              (λ s. true)
              account
              1700000000
              (registration_loop print_status
                (λ s. true)
                account
                1700000000
                (some 80)
                0
                results
                (some [])).0)
            (lookup [] (codes "bot@d"))
        else lookup [] (codes "bot@d"))
lookup-registration_loop_example =
    lookup-registration_loop print_status (λ s. true) account 1700000000 (some 80) 0 results []
      (codes "bot@d")

get_elem?-place_calls_example : get_elem? (place_calls (some 700) (some 250) 0 4) 2 ≡ some 500
get_elem?-place_calls_example = get_elem?-place_calls (some 700) 250 0 4 2

-- Two calls end in the third and in the fifth round.
abbrev current : ℕ → ℕ
current k = if ltb k 3 then 2 else if ltb k 5 then 1 else 0

drained : drain 51 current 0 ≡ some 5
unfolding drain
drained = refl

drain_ends_example :
    (w : ℕ) × (drain 51 current 0 ≡ some w)
    × (w ≤ 50)
    × ((current w ≡ 0) ⊎ (w ≡ 50))
    × ((k : ℕ) → (current k ≡ 0) → k < w → ⊥)
drain_ends_example = drain_ends current

abbrev pts : List Text
pts = codes "0" ∷ codes "101" ∷ codes "102" ∷ []

found_pt : free_pt 4 pts 101 ≡ some 103
unfolding free_pt has text_eq to_string
found_pt = refl

free_pt_ends_example :
    (w : ℕ) × (free_pt 4 pts 101 ≡ some w)
    × (101 ≤ w)
    × (w ≤ 104)
    × (has pts (to_string w) ≡ false)
    × ((k : ℕ) → 101 ≤ k → k < w → has pts (to_string k) ≡ true)
free_pt_ends_example = free_pt_ends pts 101 (omega arith)
