-- ===== src/Tests/Pages.antt =====
-- Concrete requests of the page: edits of a configuration, the sound files, and a record as JSON.
use sipbot.Prelude.{◌≡◌, refl, ap, ◌∙◌, true, false, Option, none, some, List, [], ◌∷◌}
use sipbot.Prelude.Text.{codes, text_eq, starts_with, split, strip_prefix}
use sipbot.Config.Strategy.{find_strategy}
use sipbot.Web.Record.{SipTraceEntry, JumpEvent, DtmfEventLog, new_record}
use sipbot.Web.Json.{
  Json, Array, string, number, array, nil, cons, object, Derived, field, empty, to_json_full,
  from_json, not_null, stats_of, opt_string, opt_number, as_str, as_u64,
}
use sipbot.Web.Json.RoundTrip.{
  restored, as_str-opt_string, as_u64-opt_number, from_json-to_json_full,
}
use sipbot.Web.Api.{strategy_delete, edit}
use sipbot.Web.Api.Bound.{IsBound, edit-IsBound}
use sipbot.Web.Files.{Disk, Field}
use sipbot.Tests.Settings.{config, night, night_found}
use sipbot.Web.Request.{OutboundProfile}
use sipbot.Web.Control.{
  ServeState, cancelled, post_call_hangup, token_of, hang_up_by, hang_up_leg, cancel_leg, is_leg_of,
}
use sipbot.Web.Control.Hangup.{Outcome, post_call_hangup-Outcome}
use sipbot.Sip.Caller.{trim_start_matches}

-- An entry as the array of its parts, and a list of entries as an array of arrays.
abbrev trace_entry : SipTraceEntry → Json
trace_entry e = array (
    cons (number e.t_ms) (
      cons (string e.dir)
        (cons (string e.summary) (cons (opt_string e.peer) (cons (string e.raw) nil)))))

abbrev trace_entry_of : Json → Option SipTraceEntry
trace_entry_of
      (array (cons (number t) (cons (string d) (cons (string s) (cons p (cons (string r) nil)))))) =
    some (record { t_ms = t; dir = d; summary = s; peer = as_str (some p); raw = r })
trace_entry_of v = none

abbrev jump : JumpEvent → Json
jump e = array (
    cons (number e.t_ms)
      (cons (string e.reason) (cons (opt_number e.old_ssrc) (cons (opt_number e.new_ssrc) nil))))

abbrev jump_of : Json → Option JumpEvent
jump_of (array (cons (number t) (cons (string r) (cons o (cons n nil))))) =
    some (record { t_ms = t; reason = r; old_ssrc = as_u64 (some o); new_ssrc = as_u64 (some n) })
jump_of v = none

abbrev digit : DtmfEventLog → Json
digit e = array (cons (number e.t_ms) (cons (string e.digit) (cons (string e.dir) nil)))

abbrev digit_of : Json → Option DtmfEventLog
digit_of (array (cons (number t) (cons (string g) (cons (string d) nil)))) =
    some (record { t_ms = t; digit = g; dir = d })
digit_of v = none

unfoldable all_json {ℓ} : {A : Type ℓ} → (A → Json) → List A → Array
all_json f [] = nil
all_json f (x ∷ xs) = cons (f x) (all_json f xs)

unfoldable all_of {ℓ} : {A : Type ℓ} → (Json → Option A) → Array → Option (List A)
all_of g nil = some []
all_of g (cons v vs) =
    let rest = all_of g vs in
    elim (g v) [ none ↦ none | some x ↦ elim rest [ none ↦ none | some xs ↦ some (x ∷ xs) ] ]

abbrev list_of {ℓ} : {A : Type ℓ} → (Json → Option A) → Json → Option (List A)
list_of g (array a) = all_of g a
list_of g v = none

all_of-all_json {ℓ} :
    {A : Type ℓ} (f : A → Json) (g : Json → Option A)
    → ((x : A) → g (f x) ≡ some x)
    → (xs : List A) → all_of g (all_json f xs) ≡ some xs
unfolding all_of all_json
all_of-all_json f g back [] = refl
all_of-all_json f g back (x ∷ xs) = rw (all_of, all_json, back x, all_of-all_json f g back xs) refl

trace_entry_back : (e : SipTraceEntry) → trace_entry_of (trace_entry e) ≡ some e
unfolding as_str opt_string
trace_entry_back e = ap (λ p. some (record e { peer = p })) (as_str-opt_string e.peer)

jump_back : (e : JumpEvent) → jump_of (jump e) ≡ some e
unfolding as_u64 opt_number
jump_back e =
    ap (λ o. some (record e { old_ssrc = o; new_ssrc = as_u64 (some (opt_number e.new_ssrc)) }))
      (as_u64-opt_number e.old_ssrc)
    ∙ ap (λ n. some (record e { new_ssrc = n })) (as_u64-opt_number e.new_ssrc)

abbrev derived : Derived
derived = record {
  trace_json = λ l. array (all_json trace_entry l);
  trace_of = list_of trace_entry_of;
  jumps_json = λ l. array (all_json jump l);
  jumps_of = list_of jump_of;
  dtmf_json = λ l. array (all_json digit l);
  dtmf_of = list_of digit_of;
  snapshot_json = λ s. number s.rx_packets;
}

from_json-to_json_full_example :
    from_json derived 9 (to_json_full derived 7 (new_record (codes "a") 3) none)
    ≡ some (
      restored 7 9 (new_record (codes "a") 3),
      not_null (stats_of derived (new_record (codes "a") 3) none),
    )
from_json-to_json_full_example =
    from_json-to_json_full derived (all_of-all_json trace_entry trace_entry_of trace_entry_back)
      (all_of-all_json jump jump_of jump_back) (all_of-all_json digit digit_of (λ e. refl)) 7 9
      (new_record (codes "a") 3) none

edit-IsBound_example : IsBound (edit 7 (strategy_delete (codes "night")) (config (night ∷ []))).1
unfolding text_eq find_strategy
edit-IsBound_example =
    edit-IsBound 7 (strategy_delete (codes "night")) (config (night ∷ []))
      ((night, night_found), tt)

abbrev disk : Disk
disk = record { can_create = true; can_write = true }

abbrev form : Field
form = record { is_file = true; bytes = some (1 ∷ 2 ∷ []) }

-- a request that names a profile and no action, and the profile
abbrev body : Json
body = object (field (codes "profile") (string (codes "echo test")) empty)

abbrev profile : OutboundProfile
profile = record {
  name = codes "echo test";
  target = some (codes "sip:b@h");
  codecs = none;
  action = some (codes "echo");
  wav_file = none;
  dtmf_flows = none;
  reinvite_flows = none;
  transfer_flows = none;
  proxy = none;
  hangup_secs = some 5;
}

abbrev running : ServeState
running = record {
  calls = record (new_record (codes "x") 3) { caller = codes "a@h"; callee = codes "b@h" } ∷ [];
  control = [];
  outbound_calls =
      record { from_user = codes "a"; target = codes "sip:b@h"; is_cancelled = false } ∷ [];
}

post_call_hangup-Outcome_example :
    Outcome
      (codes "x")
      running
      (post_call_hangup (codes "x") running).0
      (post_call_hangup (codes "x") running).1
post_call_hangup-Outcome_example = post_call_hangup-Outcome (codes "x") running

leg_cancelled : (post_call_hangup (codes "x") running).0 ≡ cancelled
unfolding post_call_hangup sipbot.Web.Registry.get text_eq new_record token_of hang_up_by
    hang_up_leg cancel_leg is_leg_of trim_start_matches split starts_with strip_prefix
leg_cancelled = refl
