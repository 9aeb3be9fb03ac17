-- ===== src/Tests/Calls.antt =====
-- Concrete calls: a registry, the messages of a call, and a board of registrations.
use sipbot.Prelude.{
  ℕ, ◌≡◌, ◌≢◌, refl, arith, Bool, true, false, none, some, List, [], ◌∷◌, if◌then◌else◌,
}
use sipbot.Prelude.Text.{Text, codes, text_eq, before}
use sipbot.Prelude.Decimal.{parse_uint}
use sipbot.Web.Record.{
  CallRecord, CallState, trying, ringing, answered, terminated, failed, SipTraceEntry, new_record,
}
use sipbot.Web.Registry.{Registry, get, get_or_create}
use sipbot.Web.Registry.Bounds.{IsTrimmed, get_or_create-IsTrimmed}
use sipbot.Web.Inspector.{
  other_method, Message, apply_state, advance, state_of_code, record_message, derive_state,
}
use sipbot.Web.Inspector.State.{Seen, see_all, state_of}
use sipbot.Web.Inspector.Trace.{Updated, get-record_message}
use sipbot.Status.{RegistrationStatus, StatusBoard}

abbrev call : Text → CallState → CallRecord
call call_id s = record (new_record call_id 5) { state = some s }

abbrev calls : Registry
calls = call (codes "b") answered ∷ call (codes "a") terminated ∷ []

get_or_create-IsTrimmed_example :
    IsTrimmed (new_record (codes "c") 9 ∷ calls) (get_or_create calls (codes "c") 9).1
unfolding new_record get text_eq
get_or_create-IsTrimmed_example = get_or_create-IsTrimmed calls (codes "c") 9 refl

abbrev failed_calls : Registry
failed_calls = call (codes "b") failed ∷ call (codes "a") failed ∷ []

differ : codes "a" ≢ codes "b"
differ e = ground arith

abbrev seen : Text → Bool → ℕ → Seen
seen summary is_request now = record {
  dir = codes "in";
  summary = summary;
  is_request = is_request;
  now = now;
}

abbrev dialog : List Seen
dialog =
    seen (codes "INVITE") true 1
    ∷ seen (codes "180 Ringing") false 2
    ∷ seen (codes "200 OK") false 3
    ∷ seen (codes "BYE") true 4
    ∷ []

dialog_runs : (see_all (new_record (codes "a") 0) dialog).state ≡ some terminated
unfolding see_all apply_state derive_state advance new_record text_eq parse_uint state_of_code
    before
dialog_runs = refl

abbrev closed : CallRecord
closed = record (call (codes "a") terminated) {
  ended_at_ms = some 4;
  end_reason = some (codes "BYE");
}

state_of_ok : (now : ℕ) → state_of (seen (codes "200 OK") false now) ≡ some answered
unfolding derive_state parse_uint before state_of_code
state_of_ok now = refl

ok_not_failed : state_of (seen (codes "200 OK") false 8) ≢ some failed
ok_not_failed e = cc (state_of_ok 8, e)

state_of_challenge : (now : ℕ) → state_of (seen (codes "401 Unauthorized") false now) ≡ some failed
unfolding derive_state parse_uint before state_of_code
state_of_challenge now = refl

state_of_invite : (now : ℕ) → state_of (seen (codes "INVITE") true now) ≡ some trying
unfolding derive_state text_eq
state_of_invite now = refl

state_of_ringing : (now : ℕ) → state_of (seen (codes "180 Ringing") false now) ≡ some ringing
unfolding derive_state parse_uint before state_of_code
state_of_ringing now = refl

abbrev entry : ℕ → SipTraceEntry
entry n = record { t_ms = n; dir = codes "in"; summary = codes "BYE"; peer = none; raw = [] }

abbrev bye : Message
bye = record {
  is_request = true;
  method = some other_method;
  call_id = some (codes "a");
  summary = codes "BYE";
  from_uri = some (codes "sip:x@y");
  to_uri = some (codes "sip:z@y");
  request_user = none;
  content_type = none;
  body = [];
  raw = codes "BYE sip:z@y";
}

get-record_message_example :
    (r' : CallRecord) × Updated (codes "in") bye none 12 (call (codes "a") terminated) r'
    × (get (record_message calls (codes "in") bye none 12).0 (codes "b")
        ≡ (if text_eq (codes "a") (codes "b") then some r' else get calls (codes "b")))
unfolding new_record get text_eq
get-record_message_example =
    get-record_message calls (codes "in") bye none 12 (codes "a") (codes "b")
      (call (codes "a") terminated) refl refl refl (omega arith)

abbrev status : Text → Bool → RegistrationStatus
status username registered = record {
  username = username;
  domain = codes "d";
  registered = registered;
  expires = none;
  transport = none;
  last_error = none;
  updated_at = none;
}

abbrev board : StatusBoard
board = (codes "z@d", status (codes "z") true) ∷ (codes "a@d", status (codes "a") false) ∷ []
