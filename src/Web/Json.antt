-- ===== src/Web/Json.antt =====
-- src/web/state.rs: a call record as JSON, `to_json`, `to_json_full` and `from_json`. The JSON
-- values are those of the serde_json crate; the derived conversions of the lists of trace entries
-- and of events, and the counters as JSON, are parameters.
pub mod RoundTrip
use sipbot.Prelude.{
  ℕ, ◌-◌, Bool, true, false, Option, none, some, List, [], ◌∷◌, length, get_or, if◌then◌else◌,
}
use sipbot.Prelude.Text.{Text, codes, text_eq}
use sipbot.Stats.{CallStats}
use sipbot.Web.Record.{
  CallDirection, inbound, outbound, CallState, trying, ringing, early_media, answered, terminated,
  rejected, failed, state_str, SipTraceEntry, JumpEvent, DtmfEventLog, CallRecord,
}

mutual
  pub data Json : Type 0 where
    null : Json
    string : Text → Json
    number : ℕ → Json
    array : Array → Json
    object : Object → Json

  pub data Array : Type 0 where
    nil : Array
    cons : Json → Array → Array

  pub data Object : Type 0 where
    empty : Object
    field : Text → Json → Object → Object

unfoldable pub lookup : Object → Text → Option Json
lookup empty key = none
lookup (field name value rest) key = if text_eq name key then some value else lookup rest key

-- `get` on a value
unfoldable pub get : Json → Text → Option Json
unfolding lookup
get (object o) key = lookup o key
get null key = none
get (string t) key = none
get (number n) key = none
get (array a) key = none

unfoldable pub as_str : Option Json → Option Text
as_str (some (string t)) = some t
as_str (some null) = none
as_str (some (number n)) = none
as_str (some (array a)) = none
as_str (some (object o)) = none
as_str none = none

unfoldable pub as_u64 : Option Json → Option ℕ
as_u64 (some (number n)) = some n
as_u64 (some null) = none
as_u64 (some (string t)) = none
as_u64 (some (array a)) = none
as_u64 (some (object o)) = none
as_u64 none = none

-- the texts of an array, without what is no text
unfoldable pub texts : Array → List Text
texts nil = []
texts (cons (string t) rest) = t ∷ texts rest
texts (cons null rest) = texts rest
texts (cons (number n) rest) = texts rest
texts (cons (array a) rest) = texts rest
texts (cons (object o) rest) = texts rest

unfoldable pub as_texts : Option Json → List Text
unfolding texts
as_texts (some (array a)) = texts a
as_texts (some null) = []
as_texts (some (string t)) = []
as_texts (some (number n)) = []
as_texts (some (object o)) = []
as_texts none = []

-- the values that `json!` makes
unfoldable pub opt_string : Option Text → Json
opt_string none = null
opt_string (some t) = string t

unfoldable pub opt_number : Option ℕ → Json
opt_number none = null
opt_number (some n) = number n

unfoldable pub strings : List Text → Array
strings [] = nil
strings (t ∷ ts) = cons (string t) (strings ts)

unfoldable pub direction_str : CallDirection → Text
direction_str inbound = codes "inbound"
direction_str outbound = codes "outbound"

unfoldable pub opt_direction : Option CallDirection → Json
unfolding direction_str
opt_direction none = null
opt_direction (some d) = string (direction_str d)

unfoldable pub opt_state : Option CallState → Json
opt_state none = null
opt_state (some s) = string (state_str s)

unfoldable pub direction_of : Option Text → Option CallDirection
direction_of none = none
direction_of (some t) =
    if text_eq t (codes "inbound")
    then some inbound
    else if text_eq t (codes "outbound")
    then some outbound
    else none

unfoldable pub state_of : Option Text → Option CallState
state_of none = none
state_of (some t) =
    if text_eq t (codes "trying")
    then some trying
    else if text_eq t (codes "ringing")
    then some ringing
    else if text_eq t (codes "early_media")
    then some early_media
    else if text_eq t (codes "answered")
    then some answered
    else if text_eq t (codes "terminated")
    then some terminated
    else if text_eq t (codes "rejected")
    then some rejected
    else if text_eq t (codes "failed")
    then some failed
    else none

-- until the end, or until now
unfoldable pub elapsed : ℕ → CallRecord → ℕ
elapsed now r = get_or r.ended_at_ms now - r.started_at_ms

abbrev pub is_over : Option CallState → Bool
is_over (some terminated) = true
is_over (some rejected) = true
is_over (some s) = false
is_over none = false

-- the derived conversions
pub record Derived : Type 0 where
  pub trace_json : List SipTraceEntry → Json
  pub trace_of : Json → Option (List SipTraceEntry)
  pub jumps_json : List JumpEvent → Json
  pub jumps_of : Json → Option (List JumpEvent)
  pub dtmf_json : List DtmfEventLog → Json
  pub dtmf_of : Json → Option (List DtmfEventLog)
  pub snapshot_json : CallStats → Json

-- `and_then(from_value)` and `unwrap_or_default`
unfoldable pub list_of {ℓ} : {A : Type ℓ} → (Json → Option (List A)) → Option Json → List A
list_of conv none = []
list_of conv (some v) = get_or (conv v) []

unfoldable pub opt_json : Option Json → Json
opt_json none = null
opt_json (some v) = v

-- `cloned().filter`: a value that is there and is not null
unfoldable pub not_null : Option Json → Option Json
not_null none = none
not_null (some null) = none
not_null (some (string t)) = some (string t)
not_null (some (number n)) = some (number n)
not_null (some (array a)) = some (array a)
not_null (some (object o)) = some (object o)

module _ (d : Derived) where
  -- `stats_snapshot`, the counters that a loaded record was saved with, stands beside the record
  unfoldable pub stats_of : CallRecord → Option Json → Option Json
  stats_of r stats_snapshot = elim r.stats [
    | none ↦ stats_snapshot
    | some s ↦ some (d.snapshot_json s)
  ]

  -- the fields that both forms begin with, up to the issues
  unfoldable pub to_fields : ℕ → CallRecord → Object → Object
  unfolding opt_direction opt_string opt_state opt_number elapsed strings
  to_fields now r rest = field (codes "call_id") (string r.call_id) (
      field (codes "direction") (opt_direction r.direction) (
        field (codes "caller") (string r.caller) (
          field (codes "callee") (string r.callee) (
            field (codes "account") (string r.account) (
              field (codes "strategy") (opt_string r.strategy) (
                field (codes "state") (opt_state r.state) (
                  field (codes "started_at_ms") (number r.started_at_ms) (
                    field (codes "ended_at_ms") (opt_number r.ended_at_ms) (
                      field (codes "duration_ms") (number (elapsed now r)) (
                        field (codes "end_reason") (opt_string r.end_reason) (
                          field (codes "codec") (opt_string r.codec) (
                            field (codes "recording") (opt_string r.recording)
                              (field (codes "issues") (array (strings r.issues)) rest)))))))))))))

  unfoldable pub to_json : ℕ → CallRecord → Json
  unfolding to_fields
  to_json now r =
      object (to_fields now r (field (codes "trace_len") (number (length r.sip_trace)) empty))

  unfoldable pub to_json_full : ℕ → CallRecord → Option Json → Json
  unfolding to_fields stats_of opt_json
  to_json_full now r stats_snapshot = object (
      to_fields now r (
        field (codes "sip_trace") (d.trace_json r.sip_trace) (
          field (codes "sdp_offer") (opt_string r.sdp_offer) (
            field (codes "sdp_183") (opt_string r.sdp_183) (
              field (codes "sdp_200") (opt_string r.sdp_200) (
                field (codes "jump_events") (d.jumps_json r.jump_events) (
                  field (codes "dtmf_events") (d.dtmf_json r.dtmf_events)
                    (field (codes "stats") (opt_json (stats_of r stats_snapshot)) empty))))))))

  -- the record that is read, before its times are set again
  unfoldable pub read_record : Json → Text → CallRecord
  unfolding get as_str as_u64 as_texts direction_of state_of list_of
  read_record v call_id = record {
    call_id = call_id;
    direction = direction_of (as_str (get v (codes "direction")));
    caller = get_or (as_str (get v (codes "caller"))) [];
    callee = get_or (as_str (get v (codes "callee"))) [];
    account = get_or (as_str (get v (codes "account"))) [];
    strategy = as_str (get v (codes "strategy"));
    state = state_of (as_str (get v (codes "state")));
    started_at_ms = get_or (as_u64 (get v (codes "started_at_ms"))) 0;
    ended_at_ms = as_u64 (get v (codes "ended_at_ms"));
    end_reason = as_str (get v (codes "end_reason"));
    sip_trace = list_of d.trace_of (get v (codes "sip_trace"));
    sdp_offer = as_str (get v (codes "sdp_offer"));
    sdp_183 = as_str (get v (codes "sdp_183"));
    sdp_200 = as_str (get v (codes "sdp_200"));
    codec = as_str (get v (codes "codec"));
    jump_events = list_of d.jumps_of (get v (codes "jump_events"));
    dtmf_events = list_of d.dtmf_of (get v (codes "dtmf_events"));
    recording = as_str (get v (codes "recording"));
    issues = as_texts (get v (codes "issues"));
    stats = none;
    persisted = true;
  }

  -- the times: the start is set back from the time of saving, or from now, by the duration
  unfoldable pub set_times : (ended duration : ℕ) → CallRecord → CallRecord
  set_times ended duration r = record r {
    started_at_ms = ended - duration;
    ended_at_ms = if is_over r.state then some ended else r.ended_at_ms;
  }

  unfoldable pub from_json : ℕ → Json → Option (CallRecord × Option Json)
  unfolding get as_str as_u64 read_record set_times not_null
  from_json now v = elim (as_str (get v (codes "call_id"))) [
    | none ↦ none
    | some call_id ↦ some (
      set_times (get_or (as_u64 (get v (codes "saved_at"))) now)
          (get_or (as_u64 (get v (codes "duration_ms"))) 0) (read_record v call_id),
      not_null (get v (codes "stats")),
    )
  ]
