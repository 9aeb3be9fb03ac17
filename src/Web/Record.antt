-- ===== src/Web/Record.antt =====
-- src/web/state.rs: the record of one call. The channels of a live call (`control`, `dtmf_tx`) stand
-- beside the registry in Control, and the JSON value `stats_snapshot` beside the record in Json.
use sipbot.Prelude.{ℕ, Bool, false, List, [], Option, none}
use sipbot.Prelude.Text.{Text, codes}
use sipbot.Stats.{CallStats}

pub data CallDirection : Type 0 where
  inbound outbound : CallDirection

pub data CallState : Type 0 where
  trying ringing early_media answered terminated rejected failed : CallState

-- `state_str`, and `state_name` of src/web/inspector.rs
unfoldable pub state_str : CallState → Text
state_str trying = codes "trying"
state_str ringing = codes "ringing"
state_str early_media = codes "early_media"
state_str answered = codes "answered"
state_str terminated = codes "terminated"
state_str rejected = codes "rejected"
state_str failed = codes "failed"

pub record SipTraceEntry : Type 0 where
  pub t_ms : ℕ
  pub dir : Text
  pub summary : Text
  pub peer : Option Text
  pub raw : Text

pub record JumpEvent : Type 0 where
  pub t_ms : ℕ
  pub reason : Text
  pub old_ssrc : Option ℕ
  pub new_ssrc : Option ℕ

pub record DtmfEventLog : Type 0 where
  pub t_ms : ℕ
  pub digit : Text
  pub dir : Text

pub record CallRecord : Type 0 where
  pub call_id : Text
  pub direction : Option CallDirection
  pub caller : Text
  pub callee : Text
  pub account : Text
  pub strategy : Option Text
  pub state : Option CallState
  pub started_at_ms : ℕ
  pub ended_at_ms : Option ℕ
  pub end_reason : Option Text
  pub sip_trace : List SipTraceEntry
  pub sdp_offer : Option Text
  pub sdp_183 : Option Text
  pub sdp_200 : Option Text
  pub codec : Option Text
  pub jump_events : List JumpEvent
  pub dtmf_events : List DtmfEventLog
  pub recording : Option Text
  pub issues : List Text
  pub stats : Option CallStats
  pub persisted : Bool

-- `Default`, with the call id and the time that `get_or_create` gives
unfoldable pub new_record : Text → ℕ → CallRecord
new_record call_id now = record {
  call_id = call_id;
  direction = none;
  caller = [];
  callee = [];
  account = [];
  strategy = none;
  state = none;
  started_at_ms = now;
  ended_at_ms = none;
  end_reason = none;
  sip_trace = [];
  sdp_offer = none;
  sdp_183 = none;
  sdp_200 = none;
  codec = none;
  jump_events = [];
  dtmf_events = [];
  recording = none;
  issues = [];
  stats = none;
  persisted = false;
}
