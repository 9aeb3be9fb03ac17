-- ===== src/Sip/Call.antt =====
-- src/sip.rs, `handle_invite`: an incoming call, from the INVITE to its end. The task of a call runs
-- through its stages one after the other. A stage either hands its state on or returns early. What
-- the stages wait for, the dialog's answers, the sessions that can be opened, the tokens that were
-- cancelled and the clock, is the `World`; how long they wait is not modelled.
pub mod Early
pub mod Answer
pub mod Task
pub mod Phases
pub mod Stages
pub mod Outcome
pub mod Results
pub mod Serving
use sipbot.Prelude.{ℕ, Bool, false, Option, none, List, [], ◌∷◌}
use sipbot.Prelude.Text.{Text}
use sipbot.Stats.{CallStats}
use sipbot.Web.Record.{CallRecord}

-- What `MediaSession::new` gives: a session, its SDP and the name of its codec; and the SSRC of
-- `local_stream_info`.
pub record Session : Type 0 where
  pub id : ℕ
  pub sdp : Text
  pub codec_name : Text
  pub ssrc : Option ℕ

-- The calls on the server dialog.
pub data Request : Type 0 where
  ringing : Option Text → Request
  reject : ℕ → Request
  accept : List (Text × Text) → Option Text → Request
  bye : Request

-- The calls on a media session that play something. The argument `keep_alive` stands last.
pub data Playing : Type 0 where
  file_once : Text → Playing
  file : Text → Bool → Playing
  ringing_wav : Playing
  answer_wav : Bool → Playing
  local_device : Bool → Playing
  echo : Playing
  bridged_echo : Playing

-- The branch by which an answered call ends.
pub data Ending : Type 0 where
  ended_remotely : Ending
  ui_hangup : Ending
  shutdown : Ending
  media_done : Ending
  timer_expired : Ending

pub record World : Type 0 where
  pub from_utf8 : List ℕ → Option Text  -- of the standard library
  pub status_from : ℕ → ℕ  -- the code of `StatusCode::from`
  pub status_try_from : ℕ → Option ℕ  -- the code of `StatusCode::try_from`
  pub has_local_device : Bool  -- the feature of the build
  pub expected_ms : Option ℕ  -- `expected_call_ms` of the account
  pub offer_body : List ℕ
  pub draw : ℕ  -- the random number between 1 and 100
  pub first_session : Text → Option (List Text) → Option Session
  pub jump_session : Text → Option (List Text) → Option Session
  pub announce_session : Text → Option (List Text) → Option Session
  pub tone_ringing_ok : Bool
  pub ringing_ok : Bool
  pub accept_ok : Bool
  pub is_cancelled : Bool  -- the cancel token, before the answer
  pub is_hung_up : Bool  -- the call token, after the announcement
  pub local_failed : Bool  -- the local device, when answering
  pub ending : Ending
  pub jump_now : ℕ
  pub announce_now : ℕ
  pub end_now : ℕ
  pub setup_ms : ℕ
  pub duration_ms : ℕ

-- The state of the task. Its lists have the newest first; `opened` are all the sessions
-- that were made, and `stopped` those that `stop` was called on.
pub record CallTask : Type 0 where
  pub asked : List Request
  pub played : List (Session × Playing)
  pub stats : CallStats
  pub call_record : Option CallRecord
  pub media_session : Option Session
  pub local_sdp : Option Text
  pub live_sessions : List Session
  pub guarded : Option Session  -- `_call_guard.media_session`
  pub shared : Option Session  -- the session of the monitor and of the bot
  pub bridged : Bool
  pub opened : List Session
  pub stopped : List Session

-- What a stage does: the task goes on, or it returns.
pub data Stage : Type 0 where
  running : CallTask → Stage
  returned : CallTask → Stage

infixl 5 ◌>>=◌
abbrev pub ◌>>=◌ : Stage → (CallTask → Stage) → Stage
running s >>= f = f s
returned s >>= f = returned s

-- A state where the task goes on has the one property, a state where it returned the other.
abbrev pub Holds : (CallTask → Type 0) → (CallTask → Type 0) → Stage → Type 0
Holds P Q (running s) = P s
Holds P Q (returned s) = Q s

pub bind-Holds :
    (P R Q : CallTask → Type 0) (stage : Stage) (f : CallTask → Stage)
    → ((s : CallTask) → P s → Holds R Q (f s))
    → Holds P Q stage
    → Holds R Q (stage >>= f)
bind-Holds P R Q (running s) f step h = step s h
bind-Holds P R Q (returned s) f step h = h

pub map-Holds :
    (P Q R : CallTask → Type 0)
    → ((s : CallTask) → Q s → R s)
    → (stage : Stage) → Holds P Q stage
    → Holds P R stage
map-Holds P Q R f (running s) h = h
map-Holds P Q R f (returned s) h = f s h

abbrev pub final_state : Stage → CallTask
final_state (running s) = s
final_state (returned s) = s

unfoldable pub start : CallStats → Option CallRecord → CallTask
start stats call_record = record {
  asked = [];
  played = [];
  stats = stats;
  call_record = call_record;
  media_session = none;
  local_sdp = none;
  live_sessions = [];
  guarded = none;
  shared = none;
  bridged = false;
  opened = [];
  stopped = [];
}
