-- ===== src/Sip/Outbound.antt =====
-- src/sip.rs, `make_call` and `handle_early_media`: an outgoing call, from the INVITE to its end.
-- The loop over the INVITE takes a list of events, in the order in which its `select!` sees them;
-- the list may end before the INVITE is answered.

pub mod Results
use sipbot.Prelude.{
  suc, ◌||◌, ℕ, Bool, true, false, not, ◌&&◌, ◌==◌, leb, Option, none, some, is_none, List, [], ◌∷◌,
  if◌then◌else◌,
}
use sipbot.Prelude.Text.{Text}
use sipbot.Stats.{CallStats, add_status, add_setup_latency, inc_current, inc_finished, add_duration}
use sipbot.Config.Hangup.{HangupConfig}
use sipbot.Config.Account.{AccountConfig, AnswerConfig, play, echo, local}

pub record DialogId : Type 0 where
  pub call_id : Text
  pub local_tag : Text
  pub remote_tag : Text

-- The states of a client dialog that the loop tells apart.
pub data DialogState : Type 0 where
  trying : DialogId → DialogState
  early : DialogId → ℕ → Text → DialogState
  notify : DialogState
  other_state : DialogState

-- What the loop waits for: the end of the INVITE with its final response, its error, a state of the
-- dialog, and the cancellation.
pub data Event : Type 0 where
  invite_done : Option (ℕ × Text) → Event
  invite_failed : Event
  changed : DialogState → Event
  cancelled : Event

-- How an established call ends.
pub data CallEnd : Type 0 where
  time_is_up : CallEnd
  playback_done : CallEnd
  hung_up_remotely : CallEnd
  call_cancelled : CallEnd

-- What the calls on the dialog layer, on the session and on the clock give.
pub record Network : Type 0 where
  pub has_dialog : DialogId → Bool
  pub pranswer_ok : Text → Bool
  pub answer_ok : Text → Bool
  pub is_successful : ℕ → Bool  -- the kind of a status code
  pub has_local_device : Bool  -- the feature of the build
  pub draw : ℕ  -- the random number below 100
  pub cancels_before_ringing : Bool
  pub session : Option Text  -- `new_offer` and all before it: the SDP, if nothing failed
  pub hangup_ok : Bool
  pub setup_ms : ℕ
  pub duration_ms : ℕ

-- The state of an outgoing call. The ids of the dialogs that were hung up have the newest first.
pub record Outbound : Type 0 where
  pub stats : CallStats
  pub latest_dialog_id : Option DialogId
  pub has_media_task : Bool
  pub should_cancel : Bool
  pub hung_up : List DialogId
  pub replies : ℕ  -- the NOTIFYs that were answered with 200
  pub is_silent : Bool
  pub observers : ℕ  -- the receivers started for early media
  pub said_bye : Bool
  pub has_session : Bool
  pub is_stopped : Bool

unfoldable pub begin : CallStats → Outbound
begin stats = record {
  stats = stats;
  latest_dialog_id = none;
  has_media_task = false;
  should_cancel = false;
  hung_up = [];
  replies = 0;
  is_silent = false;
  observers = 0;
  said_bye = false;
  has_session = false;
  is_stopped = false;
}

unfoldable pub should_cancel_at : (draw cancel_prob : ℕ) → Bool
should_cancel_at draw cancel_prob = leb draw cancel_prob

abbrev pub is_local : Option AnswerConfig → Bool
is_local none = false
is_local (some (play wav)) = false
is_local (some echo) = false
is_local (some local) = true

-- whether early media are played on the local device of a caller
abbrev opens_device : Network → AccountConfig → Bool
opens_device n account = is_local account.answer && n.has_local_device

-- `handle_early_media`: nothing where the answer is not taken. A caller hears it on its local
-- device, silent itself, or only observes it; otherwise the early media are answered by a task.
unfoldable pub handle_early_media : Network → AccountConfig → Text → Outbound → Outbound
handle_early_media n account sdp s =
    let is_caller = not (is_none account.target) in
    let taken = n.pranswer_ok sdp in
    record s {
      is_silent = if taken && is_caller && is_local account.answer then true else s.is_silent;
      observers =
          if taken && not (is_caller && opens_device n account)
          then suc s.observers
          else s.observers;
      has_media_task = taken && (not is_caller || opens_device n account);
    }

-- 183 with a body, while no task plays early media
abbrev wants_early_media : ℕ → Text → Outbound → Bool
wants_early_media code [] s = false
wants_early_media code (c ∷ cs) s = code == 183 && not s.has_media_task

-- what a state of the dialog does before the cancellation is looked at
unfoldable pub observe : Network → AccountConfig → DialogState → Outbound → Outbound
unfolding handle_early_media
observe n account (trying id) s = record s { latest_dialog_id = some id }
observe n account (early id code body) s =
    let counted = record s { stats = add_status s.stats code; latest_dialog_id = some id } in
    if wants_early_media code body s then handle_early_media n account body counted else counted
observe n account notify s = record s { replies = suc s.replies }
observe n account other_state s = s

-- the dialog that is hung up for the cancellation at this state
unfoldable pub to_cancel : Network → DialogState → Option DialogId
to_cancel n (trying id) =
    if n.cancels_before_ringing then some (record id { remote_tag = [] }) else none
to_cancel n (early id code body) =
    if n.cancels_before_ringing then none else some (record id { remote_tag = [] })
to_cancel n notify = none
to_cancel n other_state = none

-- What a step of the loop gives: the state goes on, or the task panics on a dialog that is not
-- there.
pub data Step : Type 0 where
  next : Outbound → Step
  panicked : Outbound → Step

unfoldable pub hang_up : Network → Option DialogId → Outbound → Step
hang_up n none s = next s
hang_up n (some id) s =
    if n.has_dialog id
    then next (record s { should_cancel = false; hung_up = id ∷ s.hung_up })
    else panicked s

unfoldable pub cancel_at : Network → DialogState → Outbound → Step
unfolding to_cancel hang_up
cancel_at n state s = if s.should_cancel then hang_up n (to_cancel n state) s else next s

-- the cancellation during the INVITE
unfoldable pub cancel_invite : Network → Option DialogId → Outbound → Outbound
cancel_invite n none s = s
cancel_invite n (some latest) s =
    let id : DialogId = record latest { remote_tag = [] } in
    record s { hung_up = if n.has_dialog id then id ∷ s.hung_up else s.hung_up }

-- How the loop ends.
pub data LoopEnd : Type 0 where
  answered : Option (ℕ × Text) → Outbound → LoopEnd
  failed : Outbound → LoopEnd
  given_up : Outbound → LoopEnd
  crashed : Outbound → LoopEnd
  waiting : Outbound → LoopEnd

unfoldable pub invite_loop : Network → AccountConfig → List Event → Outbound → LoopEnd
unfolding observe cancel_at cancel_invite
invite_loop n account [] s = waiting s
invite_loop n account (invite_done response ∷ events) s = answered response s
invite_loop n account (invite_failed ∷ events) s = failed s
invite_loop n account (cancelled ∷ events) s = given_up (cancel_invite n s.latest_dialog_id s)
invite_loop n account (changed state ∷ events) s =
    elim (cancel_at n state (observe n account state s)) [
      | next t ↦ invite_loop n account events t
      | panicked t ↦ crashed t
    ]

-- the end of an established call: the peer hung up, or the bot says BYE, and stops the session
-- unless the BYE failed
unfoldable pub end_call : Network → CallEnd → Outbound → Outbound
end_call n hung_up_remotely s = s
end_call n time_is_up s = record s { said_bye = true; is_stopped = n.hangup_ok }
end_call n playback_done s = record s { said_bye = true; is_stopped = n.hangup_ok }
end_call n call_cancelled s = record s { said_bye = true; is_stopped = n.hangup_ok }

-- the final response: its code is counted, and a successful one with an answer that is taken
-- establishes the call
unfoldable pub after_response : Network → CallEnd → ℕ → Text → Outbound → Outbound
unfolding end_call
after_response n how code body s =
    let counted = record s { stats = add_status s.stats code } in
    if n.is_successful code && n.answer_ok body
    then end_call n how (record counted { stats = add_setup_latency counted.stats n.setup_ms })
    else counted

unfoldable pub after_loop : Network → CallEnd → LoopEnd → Outbound
unfolding after_response
after_loop n how (answered none s) = s
after_loop n how (answered (some (code, body)) s) = after_response n how code body s
after_loop n how (failed s) = s
after_loop n how (given_up s) = s
after_loop n how (crashed s) = s
after_loop n how (waiting s) = s

-- the offer is sent, and the loop begins
unfoldable pub send_invite : Network → AccountConfig → Outbound → Outbound
unfolding should_cancel_at
send_invite n account s = record s {
  has_session = true;
  should_cancel = should_cancel_at n.draw account.cancel_prob;
}

-- the part under the guard: without a session, or with an empty offer, nothing is sent
unfoldable pub call_logic :
    Network → AccountConfig → List Event → CallEnd → Option Text → Outbound → Outbound
unfolding after_loop invite_loop send_invite
call_logic n account events how none s = s
call_logic n account events how (some []) s = record s { has_session = true }
call_logic n account events how (some (c ∷ cs)) s =
    after_loop n how (invite_loop n account events (send_invite n account s))

unfoldable pub drop_guard : Network → Outbound → Outbound
drop_guard n s = record s {
  stats = add_duration (inc_finished s.stats) n.duration_ms;
  is_stopped = if s.has_session then true else s.is_stopped;
}

-- The whole call; of a loop that is still waiting it gives what has happened so far, as if it were
-- dropped.
unfoldable pub make_call : Network → AccountConfig → List Event → CallEnd → CallStats → Outbound
unfolding call_logic drop_guard begin
make_call n account events how stats =
    drop_guard n (call_logic n account events how n.session (begin (inc_current stats)))
