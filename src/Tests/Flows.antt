-- ===== src/Tests/Flows.antt =====
-- Concrete calls: incoming ones that are answered, rejected and filtered, outgoing ones that are
-- cancelled, and requests within a call.
use sipbot.Prelude.{
  ℕ, ◌≡◌, ◌↔◌, refl, true, false, Option, none, some, List, [], ◌∷◌, add_u32, length, ◌≤◌,
}
use sipbot.Prelude.Text.{Text, codes}
use sipbot.Stats.{CallStats}
use sipbot.Stats as Stats
use sipbot.Web.Record.{CallRecord, new_record}
use sipbot.Web.Registry.{Registry}
use sipbot.Config.Account.{AccountConfig, RejectConfig, echo}
use sipbot.Sip.Call.{Session, World, CallTask, media_done}
use sipbot.Sip.Call.Task.{call_task}
use sipbot.Sip.Call.Phases.{refused, Reach, counters, IsFinished}
use sipbot.Sip.Call.Results.{call_task_rejects}
use sipbot.Sip.Outbound.{
  DialogId, trying, early, Event, invite_done, changed, time_is_up, Network, make_call,
}
use sipbot.Sip.Outbound.Results.{make_call-counters, make_call-hung_up, allowed_hangups}
use sipbot.Sip.Dispatch.{
  Incoming, invite, handle_incoming_transaction, replies, handle_reinvite, AsksHold,
  handle_incoming_transaction_answered, handle_reinvite_mutes_iff,
}

abbrev pub account : AccountConfig
account = record {
  username = codes "bot";
  auth_username = none;
  domain = codes "d";
  password = none;
  proxy = none;
  register = none;
  from_user = none;
  target = none;
  recording = none;
  srtp_enabled = none;
  webrtc_enabled = none;
  nack_enabled = none;
  jitter_buffer_enabled = none;
  reject_prob = none;
  codecs = none;
  headers = none;
  cancel_prob = 0;
  transport = none;
  transport_addr = none;
  transport_ws_url = none;
  tls_ca = none;
  tls_sni = none;
  strategy = none;
  match_caller = none;
  enabled = none;
  early_media = none;
  ring = none;
  reject = none;
  answer = some echo;
  announce = none;
  sdp_jump = some true;
  jump_codecs = none;
  hangup = none;
  refer_reject = none;
  refer_to = none;
  refer_delay_secs = none;
  ts_jump_tolerance_ms = 50;
  dtmf_flows = none;
  reinvite_flows = none;
  transfer_flows = none;
  info_flows = none;
}

abbrev session : ℕ → Session
session n = record { id = n; sdp = codes "v=0"; codec_name = codes "PCMU"; ssrc = some n }

abbrev world : World
world = record {
  from_utf8 = λ s. some s;
  status_from = λ c. c;
  status_try_from = λ c. some c;
  has_local_device = false;
  expected_ms = none;
  offer_body = codes "v=0";
  draw = 50;
  first_session = λ s cs. some (session 1);
  jump_session = λ s cs. some (session 2);
  announce_session = λ s cs. none;
  tone_ringing_ok = true;
  ringing_ok = true;
  accept_ok = true;
  is_cancelled = false;
  is_hung_up = false;
  local_failed = false;
  ending = media_done;
  jump_now = 3;
  announce_now = 4;
  end_now = 9;
  setup_ms = 2;
  duration_ms = 8;
}

abbrev caller : Text
caller = codes "sip:1001@h"

abbrev call_record : Option CallRecord
call_record = some (new_record (codes "a") 1)

abbrev over : AccountConfig → CallTask
over acc = call_task world acc caller Stats.new call_record

abbrev busy : RejectConfig
busy = record { code = 486; tone = some (codes "busy.wav"); delay_secs = none }

abbrev refusing : AccountConfig
refusing = record account { reject = some busy }

call_task_rejects_example :
    Reach (over refusing).asked refused × IsFinished (over refusing).call_record
call_task_rejects_example = call_task_rejects world refusing caller Stats.new call_record busy refl

abbrev registry : Registry
registry = new_record (codes "b") 3 ∷ []

abbrev network : Network
network = record {
  has_dialog = λ id. true;
  pranswer_ok = λ s. true;
  answer_ok = λ s. true;
  is_successful = λ c. true;
  has_local_device = false;
  draw = 0;
  cancels_before_ringing = true;
  session = some (codes "v=0");
  hangup_ok = true;
  setup_ms = 2;
  duration_ms = 8;
}

abbrev dialog : DialogId
dialog = record { call_id = codes "a"; local_tag = codes "l"; remote_tag = codes "r" }

abbrev events : List Event
events =
    changed (trying dialog)
    ∷ changed (early dialog 183 (codes "v=0"))
    ∷ invite_done (some (200, codes "v=0"))
    ∷ []

make_call-counters_example :
    counters (make_call network account events time_is_up Stats.new).stats
    ≡ (add_u32 0 1, add_u32 0 1, 0)
unfolding Stats.new
make_call-counters_example = make_call-counters network account events time_is_up Stats.new

make_call-hung_up_example :
    length (make_call network account events time_is_up Stats.new).hung_up
    ≤ allowed_hangups network account events
make_call-hung_up_example = make_call-hung_up network account events time_is_up Stats.new

abbrev request : Incoming
request = record {
  method = invite;
  to = some (codes "<sip:b@h>;tag=1");
  body = codes "a=SendOnly";
  has_dialog_id = true;
  has_dialog = true;
  renegotiate = λ s. some s;
  status_try_from = λ c. some c;
  first_notify_ok = true;
  is_cancelled = false;
}

handle_incoming_transaction_answered_example :
    replies (handle_incoming_transaction account request (some false)).1 ≡ 1
handle_incoming_transaction_answered_example =
    handle_incoming_transaction_answered account request (some false)

handle_reinvite_mutes_iff_example :
    ((handle_reinvite request (some false)).0 ≡ some true) ↔ AsksHold (codes "a=SendOnly")
handle_reinvite_mutes_iff_example = handle_reinvite_mutes_iff request false
