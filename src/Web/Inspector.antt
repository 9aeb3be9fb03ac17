-- ===== src/Web/Inspector.antt =====
-- src/web/inspector.rs: every SIP message that comes or goes updates the record of its call. A
-- message is what the accessors of the rsipstack crate answer about it.
pub mod State
pub mod Entries
pub mod Trace
use sipbot.Prelude.{
  ℕ, zero, suc, ◌+◌, ◌-◌, ◌≤◌, ◌<◌, ◌≡◌, Bool, true, false, not, ◌&&◌, ◌||◌, List, [], ◌∷◌, ◌++◌,
  Option, none, some, is_none, get_or, length, drop, ltb, leb, ◌==◌, if◌then◌else◌, ◌>>=◌,
}
use sipbot.Prelude.Text.{Text, text_eq, codes, before}
use sipbot.Prelude.Decimal.{parse_uint}
use sipbot.Web.Record.{
  CallDirection, inbound, outbound, CallState, trying, ringing, early_media, answered, terminated,
  rejected, failed, CallRecord, SipTraceEntry, new_record, state_str,
}
use sipbot.Web.Registry.{Registry, get_or_create, update}

abbrev pub max_sip_trace : ℕ
max_sip_trace = 500

pub data Method : Type 0 where
  register options invite other_method : Method

pub record Message : Type 0 where
  pub is_request : Bool
  pub method : Option Method  -- of the request, or of the response's CSeq
  pub call_id : Option Text
  pub summary : Text  -- the method's name, or the status line
  pub from_uri : Option Text
  pub to_uri : Option Text
  pub request_user : Option Text  -- the user part of the request's URI
  pub content_type : Option Text
  pub body : Text
  pub raw : Text

pub data WsEvent : Type 0 where
  sip_message : Text → SipTraceEntry → WsEvent
  call_state : Text → Text → WsEvent
  call_ended : Text → WsEvent

-- the code of a response
unfoldable pub state_of_code : ℕ → Option CallState
state_of_code code =
    if code == 100 || code == 180
    then some ringing
    else if code == 183
    then some early_media
    else if leb 200 code && leb code 299
    then some answered
    else if code == 404 || code == 403 || code == 480 || code == 486 || code == 603
    then some rejected
    else if leb 400 code && leb code 699
    then some failed
    else none

unfoldable pub derive_state : (dir summary : Text) → (is_request : Bool) → Option CallState
derive_state dir summary true =
    if text_eq summary (codes "INVITE") && text_eq dir (codes "in")
    then some trying
    else if text_eq summary (codes "BYE") || text_eq summary (codes "CANCEL")
    then some terminated
    else none
derive_state dir summary false = do
  code ← parse_uint 65535 (before b' ' summary)
  state_of_code code

abbrev pub is_terminal : CallState → Bool
is_terminal terminated = true
is_terminal rejected = true
is_terminal failed = true
is_terminal s = false

-- `already_past`
abbrev pub is_past : Option CallState → Bool
is_past (some terminated) = true
is_past (some rejected) = true
is_past (some s) = false
is_past none = false

abbrev pub same_state : CallState → CallState → Bool
same_state trying trying = true
same_state ringing ringing = true
same_state early_media early_media = true
same_state answered answered = true
same_state terminated terminated = true
same_state rejected rejected = true
same_state failed failed = true
same_state _ _ = false

abbrev pub is_state : Option CallState → CallState → Bool
is_state none s = false
is_state (some t) s = same_state t s

abbrev pub is_up : Option CallState → Bool
is_up (some answered) = true
is_up (some early_media) = true
is_up (some s) = false
is_up none = false

-- the two early returns of `apply_state`
unfoldable pub is_ignored : Option CallState → CallState → Bool
is_ignored old new_state =
    (is_state old new_state || (is_past old && not (is_terminal new_state)))
    || (not (is_terminal new_state) && (is_up old && same_state new_state ringing))

unfoldable pub enter_state : CallRecord → CallState → Text → ℕ → CallRecord × Option Text × Bool
enter_state r new_state summary now =
    if is_terminal new_state
    then (
      record r {
        state = some new_state;
        ended_at_ms = some now;
        end_reason = if is_none r.end_reason then some summary else r.end_reason;
      },
      some (state_str new_state),
      true,
    )
    else (record r { state = some new_state }, some (state_str new_state), false)

unfoldable pub advance : CallRecord → Option CallState → Text → ℕ → CallRecord × Option Text × Bool
unfolding is_ignored enter_state
advance r none summary now = (r, none, false)
advance r (some new_state) summary now =
    if is_ignored r.state new_state then (r, none, false) else enter_state r new_state summary now

unfoldable pub apply_state :
    CallRecord → (dir summary : Text) → Bool → ℕ → CallRecord × Option Text × Bool
apply_state r dir summary is_request now =
    advance r (derive_state dir summary is_request) summary now

-- `uri_of`, or an empty text
abbrev pub fill : Text → Option Text → Text
fill [] uri = get_or uri []
fill (c ∷ cs) uri = c ∷ cs

abbrev pub is_invite : Message → Bool
is_invite msg = msg.is_request && (elim msg.method [ some invite ↦ true | _ ↦ false ])

unfoldable pub fill_meta : CallRecord → Text → Message → CallRecord
fill_meta r dir msg =
    let r1 : CallRecord = record r {
      caller = fill r.caller msg.from_uri;
      callee = fill r.callee msg.to_uri;
    } in
    if is_none r.direction && is_invite msg
    then (if text_eq dir (codes "in")
        then record r1 { direction = some inbound; callee = get_or msg.request_user r1.callee }
        else record r1 { direction = some outbound })
    else r1

abbrev pub is_sdp : Option Text → Bool
is_sdp none = false
is_sdp (some t) = text_eq t (codes "application/sdp")

abbrev pub is_empty : Text → Bool
is_empty [] = true
is_empty (c ∷ cs) = false

unfoldable pub capture_sdp : CallRecord → Text → Message → CallRecord
capture_sdp r summary msg =
    let kind = before b' ' summary in
    if not (is_sdp msg.content_type) || is_empty msg.body
    then r
    else if text_eq kind (codes "INVITE") && is_none r.sdp_offer
    then record r { sdp_offer = some msg.body }
    else if text_eq kind (codes "183")
    then record r { sdp_183 = some msg.body }
    else if text_eq kind (codes "200") && is_none r.sdp_200
    then record r { sdp_200 = some msg.body }
    else r

unfoldable pub push_trace : List SipTraceEntry → SipTraceEntry → List SipTraceEntry
push_trace trace entry =
    let longer = trace ++ entry ∷ [] in
    if ltb max_sip_trace (length longer) then drop 1 longer else longer

-- the part of `record` under the lock of the record
unfoldable pub update_record : (dir : Text) → Message → Option Text → ℕ → CallRecord → CallRecord
update_record dir msg peer now r =
    let r1 = capture_sdp (fill_meta r dir msg) msg.summary msg in
    let r2 = (apply_state r1 dir msg.summary msg.is_request now).0 in
    record r2 {
      sip_trace = push_trace r2.sip_trace (record {
        t_ms = now - r.started_at_ms;
        dir = dir;
        summary = msg.summary;
        peer = peer;
        raw = msg.raw;
      });
    }

abbrev pub is_keepalive : Option Method → Bool
is_keepalive (some register) = true
is_keepalive (some options) = true
is_keepalive (some m) = false
is_keepalive none = false

abbrev state_events : Text → Option Text → Bool → List WsEvent
state_events call_id none ended = []
state_events call_id (some s) false = call_state call_id s ∷ []
state_events call_id (some s) true = call_state call_id s ∷ call_ended call_id ∷ []

-- The whole of `record`, but for the task that persists an ended call 1200 ms later.
unfoldable pub record_message :
    Registry → Text → Message → Option Text → ℕ → Registry × List WsEvent
record_message calls dir msg peer now =
    if is_keepalive msg.method then (calls, []) else elim msg.call_id [
      | none ↦ (calls, [])
      | some call_id ↦
          let (r, calls') = get_or_create calls call_id now in
          let r1 = capture_sdp (fill_meta r dir msg) msg.summary msg in
          let (r2, state_event, ended) = apply_state r1 dir msg.summary msg.is_request now in
          (
            update (update_record dir msg peer now) call_id calls',
            sip_message call_id (record {
              t_ms = now - r.started_at_ms;
              dir = dir;
              summary = msg.summary;
              peer = peer;
              raw = [];
            })
                ∷ state_events call_id state_event ended,
          )
    ]
