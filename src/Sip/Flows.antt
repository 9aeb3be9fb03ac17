-- ===== src/Sip/Flows.antt =====
-- src/sip.rs: the timed flows of an answered call, of `make_call` and of `handle_invite`: DTMF, re-
-- INVITE, REFER and INFO. Times are milliseconds from the answer. How long an action takes, to its
-- response, is an input, and so is when the call is over; at the very moment at which a flow is
-- stopped nothing is sent any more.
pub mod Timing
use sipbot.Prelude.{
  ℕ, ◌+◌, ◌*◌, not, Bool, true, false, ltb, leb, min, max, Option, none, some, get_or, List, [],
  ◌∷◌, ◌++◌, map, if◌then◌else◌,
}
use sipbot.Prelude.Text.{Text, codes}
use sipbot.Config.Account.{AccountConfig}
use sipbot.Config.Flows.{
  Parsed, ok, failed, panicked, ◌>>=◌, ReinviteAction, DtmfFlowEntry, ReinviteFlowEntry,
  TransferFlowEntry, InfoFlowEntry, parse_dtmf_flows, parse_reinvite_flows, parse_transfer_flows,
  parse_info_flows,
}

-- whether something happens before the end, if there is one
abbrev pub is_before : ℕ → Option ℕ → Bool
is_before at none = true
is_before at (some stop) = ltb at stop

-- The actions that are taken, with their times. `delay` is what the entry says, `takes` how long its
-- action lasts.
module _ {Entry : Type 0} (delay takes : Entry → ℕ) where
  -- DTMF, REFER and INFO: each delay counts from the end of the action before.
  unfoldable pub run_gaps : (stop : Option ℕ) → (now : ℕ) → List Entry → List (ℕ × Entry)
  run_gaps stop now [] = []
  run_gaps stop now (e ∷ es) =
      let at = now + delay e in
      let rest = run_gaps stop (at + takes e) es in if is_before at stop then (at, e) ∷ rest else []

  -- Re-INVITE: each delay counts from the start of the flow; a time that is over is now.
  unfoldable pub run_offsets :
      (stop : Option ℕ) → (flow_start now : ℕ) → List Entry → List (ℕ × Entry)
  run_offsets stop flow_start now [] = []
  run_offsets stop flow_start now (e ∷ es) =
      let at = max now (flow_start + delay e) in
      let rest = run_offsets stop flow_start (at + takes e) es in
      if is_before at stop then (at, e) ∷ rest else []

pub data Request : Type 0 where
  dtmf : ℕ → Request
  hold : Request
  resume : Request
  refer : Text → Request
  refer_to : Text → (referred_by : Text) → Request
  info : (content_type body : Text) → Request

-- What comes of a re-INVITE.
pub data Reply : Type 0 where
  offer_failed : Reply
  accepted : (answer_sdp : Text) → Reply
  rejected : Reply
  no_response : Reply
  request_failed : Reply

abbrev pub muted_by : Request → Reply → Bool → Bool
muted_by hold (accepted answer_sdp) silent = true
muted_by resume (accepted answer_sdp) silent = false
muted_by request reply silent = silent

-- the mute of the session after the re-INVITEs that were sent
unfoldable pub mute_after : (Request → Reply) → Bool → List (ℕ × Request) → Bool
mute_after reply silent [] = silent
mute_after reply silent ((at, request) ∷ sent) =
    mute_after reply (muted_by request (reply request) silent) sent

-- When a call is over: the time is up or the playback ends, the other side hangs up, or the call is
-- cancelled. None of these need happen.
pub record Ending : Type 0 where
  pub after_secs : Option ℕ
  pub playback : Option ℕ
  pub remote_bye : Option ℕ
  pub cancelled : Option ℕ

abbrev pub earlier : Option ℕ → Option ℕ → Option ℕ
earlier none o = o
earlier (some a) none = some a
earlier (some a) (some b) = some (min a b)

-- with a time to hang up the playback does not end the call
abbrev pub own_end : Ending → Option ℕ
own_end e = elim e.after_secs [ none ↦ e.playback | some secs ↦ some (secs * 1000) ]

unfoldable pub end_of : Ending → Option ℕ
end_of e = earlier (own_end e) (earlier e.remote_bye e.cancelled)

abbrev comes_first : Option ℕ → Option ℕ → Bool
comes_first none other = false
comes_first (some at) other = is_before at other

-- The BYE is sent unless the other side hung up first.
unfoldable pub says_bye : Ending → Bool
says_bye e = not (comes_first e.remote_bye (earlier (own_end e) e.cancelled))

-- A flow that cannot be read is left out; one whose delay is no duration panics.
abbrev pub flows_of {ℓ} : {A : Type ℓ} → (Text → Parsed (List A)) → Option Text → Parsed (List A)
flows_of parse none = ok []
flows_of parse (some s) = elim (parse s) [ ok es ↦ ok es | failed ↦ ok [] | panicked ↦ panicked ]

module _ {F : Type 0} (parse_f64 : Text → Option F) (from_secs_f64 : F → Option ℕ)
    (is_uri : Text → Bool) (takes : Request → ℕ) where
  abbrev pub dtmf_request : DtmfFlowEntry parse_f64 from_secs_f64 → ℕ × Request
  dtmf_request e = (e.delay, dtmf e.digit)

  abbrev pub reinvite_request : ReinviteFlowEntry parse_f64 from_secs_f64 → ℕ × Request
  reinvite_request e =
      (e.delay, elim e.action [ ReinviteAction.hold ↦ hold | ReinviteAction.resume ↦ resume ])

  abbrev pub refer_request : TransferFlowEntry parse_f64 from_secs_f64 → ℕ × Request
  refer_request e = (e.delay, refer e.target)

  abbrev pub info_request : InfoFlowEntry parse_f64 from_secs_f64 → ℕ × Request
  info_request e = (e.delay, info e.content_type e.body)

  abbrev pub delay_of : ℕ × Request → ℕ
  delay_of e = e.0

  -- a target that is no URI is not sent, and costs no time
  abbrev pub takes_of : ℕ × Request → ℕ
  takes_of (delay, refer target) = if is_uri target then takes (refer target) else 0
  takes_of (delay, request) = takes request

  abbrev pub requests : List (ℕ × (ℕ × Request)) → List (ℕ × Request)
  requests [] = []
  requests ((at, (delay, refer target)) ∷ es) =
      if is_uri target then (at, refer target) ∷ requests es else requests es
  requests ((at, (delay, request)) ∷ es) = (at, request) ∷ requests es

  unfoldable pub gap_flow : Option ℕ → List (ℕ × Request) → List (ℕ × Request)
  unfolding run_gaps
  gap_flow stop es = requests (run_gaps delay_of takes_of stop 0 es)

  unfoldable pub offset_flow : Option ℕ → List (ℕ × Request) → List (ℕ × Request)
  unfolding run_offsets
  offset_flow stop es = requests (run_offsets delay_of takes_of stop 0 0 es)

  -- the single REFER of the command line
  unfoldable pub refer_once : AccountConfig → List (ℕ × Request)
  refer_once a = elim a.refer_to [
    | none ↦ []
    | some target ↦
        (
          get_or a.refer_delay_secs 1 * 1000,
          refer_to target (codes "<sip:" ++ a.username ++ codes "@" ++ a.domain ++ codes ">"),
        )
        ∷ []
  ]

  -- The requests of an established outgoing call, flow by flow; the flows run side by side.
  unfoldable pub established : AccountConfig → Ending → Parsed (List (List (ℕ × Request)))
  unfolding gap_flow offset_flow refer_once end_of
  established a e =
      let stop = end_of e in
      flows_of (parse_dtmf_flows parse_f64 from_secs_f64) a.dtmf_flows >>= λ dtmfs.
      flows_of (parse_reinvite_flows parse_f64 from_secs_f64) a.reinvite_flows >>= λ reinvites.
      flows_of (parse_transfer_flows parse_f64 from_secs_f64) a.transfer_flows >>= λ refers.
      flows_of (parse_info_flows parse_f64 from_secs_f64) a.info_flows >>= λ infos. ok (
        gap_flow stop (map dtmf_request dtmfs)
        ∷ offset_flow stop (map reinvite_request reinvites)
        ∷ gap_flow stop (map refer_request refers)
        ∷ gap_flow stop (refer_once a)
        ∷ gap_flow stop (map info_request infos)
        ∷ [])

  -- The flows of an answered incoming call, which has DTMF and REFER only. The DTMF flow ends with
  -- the call; the task of the REFER flow is left to itself, and only a cancellation of the bot ends
  -- it.
  unfoldable pub answered_flows :
      AccountConfig → (call_end cancelled : Option ℕ) → Parsed (List (List (ℕ × Request)))
  unfolding gap_flow
  answered_flows a call_end cancelled =
      flows_of (parse_dtmf_flows parse_f64 from_secs_f64) a.dtmf_flows >>= λ dtmfs.
      flows_of (parse_transfer_flows parse_f64 from_secs_f64) a.transfer_flows >>= λ refers. ok (
        gap_flow call_end (map dtmf_request dtmfs)
        ∷ gap_flow cancelled (map refer_request refers)
        ∷ [])
