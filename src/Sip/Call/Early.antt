-- ===== src/Sip/Call/Early.antt =====
-- src/sip.rs, `handle_invite`: the stages before the answer.
use mathlib.Core.Option
use sipbot.Prelude.{
  ℕ, Bool, true, false, not, ◌||◌, Option, none, some, is_none, [], ◌∷◌, ◌++◌, get_or, leb,
  if◌then◌else◌,
}
use sipbot.Prelude.Text.{Text, codes, text_eq}
use sipbot.Prelude.Decimal.{to_string}
use sipbot.Stats.{add_status}
use sipbot.Web.Record.{CallState, terminated, rejected, failed, CallRecord}
use sipbot.Config.Hangup.{HangupConfig}
use sipbot.Config.Account.{AccountConfig, RejectConfig, EarlyMediaConfig, RingConfig}
use sipbot.Sip.Caller.{caller_matches}
use sipbot.Sip.Health.{evaluate_call_health}
use sipbot.Sip.Call.{
  Session, Playing, ringing, reject, file_once, file, ringing_wav, local_device, World, CallTask,
  Stage, running, returned, ◌>>=◌,
}

abbrev pub forbidden : ℕ
forbidden = 403

abbrev pub temporarily_unavailable : ℕ
temporarily_unavailable = 480

abbrev pub busy_here : ℕ
busy_here = 486

-- the closure `finish_record`, on the record of the call
unfoldable pub finish_record : Option ℕ → ℕ → CallState → Text → CallRecord → CallRecord
finish_record expected now state reason r = evaluate_call_health expected (record r {
  state = some state;
  ended_at_ms = some now;
  end_reason = some (get_or r.end_reason reason);
})

abbrev pub finish : World → CallState → Text → CallTask → CallTask
finish w state reason s = record s {
  call_record = Option.map (finish_record w.expected_ms w.end_now state reason) s.call_record;
}

-- the dialog is asked to reject, the code is counted, and the record is finished
abbrev pub refuse : World → ℕ → ℕ → CallState → Text → CallTask → CallTask
refuse w sent_code code state reason s =
    finish w state reason
      (record s { asked = reject sent_code ∷ s.asked; stats = add_status s.stats code })

-- `stop` of every live session
abbrev pub stop_all : CallTask → CallTask
stop_all s = record s { live_sessions = []; stopped = s.live_sessions ++ s.stopped }

abbrev pub play : Playing → CallTask → CallTask
play what s = record s {
  played = elim s.media_session [ none ↦ s.played | some m ↦ (m, what) ∷ s.played ];
}

unfoldable pub match_stage : World → AccountConfig → Text → CallTask → Stage
match_stage w account caller_user s = elim account.match_caller [
  | none ↦ running s
  | some pattern ↦
      if caller_matches pattern caller_user
      then running s
      else returned (refuse w forbidden forbidden rejected (codes "403 caller mismatch") s)
]

-- the code of a random rejection: of the hangup, if it is at least 300
unfoldable pub random_code : World → Option HangupConfig → ℕ
random_code w none = temporarily_unavailable
random_code w (some h) = if leb 300 h.code then w.status_from h.code else temporarily_unavailable

unfoldable pub random_stage : World → AccountConfig → CallTask → Stage
unfolding random_code
random_stage w account s = elim account.reject_prob [
  | none ↦ running s
  | some prob ↦
      let code = random_code w account.hangup in
      if leb w.draw prob
      then returned (refuse w code code rejected (codes "random reject " ++ to_string code) s)
      else running s
]

-- the code that is sent; the configured one is counted
unfoldable pub sent_code : World → RejectConfig → ℕ
sent_code w cfg = get_or (w.status_try_from cfg.code) busy_here

unfoldable pub refuse_by : World → RejectConfig → CallTask → CallTask
unfolding sent_code
refuse_by w cfg s =
    refuse w (sent_code w cfg) cfg.code rejected (codes "reject " ++ to_string cfg.code) s

unfoldable pub plain_reject_stage : World → AccountConfig → CallTask → Stage
unfolding refuse_by
plain_reject_stage w account s = elim account.reject [
  | none ↦ running s
  | some cfg ↦ if is_none cfg.tone then returned (refuse_by w cfg s) else running s
]

-- `!offer_body.is_empty()` and `from_utf8`
unfoldable pub offer : World → Option Text
offer w = elim w.offer_body [ [] ↦ none | b ∷ bs ↦ w.from_utf8 (b ∷ bs) ]

-- A new session becomes the session of the call.
unfoldable pub adopt : Session → CallTask → CallTask
adopt session s = record s {
  media_session = some session;
  live_sessions = session ∷ s.live_sessions;
  guarded = some session;
  shared = some session;
  opened = session ∷ s.opened;
}

unfoldable pub open_stage : World → AccountConfig → CallTask → Stage
unfolding offer adopt
open_stage w account s = elim (offer w) [
  | none ↦ running s
  | some body ↦ elim (w.first_session body account.codecs) [
    | some session ↦ running (record (adopt session s) {
      local_sdp = some session.sdp;
      call_record =
          Option.map (λ (r : CallRecord). record r { codec = some session.codec_name })
            s.call_record;
    })
    | none ↦ returned (
        refuse w temporarily_unavailable temporarily_unavailable failed
          (codes "media session failed") s)
  ]
]

-- the dialog is asked to ring, and the code is counted where `counts` says so
abbrev pub ring_with : Option Text → Bool → ℕ → CallTask → CallTask
ring_with sdp counts code s = record s {
  asked = ringing sdp ∷ s.asked;
  stats = if counts then add_status s.stats code else s.stats;
}

-- 183 and the tone, with a session; then the code
unfoldable pub play_tone : World → Text → Option Session → Option Text → CallTask → CallTask
play_tone w tone (some m) (some sdp) s =
    play (file_once tone) (ring_with (some sdp) w.tone_ringing_ok 183 s)
play_tone w tone (some m) none s = s
play_tone w tone none sdp s = s

unfoldable pub tone_stage : World → AccountConfig → CallTask → Stage
unfolding play_tone refuse_by
tone_stage w account s = elim account.reject [
  | none ↦ running s
  | some cfg ↦ elim cfg.tone [
    | none ↦ running s
    | some tone ↦
        returned (stop_all (refuse_by w cfg (play_tone w tone s.media_session s.local_sdp s)))
  ]
]

-- The 183 is counted also where the dialog does not take it.
unfoldable pub announce_early : Option Text → CallTask → CallTask
announce_early none s = s
announce_early (some sdp) s = ring_with (some sdp) true 183 s

unfoldable pub play_early : World → EarlyMediaConfig → CallTask → CallTask
play_early w early s =
    if get_or early.local false
    then if w.has_local_device then play (local_device false) s else s
    else elim early.wav_file [ none ↦ s | some wav ↦ play (file wav false) s ]

unfoldable pub early_stage : World → AccountConfig → CallTask → Stage
unfolding announce_early play_early
early_stage w account s = elim account.early_media [
  | none ↦ running s
  | some early ↦
      if get_or early.local false || not (is_none early.wav_file)
      then running (play_early w early (announce_early s.local_sdp s))
      else running s
]

-- A ringing that the dialog does not take ends the task: the code is not counted.
unfoldable pub ring_or_return : World → Option Text → ℕ → CallTask → Stage
ring_or_return w sdp code s =
    if w.ringing_ok
    then running (ring_with sdp true code s)
    else returned (ring_with sdp false code s)

unfoldable pub play_ringback : World → RingConfig → CallTask → CallTask
play_ringback w cfg s =
    if get_or cfg.local false
    then if w.has_local_device then play (local_device true) s else s
    else elim cfg.ringback [
      | none ↦ s
      | some wav ↦ if text_eq wav [] then play ringing_wav s else play (file_once wav) s
    ]

-- 183 with the SDP of the session, or 180 without a session
unfoldable pub ring_for_media : World → Option Text → CallTask → Stage
unfolding ring_or_return
ring_for_media w (some sdp) s = ring_or_return w (some sdp) 183 s
ring_for_media w none s = ring_or_return w none 180 s

unfoldable pub ring_stage : World → AccountConfig → CallTask → Stage
unfolding ring_or_return ring_for_media play_ringback
ring_stage w account s = elim account.ring [
  | none ↦ running s
  | some cfg ↦
      if get_or cfg.local false || not (is_none cfg.ringback)
      then (ring_for_media w s.local_sdp s >>= (λ t. running (play_ringback w cfg t)))
      else ring_or_return w none 180 s
]

unfoldable pub cancelled_stage : World → CallTask → Stage
cancelled_stage w s =
    if w.is_cancelled
    then returned (
        finish w terminated (codes "cancelled")
          (stop_all (record s { asked = reject busy_here ∷ s.asked })))
    else running s
