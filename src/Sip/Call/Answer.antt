-- ===== src/Sip/Call/Answer.antt =====
-- src/sip.rs, `handle_invite`: the stages from the answer on.
use mathlib.Core.Option
use mathlib.Core.List.{filter_map}
use sipbot.Prelude.{
  ℕ, ◌-◌, Bool, true, false, not, ◌&&◌, Option, none, some, or_else, List, [], ◌∷◌, ◌++◌, get_or,
  if◌then◌else◌,
}
use sipbot.Prelude.Text.{Text, codes, trim, strip_prefix, split_once}
use sipbot.Stats.{add_status, add_setup_latency}
use sipbot.Web.Record.{CallRecord, JumpEvent}
use sipbot.Config.Hangup.{HangupMode, remote, after, playback, effective_mode}
use sipbot.Config.Account.{AccountConfig, AnnounceConfig, AnswerConfig, play, echo, local}
use sipbot.Sip.Health.{evaluate_call_health}
use sipbot.Sip.Call.{
  Session, Playing, accept, bye, file_once, file, answer_wav, local_device, bridged_echo, Ending,
  ended_remotely, ui_hangup, shutdown, media_done, timer_expired, World, CallTask, Stage, running,
  returned,
}
use sipbot.Sip.Call.Early.{offer, adopt, stop_all}
use sipbot.Sip.Call.Early as Early

-- `and_then(|s| s.local_stream_info())`
abbrev ssrc_of : Option Session → Option ℕ
ssrc_of none = none
ssrc_of (some s) = s.ssrc

abbrev jump_event : ℕ → Text → (old new : Option ℕ) → CallRecord → JumpEvent
jump_event now reason old new r = record {
  t_ms = now - r.started_at_ms;
  reason = reason;
  old_ssrc = old;
  new_ssrc = new;
}

-- what the answer with a new session writes into the record
unfoldable pub record_sdp_jump : ℕ → (old new : Option ℕ) → Session → CallRecord → CallRecord
record_sdp_jump now old new b r = record r {
  sdp_200 = some b.sdp;
  codec = some b.codec_name;
  jump_events = r.jump_events ++ jump_event now (codes "sdp_jump(200 OK new SDP)") old new r ∷ [];
}

-- the session of the early media is stopped, and the live ones are forgotten
unfoldable pub drop_old : Option Session → CallTask → CallTask
drop_old none s = s
drop_old (some old) s = record s { live_sessions = []; stopped = old ∷ s.stopped }

unfoldable pub jump_to : World → Session → CallTask → CallTask
unfolding drop_old record_sdp_jump adopt
jump_to w b s = record (adopt b (drop_old s.media_session s)) {
  local_sdp = some b.sdp;
  call_record =
      Option.map (record_sdp_jump w.jump_now (ssrc_of s.media_session) b.ssrc b) s.call_record;
}

unfoldable pub sdp_jump_stage : World → AccountConfig → CallTask → Stage
unfolding jump_to
sdp_jump_stage w account s =
    if get_or account.sdp_jump false
    then elim (offer w) [
      | none ↦ running s
      | some body ↦ elim (w.jump_session body (or_else account.jump_codecs account.codecs)) [
        | none ↦ running s
        | some b ↦ running (jump_to w b s)
      ]
    ]
    else running s

-- a custom header, with a colon between name and value; others are left out
abbrev parse_header : Text → Option (Text × Text)
parse_header line = Option.map (λ p. (trim p.0, trim p.1)) (split_once b':' line)

unfoldable pub custom_headers : Option (List Text) → List (Text × Text)
custom_headers none = []
custom_headers (some lines) = filter_map parse_header lines

abbrev content_type : Text × Text
content_type = (codes "Content-Type", codes "application/sdp")

unfoldable pub answer_headers : AccountConfig → Option Text → List (Text × Text)
unfolding custom_headers
answer_headers account none = custom_headers account.headers
answer_headers account (some sdp) = content_type ∷ custom_headers account.headers

unfoldable pub accept_stage : World → AccountConfig → CallTask → Stage
unfolding answer_headers
accept_stage w account s =
    let asked = accept (answer_headers account s.local_sdp) s.local_sdp ∷ s.asked in
    if w.accept_ok
    then running
        (record s { asked = asked; stats = add_setup_latency (add_status s.stats 200) w.setup_ms })
    else returned (record s { asked = asked })

unfoldable pub hangup_mode : AccountConfig → HangupMode
hangup_mode account = elim account.hangup [ none ↦ playback | some h ↦ effective_mode h ]

abbrev is_playback : HangupMode → Bool
is_playback remote = false
is_playback (after secs) = false
is_playback playback = true

-- `replace`: the pattern is looked for from the left. The fuel is the length of the text.
replace_in : Text → (pattern by s : Text) → Text
replace_in [] pattern by s = s
replace_in (_ ∷ fuel) pattern by [] = []
replace_in (_ ∷ fuel) pattern by (c ∷ cs) = elim (strip_prefix (c ∷ cs) pattern) [
  | some rest ↦ by ++ replace_in fuel pattern by rest
  | none ↦ c ∷ replace_in fuel pattern by cs
]

unfoldable pub announced_file : Text → AnnounceConfig → Text
unfolding replace_in
announced_file caller_user cfg = replace_in cfg.file (codes "{{caller}}") caller_user cfg.file

-- the codecs of the session after the announcement
unfoldable pub announce_codecs : AccountConfig → AnnounceConfig → Option (List Text)
announce_codecs account cfg =
    or_else (Option.map (λ c. c ∷ []) cfg.jump_codec) (or_else account.jump_codecs account.codecs)

-- The old session keeps receiving, and the new one sends.
unfoldable pub bridge_to : World → Session → Session → CallTask → CallTask
unfolding adopt
bridge_to w old new s = record (adopt new s) {
  bridged = true;
  call_record =
      Option.map
        (λ (r : CallRecord). record r {
          jump_events =
              r.jump_events
              ++ jump_event w.announce_now (codes "announce jump_after (in-call)") old.ssrc new.ssrc
                  r
                ∷ [];
        })
        s.call_record;
}

-- the jump after the announcement, unless the call was hung up
unfoldable pub jump_after : World → AccountConfig → AnnounceConfig → Session → CallTask → CallTask
unfolding announce_codecs bridge_to
jump_after w account cfg session s =
    if cfg.jump_after && not w.is_hung_up
    then elim (offer w) [
      | none ↦ s
      | some body ↦ elim (w.announce_session body (announce_codecs account cfg)) [
        | none ↦ s
        | some new ↦ bridge_to w session new s
      ]
    ]
    else s

-- the announcement, with a session
unfoldable pub announce :
    World → AccountConfig → Text → AnnounceConfig → Option Session → CallTask → CallTask
unfolding announced_file jump_after
announce w account caller_user cfg none s = s
announce w account caller_user cfg (some session) s =
    jump_after w account cfg session (Early.play (file_once (announced_file caller_user cfg)) s)

unfoldable pub announce_stage : World → AccountConfig → Text → CallTask → CallTask
unfolding announce
announce_stage w account caller_user s = elim account.announce [
  | none ↦ s
  | some cfg ↦ announce w account caller_user cfg s.media_session s
]

-- the local device, and the default answer where it fails or the build has none
unfoldable pub try_local : World → Bool → CallTask → CallTask
try_local w keep_alive s = if w.has_local_device then Early.play (local_device keep_alive) s else s

unfoldable pub answer_locally : World → Bool → CallTask → CallTask
unfolding try_local
answer_locally w keep_alive s =
    if w.has_local_device && not w.local_failed
    then try_local w keep_alive s
    else Early.play (answer_wav keep_alive) (try_local w keep_alive s)

-- `media_future`: what the answered call plays
unfoldable pub answer_with : World → Bool → Option AnswerConfig → CallTask → CallTask
unfolding answer_locally
answer_with w keep_alive none s = Early.play (answer_wav keep_alive) s
answer_with w keep_alive (some echo) s =
    Early.play (if s.bridged then bridged_echo else Playing.echo) s
answer_with w keep_alive (some (play wav)) s = Early.play (file wav keep_alive) s
answer_with w keep_alive (some local) s = answer_locally w keep_alive s

unfoldable pub answer_media : World → AccountConfig → CallTask → CallTask
unfolding answer_with
answer_media w account s = answer_with w (not (is_playback (hangup_mode account))) account.answer s

abbrev is_ui_hangup : Ending → Bool
is_ui_hangup ended_remotely = false
is_ui_hangup ui_hangup = true
is_ui_hangup shutdown = false
is_ui_hangup media_done = false
is_ui_hangup timer_expired = false

-- Whether the bot sends a BYE: in remote mode only if the page asked for it.
unfoldable pub sends_bye : World → HangupMode → Bool
sends_bye w remote = is_ui_hangup w.ending
sends_bye w (after secs) = true
sends_bye w playback = true

-- the acceptance checks at the end of an answered call
unfoldable pub close_record : World → CallRecord → CallRecord
close_record w r =
    evaluate_call_health w.expected_ms
      (record r { ended_at_ms = some (get_or r.ended_at_ms w.end_now) })

unfoldable pub hangup_stage : World → AccountConfig → CallTask → CallTask
unfolding close_record
hangup_stage w account s =
    let t = stop_all s in
    record t {
      asked = if sends_bye w (hangup_mode account) then bye ∷ s.asked else s.asked;
      call_record = Option.map (close_record w) s.call_record;
    }
