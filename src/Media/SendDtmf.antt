-- ===== src/Media/SendDtmf.antt =====
-- src/media.rs: the RTP timeline that playbacks and DTMF share (`session_rtp_ts_start`, `_mark`,
-- `_peek`), and `send_dtmf`. A moment is a number. How far the clock has moved since a mark is
-- counted with floats in the source: `elapsed_ticks` stands for that count, and `random` for the
-- first time.
use sipbot.Prelude.{
  ℕ, ◌≡◌, ◌≢◌, ◌⊎◌, refl, Bool, true, false, Option, none, some, List, [], ◌∷◌, ◌++◌, arith, min,
  max, ◌*◌, ◌/◌, ◌==◌, if◌then◌else◌, add_u32, add_u64, inl, inr, Option-cases,
}
use sipbot.Stats.{CallStats, inc_tx_dtmf}
use sipbot.Dtmf.Digit.{digit_to_event, event_to_digit, digit_to_event_iff}
use sipbot.Dtmf.Packet.{decode_dtmf}
use sipbot.Media.Frame.{AudioFrame, build_dtmf_frames, build_dtmf_frames_decoded}

unfoldable pub session_rtp_ts_start : Option (ℕ × ℕ) → (elapsed_ticks : ℕ → ℕ) → (random : ℕ) → ℕ
session_rtp_ts_start none elapsed_ticks random = random
session_rtp_ts_start (some (ts, at_time)) elapsed_ticks random = add_u32 ts (elapsed_ticks at_time)

abbrev pub session_rtp_ts_mark : (ts now : ℕ) → Option (ℕ × ℕ)
session_rtp_ts_mark ts now = some (ts, now)

unfoldable pub session_rtp_ts_peek : Option (ℕ × ℕ) → (random : ℕ) → ℕ
session_rtp_ts_peek none random = random
session_rtp_ts_peek (some (ts, at_time)) random = ts

pub record Sender : Type 0 where
  pub telephone_event_pt : ℕ  -- u8, 0 for none
  pub telephone_event_clock_rate : ℕ
  pub rtp_ts_state : Option (ℕ × ℕ)
  pub stats : CallStats
  pub sent : List AudioFrame
  pub notified : List (ℕ × Bool)

-- The outcome of the two sends; the first that fails ends the function with its error.
pub data Sends : Type 0 where
  both_sent first_failed second_failed : Sends

send_frames : Sender → Sends → (now digit ts : ℕ) → AudioFrame × AudioFrame → Sender × Bool
unfolding inc_tx_dtmf
send_frames s first_failed now digit ts frames = (s, false)
send_frames s second_failed now digit ts frames =
    (record s { sent = s.sent ++ frames.0 ∷ [] }, false)
send_frames s both_sent now digit ts frames = (
  record s {
    sent = s.sent ++ frames.0 ∷ frames.1 ∷ [];
    rtp_ts_state = session_rtp_ts_mark ts now;
    stats = inc_tx_dtmf s.stats;
    notified = s.notified ++ (digit, true) ∷ [];
  },
  true,
)

-- The Boolean says that the result is `Ok`.
unfoldable pub send_dtmf : Sender → Sends → (now random digit : ℕ) → Sender × Bool
unfolding send_frames session_rtp_ts_peek
send_dtmf s sends now random digit = elim (digit_to_event digit) [
  | none ↦ (s, true)
  | some event ↦
      let clock_rate = max s.telephone_event_clock_rate 1 in
      let ts = session_rtp_ts_peek s.rtp_ts_state random in
      let frames = build_dtmf_frames event s.telephone_event_pt clock_rate ts in
      if s.telephone_event_pt == 0 then (s, true) else send_frames s sends now digit ts frames
]

-- What is sent of a digit.
pub record Dialed (s s' : Sender) (digit ts now : ℕ) : Type 0 where
  pub frames :
      (event : ℕ) × (start : AudioFrame) × (stop : AudioFrame) × (s'.sent
        ≡ s.sent ++ start ∷ stop ∷ [])
      × (event_to_digit event ≡ some digit)
      × (start.rtp_timestamp ≡ ts)
      × (stop.rtp_timestamp ≡ ts)
      × (decode_dtmf start.payload
          ≡ some (record { event = event; end = false; volume = 10; duration = 0 }))
      × (decode_dtmf stop.payload
          ≡ some (record {
            event = event;
            end = true;
            volume = 10;
            duration = min (max s.telephone_event_clock_rate 1 / 1000 * 60) 65535;
          }))
  pub marked : s'.rtp_ts_state ≡ some (ts, now)
  pub counted : s'.stats.tx_dtmf_events ≡ add_u64 s.stats.tx_dtmf_events 1
  pub told : s'.notified ≡ s.notified ++ (digit, true) ∷ []

-- A character with an event code, while telephone events have a payload type, a time is marked and
-- both sends succeed, goes out as two frames at the marked time, the start and the end of the event
-- that stands for the character; the mark keeps that time and does not move on, and the digit is
-- counted and reported once.
pub send_dtmf-Dialed :
    (s : Sender) (now random digit ts at_time event : ℕ)
    → s.telephone_event_pt ≢ 0
    → s.rtp_ts_state ≡ some (ts, at_time)
    → digit_to_event digit ≡ some event
    → Dialed s (send_dtmf s both_sent now random digit).0 digit ts now
unfolding send_dtmf send_frames inc_tx_dtmf
send_dtmf-Dialed s now random digit ts at_time event hp hs he =
    let on : (s.telephone_event_pt == 0) ≡ false = ground arith in
    let rate : ℕ = max s.telephone_event_clock_rate 1 in
    let (starts, stops, t0, t1) =
      build_dtmf_frames_decoded event s.telephone_event_pt rate ts (omega arith) in
    rw (send_dtmf, he, on, hs)
      (record {
        frames = (event, _, _, refl, (digit_to_event_iff digit event).0 he, t0, t1, starts, stops);
        marked = refl;
        counted = refl;
        told = refl;
      })

-- Without telephone events, or for a character that is no DTMF digit, nothing is sent and the result
-- is still `Ok`.
send_dtmf_ignored :
    (s : Sender) (sends : Sends) (now random digit : ℕ)
    → (s.telephone_event_pt ≡ 0) ⊎ (digit_to_event digit ≡ none)
    → send_dtmf s sends now random digit ≡ (s, true)
unfolding send_dtmf
send_dtmf_ignored s sends now random digit (inl off) = elim (Option-cases (digit_to_event digit)) [
  | inl e ↦ rw (send_dtmf, e)
  | inr (event, e) ↦ rw (send_dtmf, e, off)
]
send_dtmf_ignored s sends now random digit (inr e) = rw (send_dtmf, e)
