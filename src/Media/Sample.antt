-- ===== src/Media/Sample.antt =====
-- src/media.rs, `process_sample`: one received sample of an echo call. The decoder and the
-- resampler are of the audio_codec crate, the analyser of src/audio_quality.rs works on floats: the
-- section takes them as functions. `recording` says that the recorder is there and its lock is
-- free, `now` is the clock, and a sample counts as sent when it is handed to the sender, which may
-- drop it.
pub mod Echo
pub mod Recorded
pub mod Counting
use sipbot.Prelude.{
  ℕ, zero, suc, ◌+◌, ◌-◌, ◌*◌, ◌/◌, ◌%◌, ◌≤◌, ◌<◌, ◌≡◌, ◌≢◌, refl, List, [], ◌∷◌, ◌++◌, Option,
  none, some, Bool, true, false, arith, length, ltb, leb, ◌==◌, ◌&&◌, if◌then◌else◌, min, max,
  add_u32, sub_u32,
}
use sipbot.Stats.{CallStats, inc_rx, inc_tx, inc_rx_dtmf, add_audio_quality_stats}
use sipbot.Dtmf.Digit.{event_to_digit}
use sipbot.Dtmf.Packet.{DtmfEvent, decode_dtmf}
use sipbot.Media.Frame.{AudioFrame, MediaSample, audio, other}
use sipbot.Media.Sequence.{record_seq_gap}
use sipbot.Media.Timestamp.{max_reasonable_jump, half_range, record_ts_jump}

-- The flags of an analysed frame that the counters take.
pub record FrameFlags : Type 0 where
  pub mismatch : Bool
  pub shrill : Bool
  pub muffled : Bool
  pub clipping : Bool
  pub silence : Bool

-- A decoder in its state, and an analyser in its state.
pub record Codec : Type 1 where
  pub Sample : Type 0
  pub Decoder : Type 0
  pub Analyzer : Type 0
  pub decode : Decoder → List ℕ → List Sample × Decoder
  pub analyze : Analyzer → List Sample → (ts rate actual : ℕ) → FrameFlags × Analyzer
  pub resample : List Sample → List Sample

pub record Settings : Type 0 where
  pub rtp_clock_rate : ℕ
  pub actual_sample_rate : ℕ
  pub telephone_event_pt : Option ℕ
  pub audio_silent : Bool
  pub tolerance_ms : ℕ
  pub recording : Bool
  pub now : ℕ

abbrev pub is_pt : Option ℕ → Option ℕ → Bool
is_pt none q = false
is_pt (some p) none = false
is_pt (some p) (some q) = p == q

abbrev pub bit : Bool → ℕ
bit true = 1
bit false = 0

-- The time that is given to a packet more than ten seconds off: the expected one.
unfoldable pub rewrite_ts : (last frame expected rate : ℕ) → ℕ
rewrite_ts last_ts frame_ts expected_ts rate =
    let ts_diff = sub_u32 frame_ts expected_ts in
    if ltb (max_reasonable_jump rate) ts_diff && ltb ts_diff half_range
    then expected_ts
    else if ltb half_range ts_diff && ltb (max_reasonable_jump rate) (sub_u32 last_ts frame_ts)
    then expected_ts
    else frame_ts

-- The continuity check of `process_sample`: the packet's time afterwards, and the counters.
unfoldable pub check_ts : CallStats → Option ℕ → (frame decoded : ℕ) → Settings → ℕ × CallStats
check_ts stats none frame_ts decoded c = (frame_ts, stats)
check_ts stats (some last_ts) frame_ts decoded c =
    let ticks = decoded * c.rtp_clock_rate / c.actual_sample_rate % 4294967296 in
    let expected_ts = add_u32 last_ts ticks in
    let ts = rewrite_ts last_ts frame_ts expected_ts c.rtp_clock_rate in
    (ts, record_ts_jump stats last_ts ts expected_ts c.rtp_clock_rate c.tolerance_ms)

module _ (codec : Codec) where
  open codec use {Sample, Decoder, Analyzer, decode, analyze, resample}

  pub record Session : Type 0 where
    pub stats : CallStats
    pub decoder : Decoder
    pub analyzer : Option Analyzer
    pub last_seq : Option ℕ
    pub last_timestamp : Option ℕ
    pub rtp_ts_state : Option (ℕ × ℕ)
    pub notified : List (ℕ × Bool)  -- digits passed to the observer, with their end bits
    pub recorded_rx : List (List Sample)
    pub recorded_tx : List (List Sample)
    pub sent : List MediaSample

  -- A telephone event: counted and passed on if it stands for a digit, and never echoed.
  unfoldable pub take_dtmf : Session → AudioFrame → Session
  take_dtmf s frame = elim (decode_dtmf frame.payload) [
    | none ↦ s
    | some ev ↦ elim (event_to_digit ev.event) [
      | none ↦ s
      | some digit ↦ record s {
        stats = inc_rx_dtmf s.stats;
        notified = s.notified ++ (digit, ev.end) ∷ [];
      }
    ]
  ]

  seq_state : Session → Option ℕ → CallStats × Option ℕ
  seq_state s none = (s.stats, s.last_seq)
  seq_state s (some seq) = record_seq_gap s.stats s.last_seq seq

  run_analysis : Session → Option Analyzer → List Sample → ℕ → Settings → Session
  run_analysis s none decoded ts c = s
  run_analysis s (some a) decoded ts c =
      let (f, a') = analyze a decoded ts c.rtp_clock_rate c.actual_sample_rate in
      record s {
        stats =
            add_audio_quality_stats s.stats (bit f.mismatch) (bit f.shrill) (bit f.muffled)
              (bit f.clipping) (bit f.silence) 1;
        analyzer = some a';
      }

  -- the block "Record RX": sequence numbers, counters, analysis, recording
  unfoldable pub count_rx : Session → AudioFrame → List Sample → Settings → Session
  unfolding seq_state run_analysis
  count_rx s frame decoded c =
      let (stats1, last_seq') = seq_state s frame.sequence_number in
      let bytes = length frame.payload in
      let s1 : Session = record s {
        stats = inc_tx (inc_rx stats1 1 bytes) 1 bytes;
        last_seq = last_seq';
        last_timestamp = some frame.rtp_timestamp;
      } in
      let s2 : Session = run_analysis s1 s1.analyzer decoded frame.rtp_timestamp c in
      if c.recording
      then record s2 {
        recorded_rx = s2.recorded_rx ++ resample decoded ∷ [];
        recorded_tx = s2.recorded_tx ++ resample decoded ∷ [];
      }
      else s2

  -- the echo: on hold nothing is sent, otherwise the frame goes out without its sequence number
  unfoldable pub echo_frame : Session → AudioFrame → Settings → Session
  echo_frame s frame c = if c.audio_silent then s else record s {
    rtp_ts_state = some (frame.rtp_timestamp, c.now);
    sent = s.sent ++ audio (record frame { sequence_number = none }) ∷ [];
  }

  -- a sample of audio that is no telephone event
  unfoldable pub process_audio : Session → AudioFrame → Settings → Session
  process_audio s frame c =
      let (decoded, decoder') = decode s.decoder frame.payload in
      let (ts, stats') = check_ts s.stats s.last_timestamp frame.rtp_timestamp (length decoded) c in
      let frame' = record frame { rtp_timestamp = ts } in
      echo_frame (count_rx (record s { stats = stats'; decoder = decoder' }) frame' decoded c)
        frame' c

  unfoldable pub process_sample : Session → MediaSample → Settings → Session
  process_sample s other c = if c.audio_silent then s else record s { sent = s.sent ++ other ∷ [] }
  process_sample s (audio frame) c =
      if is_pt c.telephone_event_pt frame.payload_type && leb 4 (length frame.payload)
      then take_dtmf s frame
      else process_audio s frame c
