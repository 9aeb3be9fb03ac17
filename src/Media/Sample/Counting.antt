-- ===== src/Media/Sample/Counting.antt =====
-- src/media.rs, `process_sample`: the packet and event counters over many samples.
use sipbot.Prelude.{
  ℕ, ◌+◌, ◌<◌, ◌≡◌, List, [], ◌∷◌, Option, none, some, Bool, arith, length, leb, ◌&&◌,
  if◌then◌else◌, add_u64, Bool-cases, Option-cases, inl, inr,
}
use sipbot.Stats.{CallStats, inc_rx, inc_tx, inc_rx_dtmf, add_audio_quality_stats}
use sipbot.Dtmf.Digit.{event_to_digit}
use sipbot.Dtmf.Packet.{decode_dtmf}
use sipbot.Media.Frame.{AudioFrame, MediaSample, audio, other}
use sipbot.Media.Sequence.{record_seq_gap}
use sipbot.Media.Timestamp.{record_ts_jump}
use sipbot.Media.Sample.{
  Codec, Settings, Session, is_pt, check_ts, run_analysis, seq_state, take_dtmf, count_rx,
  echo_frame, process_audio, process_sample,
}

-- The counters that stand still in a part of the code, or that move together.
pub record SameTraffic (s s' : CallStats) : Type 0 where
  pub rx : s'.rx_packets ≡ s.rx_packets
  pub tx : s'.tx_packets ≡ s.tx_packets
  pub dtmf : s'.rx_dtmf_events ≡ s.rx_dtmf_events

pub SameTraffic-record_ts_jump :
    (stats : CallStats) (last frame expected rate tol : ℕ)
    → SameTraffic stats (record_ts_jump stats last frame expected rate tol)
unfolding record_ts_jump
SameTraffic-record_ts_jump stats last frame expected rate tol = ground arith

SameTraffic-check_ts :
    (stats : CallStats) (last : Option ℕ) (frame decoded : ℕ) (c : Settings)
    → SameTraffic stats (check_ts stats last frame decoded c).1
unfolding check_ts
SameTraffic-check_ts stats none frame decoded c = ground arith
SameTraffic-check_ts stats (some last) frame decoded c =
    SameTraffic-record_ts_jump stats last _ _ _ _

pub SameTraffic-record_seq_gap :
    (stats : CallStats) (last : Option ℕ) (seq : ℕ)
    → SameTraffic stats (record_seq_gap stats last seq).0
unfolding record_seq_gap
SameTraffic-record_seq_gap stats none seq = ground arith
SameTraffic-record_seq_gap stats (some last) seq = ground arith

module _ (codec : Codec) where
  pub record Counted (s s' : Session codec) (packets events : ℕ) : Type 0 where
    pub rx : s'.stats.rx_packets ≡ add_u64 s.stats.rx_packets packets
    pub tx : s'.stats.tx_packets ≡ add_u64 s.stats.tx_packets packets
    pub dtmf : s'.stats.rx_dtmf_events ≡ add_u64 s.stats.rx_dtmf_events events

  count_rx-Counted :
      (s : Session codec) (frame : AudioFrame) (decoded : List codec.Sample) (c : Settings)
      → s.stats.rx_dtmf_events < 18446744073709551616
      → Counted s (count_rx codec s frame decoded c) 1 0
  unfolding count_rx seq_state run_analysis inc_rx inc_tx add_audio_quality_stats
  count_rx-Counted s frame decoded c h = elim (Option-cases frame.sequence_number) [
    | inl e ↦ rw e (ground arith)
    | inr (seq, e) ↦ rw e (ground (arith, SameTraffic-record_seq_gap s.stats s.last_seq seq))
  ]

  process_audio-Counted :
      (s : Session codec) (frame : AudioFrame) (c : Settings)
      → s.stats.rx_dtmf_events < 18446744073709551616
      → Counted s (process_audio codec s frame c) 1 0
  unfolding process_audio echo_frame
  process_audio-Counted s frame c h =
      let (decoded, decoder') = codec.decode s.decoder frame.payload in
      let (ts, stats') = check_ts s.stats s.last_timestamp frame.rtp_timestamp (length decoded) c in
      let checked : SameTraffic s.stats stats' =
        SameTraffic-check_ts s.stats s.last_timestamp frame.rtp_timestamp (length decoded) c in
      ground (
        arith,
        checked,
        count_rx-Counted (record s { stats = stats'; decoder = decoder' })
            (record frame { rtp_timestamp = ts }) decoded c,
      )

-- How a sample is classed: a packet of audio, or a telephone event with a known digit.
abbrev pub is_event : Settings → AudioFrame → Bool
is_event c frame = is_pt c.telephone_event_pt frame.payload_type && leb 4 (length frame.payload)

abbrev pub digits_in : List ℕ → ℕ
digits_in payload = elim (decode_dtmf payload) [
  | none ↦ 0
  | some ev ↦ elim (event_to_digit ev.event) [ none ↦ 0 | some digit ↦ 1 ]
]

abbrev pub packets_of : Settings → MediaSample → ℕ
packets_of c other = 0
packets_of c (audio frame) = if is_event c frame then 0 else 1

abbrev pub events_of : Settings → MediaSample → ℕ
events_of c other = 0
events_of c (audio frame) = if is_event c frame then digits_in frame.payload else 0

module _ (codec : Codec) where
  pub take_dtmf-Counted :
      (s : Session codec) (frame : AudioFrame)
      → s.stats.rx_packets < 18446744073709551616
      → s.stats.tx_packets < 18446744073709551616
      → s.stats.rx_dtmf_events < 18446744073709551616
      → Counted codec s (take_dtmf codec s frame) 0 (digits_in frame.payload)
  unfolding take_dtmf inc_rx_dtmf
  take_dtmf-Counted s frame h1 h2 h3 = ground arith

  -- One sample: a packet of audio counts as one packet in and one out, a telephone event as one
  -- event if it stands for a digit, and a sample that is not audio as neither.
  pub process_sample-Counted :
      (s : Session codec) (x : MediaSample) (c : Settings)
      → s.stats.rx_packets < 18446744073709551616
      → s.stats.tx_packets < 18446744073709551616
      → s.stats.rx_dtmf_events < 18446744073709551616
      → Counted codec s (process_sample codec s x c) (packets_of c x) (events_of c x)
  unfolding process_sample
  process_sample-Counted s other c h1 h2 h3 = ground arith
  process_sample-Counted s (audio frame) c h1 h2 h3 = elim (Bool-cases (is_event c frame)) [
    | inl e ↦ rw e (take_dtmf-Counted s frame h1 h2 h3)
    | inr e ↦ rw e (process_audio-Counted codec s frame c h3)
  ]

  -- The samples of a call, one after the other.
  unfoldable pub process_all : Session codec → List MediaSample → Settings → Session codec
  process_all s [] c = s
  process_all s (x ∷ xs) c = process_all (process_sample codec s x c) xs c

abbrev pub total_of : (MediaSample → ℕ) → List MediaSample → ℕ
total_of f [] = 0
total_of f (x ∷ xs) = f x + total_of f xs

module _ (codec : Codec) where
  -- Over any samples the packets counted in, the packets counted out and the DTMF events advance by
  -- the audio packets, the same number, and the telephone events with a known digit (modulo 2 ^ 64,
  -- from counters within 64 bits).
  pub process_all-Counted :
      (xs : List MediaSample) (s : Session codec) (c : Settings)
      → s.stats.rx_packets < 18446744073709551616
      → s.stats.tx_packets < 18446744073709551616
      → s.stats.rx_dtmf_events < 18446744073709551616
      → Counted codec s
          (process_all codec s xs c)
          (total_of (packets_of c) xs)
          (total_of (events_of c) xs)
  unfolding process_all
  process_all-Counted [] s c h1 h2 h3 = omega arith
  process_all-Counted (x ∷ xs) s c h1 h2 h3 =
      let s' : Session codec = process_sample codec s x c in
      let one : Counted codec s s' (packets_of c x) (events_of c x) =
        process_sample-Counted codec s x c h1 h2 h3 in
      let ih : Counted codec s' (process_all codec s' xs c) (total_of (packets_of c) xs)
          (total_of (events_of c) xs) =
        process_all-Counted xs s' c (omega (arith, one)) (omega (arith, one))
          (omega (arith, one)) in
      omega (arith, one, ih)
