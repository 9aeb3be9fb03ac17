-- ===== src/Media/Sample/Recorded.antt =====
-- src/media.rs, `process_recorded_sample`: one received sample that is not echoed. The playback on a
-- local device, which only a feature of the build has, is not modelled; the loop around it takes the
-- telephone events out before.
use sipbot.Prelude.{
  ℕ, ◌+◌, ◌*◌, ◌/◌, ◌%◌, ◌<◌, ◌≡◌, refl, arith, List, [], ◌∷◌, ◌++◌, Option, none, some, length,
  ◌∙◌, if◌then◌else◌, add_u32, add_u64, Option-cases, inl, inr,
}
use sipbot.Stats.{CallStats, inc_rx, add_audio_quality_stats}
use sipbot.Media.Frame.{AudioFrame, MediaSample, audio, other}
use sipbot.Media.Timestamp.{record_ts_jump}
use sipbot.Media.Sample.{Codec, Settings, Session, seq_state, run_analysis}
use sipbot.Media.Sample.Counting.{
  SameTraffic, SameTraffic-record_ts_jump, SameTraffic-record_seq_gap,
}

-- the check of the timestamp, which here is never rewritten
unfoldable pub check_recorded : CallStats → Option ℕ → (frame decoded : ℕ) → Settings → CallStats
check_recorded stats none frame_ts decoded c = stats
check_recorded stats (some last_ts) frame_ts decoded c =
    let ticks = decoded * c.rtp_clock_rate / c.actual_sample_rate % 4294967296 in
    record_ts_jump stats last_ts frame_ts (add_u32 last_ts ticks) c.rtp_clock_rate c.tolerance_ms

module _ (codec : Codec) where
  open codec use {Sample, decode, resample}

  -- sequence numbers, counters, analysis and recording
  unfoldable pub count_recorded :
      Session codec → AudioFrame → List Sample → Settings → Session codec
  unfolding seq_state run_analysis
  count_recorded s frame decoded c =
      let (stats1, last_seq') = seq_state codec s frame.sequence_number in
      let s1 : Session codec = record s {
        stats = inc_rx stats1 1 (length frame.payload);
        last_seq = last_seq';
        last_timestamp = some frame.rtp_timestamp;
      } in
      let s2 : Session codec = run_analysis codec s1 s1.analyzer decoded frame.rtp_timestamp c in
      if c.recording
      then record s2 { recorded_rx = s2.recorded_rx ++ resample decoded ∷ [] }
      else s2

  unfoldable pub process_recorded_sample : Session codec → MediaSample → Settings → Session codec
  unfolding check_recorded count_recorded
  process_recorded_sample s other c = s
  process_recorded_sample s (audio frame) c =
      let (decoded, decoder') = decode s.decoder frame.payload in
      let stats' = check_recorded s.stats s.last_timestamp frame.rtp_timestamp (length decoded) c in
      count_recorded (record s { stats = stats'; decoder = decoder' }) frame decoded c

  unfoldable pub process_recorded_all : Session codec → List MediaSample → Settings → Session codec
  unfolding process_recorded_sample
  process_recorded_all s [] c = s
  process_recorded_all s (x ∷ xs) c = process_recorded_all (process_recorded_sample s x c) xs c

SameTraffic-check_recorded :
    (stats : CallStats) (last : Option ℕ) (frame decoded : ℕ) (c : Settings)
    → SameTraffic stats (check_recorded stats last frame decoded c)
unfolding check_recorded
SameTraffic-check_recorded stats none frame decoded c = ground arith
SameTraffic-check_recorded stats (some last) frame decoded c =
    SameTraffic-record_ts_jump stats last _ _ _ _

abbrev pub packet_in : MediaSample → ℕ
packet_in other = 0
packet_in (audio frame) = 1

abbrev pub packets_in : List MediaSample → ℕ
packets_in [] = 0
packets_in (x ∷ xs) = packet_in x + packets_in xs

module _ (codec : Codec) where
  -- So many packets came in, and nothing went out or was passed on.
  pub record Heard (s s' : Session codec) (packets : ℕ) : Type 0 where
    pub rx : s'.stats.rx_packets ≡ add_u64 s.stats.rx_packets packets
    pub tx : s'.stats.tx_packets ≡ s.stats.tx_packets
    pub dtmf : s'.stats.rx_dtmf_events ≡ s.stats.rx_dtmf_events
    pub sent : s'.sent ≡ s.sent
    pub notified : s'.notified ≡ s.notified

  count_recorded-Heard :
      (s : Session codec) (frame : AudioFrame) (decoded : List codec.Sample) (c : Settings)
      → Heard s (count_recorded codec s frame decoded c) 1
  unfolding count_recorded seq_state run_analysis inc_rx add_audio_quality_stats
  count_recorded-Heard s frame decoded c = elim (Option-cases frame.sequence_number) [
    | inl e ↦ rw e (ground arith)
    | inr (seq, e) ↦ rw e (ground (arith, SameTraffic-record_seq_gap s.stats s.last_seq seq))
  ]

  process_recorded_sample-Heard :
      (s : Session codec) (x : MediaSample) (c : Settings)
      → s.stats.rx_packets < 18446744073709551616
      → Heard s (process_recorded_sample codec s x c) (packet_in x)
  unfolding process_recorded_sample
  process_recorded_sample-Heard s other c h = record {
    rx = omega (arith, h);
    tx = refl;
    dtmf = refl;
    sent = refl;
    notified = refl;
  }
  process_recorded_sample-Heard s (audio frame) c h =
      let (decoded, decoder') = codec.decode s.decoder frame.payload in
      let stats' = check_recorded s.stats s.last_timestamp frame.rtp_timestamp (length decoded) c in
      ground (
        arith,
        SameTraffic-check_recorded s.stats s.last_timestamp frame.rtp_timestamp (length decoded) c,
        count_recorded-Heard (record s { stats = stats'; decoder = decoder' }) frame decoded c,
      )

  -- Over the samples that are recorded and not echoed, each packet of audio counts as one that came
  -- in (modulo 2 ^ 64, from a counter within 64 bits), and none as one that went out or as a DTMF
  -- event; nothing is sent, and no digit is passed on.
  pub process_recorded_all-Heard :
      (xs : List MediaSample) (s : Session codec) (c : Settings)
      → s.stats.rx_packets < 18446744073709551616
      → Heard s (process_recorded_all codec s xs c) (packets_in xs)
  unfolding process_recorded_all
  process_recorded_all-Heard [] s c h = record {
    rx = omega (arith, h);
    tx = refl;
    dtmf = refl;
    sent = refl;
    notified = refl;
  }
  process_recorded_all-Heard (x ∷ xs) s c h =
      let s' : Session codec = process_recorded_sample codec s x c in
      let one : Heard s s' (packet_in x) = process_recorded_sample-Heard s x c h in
      let ih : Heard s' (process_recorded_all codec s' xs c) (packets_in xs) =
        process_recorded_all-Heard xs s' c (omega (arith, one.rx)) in
      record {
        rx = omega (arith, one.rx, ih.rx);
        tx = ih.tx ∙ one.tx;
        dtmf = ih.dtmf ∙ one.dtmf;
        sent = ih.sent ∙ one.sent;
        notified = ih.notified ∙ one.notified;
      }
