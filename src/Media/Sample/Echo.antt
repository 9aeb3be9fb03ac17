-- ===== src/Media/Sample/Echo.antt =====
-- src/media.rs, `process_sample`: the stream switches it counts and the frames it sends.
use sipbot.Prelude.{
  Bool-cases, Option-cases, inl, inr, ℕ, ◌≡◌, refl, List, [], ◌∷◌, ◌++◌, Option, none, some, Bool,
  false, arith, length, ltb, leb, ◌&&◌, if◌then◌else◌, sub_u32,
}
use sipbot.Stats.{CallStats, inc_rx, inc_tx, inc_rx_dtmf, add_audio_quality_stats}
use sipbot.Media.Frame.{AudioFrame, MediaSample, audio, other}
use sipbot.Media.Sequence.{record_seq_gap}
use sipbot.Media.Timestamp.{record_ts_jump, max_reasonable_jump, half_range}
use sipbot.Media.Sample.{
  Codec, Settings, Session, is_pt, rewrite_ts, check_ts, run_analysis, seq_state, take_dtmf,
  count_rx, echo_frame, process_audio, process_sample,
}

-- The two tests by which a packet is more than ten seconds off.
abbrev far_ahead : ℕ → ℕ → Bool
far_ahead ts_diff limit = ltb limit ts_diff && ltb ts_diff half_range

abbrev far_behind : ℕ → ℕ → ℕ → Bool
far_behind ts_diff backward limit = ltb half_range ts_diff && ltb limit backward

ts_jump_near :
    (stats : CallStats) (last frame expected rate tol : ℕ)
    → far_ahead (sub_u32 frame expected) (max_reasonable_jump rate) ≡ false
    → far_behind (sub_u32 frame expected) (sub_u32 last frame) (max_reasonable_jump rate) ≡ false
    → (record_ts_jump stats last frame expected rate tol).stream_switch_events
      ≡ stats.stream_switch_events
unfolding record_ts_jump
ts_jump_near stats last frame expected rate tol ahead behind = rw ahead (ground arith)

ts_jump_expected :
    (stats : CallStats) (last expected rate tol : ℕ)
    → record_ts_jump stats last expected expected rate tol ≡ stats
unfolding record_ts_jump
ts_jump_expected stats last expected rate tol =
    let on_time : sub_u32 expected expected ≡ 0 = omega arith in rw on_time (ground arith)

rewritten-stream_switch :
    (stats : CallStats) (last frame expected rate tol : ℕ)
    → (record_ts_jump stats last
        (rewrite_ts last frame expected rate)
        expected
        rate
        tol).stream_switch_events
      ≡ stats.stream_switch_events
unfolding rewrite_ts
rewritten-stream_switch stats last frame expected rate tol =
    elim (Bool-cases (far_ahead (sub_u32 frame expected) (max_reasonable_jump rate))) [
      | inl ahead ↦ rw ahead (cc (ts_jump_expected stats last expected rate tol))
      | inr not_ahead ↦
          elim (Bool-cases
            (far_behind (sub_u32 frame expected) (sub_u32 last frame) (max_reasonable_jump rate))) [
              | inl behind ↦
                  rw (not_ahead, behind) (cc (ts_jump_expected stats last expected rate tol))
              | inr near ↦
                  rw (not_ahead, near)
                    (ts_jump_near stats last frame expected rate tol not_ahead near)
            ]
    ]

check_ts-stream_switch :
    (stats : CallStats) (last : Option ℕ) (frame decoded : ℕ) (c : Settings)
    → (check_ts stats last frame decoded c).1.stream_switch_events ≡ stats.stream_switch_events
unfolding check_ts
check_ts-stream_switch stats none frame decoded c = refl
check_ts-stream_switch stats (some last_ts) frame decoded c =
    rewritten-stream_switch stats last_ts frame _ c.rtp_clock_rate c.tolerance_ms

record_seq_gap-stream_switch :
    (stats : CallStats) (last : Option ℕ) (seq : ℕ)
    → (record_seq_gap stats last seq).0.stream_switch_events ≡ stats.stream_switch_events
unfolding record_seq_gap
record_seq_gap-stream_switch stats none seq = refl
record_seq_gap-stream_switch stats (some last) seq = ground arith

module _ (codec : Codec) where
  count_rx-stream_switch :
      (s : Session codec) (frame : AudioFrame) (decoded : List codec.Sample) (c : Settings)
      → (count_rx codec s frame decoded c).stats.stream_switch_events ≡ s.stats.stream_switch_events
  unfolding count_rx seq_state run_analysis inc_rx inc_tx add_audio_quality_stats
  count_rx-stream_switch s frame decoded c = elim (Option-cases frame.sequence_number) [
    | inl e ↦ rw e (ground arith)
    | inr (seq, e) ↦ rw e (ground (arith, record_seq_gap-stream_switch s.stats s.last_seq seq))
  ]

  process_audio-stream_switch :
      (s : Session codec) (frame : AudioFrame) (c : Settings)
      → (process_audio codec s frame c).stats.stream_switch_events ≡ s.stats.stream_switch_events
  unfolding process_audio echo_frame
  process_audio-stream_switch s frame c =
      let (decoded, decoder') = codec.decode s.decoder frame.payload in
      let (ts, stats') = check_ts s.stats s.last_timestamp frame.rtp_timestamp (length decoded) c in
      ground (
        arith,
        count_rx-stream_switch (record s { stats = stats'; decoder = decoder' })
            (record frame { rtp_timestamp = ts }) decoded c,
        check_ts-stream_switch s.stats s.last_timestamp frame.rtp_timestamp (length decoded) c,
      )

  take_dtmf-stream_switch :
      (s : Session codec) (frame : AudioFrame)
      → (take_dtmf codec s frame).stats.stream_switch_events ≡ s.stats.stream_switch_events
  unfolding take_dtmf inc_rx_dtmf
  take_dtmf-stream_switch s frame = ground arith

  -- An echo call never counts a stream switch: a packet more than ten seconds off is given the
  -- expected time before the check that would count it.
  process_sample-stream_switch :
      (s : Session codec) (x : MediaSample) (c : Settings)
      → (process_sample codec s x c).stats.stream_switch_events ≡ s.stats.stream_switch_events
  unfolding process_sample
  process_sample-stream_switch s other c = ground arith
  process_sample-stream_switch s (audio frame) c =
      ground (arith, process_audio-stream_switch s frame c, take_dtmf-stream_switch s frame)

  count_rx-sent :
      (s : Session codec) (frame : AudioFrame) (decoded : List codec.Sample) (c : Settings)
      → (count_rx codec s frame decoded c).sent ≡ s.sent
  unfolding count_rx seq_state run_analysis
  count_rx-sent s frame decoded c = ground arith

  -- What goes out for one packet: a packet with the payload type of telephone events and at least
  -- four bytes is never echoed, on hold nothing is sent, and otherwise one frame is sent, which is
  -- the one that came in with the time that the continuity check gives it and without sequence
  -- number.
  pub process_sample-sent :
      (s : Session codec) (frame : AudioFrame) (c : Settings)
      → (process_sample codec s (audio frame) c).sent ≡ (
          if is_pt c.telephone_event_pt frame.payload_type && leb 4 (length frame.payload)
          then s.sent
          else if c.audio_silent
          then s.sent
          else s.sent
            ++ audio (record frame {
              rtp_timestamp =
                  (check_ts s.stats s.last_timestamp frame.rtp_timestamp
                    (length (codec.decode s.decoder frame.payload).0)
                    c).0;
              sequence_number = none;
            })
              ∷ [])
  unfolding process_sample process_audio echo_frame take_dtmf
  process_sample-sent s frame c =
      let (decoded, decoder') = codec.decode s.decoder frame.payload in
      let (ts, stats') = check_ts s.stats s.last_timestamp frame.rtp_timestamp (length decoded) c in
      ground (
        arith,
        count_rx-sent (record s { stats = stats'; decoder = decoder' })
            (record frame { rtp_timestamp = ts }) decoded c,
      )
