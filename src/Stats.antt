-- ===== src/Stats.antt =====
-- src/stats.rs: the shared counters of a call or of a load test, and the operations on them. An
-- atomic `fetch_add` of one thread after another is one step on the record; it wraps around.
pub mod Report
use sipbot.Prelude.{
  ℕ, ◌%◌, max, List, get_elem?, get_or, set, replicate, ltb, if◌then◌else◌, add_u32, sub_u32,
  add_u64,
}

abbrev pub status_code_max : ℕ
status_code_max = 700

pub record CallStats : Type 0 where
  pub total_planned_calls : ℕ  -- AtomicU32
  pub total_calls : ℕ  -- AtomicU32
  pub current_calls : ℕ  -- AtomicU32
  pub finished_calls : ℕ  -- AtomicU32
  pub status_codes : List ℕ  -- 700 of AtomicU32
  pub total_duration : ℕ
  pub total_setup_latency_ms : ℕ
  pub setup_samples : ℕ  -- AtomicU32
  pub tx_packets : ℕ
  pub rx_packets : ℕ
  pub tx_bytes : ℕ
  pub rx_bytes : ℕ
  pub rx_lost_packets : ℕ
  pub nack_sent : ℕ
  pub nack_recv : ℕ
  pub nack_recovered : ℕ
  pub seq_gap_events : ℕ
  pub seq_gap_total : ℕ
  pub seq_gap_max : ℕ
  pub seq_reorder_events : ℕ
  pub ts_jump_events : ℕ
  pub ts_jump_ms_total : ℕ
  pub ts_jump_ms_max : ℕ
  pub stream_switch_events : ℕ
  pub total_rtcp_rtt_us : ℕ
  pub rtcp_rtt_samples : ℕ  -- AtomicU32
  pub rx_dtmf_events : ℕ
  pub tx_dtmf_events : ℕ
  pub audio_quality_sample_rate_mismatches : ℕ
  pub audio_quality_shrill_count : ℕ
  pub audio_quality_muffled_count : ℕ
  pub audio_quality_clipping_frames : ℕ
  pub audio_quality_silence_frames : ℕ
  pub audio_quality_total_frames : ℕ

-- `Default` and `new`
unfoldable pub new : CallStats
new = record {
  total_planned_calls = 0;
  total_calls = 0;
  current_calls = 0;
  finished_calls = 0;
  status_codes = replicate status_code_max 0;
  total_duration = 0;
  total_setup_latency_ms = 0;
  setup_samples = 0;
  tx_packets = 0;
  rx_packets = 0;
  tx_bytes = 0;
  rx_bytes = 0;
  rx_lost_packets = 0;
  nack_sent = 0;
  nack_recv = 0;
  nack_recovered = 0;
  seq_gap_events = 0;
  seq_gap_total = 0;
  seq_gap_max = 0;
  seq_reorder_events = 0;
  ts_jump_events = 0;
  ts_jump_ms_total = 0;
  ts_jump_ms_max = 0;
  stream_switch_events = 0;
  total_rtcp_rtt_us = 0;
  rtcp_rtt_samples = 0;
  rx_dtmf_events = 0;
  tx_dtmf_events = 0;
  audio_quality_sample_rate_mismatches = 0;
  audio_quality_shrill_count = 0;
  audio_quality_muffled_count = 0;
  audio_quality_clipping_frames = 0;
  audio_quality_silence_frames = 0;
  audio_quality_total_frames = 0;
}

unfoldable pub set_total_planned : CallStats → ℕ → CallStats
set_total_planned s total = record s { total_planned_calls = total }

unfoldable pub add_total_planned : CallStats → ℕ → CallStats
add_total_planned s count = record s { total_planned_calls = add_u32 s.total_planned_calls count }

unfoldable pub inc_rx_lost : CallStats → ℕ → CallStats
inc_rx_lost s count = record s { rx_lost_packets = add_u64 s.rx_lost_packets count }

unfoldable pub inc_seq_gap : CallStats → ℕ → CallStats
inc_seq_gap s gap = record s {
  seq_gap_events = add_u64 s.seq_gap_events 1;
  seq_gap_total = add_u64 s.seq_gap_total gap;
  seq_gap_max = max s.seq_gap_max gap;
}

unfoldable pub inc_seq_reorder : CallStats → CallStats
inc_seq_reorder s = record s { seq_reorder_events = add_u64 s.seq_reorder_events 1 }

unfoldable pub inc_ts_jump : CallStats → ℕ → CallStats
inc_ts_jump s delta_ms = record s {
  ts_jump_events = add_u64 s.ts_jump_events 1;
  ts_jump_ms_total = add_u64 s.ts_jump_ms_total delta_ms;
  ts_jump_ms_max = max s.ts_jump_ms_max delta_ms;
}

unfoldable pub inc_stream_switch : CallStats → CallStats
inc_stream_switch s = record s { stream_switch_events = add_u64 s.stream_switch_events 1 }

unfoldable pub inc_nack_sent : CallStats → ℕ → CallStats
inc_nack_sent s count = record s { nack_sent = add_u64 s.nack_sent count }

unfoldable pub inc_nack_recv : CallStats → ℕ → CallStats
inc_nack_recv s count = record s { nack_recv = add_u64 s.nack_recv count }

unfoldable pub inc_nack_recovered : CallStats → ℕ → CallStats
inc_nack_recovered s count = record s { nack_recovered = add_u64 s.nack_recovered count }

unfoldable pub inc_tx : CallStats → ℕ → ℕ → CallStats
inc_tx s packets bytes = record s {
  tx_packets = add_u64 s.tx_packets packets;
  tx_bytes = add_u64 s.tx_bytes bytes;
}

unfoldable pub inc_rx : CallStats → ℕ → ℕ → CallStats
inc_rx s packets bytes = record s {
  rx_packets = add_u64 s.rx_packets packets;
  rx_bytes = add_u64 s.rx_bytes bytes;
}

unfoldable pub inc_total : CallStats → CallStats
inc_total s = record s { total_calls = add_u32 s.total_calls 1 }

unfoldable pub inc_current : CallStats → CallStats
inc_current s = record s { current_calls = add_u32 s.current_calls 1 }

unfoldable pub dec_current : CallStats → CallStats
dec_current s = record s { current_calls = sub_u32 s.current_calls 1 }

unfoldable pub inc_finished : CallStats → CallStats
inc_finished s = record s { finished_calls = add_u32 s.finished_calls 1 }

-- the counter of one code; out of range the array access is not reached
unfoldable pub status_count : CallStats → ℕ → ℕ
status_count s code =
    if ltb code status_code_max then get_or (get_elem? s.status_codes code) 0 else 0

unfoldable pub add_status : CallStats → ℕ → CallStats
add_status s code =
    if ltb code status_code_max
    then record s {
      status_codes = set s.status_codes code (add_u32 (get_or (get_elem? s.status_codes code) 0) 1);
    }
    else s

-- a `Duration` is its whole milliseconds, which are cut to 64 bits
unfoldable pub add_duration : CallStats → ℕ → CallStats
add_duration s ms = record s {
  total_duration = add_u64 s.total_duration (ms % 18446744073709551616);
}

unfoldable pub add_setup_latency : CallStats → ℕ → CallStats
add_setup_latency s ms = record s {
  total_setup_latency_ms = add_u64 s.total_setup_latency_ms (ms % 18446744073709551616);
  setup_samples = add_u32 s.setup_samples 1;
}

unfoldable pub add_rtcp_rtt : CallStats → ℕ → CallStats
add_rtcp_rtt s us = record s {
  total_rtcp_rtt_us = add_u64 s.total_rtcp_rtt_us (us % 18446744073709551616);
  rtcp_rtt_samples = add_u32 s.rtcp_rtt_samples 1;
}

unfoldable pub inc_rx_dtmf : CallStats → CallStats
inc_rx_dtmf s = record s { rx_dtmf_events = add_u64 s.rx_dtmf_events 1 }

unfoldable pub inc_tx_dtmf : CallStats → CallStats
inc_tx_dtmf s = record s { tx_dtmf_events = add_u64 s.tx_dtmf_events 1 }

unfoldable pub add_audio_quality_stats : CallStats → (m s f c q n : ℕ) → CallStats
add_audio_quality_stats s mismatch shrill muffled clipping silence frames = record s {
  audio_quality_sample_rate_mismatches = add_u64 s.audio_quality_sample_rate_mismatches mismatch;
  audio_quality_shrill_count = add_u64 s.audio_quality_shrill_count shrill;
  audio_quality_muffled_count = add_u64 s.audio_quality_muffled_count muffled;
  audio_quality_clipping_frames = add_u64 s.audio_quality_clipping_frames clipping;
  audio_quality_silence_frames = add_u64 s.audio_quality_silence_frames silence;
  audio_quality_total_frames = add_u64 s.audio_quality_total_frames frames;
}
