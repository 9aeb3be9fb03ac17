-- ===== src/CsvStats.antt =====
-- src/csv_stats.rs: the CSV file of a load test and its summary.
pub mod Table
use sipbot.Prelude.{ℕ, ◌+◌, ◌==◌, Bool, true, false, ltb, List, [], ◌∷◌, ◌++◌, if◌then◌else◌, map}
use sipbot.Prelude.Text.{Text, codes, join}
use sipbot.Prelude.Decimal.{to_string}
use sipbot.Prelude.Floats.{Floats}
use sipbot.Stats.{CallStats}
use sipbot.Stats.Report.{
  status_count, classes, status_counts, mean, average_loss_rate, average_rtcp_rtt_ms, avg_duration,
  zero_float, counted,
}

-- the columns of `write_header`
unfoldable pub header_columns : List Text
header_columns =
    codes "timestamp"
    ∷ codes "elapsed_time_ms"
    ∷ codes "total_planned"
    ∷ codes "total_calls"
    ∷ codes "current_calls"
    ∷ codes "finished_calls"
    ∷ codes "c200_count"
    ∷ codes "c180_count"
    ∷ codes "c183_count"
    ∷ codes "c3xx_count"
    ∷ codes "c4xx_count"
    ∷ codes "c5xx_count"
    ∷ codes "c6xx_count"
    ∷ codes "avg_duration_ms"
    ∷ codes "avg_setup_latency_ms"
    ∷ codes "avg_rtcp_rtt_ms"
    ∷ codes "tx_packets"
    ∷ codes "rx_packets"
    ∷ codes "tx_bytes"
    ∷ codes "rx_bytes"
    ∷ codes "rx_lost_packets"
    ∷ codes "packet_loss_rate_pct"
    ∷ codes "nack_sent"
    ∷ codes "nack_recv"
    ∷ codes "nack_recovered"
    ∷ codes "audio_quality_silence_frames"
    ∷ codes "audio_quality_clipping_frames"
    ∷ codes "audio_quality_total_frames"
    ∷ codes "audio_quality_shrill_count"
    ∷ codes "audio_quality_muffled_count"
    ∷ codes "rx_dtmf_events"
    ∷ codes "tx_dtmf_events"
    ∷ codes "seq_gap_events"
    ∷ codes "seq_gap_total"
    ∷ codes "seq_gap_max"
    ∷ codes "seq_reorder_events"
    ∷ codes "ts_jump_events"
    ∷ codes "ts_jump_ms_total"
    ∷ codes "ts_jump_ms_max"
    ∷ codes "stream_switch_events"
    ∷ []

-- a line of the file
abbrev pub line_of : List Text → Text
line_of fields = join (codes ",") fields ++ codes "\n"

-- A look at the counters: the time as it is printed, and the milliseconds since the start.
pub record Sample : Type 0 where
  pub timestamp : Text
  pub elapsed_ms : ℕ
  pub stats : CallStats

module _ (f : Floats) where
  -- A value of a row: a number, or a float with two decimals.
  pub data Value : Type 0 where
    counter : ℕ → Value
    ratio : f.Float → Value

  unfoldable pub print_value : Value → Text
  print_value (counter n) = to_string n
  print_value (ratio x) = f.fixed 2 x

  unfoldable pub values : Sample → List Value
  unfolding status_count classes average_loss_rate
  values x =
      let s = x.stats in
      let c = classes s in
      counter x.elapsed_ms
      ∷ counter s.total_planned_calls
      ∷ counter s.total_calls
      ∷ counter s.current_calls
      ∷ counter s.finished_calls
      ∷ counter (status_count s 200)
      ∷ counter (status_count s 180)
      ∷ counter (status_count s 183)
      ∷ counter c.c3xx
      ∷ counter c.c4xx
      ∷ counter c.c5xx
      ∷ counter c.c6xx
      ∷ ratio (mean f s.total_duration s.finished_calls)
      ∷ ratio (mean f s.total_setup_latency_ms s.setup_samples)
      ∷ ratio (
          if ltb 0 s.rtcp_rtt_samples
          then f.div (f.div (f.of_nat s.total_rtcp_rtt_us) (f.of_nat s.rtcp_rtt_samples))
              (f.of_nat 1000)
          else zero_float f)
      ∷ counter s.tx_packets
      ∷ counter s.rx_packets
      ∷ counter s.tx_bytes
      ∷ counter s.rx_bytes
      ∷ counter s.rx_lost_packets
      ∷ ratio (average_loss_rate f s)
      ∷ counter s.nack_sent
      ∷ counter s.nack_recv
      ∷ counter s.nack_recovered
      ∷ counter s.audio_quality_silence_frames
      ∷ counter s.audio_quality_clipping_frames
      ∷ counter s.audio_quality_total_frames
      ∷ counter s.audio_quality_shrill_count
      ∷ counter s.audio_quality_muffled_count
      ∷ counter s.rx_dtmf_events
      ∷ counter s.tx_dtmf_events
      ∷ counter s.seq_gap_events
      ∷ counter s.seq_gap_total
      ∷ counter s.seq_gap_max
      ∷ counter s.seq_reorder_events
      ∷ counter s.ts_jump_events
      ∷ counter s.ts_jump_ms_total
      ∷ counter s.ts_jump_ms_max
      ∷ counter s.stream_switch_events
      ∷ []

  unfoldable pub row_fields : Sample → List Text
  unfolding print_value values
  row_fields x = x.timestamp ∷ map (λ v. print_value v) (values x)

  unfoldable pub format_csv_row : Sample → Text
  unfolding row_fields join
  format_csv_row x = line_of (row_fields x)

  -- The rows of the ticks. A row that cannot be written is left out, and the loop goes on.
  unfoldable pub record_ticks : List (Sample × Bool) → Text
  unfolding format_csv_row
  record_ticks [] = []
  record_ticks ((x, is_written) ∷ xs) =
      let rest = record_ticks xs in if is_written then format_csv_row x ++ rest else rest

  -- The file, after its header and the initial row were written, and so many ticks; the timer panics
  -- where its interval is 0, and the task of the recorder ends.
  unfoldable pub start : (interval_secs : ℕ) → Sample → List (Sample × Bool) → Text
  unfolding header_columns join format_csv_row record_ticks
  start interval_secs initial ticks =
      line_of header_columns
      ++ (format_csv_row initial ++ (if interval_secs == 0 then [] else record_ticks ticks))

  abbrev pub code_lines : List (ℕ × ℕ) → Text
  code_lines [] = []
  code_lines ((code, count) ∷ cs) =
      codes "  " ++ to_string code ++ codes ": " ++ to_string count ++ codes "\n" ++ code_lines cs

  abbrev success_rate : CallStats → f.Float
  success_rate s =
      if ltb 0 s.total_planned_calls
      then f.div (f.mul (f.of_nat s.finished_calls) (f.of_nat 100)) (f.of_nat s.total_planned_calls)
      else zero_float f

  unfoldable pub write_final_summary : (now : Text) → CallStats → Text
  unfolding average_loss_rate average_rtcp_rtt_ms counted
  write_final_summary now s =
      codes "Sipbot Load Test Summary\n==========================\nTimestamp: "
      ++ now
      ++ codes "\n\nCall Statistics\n---------------\nTotal Planned: "
      ++ to_string s.total_planned_calls
      ++ codes "\nTotal Finished: "
      ++ to_string s.finished_calls
      ++ codes "\nCurrent Active: "
      ++ to_string s.current_calls
      ++ codes "\nSuccess Rate: "
      ++ f.fixed 2 (success_rate s)
      ++ codes "%\n\nTiming\n------\nAverage Call Duration: "
      ++ f.fixed 2 (avg_duration f s)
      ++ codes " seconds\nAverage Setup Latency: "
      ++ f.fixed 2 (mean f s.total_setup_latency_ms s.setup_samples)
      ++ codes " ms\nAverage RTCP RTT: "
      ++ f.fixed 2 (average_rtcp_rtt_ms f s)
      ++ codes " ms\n\nSIP Response Codes\n------------------\n"
      ++ code_lines (status_counts s)
      ++ codes "\nRTP Statistics\n--------------\nTX Packets: "
      ++ to_string s.tx_packets
      ++ codes "\nRX Packets: "
      ++ to_string s.rx_packets
      ++ codes "\nTX Bytes: "
      ++ to_string s.tx_bytes
      ++ codes "\nRX Bytes: "
      ++ to_string s.rx_bytes
      ++ codes "\nRX Lost Packets: "
      ++ to_string s.rx_lost_packets
      ++ codes "\nPacket Loss Rate: "
      ++ f.fixed 2 (average_loss_rate f s)
      ++ codes "%\n\nNACK Statistics\n---------------\nNACK Sent: "
      ++ to_string s.nack_sent
      ++ codes "\nNACK Received: "
      ++ to_string s.nack_recv
      ++ codes "\nNACK Recovered: "
      ++ to_string s.nack_recovered
      ++ codes "\n\nAudio Quality\n-------------\nTotal Frames: "
      ++ to_string s.audio_quality_total_frames
      ++ codes "\nSilence Frames: "
      ++ to_string s.audio_quality_silence_frames
      ++ codes "\nClipping Frames: "
      ++ to_string s.audio_quality_clipping_frames
      ++ codes "\nShrill Count: "
      ++ to_string s.audio_quality_shrill_count
      ++ codes "\nMuffled Count: "
      ++ to_string s.audio_quality_muffled_count
      ++ codes "\n\nDTMF Events\n-----------\nRX DTMF Events: "
      ++ to_string s.rx_dtmf_events
      ++ codes "\nTX DTMF Events: "
      ++ to_string s.tx_dtmf_events
      ++ codes "\n\nMedia Continuity (seq/ts jumps — audio-glitch warnings)\n"
      ++ codes "-------------------------------------------------------\nSeq Gap Events: "
      ++ to_string s.seq_gap_events
      ++ codes "\nSeq Gap Total (lost pkts): "
      ++ to_string s.seq_gap_total
      ++ codes "\nSeq Gap Max: "
      ++ to_string s.seq_gap_max
      ++ codes "\nSeq Reorder Events: "
      ++ to_string s.seq_reorder_events
      ++ codes "\nTS Jump Events: "
      ++ to_string s.ts_jump_events
      ++ codes "\nTS Jump Total (ms): "
      ++ to_string s.ts_jump_ms_total
      ++ codes "\nTS Jump Max (ms): "
      ++ to_string s.ts_jump_ms_max
      ++ codes "\nStream Switch Events: "
      ++ to_string s.stream_switch_events
      ++ codes "\n"
