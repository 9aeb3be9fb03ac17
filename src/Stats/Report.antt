-- ===== src/Stats/Report.antt =====
-- src/stats.rs: what is printed of the counters: the averages, the classes of response codes, the
-- progress line and the summary line.
pub mod Sums
use sipbot.Prelude.{
  ℕ, suc, ◌+◌, ◌==◌, ◌&&◌, Bool, true, false, ltb, leb, max, List, [], ◌∷◌, ◌++◌, drop, get_or,
  get_elem?, if◌then◌else◌, add_u32, add_u64, Option, none, some,
}
use sipbot.Prelude.Text.{Text, codes, join}
use sipbot.Prelude.Decimal.{to_string}
use sipbot.Prelude.Floats.{Floats}
use sipbot.Stats.{CallStats}

unfoldable pub status_count : CallStats → ℕ → ℕ
status_count s code = get_or (get_elem? s.status_codes code) 0

pub record Classes : Type 0 where
  pub c3xx : ℕ  -- u32
  pub c4xx : ℕ  -- u32
  pub c5xx : ℕ  -- u32
  pub c6xx : ℕ  -- u32

-- one round of the loop over the codes
abbrev pub count_code : ℕ → ℕ → Classes → Classes
count_code code count c =
    if leb code 399
    then record c { c3xx = add_u32 c.c3xx count }
    else if leb code 499
    then record c { c4xx = add_u32 c.c4xx count }
    else if leb code 599
    then record c { c5xx = add_u32 c.c5xx count }
    else if leb code 699
    then record c { c6xx = add_u32 c.c6xx count }
    else c

-- The counters are those of the codes from `code` on.
unfoldable pub count_classes : ℕ → List ℕ → Classes → Classes
count_classes code [] c = c
count_classes code (count ∷ counts) c =
    count_classes (suc code) counts (if count == 0 then c else count_code code count c)

unfoldable pub classes : CallStats → Classes
unfolding count_classes
classes s =
    count_classes 300 (drop 300 s.status_codes) (record { c3xx = 0; c4xx = 0; c5xx = 0; c6xx = 0 })

-- The codes that were counted, with their counts: of the counters from `code` on.
unfoldable pub counted : ℕ → List ℕ → List (ℕ × ℕ)
counted code [] = []
counted code (count ∷ counts) =
    let rest = counted (suc code) counts in if ltb 0 count then (code, count) ∷ rest else rest

abbrev pub status_counts : CallStats → List (ℕ × ℕ)
status_counts s = counted 100 (drop 100 s.status_codes)

-- the line of `print_progress`
unfoldable pub print_progress : CallStats → Text
unfolding status_count classes
print_progress s =
    let c = classes s in
    codes "\rProgress: "
    ++ to_string s.finished_calls
    ++ codes "/"
    ++ to_string s.total_planned_calls
    ++ codes ", Active: "
    ++ to_string s.current_calls
    ++ codes ", 200: "
    ++ to_string (status_count s 200)
    ++ codes ", 180: "
    ++ to_string (status_count s 180)
    ++ codes ", 183: "
    ++ to_string (status_count s 183)
    ++ codes ", 3xx: "
    ++ to_string c.c3xx
    ++ codes ", 4xx: "
    ++ to_string c.c4xx
    ++ codes ", 5xx: "
    ++ to_string c.c5xx
    ++ codes ", 6xx: "
    ++ to_string c.c6xx

module _ (f : Floats) where
  abbrev pub zero_float : f.Float
  zero_float = f.of_nat 0

  -- a mean, which is 0 where there is nothing
  abbrev pub mean : ℕ → ℕ → f.Float
  mean total count = if ltb 0 count then f.div (f.of_nat total) (f.of_nat count) else zero_float

  unfoldable pub average_loss_rate : CallStats → f.Float
  average_loss_rate s =
      let total = add_u64 s.rx_packets s.rx_lost_packets in
      if total == 0
      then zero_float
      else f.div (f.mul (f.of_nat s.rx_lost_packets) (f.of_nat 100)) (f.of_nat total)

  unfoldable pub average_rtcp_rtt_ms : CallStats → f.Float
  average_rtcp_rtt_ms s =
      if s.rtcp_rtt_samples == 0
      then zero_float
      else f.div (f.div (f.of_nat s.total_rtcp_rtt_us) (f.of_nat s.rtcp_rtt_samples))
          (f.of_nat 1000)

  -- in seconds
  abbrev pub avg_duration : CallStats → f.Float
  avg_duration s =
      if ltb 0 s.finished_calls
      then f.div (f.div (f.of_nat s.total_duration) (f.of_nat s.finished_calls)) (f.of_nat 1000)
      else zero_float

  abbrev pub has_audio : CallStats → Bool
  has_audio s =
      let total = s.audio_quality_total_frames in
      ltb 0 total
      && f.is_less (f.div (f.of_nat s.audio_quality_silence_frames) (f.of_nat (max total 1)))
          (f.literal (codes "0.95"))

  abbrev print_bool : Bool → Text
  print_bool true = codes "true"
  print_bool false = codes "false"

  abbrev code_parts : List (ℕ × ℕ) → List Text
  code_parts [] = []
  code_parts ((code, count) ∷ cs) = (to_string code ++ codes ":" ++ to_string count) ∷ code_parts cs

  -- the line of `print_summary`, unless nothing was planned or done
  unfoldable pub print_summary : CallStats → Option Text
  unfolding counted join average_loss_rate average_rtcp_rtt_ms
  print_summary s =
      if s.total_planned_calls == 0 && s.finished_calls == 0 && s.current_calls == 0
      then none
      else some (
          codes "Progress: "
          ++ to_string s.finished_calls
          ++ codes "/"
          ++ to_string s.total_planned_calls
          ++ codes " (Current: "
          ++ to_string s.current_calls
          ++ codes "), Avg Duration: "
          ++ f.fixed 2 (avg_duration s)
          ++ codes "s, Avg Setup Latency: "
          ++ f.fixed 2 (mean s.total_setup_latency_ms s.setup_samples)
          ++ codes "ms, Avg RTCP RTT: "
          ++ f.fixed 2 (average_rtcp_rtt_ms s)
          ++ codes "ms, Status: ["
          ++ join (codes ", ") (code_parts (status_counts s))
          ++ codes "], TX: "
          ++ to_string s.tx_packets
          ++ codes "p/"
          ++ to_string s.tx_bytes
          ++ codes "b, RX: "
          ++ to_string s.rx_packets
          ++ codes "p/"
          ++ to_string s.rx_bytes
          ++ codes "b, Avg Loss: "
          ++ f.fixed 2 (average_loss_rate s)
          ++ codes "%, NACK: "
          ++ to_string s.nack_sent
          ++ codes "s/"
          ++ to_string s.nack_recv
          ++ codes "r/"
          ++ to_string s.nack_recovered
          ++ codes "rec, AudioQuality: silence="
          ++ to_string s.audio_quality_silence_frames
          ++ codes "/"
          ++ to_string s.audio_quality_total_frames
          ++ codes ", clipping="
          ++ to_string s.audio_quality_clipping_frames
          ++ codes "/"
          ++ to_string s.audio_quality_total_frames
          ++ codes ", shrill="
          ++ to_string s.audio_quality_shrill_count
          ++ codes ", muffled="
          ++ to_string s.audio_quality_muffled_count
          ++ codes ", has_audio="
          ++ print_bool (has_audio s)
          ++ codes ", RX_DTMF: "
          ++ to_string s.rx_dtmf_events
          ++ codes ", TX_DTMF: "
          ++ to_string s.tx_dtmf_events)
