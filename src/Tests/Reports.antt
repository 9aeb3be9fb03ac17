-- ===== src/Tests/Reports.antt =====
-- Concrete reports and recordings: the CSV file, the classes of codes, the audio analysis, the
-- recorder, and the bots of the serve mode.
use sipbot.Prelude.{
  ℕ, ◌≡◌, ◌+◌, ◌*◌, ◌/◌, ◌-◌, ◌%◌, refl, true, false, ltb, ◌==◌, min, some, List, [], ◌∷◌, ◌++◌,
  drop, length, if◌then◌else◌,
}
use sipbot.Prelude.Text.{codes}
use sipbot.Prelude.Decimal.{to_string}
use sipbot.Prelude.Floats.{Floats}
use sipbot.Stats.{CallStats}
use sipbot.Stats as Stats
use sipbot.Stats.Report.{classes, count_classes, status_count, print_progress}
use sipbot.Stats.Report.Sums.{sum_of, classes_sums}
use sipbot.CsvStats.{Sample, header_columns, row_fields, start}
use sipbot.CsvStats.Table.{table, written, last_line, to_string-IsPlain, table-start}
use sipbot.AudioQuality.{Frame, new, default_config, analyze_all}
use sipbot.AudioQuality.Counts.{Counted, empty_frames, analyze_all-Counted}
use sipbot.Recorder.{Event, ticked, received, rx, tx, stop, run, new_writer}
use sipbot.Recorder.Timeline.{IsTimeline, received_rx, received_tx, ticks, run-IsTimeline}
use sipbot.Config.Strategy.{Config}
use sipbot.Web.Serve.{System, spawn_bots}
use sipbot.Web.Serve.Ports.{keys, enabled_keys, ports, AreDistinct, spawn_bots_lem}
use sipbot.Tests.Settings.{config}
use sipbot.Tests.Flows.{account}

-- Whole numbers in place of floats.
abbrev whole : Floats
whole = record {
  Float = ℕ;
  of_nat = λ n. n;
  div = λ x y. x / y;
  mul = λ x y. x * y;
  add = λ x y. x + y;
  sub = λ x y. x - y;
  neg = λ x. 0;
  sqrt = λ x. x;
  abs = λ x. x;
  min_float = λ x y. min x y;
  sum = λ xs. 0;
  is_less = λ x y. ltb x y;
  literal = λ s. 0;
  fixed = λ n x. to_string x;
}

abbrev calls : CallStats
calls = Stats.add_status (Stats.add_status (Stats.add_status Stats.new 200) 486) 487

progress_runs :
    print_progress (Stats.inc_finished calls)
    ≡ codes "\rProgress: 1/0, Active: 0, 200: 1, 180: 0, 183: 0, 3xx: 0, 4xx: 2, 5xx: 0, 6xx: 0"
unfolding print_progress classes count_classes Stats.add_status Stats.new Stats.inc_finished
    to_string status_count
progress_runs = refl

classes_sums_example :
    ((classes calls).c3xx ≡ sum_of 300 399 300 (drop 300 calls.status_codes) % 4294967296)
    × ((classes calls).c4xx ≡ sum_of 400 499 300 (drop 300 calls.status_codes) % 4294967296)
    × ((classes calls).c5xx ≡ sum_of 500 599 300 (drop 300 calls.status_codes) % 4294967296)
    × ((classes calls).c6xx ≡ sum_of 600 699 300 (drop 300 calls.status_codes) % 4294967296)
classes_sums_example = classes_sums calls

abbrev look : ℕ → Sample
look n = record { timestamp = to_string n; elapsed_ms = n; stats = calls }

table-start_example :
    (table (start whole 5 (look 0) ((look 0, true) ∷ (look 5000, false) ∷ (look 10000, true) ∷ []))
      ≡ header_columns
        ∷ row_fields whole (look 0)
        ∷ (written whole ((look 0, true) ∷ (look 5000, false) ∷ (look 10000, true) ∷ [])
            ++ last_line))
    × ((x : Sample) → length (row_fields whole x) ≡ length header_columns)
table-start_example =
    table-start whole (λ n x. to_string-IsPlain x) 5 (look 0)
      ((look 0, true) ∷ (look 5000, false) ∷ (look 10000, true) ∷ []) (to_string-IsPlain 0)
      (to_string-IsPlain 0, (to_string-IsPlain 5000, (to_string-IsPlain 10000, tt)))

abbrev frames : List (Frame whole)
frames =
    record {
      pcm = [];
      rtp_timestamp = 0;
      clock_rate = 8000;
      actual_sample_rate = 8000;
      frame_duration_ms = 20;
    }
    ∷ record {
      pcm =
          record { is_negative = false; magnitude = 900 }
          ∷ record { is_negative = true; magnitude = 900 }
          ∷ [];
      rtp_timestamp = 160;
      clock_rate = 8000;
      actual_sample_rate = 8000;
      frame_duration_ms = 20;
    }
    ∷ []

analyze_all-Counted_example :
    Counted whole
      (new whole (default_config whole))
      (empty_frames whole frames)
      (analyze_all whole (new whole (default_config whole)) frames).1
      (analyze_all whole (new whole (default_config whole)) frames).0
analyze_all-Counted_example =
    analyze_all-Counted whole refl (new whole (default_config whole)) frames

abbrev silence : ℕ
silence = 0

abbrev recorded : List (Event silence)
recorded =
    received (rx (1 ∷ 2 ∷ [])) ∷ ticked ∷ received (tx (3 ∷ [])) ∷ received stop ∷ ticked ∷ []

run-IsTimeline_example :
    IsTimeline silence
      (received_rx silence recorded)
      (received_tx silence recorded)
      (ticks silence recorded)
      (run silence recorded (new_writer silence))
run-IsTimeline_example = run-IsTimeline silence recorded

-- every address is the first one, and its ports but for one are free
abbrev system : System
system = record {
  parse_addr = λ s. some (record { ip = codes "0.0.0.0"; port = 35060 });
  print_addr = λ a. to_string a.port;
  can_bind = λ k a. if a.port == 35061 then false else true;
}

abbrev serving : Config
serving = record (config []) {
  accounts =
      account
      ∷ record account { enabled = some false }
      ∷ record account { username = codes "bot2" }
      ∷ [];
}

spawn_bots_lem_example :
    (keys system (spawn_bots system serving []) ≡ enabled_keys serving.accounts)
    × AreDistinct (ports (spawn_bots system serving []))
spawn_bots_lem_example = spawn_bots_lem system serving
