-- ===== src/AudioQuality.antt =====
-- src/audio_quality.rs: the analysis of decoded frames. The floats are a parameter. A sample of 16
-- bits is its sign and its magnitude.
mod Measures
pub mod Counts
use sipbot.Prelude.{
  ℕ, zero, suc, ◌+◌, ◌-◌, ◌*◌, ◌/◌, ◌%◌, ◌==◌, ◌&&◌, ◌||◌, not, Bool, true, false, ltb, leb, max,
  Option, none, some, List, [], ◌∷◌, ◌++◌, length, map, if◌then◌else◌, sub_u32,
}
use sipbot.Prelude.Text.{Text, codes}
use sipbot.Prelude.Decimal.{to_string}
use sipbot.Prelude.Floats.{Floats}
use sipbot.AudioQuality.Measures.{
  Pcm, zero_float, float_of, over, rms_of, clips, count_of, sign_changes, tilt_of, drift,
}
pub use sipbot.AudioQuality.Measures.{Pcm, rms_of}

module _ (f : Floats) where
  pub record AudioQualityConfig : Type 0 where
    pub enabled : Bool
    pub sample_rate_check : Bool
    pub clipping_threshold : f.Float
    pub shrill_threshold : f.Float
    pub muffled_threshold : f.Float
    pub silence_threshold_rms : f.Float
    pub report_interval : ℕ

  pub record AudioQualityReport : Type 0 where
    pub sample_count_mismatch : Bool
    pub expected_samples : ℕ
    pub actual_samples : ℕ
    pub ts_drift_ppm : f.Float
    pub rms : f.Float
    pub clipping_ratio : f.Float
    pub dc_offset : f.Float
    pub zero_crossing_rate : f.Float
    pub spectral_tilt : f.Float
    pub high_freq_ratio : f.Float
    pub is_shrill : Bool
    pub is_muffled : Bool
    pub is_silence : Bool
    pub label : Text

  pub record AudioQualityAnalyzer : Type 0 where
    pub config : AudioQualityConfig
    pub frame_count : ℕ
    pub total_frames : ℕ
    pub mismatch_count : ℕ
    pub shrill_count : ℕ
    pub muffled_count : ℕ
    pub clipping_frames : ℕ
    pub silence_frames : ℕ
    pub total_clipping_ratio : f.Float
    pub total_rms : f.Float
    pub total_spectral_tilt : f.Float
    pub last_rtp_ts : Option ℕ

  unfoldable pub default_config : AudioQualityConfig
  default_config = record {
    enabled = false;
    sample_rate_check = true;
    clipping_threshold = f.literal (codes "0.95");
    shrill_threshold = f.literal (codes "0.65");
    muffled_threshold = f.literal (codes "0.15");
    silence_threshold_rms = f.literal (codes "50.0");
    report_interval = 100;
  }

  abbrev pub default_report : AudioQualityReport
  default_report = record {
    sample_count_mismatch = false;
    expected_samples = 0;
    actual_samples = 0;
    ts_drift_ppm = zero_float f;
    rms = zero_float f;
    clipping_ratio = zero_float f;
    dc_offset = zero_float f;
    zero_crossing_rate = zero_float f;
    spectral_tilt = zero_float f;
    high_freq_ratio = zero_float f;
    is_shrill = false;
    is_muffled = false;
    is_silence = true;
    label = [];
  }

  unfoldable pub new : AudioQualityConfig → AudioQualityAnalyzer
  new config = record {
    config = config;
    frame_count = 0;
    total_frames = 0;
    mismatch_count = 0;
    shrill_count = 0;
    muffled_count = 0;
    clipping_frames = 0;
    silence_frames = 0;
    total_clipping_ratio = zero_float f;
    total_rms = zero_float f;
    total_spectral_tilt = zero_float f;
    last_rtp_ts = none;
  }

  -- A decoded frame with the numbers of its packet and of its codec.
  pub record Frame : Type 0 where
    pub pcm : List Pcm
    pub rtp_timestamp : ℕ
    pub clock_rate : ℕ
    pub actual_sample_rate : ℕ
    pub frame_duration_ms : ℕ

  abbrev expected_of : Frame → ℕ
  expected_of x = x.actual_sample_rate * x.frame_duration_ms / 1000

  abbrev is_mismatch : AudioQualityAnalyzer → Frame → Bool
  is_mismatch a x =
      a.config.sample_rate_check
      && ltb 0 (expected_of x)
      && f.is_less (f.literal (codes "0.05"))
          (f.abs (f.sub (over f (f.of_nat (length x.pcm)) (expected_of x)) (f.of_nat 1)))

  abbrev is_quiet : AudioQualityAnalyzer → Frame → Bool
  is_quiet a x = f.is_less (rms_of f x.pcm) a.config.silence_threshold_rms

  abbrev clipping_of : AudioQualityAnalyzer → Frame → f.Float
  clipping_of a x =
      over f (f.of_nat (count_of (clips f a.config.clipping_threshold) x.pcm)) (length x.pcm)

  abbrev pub is_clipped : f.Float → Bool
  is_clipped ratio = f.is_less (f.literal (codes "0.01")) ratio

  abbrev zcr_norm : Frame → f.Float
  zcr_norm x =
      f.div
        (f.mul (over f (f.of_nat (sign_changes x.pcm)) (length x.pcm))
          (f.of_nat x.actual_sample_rate))
        (f.of_nat 8000)

  abbrev shrill_in : AudioQualityAnalyzer → Frame → Bool
  shrill_in a x =
      f.is_less a.config.shrill_threshold
        (f.min_float (tilt_of f (rms_of f x.pcm) x.pcm) (f.of_nat 1))
      && f.is_less (f.literal (codes "0.08")) (zcr_norm x)

  abbrev muffled_in : AudioQualityAnalyzer → Frame → Bool
  muffled_in a x =
      f.is_less (tilt_of f (rms_of f x.pcm) x.pcm) a.config.muffled_threshold
      && f.is_less (zcr_norm x) (f.literal (codes "0.04"))
      && f.is_less (f.mul a.config.silence_threshold_rms (f.of_nat 2)) (rms_of f x.pcm)

  abbrev label_of : (is_shrill is_muffled : Bool) → (clipping rms : f.Float) → Text
  label_of is_shrill is_muffled clipping rms =
      if is_shrill
      then codes "shrill"
      else if is_muffled
      then codes "muffled"
      else if is_clipped clipping
      then codes "clipping"
      else if f.is_less (f.of_nat 500) rms
      then codes "speech"
      else codes "noise"

  abbrev pub bit : Bool → ℕ
  bit b = if b then 1 else 0

  -- the part of `analyze_frame` up to the test for silence
  abbrev begin_report : AudioQualityAnalyzer → Frame → AudioQualityReport
  begin_report a x = record default_report {
    expected_samples = expected_of x;
    actual_samples = length x.pcm;
    sample_count_mismatch = is_mismatch a x;
    rms = rms_of f x.pcm;
  }

  abbrev begin_frame : AudioQualityAnalyzer → AudioQualityAnalyzer
  begin_frame a = record a { frame_count = suc a.frame_count; total_frames = suc a.total_frames }

  abbrev measure : AudioQualityAnalyzer → Frame → AudioQualityAnalyzer
  measure a x = record (begin_frame a) {
    mismatch_count = a.mismatch_count + bit (is_mismatch a x);
    total_rms = f.add a.total_rms (rms_of f x.pcm);
  }

  abbrev quiet_frame : AudioQualityAnalyzer → Frame → AudioQualityAnalyzer × AudioQualityReport
  quiet_frame a x = (
    record (measure a x) { silence_frames = suc a.silence_frames },
    record (begin_report a x) { is_silence = true; label = codes "silence" },
  )

  abbrev loud_frame : AudioQualityAnalyzer → Frame → AudioQualityAnalyzer × AudioQualityReport
  loud_frame a x =
      let rms = rms_of f x.pcm in
      let clipping = clipping_of a x in
      let tilt = tilt_of f rms x.pcm in
      (
        record (measure a x) {
          total_clipping_ratio = f.add a.total_clipping_ratio clipping;
          clipping_frames = a.clipping_frames + bit (is_clipped clipping);
          total_spectral_tilt = f.add a.total_spectral_tilt tilt;
          shrill_count = a.shrill_count + bit (shrill_in a x);
          muffled_count = a.muffled_count + bit (muffled_in a x);
          last_rtp_ts = some x.rtp_timestamp;
        },
        record (begin_report a x) {
          is_silence = false;
          dc_offset = over f (f.sum (map (float_of f) x.pcm)) (length x.pcm);
          clipping_ratio = clipping;
          zero_crossing_rate = over f (f.of_nat (sign_changes x.pcm)) (length x.pcm);
          spectral_tilt = tilt;
          high_freq_ratio = f.min_float tilt (f.of_nat 1);
          is_shrill = shrill_in a x;
          is_muffled = muffled_in a x;
          ts_drift_ppm = elim a.last_rtp_ts [
            | none ↦ zero_float f
            | some last_ts ↦ drift f last_ts x.rtp_timestamp x.clock_rate x.frame_duration_ms
          ];
          label = label_of (shrill_in a x) (muffled_in a x) clipping rms;
        },
      )

  unfoldable pub analyze_frame :
      AudioQualityAnalyzer → Frame → AudioQualityAnalyzer × AudioQualityReport
  analyze_frame a x =
      if length x.pcm == 0
      then (begin_frame a, record default_report { label = codes "empty" })
      else if is_quiet a x
      then quiet_frame a x
      else loud_frame a x

  unfoldable pub analyze_all :
      AudioQualityAnalyzer → List Frame → AudioQualityAnalyzer × List AudioQualityReport
  unfolding analyze_frame
  analyze_all a [] = (a, [])
  analyze_all a (x ∷ xs) =
      let (b, r) = analyze_frame a x in let (c, rs) = analyze_all b xs in (c, r ∷ rs)

  unfoldable pub summary : AudioQualityAnalyzer → Text
  summary a =
      let frames = max a.total_frames 1 in
      codes "AudioQuality: frames="
      ++ to_string a.total_frames
      ++ codes ", mismatch="
      ++ to_string a.mismatch_count
      ++ codes ", shrill="
      ++ to_string a.shrill_count
      ++ codes ", muffled="
      ++ to_string a.muffled_count
      ++ codes ", clipping_frames="
      ++ to_string a.clipping_frames
      ++ codes ", silence_frames="
      ++ to_string a.silence_frames
      ++ codes ", avg_rms="
      ++ f.fixed 1 (over f a.total_rms frames)
      ++ codes ", avg_tilt="
      ++ f.fixed 3 (over f a.total_spectral_tilt frames)
      ++ codes ", avg_clip="
      ++ f.fixed 2 (f.mul (over f a.total_clipping_ratio frames) (f.of_nat 100))

  -- `maybe_log_summary`: the line, if it is time for one. The interval is 100 in every configuration
  -- of the code; the remainder by 0, which panics, does not occur.
  unfoldable pub maybe_log_summary : AudioQualityAnalyzer → (jumps : Text) → Option Text
  unfolding summary
  maybe_log_summary a jumps =
      if a.config.enabled && a.frame_count % a.config.report_interval == 0
      then some (codes "[AudioQuality] " ++ summary a ++ codes " jumps=[" ++ jumps ++ codes "]")
      else none
