-- ===== src/AudioQuality/Measures.antt =====
-- src/audio_quality.rs: what `analyze_frame` measures of the samples of a frame. A sample of 16
-- bits is its sign and its magnitude.
use sipbot.Prelude.{
  ℕ, ◌+◌, ◌-◌, ◌*◌, ◌/◌, ◌&&◌, not, Bool, ltb, leb, List, [], ◌∷◌, length, map, if◌then◌else◌,
  sub_u32,
}
use sipbot.Prelude.Floats.{Floats}

pub record Pcm : Type 0 where
  pub is_negative : Bool
  pub magnitude : ℕ

abbrev pub count_of : (Pcm → Bool) → List Pcm → ℕ
count_of p [] = 0
count_of p (s ∷ ss) = (if p s then 1 else 0) + count_of p ss

abbrev pub sign_changes : List Pcm → ℕ
sign_changes [] = 0
sign_changes (s ∷ []) = 0
sign_changes (s ∷ t ∷ ss) =
    (if s.is_negative then (if t.is_negative then 0 else 1) else (if t.is_negative then 1 else 0))
    + sign_changes (t ∷ ss)

module _ (f : Floats) where
  abbrev pub zero_float : f.Float
  zero_float = f.of_nat 0

  abbrev pub float_of : Pcm → f.Float
  float_of s = if s.is_negative then f.neg (f.of_nat s.magnitude) else f.of_nat s.magnitude

  abbrev pub square : f.Float → f.Float
  square x = f.mul x x

  abbrev pub over : f.Float → ℕ → f.Float
  over x n = f.div x (f.of_nat n)

  abbrev pub rms_of : List Pcm → f.Float
  rms_of pcm = f.sqrt (over (f.sum (map (λ s. square (float_of s)) pcm)) (length pcm))

  -- a sample that is not below the threshold
  abbrev pub clips : f.Float → Pcm → Bool
  clips threshold s = not (f.is_less (f.of_nat s.magnitude) (f.mul (f.of_nat 32767) threshold))

  abbrev pub squared_differences : List Pcm → List f.Float
  squared_differences [] = []
  squared_differences (s ∷ []) = []
  squared_differences (s ∷ t ∷ ss) =
      square (f.sub (float_of t) (float_of s)) ∷ squared_differences (t ∷ ss)

  abbrev pub diff_rms : List Pcm → f.Float
  diff_rms pcm =
      if ltb 1 (length pcm)
      then f.sqrt (over (f.sum (squared_differences pcm)) (length pcm - 1))
      else zero_float

  abbrev pub tilt_of : (rms : f.Float) → List Pcm → f.Float
  tilt_of rms pcm =
      if f.is_less zero_float rms
      then f.min_float (f.div (diff_rms pcm) rms) (f.of_nat 2)
      else zero_float

  -- The drift in millionths of the expected step, if the timestamp moved forward. The product of
  -- clock rate and duration is below 2^31 for every codec, so it does not overflow.
  abbrev pub drift : (last_ts rtp_timestamp clock_rate frame_duration_ms : ℕ) → f.Float
  drift last_ts rtp_timestamp clock_rate frame_duration_ms =
      let delta = sub_u32 rtp_timestamp last_ts in
      let expected_delta = clock_rate * frame_duration_ms / 1000 in
      if (ltb 0 delta && ltb delta 2147483648) && ltb 0 expected_delta
      then (if leb expected_delta delta
          then f.of_nat ((delta - expected_delta) * 1000000 / expected_delta)
          else f.neg (f.of_nat ((expected_delta - delta) * 1000000 / expected_delta)))
      else zero_float
