-- ===== src/AudioQuality/Counts.antt =====
-- src/audio_quality.rs: what the counters of an analyzer count.
use sipbot.Prelude.{
  ℕ, ◌+◌, ◌≡◌, arith, Bool, false, Bool-cases, inl, inr, ◌==◌, List, [], ◌∷◌, length,
}
use sipbot.Prelude.Text.{codes}
use sipbot.Prelude.Floats.{Floats}
use sipbot.AudioQuality.{
  AudioQualityReport, AudioQualityAnalyzer, Frame, analyze_frame, analyze_all, is_clipped, bit,
  rms_of,
}

module _ (f : Floats) where
  abbrev pub count : (AudioQualityReport f → Bool) → List (AudioQualityReport f) → ℕ
  count p [] = 0
  count p (r ∷ rs) = bit f (p r) + count p rs

  -- the frames without samples
  abbrev pub empty_frames : List (Frame f) → ℕ
  empty_frames [] = 0
  empty_frames (x ∷ xs) = bit f (length x.pcm == 0) + empty_frames xs

  -- What the counters of an analyzer have more than those of another, for so many empty frames and
  -- these reports.
  abbrev pub Counted :
      AudioQualityAnalyzer f
      → (empty : ℕ) → List (AudioQualityReport f)
      → AudioQualityAnalyzer f
      → Type 0
  Counted a empty rs b =
      (b.total_frames ≡ a.total_frames + length rs)
      × (b.frame_count ≡ a.frame_count + length rs)
      × (b.mismatch_count ≡ a.mismatch_count + count (λ r. r.sample_count_mismatch) rs)
      × (b.shrill_count ≡ a.shrill_count + count (λ r. r.is_shrill) rs)
      × (b.muffled_count ≡ a.muffled_count + count (λ r. r.is_muffled) rs)
      × (b.clipping_frames ≡ a.clipping_frames + count (λ r. is_clipped f r.clipping_ratio) rs)
      × (b.silence_frames + empty ≡ a.silence_frames + count (λ r. r.is_silence) rs)

  Counted-append :
      (a b c : AudioQualityAnalyzer f) (m n : ℕ) (r : AudioQualityReport f)
      (rs : List (AudioQualityReport f))
      → Counted a m (r ∷ []) b
      → Counted b n rs c
      → Counted a (m + n) (r ∷ rs) c
  Counted-append a b c m n r rs (p1, p2, p3, p4, p5, p6, p7) (q1, q2, q3, q4, q5, q6, q7) = (
    omega (arith, p1, q1),
    omega (arith, p2, q2),
    omega (arith, p3, q3),
    omega (arith, p4, q4),
    omega (arith, p5, q5),
    omega (arith, p6, q6),
    omega (arith, p7, q7),
  )

  module _ (zero_is_no_clipping : f.is_less (f.literal (codes "0.01")) (f.of_nat 0) ≡ false) where
    analyze_frame-Counted :
        (a : AudioQualityAnalyzer f) (x : Frame f)
        → Counted a
            (bit f (length x.pcm == 0))
            ((analyze_frame f a x).1 ∷ [])
            (analyze_frame f a x).0
    unfolding analyze_frame
    analyze_frame-Counted a x = elim (Bool-cases (length x.pcm == 0)) [
      | inl none_there ↦
          rw (none_there, zero_is_no_clipping)
            (
              omega arith,
              omega arith,
              omega arith,
              omega arith,
              omega arith,
              omega arith,
              omega arith,
            )
      | inr some_there ↦
          elim (Bool-cases (f.is_less (rms_of f x.pcm) (a.config).silence_threshold_rms)) [
            | inl quiet ↦
                rw (some_there, quiet, zero_is_no_clipping)
                  (
                    omega arith,
                    omega arith,
                    omega arith,
                    omega arith,
                    omega arith,
                    omega arith,
                    omega arith,
                  )
            | inr loud ↦
                rw (some_there, loud)
                  (
                    omega arith,
                    omega arith,
                    omega arith,
                    omega arith,
                    omega arith,
                    omega arith,
                    omega arith,
                  )
          ]
    ]

    -- Over the frames of a call the counters grow by the number of the reports that carry the flag:
    -- all frames, mismatches, shrill, muffled, clipped and silent ones; of the silent ones those
    -- without any sample are not counted. No clipping is less than 1 %.
    pub analyze_all-Counted :
        (a : AudioQualityAnalyzer f) (xs : List (Frame f))
        → Counted a (empty_frames xs) (analyze_all f a xs).1 (analyze_all f a xs).0
    unfolding analyze_all
    analyze_all-Counted a [] =
        (omega arith, omega arith, omega arith, omega arith, omega arith, omega arith, omega arith)
    analyze_all-Counted a (x ∷ xs) =
        let b = (analyze_frame f a x).0 in
        Counted-append a b (analyze_all f b xs).0 (bit f (length x.pcm == 0)) (empty_frames xs)
          (analyze_frame f a x).1 (analyze_all f b xs).1 (analyze_frame-Counted a x)
          (analyze_all-Counted b xs)
