-- ===== src/Media/Timestamp.antt =====
-- src/media.rs, `record_ts_jump`: timestamp discontinuities.
use sipbot.Prelude.{
  ℕ, ◌+◌, ◌*◌, ◌/◌, ◌%◌, ◌≤◌, ◌<◌, ◌≡◌, ◌&&◌, arith, ltb, leb, if◌then◌else◌, sub_u32, add_u32,
}
use sipbot.Stats.{CallStats, inc_ts_jump, inc_stream_switch}

-- `u32::MAX / 2`
abbrev pub half_range : ℕ
half_range = 2147483647

-- The two limits in ticks; the products are of `u32`.
abbrev pub max_reasonable_jump : ℕ → ℕ
max_reasonable_jump rate = (rate * 10) % 4294967296

abbrev pub tolerance_ticks : ℕ → ℕ → ℕ
tolerance_ticks rate tolerance_ms = ((rate * tolerance_ms) % 4294967296) / 1000

unfoldable pub record_ts_jump : CallStats → (last frame expected rate tol : ℕ) → CallStats
unfolding inc_ts_jump inc_stream_switch
record_ts_jump stats last_ts frame_ts expected_ts rate tolerance_ms =
    let ts_diff = sub_u32 frame_ts expected_ts in
    let backward = sub_u32 last_ts frame_ts in
    if ltb (max_reasonable_jump rate) ts_diff && ltb ts_diff half_range
    then inc_stream_switch stats
    else if ltb half_range ts_diff
    then (if ltb (max_reasonable_jump rate) backward
        then inc_stream_switch stats
        else if ltb (tolerance_ticks rate tolerance_ms) backward
        then inc_ts_jump stats (backward * 1000 / rate)
        else stats)
    else if ltb (tolerance_ticks rate tolerance_ms) ts_diff
    then inc_ts_jump stats (ts_diff * 1000 / rate)
    else stats

-- A packet `k` ticks ahead of the expected time, by less than half the range of 32 bits, where the
-- tolerance is at most ten seconds: within the tolerance nothing is counted, up to ten seconds a
-- jump of its length, and beyond a stream switch.
record_ts_jump_ahead :
    (stats : CallStats) (last expected k rate tol : ℕ)
    → expected < 4294967296
    → k < half_range
    → tolerance_ticks rate tol ≤ max_reasonable_jump rate
    → record_ts_jump stats last (add_u32 expected k) expected rate tol ≡ (
        if leb k (tolerance_ticks rate tol)
        then stats
        else if leb k (max_reasonable_jump rate)
        then inc_ts_jump stats (k * 1000 / rate)
        else inc_stream_switch stats)
unfolding record_ts_jump
record_ts_jump_ahead stats last expected k rate tol he hk ht = ground arith

-- A packet `j` ticks before the last one, where one packet lasts `ticks`: the distance is measured
-- from the last packet, and not from the expected time.
pub record_ts_jump_behind :
    (stats : CallStats) (last ticks j rate tol : ℕ)
    → last < 4294967296
    → 1 ≤ j + ticks
    → j + ticks ≤ half_range
    → record_ts_jump stats last (sub_u32 last j) (add_u32 last ticks) rate tol ≡ (
        if ltb (max_reasonable_jump rate) j
        then inc_stream_switch stats
        else if ltb (tolerance_ticks rate tol) j
        then inc_ts_jump stats (j * 1000 / rate)
        else stats)
unfolding record_ts_jump
record_ts_jump_behind stats last ticks j rate tol hl h1 h2 = ground arith

-- A packet that comes less than one packet's length early, after the last one and before the
-- expected time, is counted as a stream switch, whatever the tolerance, as long as a packet and ten
-- seconds are less than half the range of 32 bits.
pub record_ts_jump_early :
    (stats : CallStats) (last ticks e rate tol : ℕ)
    → last < 4294967296
    → 0 < e
    → e < ticks
    → ticks ≤ half_range
    → max_reasonable_jump rate < half_range
    → record_ts_jump stats last (add_u32 last e) (add_u32 last ticks) rate tol
      ≡ inc_stream_switch stats
unfolding record_ts_jump
record_ts_jump_early stats last ticks e rate tol hl h1 h2 h3 h4 = ground arith
