-- ===== src/Media/Sequence.antt =====
-- src/media.rs, `record_seq_gap`: loss and reordering from RTP sequence numbers.
pub mod Runs
use sipbot.Prelude.{
  ℕ, ◌+◌, ◌-◌, ◌*◌, ◌%◌, ◌≤◌, ◌<◌, ◌≡◌, ◌≢◌, refl, Option, none, some, Bool, not, ◌&&◌, arith, ltb,
  leb, ◌==◌, if◌then◌else◌, add_u16, sub_u16, add_u64, List, [], ◌∷◌,
}
use sipbot.Stats.{CallStats, inc_rx_lost, inc_seq_gap, inc_seq_reorder}

-- With a last sequence number. `diff` is the wrapped difference read as an `i16`: it is positive
-- below 32768, and negative from there on.
unfoldable pub seq_after : CallStats → ℕ → ℕ → CallStats × Option ℕ
unfolding inc_rx_lost inc_seq_gap inc_seq_reorder
seq_after stats last seq =
    let expected = add_u16 last 1 in
    let diff = sub_u16 seq last in
    if not (seq == expected)
    then (if ltb 1 diff && ltb diff 32768
        then (let gap = diff - 1 in (inc_seq_gap (inc_rx_lost stats gap) gap, some seq))
        else if leb 32768 diff
        then (inc_seq_reorder stats, some last)
        else (stats, some last))
    else (stats, some seq)

unfoldable pub record_seq_gap : CallStats → Option ℕ → ℕ → CallStats × Option ℕ
unfolding seq_after
record_seq_gap stats none seq = (stats, some seq)
record_seq_gap stats (some last) seq = seq_after stats last seq
