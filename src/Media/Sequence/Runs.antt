-- ===== src/Media/Sequence/Runs.antt =====
-- src/media.rs, `record_seq_gap`: streams of sequence numbers.
use sipbot.Prelude.{
  ℕ, ◌+◌, ◌-◌, ◌*◌, ◌≤◌, ◌<◌, ◌≡◌, refl, Option, none, some, arith, ltb, ◌==◌, if◌then◌else◌,
  add_u16, add_u64, List, [], ◌∷◌, All, length,
}
use sipbot.Stats.{CallStats, new, inc_rx_lost, inc_seq_gap, inc_seq_reorder}
use sipbot.Media.Sequence.{record_seq_gap}

-- The packets of a stream, one after the other.
unfoldable pub receive_all : CallStats → Option ℕ → List ℕ → CallStats × Option ℕ
receive_all stats last [] = (stats, last)
receive_all stats last (seq ∷ seqs) =
    let (stats', last') = record_seq_gap stats last seq in receive_all stats' last' seqs

-- A packet `k` ahead of the last one on the circle of 65536 sequence numbers, with `k` below 65536:
-- it repeats the last packet, follows it, leaves a gap of `k - 1` packets, or counts as late and
-- does not move it.
record_seq_gap_by_distance :
    (stats : CallStats) (last k : ℕ)
    → last < 65536
    → k < 65536
    → record_seq_gap stats (some last) (add_u16 last k) ≡ (
        if k == 0
        then (stats, some last)
        else if k == 1
        then (stats, some (add_u16 last 1))
        else if ltb k 32768
        then (inc_seq_gap (inc_rx_lost stats (k - 1)) (k - 1), some (add_u16 last k))
        else (inc_seq_reorder stats, some last))
unfolding record_seq_gap
record_seq_gap_by_distance stats last k hl hk = ground arith

-- The sequence numbers that are reached from `last` by the given distances.
abbrev pub walk : ℕ → List ℕ → List ℕ
walk last [] = []
walk last (k ∷ ks) = add_u16 last k ∷ walk (add_u16 last k) ks

abbrev pub IsForward : ℕ → Type 0
IsForward k = (1 ≤ k) × (k < 32768)

abbrev pub missing : List ℕ → ℕ
missing [] = 0
missing (k ∷ ks) = (k - 1) + missing ks

-- What one forward packet does to the counters of loss.
record_seq_gap-forward :
    (stats : CallStats) (last k : ℕ)
    → last < 65536
    → IsForward k
    → stats.rx_lost_packets < 18446744073709551616
    → stats.seq_gap_total < 18446744073709551616
    → ((record_seq_gap stats (some last) (add_u16 last k)).1 ≡ some (add_u16 last k))
      × ((record_seq_gap stats (some last) (add_u16 last k)).0.rx_lost_packets
          ≡ add_u64 stats.rx_lost_packets (k - 1))
      × ((record_seq_gap stats (some last) (add_u16 last k)).0.seq_gap_total
          ≡ add_u64 stats.seq_gap_total (k - 1))
      × ((record_seq_gap stats (some last) (add_u16 last k)).0.seq_reorder_events
          ≡ stats.seq_reorder_events)
unfolding record_seq_gap
record_seq_gap-forward stats last k hl hk h1 h2 = ground arith

add_u64_twice : (a b c : ℕ) → add_u64 (add_u64 a b) c ≡ add_u64 a (b + c)
add_u64_twice a b c = omega arith

pub record InOrder (stats stats' : CallStats) (lost : ℕ) : Type 0 where
  pub lost_packets : stats'.rx_lost_packets ≡ add_u64 stats.rx_lost_packets lost
  pub gap_total : stats'.seq_gap_total ≡ add_u64 stats.seq_gap_total lost
  pub reorders : stats'.seq_reorder_events ≡ stats.seq_reorder_events

-- A stream that only moves forward, by less than half the circle at a time, from counters within 64
-- bits: what is counted as lost is what is missing between its packets (modulo 2 ^ 64), and nothing
-- is counted as late.
receive_all-forward :
    (ks : List ℕ) (stats : CallStats) (last : ℕ)
    → last < 65536
    → All IsForward ks
    → stats.rx_lost_packets < 18446744073709551616
    → stats.seq_gap_total < 18446744073709551616
    → InOrder stats (receive_all stats (some last) (walk last ks)).0 (missing ks)
unfolding receive_all
receive_all-forward [] stats last hl h h1 h2 = record {
  lost_packets = omega arith;
  gap_total = omega arith;
  reorders = refl;
}
receive_all-forward (k ∷ ks) stats last hl h h1 h2 =
    let (e, lost, total, late) = record_seq_gap-forward stats last k hl h.0 h1 h2 in
    let stats' : CallStats = (record_seq_gap stats (some last) (add_u16 last k)).0 in
    let ih : InOrder stats'
        (receive_all stats' (some (add_u16 last k)) (walk (add_u16 last k) ks)).0 (missing ks) =
      receive_all-forward ks stats' (add_u16 last k) (omega arith) h.1 (omega (arith, lost))
        (omega (arith, total)) in
    rw (e, receive_all)
      (record {
        lost_packets = omega (arith, lost, ih.lost_packets);
        gap_total = omega (arith, total, ih.gap_total);
        reorders = cc (late, ih.reorders);
      })

-- The counters of loss agree with one another, within a bound on the packets lost.
pub record IsConsistent (bound : ℕ) (stats : CallStats) : Type 0 where
  pub same_loss : stats.rx_lost_packets ≡ stats.seq_gap_total
  pub max_in_total : stats.seq_gap_max ≤ stats.seq_gap_total
  pub events_in_total : stats.seq_gap_events ≤ stats.seq_gap_total
  pub within : stats.seq_gap_total ≤ bound

IsConsistent-record_seq_gap :
    (bound : ℕ) (stats : CallStats) (last : Option ℕ) (seq : ℕ)
    → bound + 32766 < 18446744073709551616
    → IsConsistent bound stats
    → IsConsistent (bound + 32766) (record_seq_gap stats last seq).0
unfolding record_seq_gap
IsConsistent-record_seq_gap bound stats none seq fits h = omega arith
IsConsistent-record_seq_gap bound stats (some last) seq fits h = ground arith

receive_all-IsConsistent :
    (seqs : List ℕ) (bound : ℕ) (stats : CallStats) (last : Option ℕ)
    → bound + 32766 * length seqs < 18446744073709551616
    → IsConsistent bound stats
    → IsConsistent (bound + 32766 * length seqs) (receive_all stats last seqs).0
unfolding receive_all
receive_all-IsConsistent [] bound stats last fits h = omega arith
receive_all-IsConsistent (seq ∷ seqs) bound stats last fits h =
    let (stats', last') = record_seq_gap stats last seq in
    omega (
      arith,
      receive_all-IsConsistent seqs (bound + 32766) stats' last' (omega arith)
          (IsConsistent-record_seq_gap bound stats last seq (omega arith) h),
    )

-- After any packets at all, as long as 32766 for each of them fits in 64 bits, the packets counted
-- as lost are those in the gaps, and neither the largest gap nor the number of gaps passes that
-- total.
receive_all-new-IsConsistent :
    (seqs : List ℕ)
    → 32766 * length seqs < 18446744073709551616
    → IsConsistent (32766 * length seqs) (receive_all new none seqs).0
unfolding new
receive_all-new-IsConsistent seqs fits =
    omega (arith, receive_all-IsConsistent seqs 0 new none (omega arith) (ground arith))
