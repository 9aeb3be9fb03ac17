-- ===== src/Media/Nack.antt =====
-- src/media.rs, `sync_nack_stats`: from the totals of the NACK handlers to the counters.
use sipbot.Prelude.{
  ℕ, ◌-◌, ◌≤◌, ◌<◌, ◌≡◌, refl, subst, List, [], ◌∷◌, Option, none, some, arith, ltb, if◌then◌else◌,
  add_u64,
}
use sipbot.Stats.{CallStats, inc_nack_sent, inc_nack_recv, inc_nack_recovered}

-- What the handlers of one transceiver answer: the sender's NACK count, and the receiver's NACK and
-- recovery counts. A handler that is not there is `none`.
pub record Transceiver : Type 0 where
  pub sender_nacks : Option ℕ
  pub receiver_nacks : Option (ℕ × ℕ)

pub record Totals : Type 0 where
  pub sent : ℕ
  pub recv : ℕ
  pub recovered : ℕ

add_sender : Totals → Option ℕ → Totals
add_sender t none = t
add_sender t (some n) = record t { recv = add_u64 t.recv n }

add_receiver : Totals → Option (ℕ × ℕ) → Totals
add_receiver t none = t
add_receiver t (some (n, r)) = record t {
  sent = add_u64 t.sent n;
  recovered = add_u64 t.recovered r;
}

-- The loop over the transceivers.
unfoldable pub count_totals : Totals → List Transceiver → Totals
unfolding add_sender add_receiver
count_totals t [] = t
count_totals t (x ∷ xs) =
    count_totals (add_receiver (add_sender t x.sender_nacks) x.receiver_nacks) xs

-- The counters, and the three `last_…` totals that the session keeps.
pub record NackState : Type 0 where
  pub stats : CallStats
  pub last : Totals

unfoldable pub take_totals : NackState → Totals → NackState
unfolding inc_nack_sent inc_nack_recv inc_nack_recovered
take_totals s t =
    let s1 =
      if ltb s.last.sent t.sent then inc_nack_sent s.stats (t.sent - s.last.sent) else s.stats in
    let s2 = if ltb s.last.recv t.recv then inc_nack_recv s1 (t.recv - s.last.recv) else s1 in
    let s3 =
      if ltb s.last.recovered t.recovered
      then inc_nack_recovered s2 (t.recovered - s.last.recovered)
      else s2 in
    record { stats = s3; last = t }

abbrev pub no_totals : Totals
no_totals = record { sent = 0; recv = 0; recovered = 0 }

unfoldable pub sync_nack_stats : NackState → List Transceiver → NackState
unfolding take_totals
sync_nack_stats s transceivers = take_totals s (count_totals no_totals transceivers)

-- One call after another.
unfoldable pub take_all : NackState → List Totals → NackState
take_all s [] = s
take_all s (t ∷ ts) = take_all (take_totals s t) ts

abbrev pub last_of : Totals → List Totals → Totals
last_of t [] = t
last_of t (u ∷ us) = last_of u us

-- Totals that never fall.
abbrev pub IsRising : Totals → List Totals → Type 0
IsRising t [] = Unit
IsRising t (u ∷ us) =
    (t.sent ≤ u.sent) × (t.recv ≤ u.recv) × (t.recovered ≤ u.recovered) × IsRising u us

-- The counters are ahead of those of `s` by the distance from the totals `from` to the totals `to`.
pub record Follows (s s' : CallStats) (from to : Totals) : Type 0 where
  pub sent : s'.nack_sent ≡ add_u64 s.nack_sent (to.sent - from.sent)
  pub recv : s'.nack_recv ≡ add_u64 s.nack_recv (to.recv - from.recv)
  pub recovered : s'.nack_recovered ≡ add_u64 s.nack_recovered (to.recovered - from.recovered)

pub record InRange (s : CallStats) : Type 0 where
  pub sent : s.nack_sent < 18446744073709551616
  pub recv : s.nack_recv < 18446744073709551616
  pub recovered : s.nack_recovered < 18446744073709551616

take_totals-Follows :
    (s : NackState) (t : Totals)
    → InRange s.stats
    → Follows s.stats (take_totals s t).stats s.last t
unfolding take_totals
take_totals-Follows s t h = ground arith

take_totals-last : (s : NackState) (t : Totals) → (take_totals s t).last ≡ t
unfolding take_totals
take_totals-last s t = refl

rises :
    (t : Totals) (us : List Totals)
    → IsRising t us
    → (t.sent ≤ (last_of t us).sent)
      × (t.recv ≤ (last_of t us).recv)
      × (t.recovered ≤ (last_of t us).recovered)
rises t [] h = omega arith
rises t (u ∷ us) h = omega (arith, rises u us h.3)

-- While the handlers' totals never fall, and from counters within 64 bits, every NACK is counted
-- once (modulo 2 ^ 64): however often the totals were taken, the counters have advanced by the last
-- totals less the ones before the first call.
take_all-Follows :
    (ts : List Totals) (s : NackState)
    → IsRising s.last ts
    → InRange s.stats
    → Follows s.stats (take_all s ts).stats s.last (last_of s.last ts)
unfolding take_all
take_all-Follows [] s h r = omega arith
take_all-Follows (t ∷ ts) s h r =
    let s' : NackState = take_totals s t in
    let one : Follows s.stats s'.stats s.last t = take_totals-Follows s t r in
    let ih : Follows s'.stats (take_all s' ts).stats t (last_of t ts) =
      subst (λ (x : Totals). Follows s'.stats (take_all s' ts).stats x (last_of x ts))
        (take_totals-last s t)
        (take_all-Follows ts s' (rw (take_totals-last s t) h.3) (omega (arith, one, r))) in
    omega (arith, one, ih, rises t ts h.3)
