-- ===== src/Dtmf/Digit.antt =====
-- src/dtmf.rs: `digit_to_event` and `event_to_digit`.
use mathlib.Core.Option
use sipbot.Prelude.{
  ℕ, zero, suc, Option-cases, inl, inr, ◌%◌, ◌<◌, ◌≡◌, ◌≢◌, ◌↔◌, [], ◌∷◌, Option, none, some, arith,
  length, get_elem?, ◌==◌, if◌then◌else◌, All,
}
use sipbot.Prelude.Text.{Text, codes}

abbrev pub dtmf_digits : Text
dtmf_digits = codes "0123456789*#ABCD"

-- `iter().position`
unfoldable pub position : ℕ → Text → Option ℕ
position c [] = none
position c (x ∷ xs) = if x == c then some 0 else Option.map suc (position c xs)

-- the index is cut to an `u8`
unfoldable pub digit_to_event : ℕ → Option ℕ
digit_to_event digit = Option.map (λ i. i % 256) (position digit dtmf_digits)

unfoldable pub event_to_digit : ℕ → Option ℕ
event_to_digit event = get_elem? dtmf_digits event

abbrev IsDistinct : Text → Type 0
IsDistinct [] = Unit
IsDistinct (x ∷ xs) = All (λ y. x ≢ y) xs × IsDistinct xs

get_elem?-position : (c : ℕ) (xs : Text) (i : ℕ) → position c xs ≡ some i → get_elem? xs i ≡ some c
unfolding position
get_elem?-position c [] i h = cc
get_elem?-position c (x ∷ xs) zero h = ground arith
get_elem?-position c (x ∷ xs) (suc i) h = ground (arith, get_elem?-position c xs i)

position-lt-length : (c : ℕ) (xs : Text) (i : ℕ) → position c xs ≡ some i → i < length xs
unfolding position
position-lt-length c [] i h = cc
position-lt-length c (x ∷ xs) zero h = omega arith
position-lt-length c (x ∷ xs) (suc i) h = ground (arith, position-lt-length c xs i)

All-get_elem? : (y : ℕ) (xs : Text) (i : ℕ) → All (λ x. y ≢ x) xs → get_elem? xs i ≡ some y → ⊥
All-get_elem? y [] i h e = cc
All-get_elem? y (x ∷ xs) zero h e = ground arith
All-get_elem? y (x ∷ xs) (suc i) h e = All-get_elem? y xs i h.1 e

position-get_elem? :
    (c : ℕ) (xs : Text) (i : ℕ) → IsDistinct xs → get_elem? xs i ≡ some c → position c xs ≡ some i
unfolding position
position-get_elem? c [] i d h = cc
position-get_elem? c (x ∷ xs) zero d h = ground arith
position-get_elem? c (x ∷ xs) (suc i) d h =
    ground (arith, position-get_elem? c xs i d.1 h, λ (e : x ≡ c). All-get_elem? x xs i d.0)

dtmf_digits-IsDistinct : IsDistinct dtmf_digits
dtmf_digits-IsDistinct = omega arith

digit_to_event-position : (digit : ℕ) → digit_to_event digit ≡ position digit dtmf_digits
unfolding digit_to_event
digit_to_event-position digit = elim (Option-cases (position digit dtmf_digits)) [
  | inl e ↦ rw e
  | inr (i, e) ↦ rw e (ground (arith, position-lt-length digit dtmf_digits i e))
]

-- A digit has an event code exactly when that code stands for the digit: the two tables are inverse
-- to each other.
pub digit_to_event_iff :
    (digit event : ℕ) → (digit_to_event digit ≡ some event) ↔ (event_to_digit event ≡ some digit)
unfolding event_to_digit
digit_to_event_iff digit event = rw digit_to_event-position (
  get_elem?-position digit dtmf_digits event,
  position-get_elem? digit dtmf_digits event dtmf_digits-IsDistinct,
)
