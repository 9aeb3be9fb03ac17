-- ===== src/Web/Inspector/State.antt =====
-- src/web/inspector.rs, `apply_state`: the state of a call over the messages that pass.
use sipbot.Prelude.{
  ℕ, ◌≡◌, ◌≢◌, ◌⊎◌, inl, inr, refl, Bool, true, false, List, [], ◌∷◌, Option, none, some,
  Option-cases, Bool-cases, arith, All,
}
use sipbot.Prelude.Text.{Text}
use sipbot.Web.Record.{
  CallState, trying, ringing, answered, failed, CallRecord, new_record, state_str,
}
use sipbot.Web.Inspector.{
  derive_state, is_terminal, is_past, is_ignored, enter_state, advance, apply_state,
}

-- A message, as far as the state depends on it, and the time when it passes.
pub record Seen : Type 0 where
  pub dir : Text
  pub summary : Text
  pub is_request : Bool
  pub now : ℕ

abbrev pub state_of : Seen → Option CallState
state_of m = derive_state m.dir m.summary m.is_request

abbrev pub see : CallRecord → Seen → CallRecord × Option Text × Bool
see r m = apply_state r m.dir m.summary m.is_request m.now

unfoldable pub see_all : CallRecord → List Seen → CallRecord
see_all r [] = r
see_all r (m ∷ ms) = see_all (see r m).0 ms

enter_state_lem :
    (r : CallRecord) (s : CallState) (summary : Text) (now : ℕ)
    → ((enter_state r s summary now).0.state ≡ some s)
      × ((enter_state r s summary now).1 ≡ some (state_str s))
      × ((enter_state r s summary now).2 ≡ is_terminal s)
unfolding enter_state
enter_state_lem r s summary now = ground arith

is_ignored_same : (s : CallState) → is_ignored (some s) s ≡ true
unfolding is_ignored
is_ignored_same s = ground arith

-- Either nothing happens, or the record enters the state that the message stands for: it was not in
-- it, that state is announced, and the call is reported as ended exactly if the state is terminal.
abbrev pub Outcome : CallRecord → Option CallState → CallRecord × Option Text × Bool → Type 0
Outcome r new_state result =
    (result ≡ (r, none, false))
    ⊎ ((s : CallState) × (new_state ≡ some s)
        × (r.state ≢ some s)
        × (result.0.state ≡ some s)
        × (result.1 ≡ some (state_str s))
        × (result.2 ≡ is_terminal s))

Outcome-advance :
    (r : CallRecord) (new_state : Option CallState) (summary : Text) (now : ℕ)
    → Outcome r new_state (advance r new_state summary now)
unfolding advance
Outcome-advance r none summary now = inl refl
Outcome-advance r (some s) summary now = elim (Bool-cases (is_ignored r.state s)) [
  | inl ignored ↦ inl (rw ignored)
  | inr entered ↦
      let (st, ev, ended) = enter_state_lem r s summary now in
      inr (
        s,
        refl,
        λ e. cc (entered, is_ignored_same s, e),
        rw entered st,
        rw entered ev,
        rw entered ended,
      )
]

-- One message: either nothing happens, or the record enters the state that the message stands for:
-- it was not in it, that state is announced, and the call is reported as ended exactly if the state
-- is terminal.
Outcome-apply_state : (r : CallRecord) (m : Seen) → Outcome r (state_of m) (see r m)
unfolding apply_state
Outcome-apply_state r m = Outcome-advance r (state_of m) m.summary m.now

-- A call that has ended has an end time and a reason.
abbrev IsClosed : CallRecord → Type 0
IsClosed r =
    (s : CallState)
    → r.state ≡ some s
    → is_terminal s ≡ true
    → ((t : ℕ) × (r.ended_at_ms ≡ some t)) × ((why : Text) × (r.end_reason ≡ some why))

IsClosed-enter_state :
    (r : CallRecord) (s : CallState) (summary : Text) (now : ℕ)
    → IsClosed (enter_state r s summary now).0
unfolding enter_state
IsClosed-enter_state r s summary now u e t = elim (Option-cases r.end_reason) [
  | inl e₁ ↦ ((now, ground arith), (summary, ground arith))
  | inr (why, e₁) ↦ ((now, ground arith), (why, ground arith))
]

IsClosed-advance :
    (r : CallRecord) (new_state : Option CallState) (summary : Text) (now : ℕ)
    → IsClosed r
    → IsClosed (advance r new_state summary now).0
unfolding advance
IsClosed-advance r none summary now h = h
IsClosed-advance r (some s) summary now h = elim (Bool-cases (is_ignored r.state s)) [
  | inl ignored ↦ rw ignored h
  | inr entered ↦ rw entered (IsClosed-enter_state r s summary now)
]

IsClosed-see_all : (ms : List Seen) (r : CallRecord) → IsClosed r → IsClosed (see_all r ms)
unfolding see_all apply_state
IsClosed-see_all [] r h = h
IsClosed-see_all (m ∷ ms) r h =
    IsClosed-see_all ms (see r m).0 (IsClosed-advance r (state_of m) m.summary m.now h)

-- Whatever messages have passed since its record was made, a call that is terminated, rejected or
-- failed has an end time and a reason.
ended_has_reason :
    (call_id : Text) (now : ℕ) (ms : List Seen) (s : CallState)
    → (see_all (new_record call_id now) ms).state ≡ some s
    → is_terminal s ≡ true
    → ((t : ℕ) × ((see_all (new_record call_id now) ms).ended_at_ms ≡ some t))
      × ((why : Text) × ((see_all (new_record call_id now) ms).end_reason ≡ some why))
unfolding new_record
ended_has_reason call_id now ms = IsClosed-see_all ms (new_record call_id now) (λ s e t. cc)

end_reason-advance :
    (r : CallRecord) (new_state : Option CallState) (summary : Text) (now : ℕ) (why : Text)
    → r.end_reason ≡ some why
    → (advance r new_state summary now).0.end_reason ≡ some why
unfolding advance
end_reason-advance r none summary now why h = h
end_reason-advance r (some s) summary now why h = ground arith

-- The reason of a call's end is the first one: no later message changes it.
end_reason-see_all :
    (ms : List Seen) (r : CallRecord) (why : Text)
    → r.end_reason ≡ some why
    → (see_all r ms).end_reason ≡ some why
unfolding see_all apply_state
end_reason-see_all [] r why h = h
end_reason-see_all (m ∷ ms) r why h =
    end_reason-see_all ms (see r m).0 why (end_reason-advance r (state_of m) m.summary m.now why h)

is_past-advance :
    (r : CallRecord) (new_state : Option CallState) (summary : Text) (now : ℕ)
    → new_state ≢ some failed
    → is_past r.state ≡ true
    → is_past (advance r new_state summary now).0.state ≡ true
unfolding advance
is_past-advance r none summary now h p = p
is_past-advance r (some s) summary now h p = ground arith

-- A terminated or rejected call stays so while no message stands for a failure.
is_past-see_all :
    (ms : List Seen) (r : CallRecord)
    → All (λ m. state_of m ≢ some failed) ms
    → is_past r.state ≡ true
    → is_past (see_all r ms).state ≡ true
unfolding see_all apply_state
is_past-see_all [] r h p = p
is_past-see_all (m ∷ ms) r h p =
    is_past-see_all ms (see r m).0 h.1 (is_past-advance r (state_of m) m.summary m.now h.0 p)

see_all-twice :
    (r : CallRecord) (m m' : Seen)
    → see_all r (m ∷ m' ∷ [])
      ≡ (advance (advance r (state_of m) m.summary m.now).0 (state_of m') m'.summary m'.now).0
unfolding see_all apply_state
see_all-twice r m m' = refl

see_all-once :
    (r : CallRecord) (m : Seen) → see_all r (m ∷ []) ≡ (advance r (state_of m) m.summary m.now).0
unfolding see_all apply_state
see_all-once r m = refl

-- A challenge and the answer to the repeated request: a response that stands for a failure, then one
-- that stands for an answer, leave a call that had neither an end nor a reason answered, with the
-- end time and the reason of the challenge.
see_all-challenged :
    (r : CallRecord) (challenge answer : Seen)
    → is_past r.state ≡ false
    → r.state ≢ some failed
    → r.end_reason ≡ none
    → state_of challenge ≡ some failed
    → state_of answer ≡ some answered
    → ((see_all r (challenge ∷ answer ∷ [])).state ≡ some answered)
      × ((see_all r (challenge ∷ answer ∷ [])).ended_at_ms ≡ some challenge.now)
      × ((see_all r (challenge ∷ answer ∷ [])).end_reason ≡ some challenge.summary)
see_all-challenged r challenge answer p f no_reason c a =
    rw (see_all-twice r challenge answer, c, a) (unfold advance in ground arith)

-- A new offer within an answered call: an incoming INVITE and a response 100 or 180 take an answered
-- call back to ringing, though a provisional response alone does not.
see_all-reinvited :
    (r : CallRecord) (invite provisional : Seen)
    → r.state ≡ some answered
    → state_of invite ≡ some trying
    → state_of provisional ≡ some ringing
    → ((see_all r (invite ∷ provisional ∷ [])).state ≡ some ringing)
      × ((see_all r (provisional ∷ [])).state ≡ some answered)
see_all-reinvited r invite provisional up i p =
    rw (see_all-twice r invite provisional, see_all-once r provisional, i, p)
      (unfold advance in ground arith)
