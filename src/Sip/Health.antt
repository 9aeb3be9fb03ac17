-- ===== src/Sip/Health.antt =====
-- src/sip.rs: `evaluate_call_health`, which adds to the issues of a call that ran too long. The
-- expected length of the call, in milliseconds, is an argument: `expected_call_ms` computes it with
-- floats from the lengths of sound files.
use sipbot.Prelude.{
  ℕ, ◌-◌, Bool, true, false, ◌&&◌, ◌||◌, Option, none, some, List, [], ◌∷◌, ◌++◌, get_or, take,
  add_u64, ltb, if◌then◌else◌,
}
use sipbot.Prelude.Text.{Text, codes, text_eq, starts_with}
use sipbot.Prelude.Decimal.{to_string}
use sipbot.Web.Record.{CallState, terminated, CallRecord, SipTraceEntry}

abbrev pub is_terminated : Option CallState → Bool
is_terminated (some terminated) = true
is_terminated (some s) = false
is_terminated none = false

abbrev is_bye : SipTraceEntry → Bool
is_bye m = text_eq m.dir (codes "in") && starts_with m.summary (codes "BYE")

-- `any`
any_bye : List SipTraceEntry → Bool
any_bye [] = false
any_bye (m ∷ ms) = is_bye m || any_bye ms

reversed : List SipTraceEntry → List SipTraceEntry
reversed [] = []
reversed (m ∷ ms) = reversed ms ++ m ∷ []

-- a BYE of the peer among the last four messages
unfoldable pub remote_bye : CallRecord → Bool
unfolding any_bye reversed
remote_bye r = any_bye (take 4 (reversed r.sip_trace))

unfoldable pub why : CallRecord → Text
unfolding remote_bye
why r =
    if remote_bye r
    then codes "remote had to hang up — bot BYE never sent (playback stalled?)"
    else codes "stalled playback or remote held the call"

unfoldable pub issue : CallRecord → (dur expected : ℕ) → Text
unfolding why
issue r dur expected =
    codes "call ran "
    ++ to_string dur
    ++ codes "ms, expected ~"
    ++ to_string expected
    ++ codes "ms — "
    ++ why r

unfoldable pub call_ms : CallRecord → ℕ
call_ms r = get_or r.ended_at_ms 0 - r.started_at_ms

-- the call is terminated, is expected to have a length, and ran over it by more than four seconds
unfoldable pub ran_over : Option ℕ → CallRecord → Bool
unfolding call_ms
ran_over none r = false
ran_over (some expected) r = is_terminated r.state && ltb (add_u64 expected 4000) (call_ms r)

unfoldable pub evaluate_call_health : Option ℕ → CallRecord → CallRecord
unfolding ran_over issue call_ms
evaluate_call_health expected r = record r {
  issues =
      if ran_over expected r
      then r.issues ++ issue r (call_ms r) (get_or expected 0) ∷ []
      else r.issues;
}
