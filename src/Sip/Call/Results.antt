-- ===== src/Sip/Call/Results.antt =====
-- src/sip.rs, `handle_invite`: what holds of the whole task of a call.
use sipbot.Prelude.{ℕ, ◌≡◌, refl, ◌⊎◌, inl, inr, Option, some, List, ◌∷◌}
use sipbot.Prelude.Text.{Text}
use sipbot.Stats.{CallStats, add_total_planned, inc_current}
use sipbot.Web.Record.{CallRecord}
use sipbot.Config.Account.{AccountConfig, RejectConfig}
use sipbot.Sip.Caller.{caller_user_part}
use sipbot.Sip.Call.{Session, World, CallTask, Stage, running, returned, Holds, final_state, start}
use sipbot.Sip.Call.Task.{call_logic, drop_guard, call_task}
use sipbot.Sip.Call.Phases.{refused, Reach, begun, counters, Refused, Idle, IsFinished}
use sipbot.Sip.Call.Outcome.{Never, call_logic_refuses}

final-Holds :
    (P Q : CallTask → Type 0) (stage : Stage)
    → Holds P Q stage
    → P (final_state stage) ⊎ Q (final_state stage)
final-Holds P Q (running s) h = inl h
final-Holds P Q (returned s) h = inr h

-- the state of a call before its first stage
abbrev begin : CallStats → Option CallRecord → CallTask
begin stats call_record = start (inc_current (add_total_planned stats 1)) call_record

abbrev before : CallStats → ℕ × ℕ × ℕ
before stats = counters (inc_current (add_total_planned stats 1))

begin-Idle : (stats : CallStats) (r : Option CallRecord) → Idle (before stats) (begin stats r)
unfolding start
begin-Idle stats r =
    (record { phase = begun; counted = refl; tracked = refl; alone = refl; guarded = refl }, refl)

-- the state before the guard falls
abbrev logic_end : World → AccountConfig → Text → CallStats → Option CallRecord → CallTask
logic_end w account caller stats r =
    final_state (call_logic w account (caller_user_part caller) (begin stats r))

-- every opened session stopped once, and perhaps the newest once more
abbrev StopsAll : (stopped opened : List Session) → Type 0
StopsAll stopped opened =
    (stopped ≡ opened)
    ⊎ ((newest : Session) × (older : List Session) × (opened ≡ newest ∷ older)
        × (stopped ≡ newest ∷ opened))

module _ (w : World) (account : AccountConfig) (caller : Text) (stats : CallStats)
    (r : Option CallRecord) where
  -- An account with a reject stage never answers: every call ends with a rejection, and its record
  -- with it.
  pub call_task_rejects :
      (cfg : RejectConfig)
      → account.reject ≡ some cfg
      → Reach (call_task w account caller stats r).asked refused
        × IsFinished (call_task w account caller stats r).call_record
  unfolding call_task drop_guard
  call_task_rejects cfg is_cfg =
      elim (final-Holds Never (Refused (before stats))
        (call_logic w account (caller_user_part caller) (begin stats r))
        (call_logic_refuses w account (before stats) (caller_user_part caller) cfg (begin stats r)
          is_cfg (begin-Idle stats r))) [ inl never ↦ absurd never | inr x ↦ (x.phase, x.finished) ]
