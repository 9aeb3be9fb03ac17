-- ===== src/Sip/Call/Phases.antt =====
-- src/sip.rs, `handle_invite`: what a server dialog allows, and what holds in the states of a call.
use sipbot.Prelude.{
  if◌then◌else◌, ℕ, ◌≡◌, ◌⊎◌, ap, sym, ◌∙◌, true, false, Option, none, some, List, [], ◌∷◌, ◌++◌,
}
use sipbot.Prelude.Text.{Text}
use sipbot.Stats.{CallStats}
use sipbot.Web.Record.{CallState, CallRecord}
use sipbot.Web.Inspector.{is_terminal}
use sipbot.Sip.Call.Answer.{hangup_mode, sends_bye}
use sipbot.Config.Account.{AccountConfig}
use sipbot.Sip.Call.{Session, Request, ringing, reject, accept, bye, World, CallTask}

-- The phases of an INVITE that is answered.
pub data Phase : Type 0 where
  proceeding refused answered closed : Phase

-- The requests on a dialog, newest first, that are in order, and the phase they lead to: any number
-- of provisional responses, then one final response, and a BYE only after an acceptance.
pub data Reach : List Request → Phase → Type 0 where
  begun : Reach [] proceeding
  alert :
      (sdp : Option Text) (rs : List Request)
      → Reach rs proceeding
      → Reach (ringing sdp ∷ rs) proceeding
  refuse : (code : ℕ) (rs : List Request) → Reach rs proceeding → Reach (reject code ∷ rs) refused
  answer :
      (hs : List (Text × Text)) (sdp : Option Text) (rs : List Request)
      → Reach rs proceeding
      → Reach (accept hs sdp ∷ rs) answered
  hang_up : (rs : List Request) → Reach rs answered → Reach (bye ∷ rs) closed

-- the counters of calls: current, finished and planned
abbrev pub counters : CallStats → ℕ × ℕ × ℕ
counters s = (s.current_calls, s.finished_calls, s.total_planned_calls)

abbrev pub only : Option Session → List Session
only none = []
only (some m) = m ∷ []

-- The sessions of a state: what was opened is live or stopped.
abbrev pub IsTracked : CallTask → Type 0
IsTracked s = s.opened ≡ s.live_sessions ++ s.stopped

-- A state before the answer: there is at most one live session, that of the call and of the guard.
pub record Alerting (before : ℕ × ℕ × ℕ) (s : CallTask) : Type 0 where
  pub phase : Reach s.asked proceeding
  pub counted : counters s.stats ≡ before
  pub tracked : IsTracked s
  pub alone : s.live_sessions ≡ only s.media_session
  pub guarded : s.guarded ≡ s.media_session

-- A state before the first session.
abbrev pub Idle : ℕ × ℕ × ℕ → CallTask → Type 0
Idle before s = Alerting before s × (s.media_session ≡ none)

-- A record that has ended: its state is terminal, and it has an end time and a reason.
abbrev pub IsFinished : Option CallRecord → Type 0
IsFinished none = Unit
IsFinished (some r) =
    ((st : CallState) × (r.state ≡ some st) × (is_terminal st ≡ true))
    × ((t : ℕ) × (r.ended_at_ms ≡ some t))
    × ((why : Text) × (r.end_reason ≡ some why))

-- No session is live but the one that the guard holds.
abbrev pub IsHeld : CallTask → Type 0
IsHeld s = (s.live_sessions ≡ []) ⊎ (s.live_sessions ≡ only s.guarded)

-- The session that the guard holds is the last that was opened.
abbrev pub IsNewest : Option Session → List Session → Type 0
IsNewest none opened = Unit
IsNewest (some m) opened = (older : List Session) × (opened ≡ m ∷ older)

IsNewest-alone :
    (guarded : Option Session) (live stopped opened : List Session)
    → opened ≡ live ++ stopped
    → live ≡ only guarded
    → IsNewest guarded opened
IsNewest-alone none live stopped opened tracked alone = tt
IsNewest-alone (some m) live stopped opened tracked alone =
    (stopped, tracked ∙ ap (λ l. l ++ stopped) alone)

pub record Refused (before : ℕ × ℕ × ℕ) (s : CallTask) : Type 0 where
  pub phase : Reach s.asked refused
  pub counted : counters s.stats ≡ before
  pub tracked : IsTracked s
  pub held : IsHeld s
  pub newest : IsNewest s.guarded s.opened
  pub finished : IsFinished s.call_record

-- How a call returns before the answer: it was refused, or a ringing was not taken.
abbrev pub Left : World → ℕ × ℕ × ℕ → CallTask → Type 0
Left w before s = Refused before s ⊎ ((w.ringing_ok ≡ false) × Alerting before s)

-- A state after the answer.
pub record Answered (before : ℕ × ℕ × ℕ) (s : CallTask) : Type 0 where
  pub phase : Reach s.asked answered
  pub counted : counters s.stats ≡ before
  pub tracked : IsTracked s
  pub newest : IsNewest s.guarded s.opened

-- the phase of an answered call at its end
abbrev pub last_phase : World → AccountConfig → Phase
last_phase w account = if sends_bye w (hangup_mode account) then closed else answered

abbrev pub HasEnd : Option CallRecord → Type 0
HasEnd none = Unit
HasEnd (some r) = (t : ℕ) × (r.ended_at_ms ≡ some t)

-- A call that was answered and is over.
pub record Done (w : World) (account : AccountConfig) (before : ℕ × ℕ × ℕ) (s : CallTask)
    : Type 0 where
  pub phase : Reach s.asked (last_phase w account)
  pub counted : counters s.stats ≡ before
  pub tracked : IsTracked s
  pub stopped : s.live_sessions ≡ []
  pub newest : IsNewest s.guarded s.opened
  pub ended : HasEnd s.call_record

pub Alerting-IsNewest :
    (before : ℕ × ℕ × ℕ) (s : CallTask) → Alerting before s → IsNewest s.guarded s.opened
Alerting-IsNewest before s a =
    IsNewest-alone s.guarded s.live_sessions s.stopped s.opened a.tracked
      (a.alone ∙ ap only (sym a.guarded))

-- A call whose acceptance the dialog did not take.
pub record Unaccepted (w : World) (before : ℕ × ℕ × ℕ) (s : CallTask) : Type 0 where
  pub failed : w.accept_ok ≡ false
  pub phase : Reach s.asked answered
  pub counted : counters s.stats ≡ before
  pub tracked : IsTracked s
  pub held : IsHeld s
  pub newest : IsNewest s.guarded s.opened
