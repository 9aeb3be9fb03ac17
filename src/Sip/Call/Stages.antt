-- ===== src/Sip/Call/Stages.antt =====
-- src/sip.rs, `handle_invite`: every stage before the answer keeps the state in order, or leaves the
-- call refused.
pub mod Media
pub mod Answer
use mathlib.Core.Option
use sipbot.Prelude.{
  ℕ, ◌≡◌, refl, ap, subst, ◌∙◌, sym, arith, ◌⊎◌, inl, inr, Bool, true, false, not, ◌&&◌, ◌||◌,
  Option, none, some, is_none, List, [], ◌∷◌, ◌++◌, append-nil, if◌then◌else◌, Bool-cases,
  Option-cases, get_or, leb,
}
use sipbot.Prelude.Text.{Text, text_eq, codes}
use sipbot.Stats.{CallStats, add_status, status_code_max}
use sipbot.Web.Record.{CallState, terminated, rejected, failed, CallRecord}
use sipbot.Web.Inspector.{is_terminal}
use sipbot.Config.Account.{AccountConfig, RejectConfig, EarlyMediaConfig, RingConfig}
use sipbot.Sip.Caller.{caller_matches}
use sipbot.Sip.Health.{evaluate_call_health}
use sipbot.Sip.Call.{
  Session, Request, Playing, ringing, file_once, World, CallTask, Stage, running, returned, ◌>>=◌,
  Holds, bind-Holds,
}
use sipbot.Sip.Call.Early.{
  finish_record, refuse, stop_all, play, match_stage, random_stage, random_code, refuse_by,
  sent_code, plain_reject_stage, offer, adopt, open_stage, ring_with, play_tone, tone_stage,
  announce_early, play_early, early_stage, ring_or_return, play_ringback, ring_for_media,
  ring_stage, cancelled_stage, busy_here,
}
use sipbot.Sip.Call.Phases.{
  Phase, proceeding, refused, Reach, alert, counters, only, IsTracked, Alerting, Idle, IsFinished,
  IsHeld, Refused, Left, Alerting-IsNewest,
}
use sipbot.Sip.Call.Phases as Phases

pub counters-add_status : (s : CallStats) (code : ℕ) → counters (add_status s code) ≡ counters s
unfolding add_status
counters-add_status s code = ground arith

-- `finish_record` gives a record an end.
pub finish_record-IsFinished :
    (expected : Option ℕ) (now : ℕ) (state : CallState) (reason : Text) (r : Option CallRecord)
    → is_terminal state ≡ true
    → IsFinished (Option.map (finish_record expected now state reason) r)
unfolding finish_record evaluate_call_health
finish_record-IsFinished expected now state reason none h = tt
finish_record-IsFinished expected now state reason (some r) h =
    ((state, refl, h), (now, refl), (get_or r.end_reason reason, refl))

module _ (w : World) (before : ℕ × ℕ × ℕ) where
  -- The stage hands on a state in order, or leaves the call.
  abbrev pub Goes : Stage → Type 0
  Goes = Holds (Alerting before) (Left w before)

  -- The same, where no session has been opened.
  abbrev pub Waits : Stage → Type 0
  Waits = Holds (Idle before) (Refused before)

  pub refuse-Refused :
      (sent code : ℕ) (state : CallState) (reason : Text) (s : CallTask)
      → is_terminal state ≡ true
      → Alerting before s
      → Refused before (refuse w sent code state reason s)
  refuse-Refused sent code state reason s h a = record {
    phase = Phases.refuse sent s.asked a.phase;
    counted = counters-add_status s.stats code ∙ a.counted;
    tracked = a.tracked;
    held = inr (a.alone ∙ ap only (sym a.guarded));
    newest = Alerting-IsNewest before s a;
    finished = finish_record-IsFinished w.expected_ms w.end_now state reason s.call_record h;
  }

  pub stop_all-Refused : (s : CallTask) → Refused before s → Refused before (stop_all s)
  stop_all-Refused s r = record {
    phase = r.phase;
    counted = r.counted;
    tracked = r.tracked;
    held = inl refl;
    newest = r.newest;
    finished = r.finished;
  }

  pub play-Alerting :
      (what : Playing) (s : CallTask) → Alerting before s → Alerting before (play what s)
  play-Alerting what s a = record {
    phase = a.phase;
    counted = a.counted;
    tracked = a.tracked;
    alone = a.alone;
    guarded = a.guarded;
  }

  pub ring_with-Alerting :
      (sdp : Option Text) (counts : Bool) (code : ℕ) (s : CallTask)
      → Alerting before s
      → Alerting before (ring_with sdp counts code s)
  ring_with-Alerting sdp counts code s a = record {
    phase = alert sdp s.asked a.phase;
    counted = elim (Bool-cases counts) [
      | inl holds ↦ rw holds (counters-add_status s.stats code ∙ a.counted)
      | inr fails ↦ rw fails a.counted
    ];
    tracked = a.tracked;
    alone = a.alone;
    guarded = a.guarded;
  }

  pub match_stage_lem :
      (account : AccountConfig) (caller_user : Text) (s : CallTask)
      → Idle before s
      → Waits (match_stage w account caller_user s)
  unfolding match_stage
  match_stage_lem account caller_user s a = elim (Option-cases account.match_caller) [
    | inl e ↦ rw e a
    | inr (pattern, e) ↦ elim (Bool-cases (caller_matches pattern caller_user)) [
      | inl holds ↦ rw (e, holds) a
      | inr fails ↦ rw (e, fails) ((refuse-Refused _ _ _ _ s refl a.0))
    ]
  ]

  pub random_stage_lem :
      (account : AccountConfig) (s : CallTask) → Idle before s → Waits (random_stage w account s)
  unfolding random_stage
  random_stage_lem account s a = elim (Option-cases account.reject_prob) [
    | inl e ↦ rw e a
    | inr (prob, e) ↦ elim (Bool-cases (leb w.draw prob)) [
      | inl holds ↦ rw (e, holds) ((refuse-Refused _ _ _ _ s refl a.0))
      | inr fails ↦ rw (e, fails) a
    ]
  ]

  pub refuse_by-Refused :
      (cfg : RejectConfig) (s : CallTask) → Alerting before s → Refused before (refuse_by w cfg s)
  unfolding refuse_by
  refuse_by-Refused cfg s a = refuse-Refused _ _ _ _ s refl a

  pub plain_reject_stage_lem :
      (account : AccountConfig) (s : CallTask)
      → Idle before s
      → Waits (plain_reject_stage w account s)
  unfolding plain_reject_stage
  plain_reject_stage_lem account s a = elim (Option-cases account.reject) [
    | inl e ↦ rw e a
    | inr (cfg, e) ↦ elim (Bool-cases (is_none cfg.tone)) [
      | inl holds ↦ rw (e, holds) ((refuse_by-Refused cfg s a.0))
      | inr fails ↦ rw (e, fails) a
    ]
  ]

  pub play_tone-Alerting :
      (tone : Text) (m : Option Session) (sdp : Option Text) (s : CallTask)
      → Alerting before s
      → Alerting before (play_tone w tone m sdp s)
  unfolding play_tone
  play_tone-Alerting tone none sdp s a = a
  play_tone-Alerting tone (some m) none s a = a
  play_tone-Alerting tone (some m) (some sdp) s a =
      play-Alerting (file_once tone) _ (ring_with-Alerting (some sdp) w.tone_ringing_ok 183 s a)

  pub tone_stage_lem :
      (account : AccountConfig) (s : CallTask)
      → Alerting before s
      → Holds (Alerting before) (Refused before) (tone_stage w account s)
  unfolding tone_stage
  tone_stage_lem account s a = elim (Option-cases account.reject) [
    | inl e ↦ rw e a
    | inr (cfg, e) ↦ elim (Option-cases cfg.tone) [
      | inl f ↦ rw (e, f) a
      | inr (tone, f) ↦
          rw (e, f)
            ((stop_all-Refused _ (refuse_by-Refused cfg _ (play_tone-Alerting tone _ _ s a))))
    ]
  ]
