-- ===== src/Sip/Call/Outcome.antt =====
-- src/sip.rs, `handle_invite`: how the stages of a call, one after the other, leave it.
use sipbot.Sip.Call.Early.{plain_reject_stage, tone_stage}
use sipbot.Prelude.{Option-cases, some, inr, inl, none, ◌≡◌, ℕ, ◌⊎◌, inl, inr}
use sipbot.Prelude.Text.{Text}
use sipbot.Config.Account.{RejectConfig, AccountConfig}
use sipbot.Sip.Call.{map-Holds, World, CallTask, ◌>>=◌, Holds, bind-Holds}
use sipbot.Sip.Call.Answer.{sdp_jump_stage, accept_stage}
use sipbot.Sip.Call.Task.{screening, alerting, answering, call_logic}
use sipbot.Sip.Call.Phases.{Refused, Alerting, Idle, Left, Answered, Done, Unaccepted}
use sipbot.Sip.Call.Stages.{
  stop_all-Refused, refuse_by-Refused, play_tone-Alerting, match_stage_lem, random_stage_lem,
  plain_reject_stage_lem, tone_stage_lem,
}
use sipbot.Sip.Call.Stages.Media.{
  early_stage_lem, ring_stage_lem, cancelled_stage_lem, open_stage_lem,
}
use sipbot.Sip.Call.Stages.Answer.{
  sdp_jump_stage_lem, accept_stage_lem, announce_stage-Answered, answer_media-Answered,
  hangup_stage_lem,
}

-- no state at all
abbrev pub Never : CallTask → Type 0
Never s = ⊥

module _ (w : World) (account : AccountConfig) (before : ℕ × ℕ × ℕ) where
  -- A call is screened: it goes on, or it was refused.
  screening_lem :
      (caller_user : Text) (s : CallTask)
      → Idle before s
      → Holds (Alerting before) (Refused before) (screening w account caller_user s)
  unfolding screening
  screening_lem caller_user s a =
      let waits = bind-Holds (Idle before) (Idle before) (Refused before) in
      bind-Holds (Alerting before) (Alerting before) (Refused before) _ _
        (tone_stage_lem w before account)
        (bind-Holds (Idle before) (Alerting before) (Refused before) _ _
          (open_stage_lem w before account)
          (waits _ _ (plain_reject_stage_lem w before account) (
            waits _ _ (random_stage_lem w before account)
              (match_stage_lem w before account caller_user s a))))

  -- A call that is rejected without a tone does not pass that stage.
  plain_reject_stage_refuses :
      (cfg : RejectConfig) (s : CallTask)
      → account.reject ≡ some cfg
      → cfg.tone ≡ none
      → Idle before s
      → Holds Never (Refused before) (plain_reject_stage w account s)
  unfolding plain_reject_stage
  plain_reject_stage_refuses cfg s is_cfg silent a =
      rw (is_cfg, silent) (refuse_by-Refused w before cfg s a.0)

  -- A call that is rejected with a tone does not pass the stage that plays it.
  tone_stage_refuses :
      (cfg : RejectConfig) (tone : Text) (s : CallTask)
      → account.reject ≡ some cfg
      → cfg.tone ≡ some tone
      → Alerting before s
      → Holds Never (Refused before) (tone_stage w account s)
  unfolding tone_stage
  tone_stage_refuses cfg tone s is_cfg is_tone a =
      rw (is_cfg, is_tone)
        (stop_all-Refused w before _
          (refuse_by-Refused w before cfg _ (play_tone-Alerting w before tone _ _ s a)))

  -- With a reject stage no call passes the screening.
  screening_refuses :
      (caller_user : Text) (cfg : RejectConfig) (s : CallTask)
      → account.reject ≡ some cfg
      → Idle before s
      → Holds Never (Refused before) (screening w account caller_user s)
  unfolding screening
  screening_refuses caller_user cfg s is_cfg a =
      let begins =
        bind-Holds (Idle before) (Idle before) (Refused before) _ _
          (random_stage_lem w before account) (match_stage_lem w before account caller_user s a) in
      let never = bind-Holds Never Never (Refused before) in
      elim (Option-cases cfg.tone) [
        | inl silent ↦
            never _ _ (λ t x. absurd x)
              (never _ _ (λ t x. absurd x)
                (bind-Holds (Idle before) Never (Refused before) _ _
                  (λ t i. plain_reject_stage_refuses cfg t is_cfg silent i) begins))
        | inr (tone, is_tone) ↦
            bind-Holds (Alerting before) Never (Refused before) _ _
              (λ t i. tone_stage_refuses cfg tone t is_cfg is_tone i)
              (bind-Holds (Idle before) (Alerting before) (Refused before) _ _
                (open_stage_lem w before account)
                (bind-Holds (Idle before) (Idle before) (Refused before) _ _
                  (plain_reject_stage_lem w before account) begins))
      ]

  alerting_lem :
      (caller_user : Text) (s : CallTask)
      → Idle before s
      → Holds (Alerting before) (Left w before) (alerting w account caller_user s)
  unfolding alerting
  alerting_lem caller_user s a =
      let goes = bind-Holds (Alerting before) (Alerting before) (Left w before) in
      goes _ _ (cancelled_stage_lem w before) (
        goes _ _ (ring_stage_lem w before account) (
          goes _ _ (early_stage_lem w before account) (
            map-Holds (Alerting before) (Refused before) (Left w before) (λ x. inl)
              (screening w account caller_user s) (screening_lem caller_user s a))))

  abbrev Returns : CallTask → Type 0
  Returns s = Left w before s ⊎ Unaccepted w before s

  answering_lem :
      (caller_user : Text) (s : CallTask)
      → Alerting before s
      → Holds (Done w account before) Returns (answering w account caller_user s)
  unfolding answering
  answering_lem caller_user s a =
      bind-Holds (Answered before) (Done w account before) Returns
        (sdp_jump_stage w account s >>= accept_stage w account) _
        (λ t answered. hangup_stage_lem w account before _ (
          answer_media-Answered w account before _
            (announce_stage-Answered w account before caller_user t answered)))
        (bind-Holds (Alerting before) (Answered before) Returns (sdp_jump_stage w account s)
          (accept_stage w account)
          (λ t jumped.
            map-Holds (Answered before) (Unaccepted w before) Returns (λ x. inr)
              (accept_stage w account t) (accept_stage_lem w account before t jumped))
          (map-Holds (Alerting before) (λ t. ⊥) Returns (λ x none. absurd none)
            (sdp_jump_stage w account s) (sdp_jump_stage_lem w account before s a)))

  -- From a state with no session, the call is refused, left early, not accepted, or done.
  pub call_logic_lem :
      (caller_user : Text) (s : CallTask)
      → Idle before s
      → Holds (Done w account before) Returns (call_logic w account caller_user s)
  unfolding call_logic
  call_logic_lem caller_user s a =
      bind-Holds (Alerting before) (Done w account before) Returns
        (alerting w account caller_user s) (answering w account caller_user)
        (answering_lem caller_user)
        (map-Holds (Alerting before) (Left w before) Returns (λ x. inl)
          (alerting w account caller_user s) (alerting_lem caller_user s a))

  -- With a reject stage every call is refused.
  pub call_logic_refuses :
      (caller_user : Text) (cfg : RejectConfig) (s : CallTask)
      → account.reject ≡ some cfg
      → Idle before s
      → Holds Never (Refused before) (call_logic w account caller_user s)
  unfolding call_logic alerting
  call_logic_refuses caller_user cfg s is_cfg a =
      let never = bind-Holds Never Never (Refused before) in
      never _ _ (λ t x. absurd x)
        (never _ _ (λ t x. absurd x)
          (never _ _ (λ t x. absurd x)
            (never _ _ (λ t x. absurd x) (screening_refuses caller_user cfg s is_cfg a))))
