-- ===== src/Sip/Call/Stages/Media.antt =====
-- src/sip.rs, `handle_invite`: the stages that open a session, ring and play keep the state in
-- order.
use sipbot.Prelude.{
  ℕ, refl, ap, subst, ◌∙◌, sym, inl, inr, Bool, true, false, not, ◌||◌, Option, none, some, is_none,
  [], ◌∷◌, if◌then◌else◌, Bool-cases, Option-cases, get_or,
}
use sipbot.Prelude.Text.{Text, text_eq, codes}
use sipbot.Web.Record.{terminated}
use sipbot.Config.Account.{AccountConfig, EarlyMediaConfig, RingConfig}
use sipbot.Sip.Call.{Holds, Session, World, CallTask, running, returned, bind-Holds}
use sipbot.Sip.Call.Early.{
  offer, adopt, open_stage, ring_with, announce_early, play_early, early_stage, ring_or_return,
  play_ringback, ring_for_media, ring_stage, cancelled_stage, busy_here,
}
use sipbot.Sip.Call.Phases.{
  Phase, proceeding, refused, Reach, alert, counters, only, IsTracked, Alerting, Idle, IsFinished,
  IsHeld, Refused, Left, Alerting-IsNewest,
}
use sipbot.Sip.Call.Phases as Phases
use sipbot.Sip.Call.Stages.{
  finish_record-IsFinished, Goes, play-Alerting, ring_with-Alerting, refuse-Refused,
}

module _ (w : World) (before : ℕ × ℕ × ℕ) where
  announce_early-Alerting :
      (sdp : Option Text) (s : CallTask)
      → Alerting before s
      → Alerting before (announce_early sdp s)
  unfolding announce_early
  announce_early-Alerting none s a = a
  announce_early-Alerting (some sdp) s a = ring_with-Alerting w before (some sdp) true 183 s a

  play_early-Alerting :
      (early : EarlyMediaConfig) (s : CallTask)
      → Alerting before s
      → Alerting before (play_early w early s)
  unfolding play_early
  play_early-Alerting early s a = elim (Bool-cases (get_or early.local false)) [
    | inl e ↦ elim (Bool-cases w.has_local_device) [
      | inl f ↦ rw (e, f) (play-Alerting w before _ s a)
      | inr f ↦ rw (e, f) a
    ]
    | inr e ↦ elim (Option-cases early.wav_file) [
      | inl f ↦ rw (e, f) a
      | inr (wav, f) ↦ rw (e, f) (play-Alerting w before _ s a)
    ]
  ]

  pub early_stage_lem :
      (account : AccountConfig) (s : CallTask)
      → Alerting before s
      → Goes w before (early_stage w account s)
  unfolding early_stage
  early_stage_lem account s a = elim (Option-cases account.early_media) [
    | inl e ↦ rw e a
    | inr (early, e) ↦
        elim (Bool-cases (get_or early.local false || not (is_none early.wav_file))) [
          | inl holds ↦ rw (e, holds) (play_early-Alerting early _ (announce_early-Alerting _ s a))
          | inr fails ↦ rw (e, fails) a
        ]
  ]

  ring_or_return_lem :
      (sdp : Option Text) (code : ℕ) (s : CallTask)
      → Alerting before s
      → Goes w before (ring_or_return w sdp code s)
  unfolding ring_or_return
  ring_or_return_lem sdp code s a = elim (Bool-cases w.ringing_ok) [
    | inl holds ↦ rw holds (ring_with-Alerting w before sdp true code s a)
    | inr fails ↦
        subst
          (λ (b : Bool). Goes w before (
            if b
            then running (ring_with sdp true code s)
            else returned (ring_with sdp false code s)))
          (sym fails) (inr (fails, ring_with-Alerting w before sdp false code s a))
  ]

  ring_for_media_lem :
      (sdp : Option Text) (s : CallTask)
      → Alerting before s
      → Goes w before (ring_for_media w sdp s)
  unfolding ring_for_media
  ring_for_media_lem none s a = ring_or_return_lem none 180 s a
  ring_for_media_lem (some sdp) s a = ring_or_return_lem (some sdp) 183 s a

  play_ringback-Alerting :
      (cfg : RingConfig) (s : CallTask)
      → Alerting before s
      → Alerting before (play_ringback w cfg s)
  unfolding play_ringback
  play_ringback-Alerting cfg s a = elim (Bool-cases (get_or cfg.local false)) [
    | inl e ↦ elim (Bool-cases w.has_local_device) [
      | inl f ↦ rw (e, f) (play-Alerting w before _ s a)
      | inr f ↦ rw (e, f) a
    ]
    | inr e ↦ elim (Option-cases cfg.ringback) [
      | inl f ↦ rw (e, f) a
      | inr (wav, f) ↦ elim (Bool-cases (text_eq wav [])) [
        | inl g ↦ rw (e, f, g) (play-Alerting w before _ s a)
        | inr g ↦ rw (e, f, g) (play-Alerting w before _ s a)
      ]
    ]
  ]

  pub ring_stage_lem :
      (account : AccountConfig) (s : CallTask)
      → Alerting before s
      → Goes w before (ring_stage w account s)
  unfolding ring_stage
  ring_stage_lem account s a = elim (Option-cases account.ring) [
    | inl e ↦ rw e a
    | inr (cfg, e) ↦ elim (Bool-cases (get_or cfg.local false || not (is_none cfg.ringback))) [
      | inl holds ↦
          rw (e, holds)
            (bind-Holds (Alerting before) (Alerting before) (Left w before)
              (ring_for_media w s.local_sdp s) (λ t. running (play_ringback w cfg t))
              (play_ringback-Alerting cfg) (ring_for_media_lem _ s a))
      | inr fails ↦ rw (e, fails) (ring_or_return_lem none 180 s a)
    ]
  ]

  pub cancelled_stage_lem : (s : CallTask) → Alerting before s → Goes w before (cancelled_stage w s)
  unfolding cancelled_stage
  cancelled_stage_lem s a = elim (Bool-cases w.is_cancelled) [
    | inl holds ↦ rw holds (
        inl (record {
          phase = Phases.refuse busy_here s.asked a.phase;
          counted = a.counted;
          tracked = a.tracked;
          held = inl refl;
          newest = Alerting-IsNewest before s a;
          finished =
              finish_record-IsFinished w.expected_ms w.end_now terminated (codes "cancelled")
                s.call_record refl;
        }))
    | inr fails ↦ rw fails a
  ]

  adopt-Alerting : (m : Session) (s : CallTask) → Idle before s → Alerting before (adopt m s)
  unfolding adopt
  adopt-Alerting m s (a, fresh) = record {
    phase = a.phase;
    counted = a.counted;
    tracked = ap (λ l. m ∷ l) a.tracked;
    alone = ap (λ l. m ∷ l) (a.alone ∙ ap only fresh);
    guarded = refl;
  }

  pub open_stage_lem :
      (account : AccountConfig) (s : CallTask)
      → Idle before s
      → Holds (Alerting before) (Refused before) (open_stage w account s)
  unfolding open_stage
  open_stage_lem account s a = elim (Option-cases (offer w)) [
    | inl e ↦ rw (open_stage, e) a.0
    | inr (body, e) ↦ elim (Option-cases (w.first_session body account.codecs)) [
      | inl f ↦ rw (open_stage, e, f) ((refuse-Refused w before _ _ _ _ s refl a.0))
      | inr (m, f) ↦
          let adopted = adopt-Alerting m s a in
          rw (open_stage, e, f)
            (record {
              phase = adopted.phase;
              counted = adopted.counted;
              tracked = adopted.tracked;
              alone = adopted.alone;
              guarded = adopted.guarded;
            })
    ]
  ]
