-- ===== src/Sip/Call/Stages/Answer.antt =====
-- src/sip.rs, `handle_invite`: the stages from the answer on keep the state in order.
use mathlib.Core.Option
use sipbot.Prelude.{
  ℕ, ◌≡◌, refl, ap, subst, ◌∙◌, sym, inl, inr, Bool, false, not, ◌&&◌, Option, none, some, [], ◌∷◌,
  ◌++◌, if◌then◌else◌, Bool-cases, Option-cases, get_or, or_else,
}
use sipbot.Prelude.Text.{Text}
use sipbot.Stats.{add_status, add_setup_latency}
use sipbot.Web.Record.{CallRecord}
use sipbot.Config.Account.{AccountConfig, AnnounceConfig, AnswerConfig}
use sipbot.Config.Account as Account
use sipbot.Sip.Health.{evaluate_call_health}
use sipbot.Sip.Call.{
  Session, Playing, accept, file_once, answer_wav, local_device, World, CallTask, running, returned,
  Holds,
}
use sipbot.Sip.Call.Early.{adopt, offer, play}
use sipbot.Sip.Call.Answer.{
  drop_old, jump_to, sdp_jump_stage, accept_stage, answer_headers, hangup_mode, bridge_to,
  jump_after, announce_codecs, announced_file, announce, answer_with, answer_locally, try_local,
  announce_stage, answer_media, sends_bye, close_record, hangup_stage,
}
use sipbot.Sip.Call.Phases.{
  proceeding, Reach, answer, hang_up, counters, only, Alerting, Answered, HasEnd, Done, Unaccepted,
  Alerting-IsNewest,
}
use sipbot.Sip.Call.Stages.{counters-add_status}

module _ (w : World) (account : AccountConfig) (before : ℕ × ℕ × ℕ) where
  -- After the old session was dropped nothing is live.
  drop_old_lem :
      (m : Option Session) (s : CallTask)
      → s.media_session ≡ m
      → Alerting before s
      → Reach (drop_old m s).asked proceeding
        × (counters (drop_old m s).stats ≡ before)
        × ((drop_old m s).opened ≡ (drop_old m s).stopped)
        × ((drop_old m s).live_sessions ≡ [])
  unfolding drop_old
  drop_old_lem none s is_m a =
      let no_live = a.alone ∙ ap only is_m in
      (a.phase, a.counted, a.tracked ∙ ap (λ l. l ++ s.stopped) no_live, no_live)
  drop_old_lem (some old) s is_m a =
      (a.phase, a.counted, a.tracked ∙ ap (λ l. l ++ s.stopped) (a.alone ∙ ap only is_m), refl)

  jump_to-Alerting :
      (b : Session) (s : CallTask) → Alerting before s → Alerting before (jump_to w b s)
  unfolding jump_to adopt
  jump_to-Alerting b s a =
      let (phase, counted, tracked, no_live) = drop_old_lem s.media_session s refl a in
      record {
        phase = phase;
        counted = counted;
        tracked =
            ap (λ l. b ∷ l)
              (tracked ∙ ap (λ l. l ++ (drop_old s.media_session s).stopped) (sym no_live));
        alone = ap (λ l. b ∷ l) no_live;
        guarded = refl;
      }

  pub sdp_jump_stage_lem :
      (s : CallTask)
      → Alerting before s
      → Holds (Alerting before) (λ t. ⊥) (sdp_jump_stage w account s)
  unfolding sdp_jump_stage
  sdp_jump_stage_lem s a = elim (Bool-cases (get_or account.sdp_jump false)) [
    | inr e ↦ rw e a
    | inl e ↦ elim (Option-cases (offer w)) [
      | inl f ↦ rw (sdp_jump_stage, e, f) a
      | inr (body, f) ↦
          elim (Option-cases (w.jump_session body (or_else account.jump_codecs account.codecs))) [
            | inl g ↦ rw (sdp_jump_stage, e, f, g) a
            | inr (b, g) ↦ rw (sdp_jump_stage, e, f, g) (jump_to-Alerting b s a)
          ]
    ]
  ]

  pub accept_stage_lem :
      (s : CallTask)
      → Alerting before s
      → Holds (Answered before) (Unaccepted w before) (accept_stage w account s)
  unfolding accept_stage add_setup_latency
  accept_stage_lem s a =
      let phase = answer (answer_headers account s.local_sdp) s.local_sdp s.asked a.phase in
      elim (Bool-cases w.accept_ok) [
        | inl holds ↦ rw holds (record {
          phase = phase;
          counted = counters-add_status s.stats 200 ∙ a.counted;
          tracked = a.tracked;
          newest = Alerting-IsNewest before s a;
        })
        | inr fails ↦
            subst
              (λ (b : Bool). Holds (Answered before) (Unaccepted w before) (
                if b
                then running (record s {
                  asked = accept (answer_headers account s.local_sdp) s.local_sdp ∷ s.asked;
                  stats = add_setup_latency (add_status s.stats 200) w.setup_ms;
                })
                else returned (record s {
                  asked = accept (answer_headers account s.local_sdp) s.local_sdp ∷ s.asked;
                })))
              (sym fails)
              (record {
                failed = fails;
                phase = phase;
                counted = a.counted;
                tracked = a.tracked;
                held = inr (a.alone ∙ ap only (sym a.guarded));
                newest = Alerting-IsNewest before s a;
              })
      ]

  play-Answered :
      (what : Playing) (s : CallTask) → Answered before s → Answered before (play what s)
  play-Answered what s a = record {
    phase = a.phase;
    counted = a.counted;
    tracked = a.tracked;
    newest = a.newest;
  }

  bridge_to-Answered :
      (old new : Session) (s : CallTask)
      → Answered before s
      → Answered before (bridge_to w old new s)
  unfolding bridge_to adopt
  bridge_to-Answered old new s a = record {
    phase = a.phase;
    counted = a.counted;
    tracked = ap (λ l. new ∷ l) a.tracked;
    newest = (s.opened, refl);
  }

  jump_after-Answered :
      (cfg : AnnounceConfig) (m : Session) (s : CallTask)
      → Answered before s
      → Answered before (jump_after w account cfg m s)
  unfolding jump_after
  jump_after-Answered cfg m s a = elim (Bool-cases (cfg.jump_after && not w.is_hung_up)) [
    | inr e ↦ rw e a
    | inl e ↦ elim (Option-cases (offer w)) [
      | inl f ↦ rw (jump_after, e, f) a
      | inr (body, f) ↦
          elim (Option-cases (w.announce_session body (announce_codecs account cfg))) [
            | inl g ↦ rw (jump_after, e, f, g) a
            | inr (new, g) ↦ rw (jump_after, e, f, g) (bridge_to-Answered m new s a)
          ]
    ]
  ]

  announce-Answered :
      (caller_user : Text) (cfg : AnnounceConfig) (m : Option Session) (s : CallTask)
      → Answered before s
      → Answered before (announce w account caller_user cfg m s)
  unfolding announce
  announce-Answered caller_user cfg none s a = a
  announce-Answered caller_user cfg (some m) s a =
      jump_after-Answered cfg m _ (play-Answered (file_once (announced_file caller_user cfg)) s a)

  pub announce_stage-Answered :
      (caller_user : Text) (s : CallTask)
      → Answered before s
      → Answered before (announce_stage w account caller_user s)
  unfolding announce_stage
  announce_stage-Answered caller_user s a = elim (Option-cases account.announce) [
    | inl e ↦ rw e a
    | inr (cfg, e) ↦ rw e (announce-Answered caller_user cfg s.media_session s a)
  ]

  try_local-Answered :
      (keep_alive : Bool) (s : CallTask)
      → Answered before s
      → Answered before (try_local w keep_alive s)
  unfolding try_local
  try_local-Answered keep_alive s a = elim (Bool-cases w.has_local_device) [
    | inl e ↦ rw e (play-Answered (local_device keep_alive) s a)
    | inr e ↦ rw e a
  ]

  answer_locally-Answered :
      (keep_alive : Bool) (s : CallTask)
      → Answered before s
      → Answered before (answer_locally w keep_alive s)
  unfolding answer_locally
  answer_locally-Answered keep_alive s a =
      let tried = try_local-Answered keep_alive s a in
      elim (Bool-cases (w.has_local_device && not w.local_failed)) [
        | inl e ↦ rw e tried
        | inr e ↦ rw e (play-Answered (answer_wav keep_alive) _ tried)
      ]

  answer_with-Answered :
      (keep_alive : Bool) (cfg : Option AnswerConfig) (s : CallTask)
      → Answered before s
      → Answered before (answer_with w keep_alive cfg s)
  unfolding answer_with
  answer_with-Answered keep_alive none s a = play-Answered _ s a
  answer_with-Answered keep_alive (some Account.echo) s a = play-Answered _ s a
  answer_with-Answered keep_alive (some (Account.play wav)) s a = play-Answered _ s a
  answer_with-Answered keep_alive (some Account.local) s a = answer_locally-Answered keep_alive s a

  close_record-HasEnd : (r : Option CallRecord) → HasEnd (Option.map (close_record w) r)
  unfolding close_record evaluate_call_health
  close_record-HasEnd none = tt
  close_record-HasEnd (some r) = (get_or r.ended_at_ms w.end_now, refl)

  pub hangup_stage_lem :
      (s : CallTask) → Answered before s → Done w account before (hangup_stage w account s)
  unfolding hangup_stage
  hangup_stage_lem s a = record {
    phase = elim (Bool-cases (sends_bye w (hangup_mode account))) [
      | inl e ↦ rw e (hang_up s.asked a.phase)
      | inr e ↦ rw e a.phase
    ];
    counted = a.counted;
    tracked = a.tracked;
    stopped = refl;
    newest = a.newest;
    ended = close_record-HasEnd s.call_record;
  }

  pub answer_media-Answered :
      (s : CallTask) → Answered before s → Answered before (answer_media w account s)
  unfolding answer_media
  answer_media-Answered s a = answer_with-Answered _ account.answer s a
