-- ===== src/Sip/Outbound/Results.antt =====
-- src/sip.rs, `make_call`: what holds of an outgoing call.
use sipbot.Prelude.{
  ℕ, zero, suc, ◌≡◌, ◌<◌, ◌≤◌, ◌+◌, refl, ap, ◌∙◌, arith, inl, inr, Bool, true, false, not, ◌&&◌,
  Option, none, some, List, [], ◌∷◌, if◌then◌else◌, Bool-cases, add_u32, is_none, length, min,
}
use sipbot.Prelude.Text.{Text}
use sipbot.Stats.{CallStats, add_setup_latency, inc_current, inc_finished, add_duration}
use sipbot.Config.Account.{AccountConfig}
use sipbot.Sip.Call.Phases.{counters}
use sipbot.Sip.Call.Stages.{counters-add_status}
use sipbot.Sip.Outbound.{
  DialogId, DialogState, trying, early, notify, other_state, Event, invite_done, invite_failed,
  changed, cancelled, CallEnd, time_is_up, playback_done, hung_up_remotely, call_cancelled, Network,
  Outbound, begin, should_cancel_at, handle_early_media, observe, to_cancel, Step, next, panicked,
  hang_up, cancel_at, cancel_invite, LoopEnd, answered, failed, given_up, crashed, waiting,
  invite_loop, end_call, after_response, after_loop, call_logic, send_invite, drop_guard, make_call,
  wants_early_media,
}

-- What the states of a call share: the counters of calls, a session, and no more dialogs hung up
-- than are allowed, where a cancellation still to come counts.
pub record Kept (before : ℕ × ℕ × ℕ) (allowed : ℕ) (has : Bool) (s : Outbound) : Type 0 where
  pub counted : counters s.stats ≡ before
  pub hangups : length s.hung_up + (if s.should_cancel then 1 else 0) ≤ allowed
  pub session : s.has_session ≡ has

-- the cancellations from outside
abbrev pub cancellations : List Event → ℕ
cancellations [] = 0
cancellations (cancelled ∷ events) = suc (cancellations events)
cancellations (invite_done response ∷ events) = cancellations events
cancellations (invite_failed ∷ events) = cancellations events
cancellations (changed state ∷ events) = cancellations events

abbrev stepped : Step → Outbound
stepped (next s) = s
stepped (panicked s) = s

abbrev loop_state : LoopEnd → Outbound
loop_state (answered response s) = s
loop_state (failed s) = s
loop_state (given_up s) = s
loop_state (crashed s) = s
loop_state (waiting s) = s

module _ (before : ℕ × ℕ × ℕ) (has : Bool) (n : Network) where
  observe-Kept :
      (allowed : ℕ) (account : AccountConfig) (state : DialogState) (s : Outbound)
      → Kept before allowed has s
      → Kept before allowed has (observe n account state s)
  unfolding observe handle_early_media
  observe-Kept allowed account (trying id) s k = record {
    counted = k.counted;
    hangups = k.hangups;
    session = k.session;
  }
  observe-Kept allowed account (early id code body) s k =
      let counted = counters-add_status s.stats code ∙ k.counted in
      elim (Bool-cases (wants_early_media code body s)) [
        | inl e ↦ rw e (record { counted = counted; hangups = k.hangups; session = k.session })
        | inr e ↦ rw e (record { counted = counted; hangups = k.hangups; session = k.session })
      ]
  observe-Kept allowed account notify s k = record {
    counted = k.counted;
    hangups = k.hangups;
    session = k.session;
  }
  observe-Kept allowed account other_state s k = k

  hang_up-Kept :
      (allowed : ℕ) (id : Option DialogId) (s : Outbound)
      → s.should_cancel ≡ true
      → Kept before allowed has s
      → Kept before allowed has (stepped (hang_up n id s))
  unfolding hang_up
  hang_up-Kept allowed none s e k = k
  hang_up-Kept allowed (some id) s e k = elim (Bool-cases (n.has_dialog id)) [
    | inr g ↦ rw g k
    | inl g ↦ rw g (record {
      counted = k.counted;
      hangups = cancels (length s.hung_up) s.should_cancel e k.hangups;
      session = k.session;
    })
  ]
    where
      cancels :
          (l : ℕ) (b : Bool) → b ≡ true → l + (if b then 1 else 0) ≤ allowed → suc l + 0 ≤ allowed
      cancels l b e h = ground arith

  -- A step hangs up a dialog only if a cancellation was to come, which it no longer is then.
  cancel_at-Kept :
      (allowed : ℕ) (state : DialogState) (s : Outbound)
      → Kept before allowed has s
      → Kept before allowed has (stepped (cancel_at n state s))
  unfolding cancel_at
  cancel_at-Kept allowed state s k = go s.should_cancel refl
    where
      go :
          (b : Bool)
          → s.should_cancel ≡ b
          → Kept before allowed has
              (stepped (if b then hang_up n (to_cancel n state) s else next s))
      go true e = hang_up-Kept allowed (to_cancel n state) s e k
      go false e = k

  weaken :
      {allowed more : ℕ} {s : Outbound}
      → allowed ≤ more
      → Kept before allowed has s
      → Kept before more has s
  weaken h k = record {
    counted = k.counted;
    hangups = omega (arith, k.hangups, h);
    session = k.session;
  }

  cancel_invite-Kept :
      (allowed : ℕ) (latest : Option DialogId) (s : Outbound)
      → Kept before allowed has s
      → Kept before (suc allowed) has (cancel_invite n latest s)
  unfolding cancel_invite
  cancel_invite-Kept allowed none s k = record {
    counted = k.counted;
    hangups = omega (arith, k.hangups);
    session = k.session;
  }
  cancel_invite-Kept allowed (some latest) s k =
      elim (Bool-cases (n.has_dialog (record latest { remote_tag = [] }))) [
        | inl e ↦ rw e (record {
          counted = k.counted;
          hangups = omega (arith, k.hangups);
          session = k.session;
        })
        | inr e ↦ rw e (record {
          counted = k.counted;
          hangups = omega (arith, k.hangups);
          session = k.session;
        })
      ]

  invite_loop-Kept :
      (account : AccountConfig) (events : List Event) (allowed : ℕ) (s : Outbound)
      → Kept before allowed has s
      → Kept before
          (allowed + cancellations events)
          has
          (loop_state (invite_loop n account events s))
  unfolding invite_loop
  invite_loop-Kept account [] allowed s k = weaken (omega arith) k
  invite_loop-Kept account (invite_done response ∷ events) allowed s k = weaken (omega arith) k
  invite_loop-Kept account (invite_failed ∷ events) allowed s k = weaken (omega arith) k
  invite_loop-Kept account (cancelled ∷ events) allowed s k =
      weaken (omega arith) (cancel_invite-Kept allowed s.latest_dialog_id s k)
  invite_loop-Kept account (changed state ∷ events) allowed s k =
      (elim (cancel_at n state (observe n account state s))
          as (λ step.
            Kept before allowed has (stepped step)
            → Kept before (allowed + cancellations events) has (
                loop_state (elim step [
                  | next t ↦ invite_loop n account events t
                  | panicked t ↦ crashed t
                ]))) [
                  | next t ↦ λ h. invite_loop-Kept account events allowed t h
                  | panicked t ↦ λ h. weaken (omega arith) h
                ])
        (cancel_at-Kept allowed state (observe n account state s)
          (observe-Kept allowed account state s k))

  end_call-Kept :
      (how : CallEnd) (allowed : ℕ) (s : Outbound)
      → Kept before allowed has s
      → Kept before allowed has (end_call n how s)
  unfolding end_call
  end_call-Kept hung_up_remotely allowed s k = k
  end_call-Kept time_is_up allowed s k = record {
    counted = k.counted;
    hangups = k.hangups;
    session = k.session;
  }
  end_call-Kept playback_done allowed s k = record {
    counted = k.counted;
    hangups = k.hangups;
    session = k.session;
  }
  end_call-Kept call_cancelled allowed s k = record {
    counted = k.counted;
    hangups = k.hangups;
    session = k.session;
  }

  after_response-Kept :
      (how : CallEnd) (code : ℕ) (body : Text) (allowed : ℕ) (s : Outbound)
      → Kept before allowed has s
      → Kept before allowed has (after_response n how code body s)
  unfolding after_response add_setup_latency
  after_response-Kept how code body allowed s k =
      let counted = counters-add_status s.stats code ∙ k.counted in
      elim (Bool-cases (n.is_successful code && n.answer_ok body)) [
        | inl e ↦ rw e (
            end_call-Kept how allowed _
              (record { counted = counted; hangups = k.hangups; session = k.session }))
        | inr e ↦ rw e (record { counted = counted; hangups = k.hangups; session = k.session })
      ]

  after_loop-Kept :
      (how : CallEnd) (allowed : ℕ) (end : LoopEnd)
      → Kept before allowed has (loop_state end)
      → Kept before allowed has (after_loop n how end)
  unfolding after_loop
  after_loop-Kept how allowed (answered none s) k = k
  after_loop-Kept how allowed (answered (some (code, body)) s) k =
      after_response-Kept how code body allowed s k
  after_loop-Kept how allowed (failed s) k = k
  after_loop-Kept how allowed (given_up s) k = k
  after_loop-Kept how allowed (crashed s) k = k
  after_loop-Kept how allowed (waiting s) k = k

-- the dialogs that a call may hang up
abbrev pub allowed_hangups : Network → AccountConfig → List Event → ℕ
allowed_hangups n account events =
    (if should_cancel_at n.draw account.cancel_prob then 1 else 0) + cancellations events

call_logic-Kept :
    (n : Network) (account : AccountConfig) (events : List Event) (how : CallEnd)
    (session : Option Text) (stats : CallStats)
    → Kept
        (counters stats)
        (allowed_hangups n account events)
        (not (is_none session))
        (call_logic n account events how session (begin stats))
unfolding call_logic begin
call_logic-Kept n account events how none stats = record {
  counted = refl;
  hangups = omega arith;
  session = refl;
}
call_logic-Kept n account events how (some []) stats = record {
  counted = refl;
  hangups = omega arith;
  session = refl;
}
call_logic-Kept n account events how (some (c ∷ cs)) stats =
    after_loop-Kept (counters stats) true n how (allowed_hangups n account events)
      (invite_loop n account events (send_invite n account (begin stats)))
      (invite_loop-Kept (counters stats) true n account events
        (if should_cancel_at n.draw account.cancel_prob then 1 else 0)
        (send_invite n account (begin stats))
        (unfold send_invite begin in
          record { counted = refl; hangups = omega arith; session = refl }))

module _ (n : Network) (account : AccountConfig) (events : List Event) (how : CallEnd)
    (stats : CallStats) where
  kept :
      Kept
        (counters (inc_current stats))
        (allowed_hangups n account events)
        (not (is_none n.session))
        (call_logic n account events how n.session (begin (inc_current stats)))
  kept = call_logic-Kept n account events how n.session (inc_current stats)

  -- A placed call counts as finished when it is over, however it went, and as current from then on:
  -- nothing takes that back. Both counters wrap at 32 bits.
  pub make_call-counters :
      counters (make_call n account events how stats).stats
      ≡ (add_u32 stats.current_calls 1, add_u32 stats.finished_calls 1, stats.total_planned_calls)
  unfolding make_call drop_guard inc_finished add_duration inc_current
  make_call-counters = ap (λ (c : ℕ × ℕ × ℕ). (c.0, add_u32 c.1 1, c.2)) kept.counted

  -- While its INVITE is running a placed call hangs up at most one dialog because its draw asks for
  -- a cancellation, and at most one more for each cancellation from outside: none without either.
  -- The BYE that ends an answered call is not counted among them.
  pub make_call-hung_up :
      length (make_call n account events how stats).hung_up ≤ allowed_hangups n account events
  unfolding make_call drop_guard
  make_call-hung_up = omega (arith, kept.hangups)

  -- The media session of a placed call is stopped when the call is over, whatever happened in it.
  make_call-stopped :
      (sdp : Text) → n.session ≡ some sdp → (make_call n account events how stats).is_stopped ≡ true
  unfolding make_call drop_guard
  make_call-stopped sdp e = rw (kept.session ∙ ap (λ o. not (is_none o)) e) refl

-- the draws below a bound for which a call is to be cancelled
abbrev pub cancelling_draws : (cancel_prob bound : ℕ) → ℕ
cancelling_draws cancel_prob zero = 0
cancelling_draws cancel_prob (suc k) =
    (if should_cancel_at k cancel_prob then 1 else 0) + cancelling_draws cancel_prob k

cancelling_draws-min : (p k : ℕ) → cancelling_draws p k ≡ min k (suc p)
unfolding should_cancel_at
cancelling_draws-min p zero = omega arith
cancelling_draws-min p (suc k) = ground (arith, cancelling_draws-min p k)

-- Of the hundred draws, one more than the configured percentage cancels the call: a call is
-- cancelled once in a hundred draws where the percentage is zero.
cancelling_draws_one_more :
    (cancel_prob : ℕ) → cancel_prob < 100 → cancelling_draws cancel_prob 100 ≡ suc cancel_prob
cancelling_draws_one_more p h = omega (arith, cancelling_draws-min p 100, h)
