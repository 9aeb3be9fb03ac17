-- ===== src/Web/Request/Action.antt =====
-- src/web/api.rs, `post_call_outbound`: what a test call does when it is answered.
use sipbot.Prelude.{
  ◌≡◌, refl, Option, none, some, get_or, List, find_first, Option-cases, inl, inr, Bool-cases,
}
use sipbot.Prelude.Text.{Text, codes, text_eq, trim}
use sipbot.Config.Account.{play}
use sipbot.Web.Json.{Json}
use sipbot.Web.Request.{
  OutboundProfile, text_field, pick, answer_of, action_of, wav_file_of, target_of, is_empty, Answer,
  unknown_profile, missing_target, started, account_of, start_with, post_call_outbound,
}

-- The action of an account that is started is to play a file; an answer that starts none has none.
abbrev pub PlaysAFile : Answer → Type 0
PlaysAFile (unknown_profile name) = Unit
PlaysAFile missing_target = Unit
PlaysAFile (started account total cps) = (wav_file : Text) × (account.answer ≡ some (play wav_file))

account_of_plays :
    (body : Json) (profile : Option OutboundProfile)
    → text_field body (codes "action") ≡ none
    → (account_of body profile).answer
      ≡ some (play (get_or (wav_file_of body profile) (codes "wavs/play.wav")))
unfolding account_of answer_of action_of pick text_eq trim
account_of_plays body profile h = rw h refl

start_with_plays :
    (body : Json) (profile : Option OutboundProfile)
    → text_field body (codes "action") ≡ none
    → PlaysAFile (start_with body profile)
unfolding start_with
start_with_plays body profile h = elim (Bool-cases (is_empty (target_of body profile))) [
  | inl e ↦ rw (start_with, e) tt
  | inr e ↦ rw (start_with, e) (_, account_of_plays body profile h)
]

-- A request that names no action gets a call that plays a file once it is answered, if a call is
-- started, whatever the action of its profile is.
post_call_outbound_plays :
    (outbound_profiles : List OutboundProfile) (body : Json)
    → text_field body (codes "action") ≡ none
    → PlaysAFile (post_call_outbound outbound_profiles body)
unfolding post_call_outbound
post_call_outbound_plays outbound_profiles body h =
    elim (Option-cases (text_field body (codes "profile"))) [
      | inl e ↦ rw (post_call_outbound, e) (start_with_plays body none h)
      | inr (name, e) ↦
          elim (Option-cases (find_first (λ p. text_eq p.name name) outbound_profiles)) [
            | inl f ↦ rw (post_call_outbound, e, f) tt
            | inr (p, f) ↦ rw (post_call_outbound, e, f) (start_with_plays body (some p) h)
          ]
    ]
