-- ===== src/Web/Control/Hangup.antt =====
-- src/web/api.rs, `post_call_hangup`: what the reply says of the call.
use sipbot.Prelude.{
  ◌≡◌, refl, subst, Bool, true, false, Option, none, some, List, [], ◌∷◌, find_first, Option-cases,
  Bool-cases, inl, inr, arith,
}
use sipbot.Prelude.Text.{Text}
use sipbot.Web.Record.{CallRecord}
use sipbot.Web.Registry.{get}
use sipbot.Web.Control.{
  OutboundCallHandle, ServeState, Reply, done, cancelled, already_ended, not_controllable,
  not_found, bad_request, token_of, cancel_token, is_active, is_leg_of, cancel_leg, hang_up_leg,
  hang_up_by, post_call_hangup,
}

-- The first running call that is a leg of the record is cancelled.
abbrev pub LegCancelled : CallRecord → List OutboundCallHandle → Type 0
LegCancelled r hs =
    (h : OutboundCallHandle) × (find_first (is_leg_of r) hs ≡ some h) × (h.is_cancelled ≡ true)

-- What a reply says of the states before and after.
abbrev pub Outcome : Text → ServeState → Reply → ServeState → Type 0
Outcome call_id s done s' = token_of s'.control call_id ≡ some true
Outcome call_id s cancelled s' =
    (r : CallRecord) × (get s.calls call_id ≡ some r)
    × (is_active r.state ≡ true)
    × LegCancelled r s'.outbound_calls
Outcome call_id s already_ended s' = s' ≡ s
Outcome call_id s not_controllable s' = s' ≡ s
Outcome call_id s not_found s' = s' ≡ s
Outcome call_id s bad_request s' = s' ≡ s

token_of-cancel_token :
    (control : List (Text × Bool)) (call_id : Text) (c : Bool)
    → token_of control call_id ≡ some c
    → token_of (cancel_token control call_id) call_id ≡ some true
unfolding token_of cancel_token
token_of-cancel_token [] call_id c h = absurd cc
token_of-cancel_token ((id, d) ∷ rest) call_id c h =
    ground (arith, token_of-cancel_token rest call_id c)

abbrev LegIf : CallRecord → Option (List OutboundCallHandle) → Type 0
LegIf r none = Unit
LegIf r (some hs) = LegCancelled r hs

-- The mark on a running call does not tell whose leg it is.
is_leg_of_marked :
    (r : CallRecord) (h : OutboundCallHandle)
    → is_leg_of r (record h { is_cancelled = true }) ≡ is_leg_of r h
unfolding is_leg_of
is_leg_of_marked r h = refl

cancel_leg-LegIf : (r : CallRecord) (hs : List OutboundCallHandle) → LegIf r (cancel_leg r hs)
unfolding cancel_leg
cancel_leg-LegIf r [] = tt
cancel_leg-LegIf r (h ∷ hs) = elim (Bool-cases (is_leg_of r h)) [
  | inl e ↦
      rw (cancel_leg, e) (record h { is_cancelled = true }, rw (is_leg_of_marked r h, e) refl, refl)
  | inr e ↦
      let ih = cancel_leg-LegIf r hs in
      elim (Option-cases (cancel_leg r hs)) [
        | inl f ↦ rw (cancel_leg, e, f) tt
        | inr (hs', f) ↦
            let marked : LegCancelled r hs' = subst (LegIf r) f ih in
            rw (cancel_leg, e, f) (marked.0, rw e (marked.1), marked.2)
      ]
]

hang_up_leg-Outcome :
    (call_id : Text) (r : CallRecord) (s : ServeState)
    → get s.calls call_id ≡ some r
    → Outcome call_id s (hang_up_leg r s).0 (hang_up_leg r s).1
unfolding hang_up_leg
hang_up_leg-Outcome call_id r s found = elim (Bool-cases (is_active r.state)) [
  | inl e ↦ elim (Option-cases (cancel_leg r s.outbound_calls)) [
    | inl f ↦ rw (hang_up_leg, e, f) refl
    | inr (hs, f) ↦
        rw (hang_up_leg, e, f)
          (r, found, e, subst (LegIf r) f (cancel_leg-LegIf r s.outbound_calls))
  ]
  | inr e ↦ rw (hang_up_leg, e) refl
]

hang_up_by-Outcome :
    (token : Option Bool) (call_id : Text) (r : CallRecord) (s : ServeState)
    → token_of s.control call_id ≡ token
    → get s.calls call_id ≡ some r
    → Outcome call_id s (hang_up_by token call_id r s).0 (hang_up_by token call_id r s).1
unfolding hang_up_by
hang_up_by-Outcome (some false) call_id r s t found =
    token_of-cancel_token s.control call_id false t
hang_up_by-Outcome (some true) call_id r s t found = hang_up_leg-Outcome call_id r s found
hang_up_by-Outcome none call_id r s t found = hang_up_leg-Outcome call_id r s found

-- The reply to a hangup is true: after `done` the token of the call is cancelled, after `cancelled`
-- the call is active and the first running outbound call that is its leg is cancelled, and with
-- every other reply nothing has changed.
pub post_call_hangup-Outcome :
    (call_id : Text) (s : ServeState)
    → Outcome call_id s (post_call_hangup call_id s).0 (post_call_hangup call_id s).1
unfolding post_call_hangup
post_call_hangup-Outcome call_id s = elim (Option-cases (get s.calls call_id)) [
  | inl e ↦ rw (post_call_hangup, e) refl
  | inr (r, e) ↦
      rw (post_call_hangup, e) (hang_up_by-Outcome (token_of s.control call_id) call_id r s refl e)
]
