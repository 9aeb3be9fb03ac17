-- ===== src/Sip/Dispatch.antt =====
-- src/sip.rs: `handle_incoming_transaction` and what it calls for a request that is no new call:
-- `is_reinvite`, `handle_reinvite`, `handle_refer` and `fix_unspecified_contact`. A header that
-- cannot be read is `none`; the bodies are texts.
use sipbot.Prelude.{
  ℕ, ◌≡◌, ◌⊎◌, inl, inr, refl, ap, arith, ◌↔◌, suc, Bool, true, false, not, ◌&&◌, ◌||◌, Option,
  none, some, get_or, List, [], ◌∷◌, if◌then◌else◌, Bool-cases, Option-cases,
}
use sipbot.Prelude.Text.{Text, codes, to_lowercase}
use sipbot.Prelude.Contains.{contains, IsPart, contains_iff}
use sipbot.Config.Account.{AccountConfig}

pub data Method : Type 0 where
  invite ack bye options info update refer notify other_method : Method

-- `in an existing dialog`, by the To header
unfoldable pub is_reinvite : Option Text → Bool
is_reinvite none = false
is_reinvite (some to) = contains to (codes "tag=")

unfoldable pub is_hold : Text → Bool
is_hold offer =
    let lower = to_lowercase offer in
    contains lower (codes "a=sendonly") || contains lower (codes "a=inactive")

-- What a request makes the bot do: replies to it, the NOTIFYs of a transfer, the request handed to
-- its dialog, and a new call.
pub data Reaction : Type 0 where
  reply : ℕ → Option Text → Reaction
  notify_refer : ℕ → Reaction
  to_dialog : Reaction
  new_call : Reaction

-- What the requests of a transaction and the crates give.
pub record Incoming : Type 0 where
  pub method : Method
  pub to : Option Text
  pub body : Text
  pub has_dialog_id : Bool  -- `DialogId::try_from`
  pub has_dialog : Bool
  pub renegotiate : Text → Option Text
  pub status_try_from : ℕ → Option ℕ
  pub first_notify_ok : Bool
  pub is_cancelled : Bool

-- the media session of the bot, as far as a re-INVITE changes it: whether its audio is silent
abbrev pub Media : Type 0
Media = Option Bool

-- the answer to a re-INVITE: with a session and a body, what the session renegotiates
unfoldable pub reinvite_answer : Incoming → Media → Option Text
reinvite_answer q none = none
reinvite_answer q (some silent) = elim q.body [ [] ↦ none | c ∷ cs ↦ q.renegotiate (c ∷ cs) ]

unfoldable pub set_silent : Bool → Media → Media
set_silent silent none = none
set_silent silent (some old) = some silent

unfoldable pub handle_reinvite : Incoming → Media → Media × List Reaction
unfolding reinvite_answer set_silent is_hold
handle_reinvite q m = (set_silent (is_hold q.body) m, reply 200 (reinvite_answer q m) ∷ [])

-- the NOTIFYs after an accepted REFER: none where the request names no dialog
unfoldable pub notifies : Incoming → List Reaction
notifies q =
    if q.has_dialog_id && q.has_dialog
    then notify_refer 100
      ∷ (if q.first_notify_ok && not q.is_cancelled then notify_refer 200 ∷ [] else [])
    else []

unfoldable pub handle_refer : AccountConfig → Incoming → List Reaction
unfolding notifies
handle_refer account q = elim account.refer_reject [
  | some code ↦ reply (get_or (q.status_try_from code) 405) none ∷ []
  | none ↦ reply 202 none ∷ notifies q
]

-- A BYE that names no dialog is left without a reply by the `?`.
unfoldable pub handle_bye : Incoming → List Reaction
handle_bye q =
    if not q.has_dialog_id then [] else (if q.has_dialog then to_dialog else reply 481 none) ∷ []

unfoldable pub handle_method : AccountConfig → Incoming → Method → Media → Media × List Reaction
unfolding is_reinvite handle_reinvite handle_refer handle_bye
handle_method account q invite m =
    if is_reinvite q.to then handle_reinvite q m else (m, new_call ∷ [])
handle_method account q ack m = (m, [])
handle_method account q bye m = (m, handle_bye q)
handle_method account q options m = (m, reply 200 none ∷ [])
handle_method account q info m = (m, reply 200 none ∷ [])
handle_method account q update m = (m, reply 200 none ∷ [])
handle_method account q refer m = (m, handle_refer account q)
handle_method account q notify m = (m, reply 200 none ∷ [])
handle_method account q other_method m = (m, [])

unfoldable pub handle_incoming_transaction :
    AccountConfig → Incoming → Media → Media × List Reaction
unfolding handle_method
handle_incoming_transaction account q m = handle_method account q q.method m

-- The final replies among the reactions, and the handings over, which answer in their turn.
abbrev pub replies : List Reaction → ℕ
replies [] = 0
replies (reply code sdp ∷ rs) = suc (replies rs)
replies (notify_refer code ∷ rs) = replies rs
replies (to_dialog ∷ rs) = suc (replies rs)
replies (new_call ∷ rs) = suc (replies rs)

-- the requests that are answered, by their method
abbrev pub is_answered : Incoming → Method → Bool
is_answered q ack = false
is_answered q other_method = false
is_answered q bye = q.has_dialog_id
is_answered q m = true

notifies_none : (q : Incoming) → replies (notifies q) ≡ 0
unfolding notifies
notifies_none q = ground arith

handle_refer_once : (account : AccountConfig) (q : Incoming) → replies (handle_refer account q) ≡ 1
unfolding handle_refer
handle_refer_once account q = elim (Option-cases account.refer_reject) [
  | inl e ↦ rw e (omega (arith, notifies_none q))
  | inr (code, e) ↦ rw e refl
]

handle_method_answered :
    (account : AccountConfig) (q : Incoming) (method : Method) (m : Media)
    → replies (handle_method account q method m).1 ≡ (if is_answered q method then 1 else 0)
unfolding handle_method handle_reinvite handle_bye
handle_method_answered account q invite m = ground arith
handle_method_answered account q ack m = refl
handle_method_answered account q bye m = ground arith
handle_method_answered account q options m = refl
handle_method_answered account q info m = refl
handle_method_answered account q update m = refl
handle_method_answered account q refer m = handle_refer_once account q
handle_method_answered account q notify m = refl
handle_method_answered account q other_method m = refl

-- Every request is answered once, or handed once to the one who answers it, but for ACK, the methods
-- that the bot does not know, and a BYE whose dialog id cannot be read: those get no reply at all.
pub handle_incoming_transaction_answered :
    (account : AccountConfig) (q : Incoming) (m : Media)
    → replies (handle_incoming_transaction account q m).1
      ≡ (if is_answered q q.method then 1 else 0)
unfolding handle_incoming_transaction
handle_incoming_transaction_answered account q m = handle_method_answered account q q.method m

-- The direction of an offer, in lower case, asks for a hold.
abbrev pub AsksHold : Text → Type 0
AsksHold offer =
    IsPart (codes "a=sendonly") (to_lowercase offer)
    ⊎ IsPart (codes "a=inactive") (to_lowercase offer)

is_hold_iff : (offer : Text) → (is_hold offer ≡ true) ↔ AsksHold offer
unfolding is_hold
is_hold_iff offer = (to, from)
  where
    sends :
        (contains (to_lowercase offer) (codes "a=sendonly") ≡ true)
        ↔ IsPart (codes "a=sendonly") (to_lowercase offer)
    sends = contains_iff (to_lowercase offer) (codes "a=sendonly")

    rests :
        (contains (to_lowercase offer) (codes "a=inactive") ≡ true)
        ↔ IsPart (codes "a=inactive") (to_lowercase offer)
    rests = contains_iff (to_lowercase offer) (codes "a=inactive")

    to : is_hold offer ≡ true → AsksHold offer
    to h = elim (Bool-cases (contains (to_lowercase offer) (codes "a=sendonly"))) [
      | inl e ↦ inl (sends.0 e)
      | inr e ↦ inr (rests.0 (rw (is_hold, e) at h))
    ]

    from : AsksHold offer → is_hold offer ≡ true
    from (inl p) = rw (is_hold, sends.1 p) refl
    from (inr p) = elim (Bool-cases (contains (to_lowercase offer) (codes "a=sendonly"))) [
      | inl e ↦ rw (is_hold, e) refl
      | inr e ↦ rw (is_hold, e) (rests.1 p)
    ]

-- A re-INVITE mutes the session of the call exactly when its offer, in lower case, has the direction
-- `sendonly` or `inactive` somewhere in it, whatever the session did before.
pub handle_reinvite_mutes_iff :
    (q : Incoming) (old : Bool) → ((handle_reinvite q (some old)).0 ≡ some true) ↔ AsksHold q.body
unfolding handle_reinvite set_silent
handle_reinvite_mutes_iff q old = (
  λ h. (is_hold_iff q.body).0 (ap (λ m. get_or m false) h),
  λ h. ap some ((is_hold_iff q.body).1 h),
)
