-- ===== src/Web/Control.antt =====
-- src/web/api.rs: `post_call_hangup`, `delete_call`, `post_call_dtmf` and `get_calls`, and the
-- summaries of src/web/state.rs. The token and the DTMF channel of a live call stand beside the
-- registry, by call id.
pub mod Hangup
use sipbot.Prelude.{
  ℕ, Bool, true, false, not, ◌&&◌, ◌||◌, ◌==◌, Option, none, some, get_or, List, [], ◌∷◌, ◌++◌,
  keep, leb, take, find_first, if◌then◌else◌,
}
use sipbot.Prelude.Text.{Text, codes, text_eq, trim, split, starts_with, to_lowercase}
use sipbot.Sip.Caller.{trim_start_matches}
use sipbot.Web.Record.{
  CallState, trying, ringing, early_media, answered, terminated, rejected, failed, CallRecord,
}
use sipbot.Web.Registry.{Registry, get, remove, active_count}

-- `OutboundCallHandle`
pub record OutboundCallHandle : Type 0 where
  pub from_user : Text
  pub target : Text
  pub is_cancelled : Bool

-- The parts of `ServeState` that end calls; a call that is controlled has a token, which is
-- cancelled or not.
pub record ServeState : Type 0 where
  pub calls : Registry
  pub control : List (Text × Bool)
  pub outbound_calls : List OutboundCallHandle

pub data Reply : Type 0 where
  done : Reply
  cancelled : Reply
  already_ended : Reply
  not_controllable : Reply
  not_found : Reply
  bad_request : Reply

unfoldable pub token_of : List (Text × Bool) → Text → Option Bool
token_of [] call_id = none
token_of ((id, c) ∷ rest) call_id = if text_eq id call_id then some c else token_of rest call_id

unfoldable pub cancel_token : List (Text × Bool) → Text → List (Text × Bool)
cancel_token [] call_id = []
cancel_token ((id, c) ∷ rest) call_id =
    if text_eq id call_id then (id, true) ∷ rest else (id, c) ∷ cancel_token rest call_id

abbrev pub is_active : Option CallState → Bool
is_active (some terminated) = false
is_active (some rejected) = false
is_active (some failed) = false
is_active (some s) = true
is_active none = true

abbrev pub is_empty : Text → Bool
is_empty [] = true
is_empty (c ∷ cs) = false

-- `next` and `nth(1)` of a split
abbrev pub first_of : List Text → Text
first_of [] = []
first_of (p ∷ ps) = p

abbrev pub second_of : List Text → Text
second_of (p ∷ q ∷ ps) = q
second_of (p ∷ []) = []
second_of [] = []

abbrev pub target_host : Text → Text
target_host target = first_of (split b';' (second_of (split b'@' target)))

abbrev pub host_ok : (callee_host target_host : Text) → Bool
host_ok callee target =
    is_empty callee || (is_empty target || starts_with callee (first_of (split b':' target)))

unfoldable pub is_leg_of : CallRecord → OutboundCallHandle → Bool
is_leg_of r h =
    let target_user = first_of (split b'@' (trim_start_matches (codes "sip:") h.target)) in
    text_eq h.from_user (first_of (split b'@' r.caller))
    && (text_eq (first_of (split b'@' r.callee)) target_user
        && host_ok (second_of (split b'@' r.callee)) (target_host h.target))

-- the loop over the running calls, which ends with the first that matches
unfoldable pub cancel_leg : CallRecord → List OutboundCallHandle → Option (List OutboundCallHandle)
unfolding is_leg_of
cancel_leg r [] = none
cancel_leg r (h ∷ hs) =
    let rest = cancel_leg r hs in
    if is_leg_of r h
    then some (record h { is_cancelled = true } ∷ hs)
    else elim rest [ none ↦ none | some hs' ↦ some (h ∷ hs') ]

unfoldable pub hang_up_leg : CallRecord → ServeState → Reply × ServeState
unfolding cancel_leg
hang_up_leg r s =
    if is_active r.state
    then elim (cancel_leg r s.outbound_calls) [
      | none ↦ (not_controllable, s)
      | some hs ↦ (cancelled, record s { outbound_calls = hs })
    ]
    else (already_ended, s)

unfoldable pub hang_up_by : Option Bool → Text → CallRecord → ServeState → Reply × ServeState
unfolding hang_up_leg cancel_token
hang_up_by (some false) call_id r s = (done, record s { control = cancel_token s.control call_id })
hang_up_by (some true) call_id r s = hang_up_leg r s
hang_up_by none call_id r s = hang_up_leg r s

unfoldable pub post_call_hangup : Text → ServeState → Reply × ServeState
unfolding hang_up_by token_of
post_call_hangup call_id s = elim (get s.calls call_id) [
  | none ↦ (not_found, s)
  | some r ↦ hang_up_by (token_of s.control call_id) call_id r s
]

-- the first character of the digit goes to the channel of the call, if that takes it
unfoldable pub post_call_dtmf :
    (digit : Option Text) → (dtmf_tx : Option Bool) → Text → Registry → Reply × Option ℕ
post_call_dtmf none dtmf_tx call_id calls = (bad_request, none)
post_call_dtmf (some []) dtmf_tx call_id calls = (bad_request, none)
post_call_dtmf (some (c ∷ cs)) dtmf_tx call_id calls = elim (get calls call_id) [
  | none ↦ (not_found, none)
  | some r ↦ elim dtmf_tx [
    | none ↦ (not_controllable, none)
    | some is_open ↦ if is_open then (done, some c) else (already_ended, none)
  ]
]

unfoldable pub delete_call : Text → Registry → Reply × Registry
unfolding remove
delete_call call_id calls =
    let id = trim call_id in
    if is_empty id
    then (bad_request, calls)
    else if (remove calls id).1
    then (done, (remove calls id).0)
    else (not_found, (remove calls id).0)

-- the group of a state that the page filters by
unfoldable pub group_of : Option CallState → Text
group_of (some trying) = codes "incall"
group_of (some ringing) = codes "incall"
group_of (some early_media) = codes "incall"
group_of (some answered) = codes "incall"
group_of (some rejected) = codes "rejected"
group_of (some terminated) = codes "ended"
group_of (some failed) = codes "ended"
group_of none = codes "incall"

abbrev pub is_group : Option Text → Option CallState → Bool
is_group none s = true
is_group (some g) s = text_eq (group_of s) g

-- no filter, an empty one, or one that fits
abbrev pub fits : Option Text → Option Text → Bool
fits none t = true
fits (some []) t = true
fits (some (c ∷ cs)) none = false
fits (some (c ∷ cs)) (some t) = text_eq t (c ∷ cs)

unfoldable pub is_shown : (state_filter account strategy : Option Text) → CallRecord → Bool
unfolding group_of
is_shown state_filter account strategy r =
    is_group state_filter r.state && (fits account (some r.account) && fits strategy r.strategy)

-- newest first, and those of one time in their old order
unfoldable pub insert_newest : CallRecord → Registry → Registry
insert_newest r [] = r ∷ []
insert_newest r (x ∷ xs) =
    if leb x.started_at_ms r.started_at_ms then r ∷ x ∷ xs else x ∷ insert_newest r xs

unfoldable pub sort_newest : Registry → Registry
unfolding insert_newest
sort_newest [] = []
sort_newest (r ∷ rs) = insert_newest r (sort_newest rs)

-- the records that are shown, each then as its `to_json`
unfoldable pub summaries :
    (limit : ℕ) → (state_filter account strategy : Option Text) → Registry → Registry
unfolding sort_newest is_shown
summaries limit state_filter account strategy calls =
    take limit (sort_newest (keep (is_shown state_filter account strategy) calls))

-- only the three groups filter
abbrev pub known_group : Text → Option Text
known_group g =
    if text_eq g (codes "incall") || (text_eq g (codes "ended") || text_eq g (codes "rejected"))
    then some g
    else none

abbrev pub group_param : Option Text → Option Text
group_param none = none
group_param (some s) = known_group (to_lowercase (trim s))

abbrev pub trimmed : Option Text → Option Text
trimmed none = none
trimmed (some s) = some (trim s)

unfoldable pub get_calls : (state account strategy : Option Text) → Registry → ℕ × Registry
unfolding summaries active_count
get_calls state account strategy calls = (
  active_count calls,
  summaries 200 (group_param state) (trimmed account) (trimmed strategy) calls,
)
