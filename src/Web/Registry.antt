-- ===== src/Web/Registry.antt =====
-- src/web/state.rs, `CallRegistry`: the records of the calls, newest first. A record is shared by
-- all who hold it; here it is looked up again by its call id.
pub mod Bounds
pub mod Lookup
use mathlib.Core.List.{filter_map}
use sipbot.Prelude.{
  ℕ, zero, suc, ◌+◌, ◌-◌, ◌≤◌, ◌<◌, ◌≡◌, Bool, true, false, not, ◌&&◌, ◌||◌, List, [], ◌∷◌, ◌++◌,
  Option, none, some, is_none, length, keep, find_first, ltb, leb, ◌==◌, if◌then◌else◌,
}
use sipbot.Prelude.Text.{Text, text_eq, codes, before}
use sipbot.Web.Record.{
  CallDirection, inbound, outbound, CallState, trying, ringing, early_media, answered, terminated,
  rejected, failed, CallRecord, new_record, state_str,
}

abbrev pub max_calls : ℕ
max_calls = 200

-- `matches!(state, Some(Terminated) | Some(Rejected))`
abbrev pub is_over : Option CallState → Bool
is_over (some terminated) = true
is_over (some rejected) = true
is_over (some s) = false
is_over none = false

abbrev pub Registry : Type 0
Registry = List CallRecord

unfoldable pub get : Registry → Text → Option CallRecord
get calls call_id = find_first (λ r. text_eq r.call_id call_id) calls

-- `rposition` of a call that is over, and its removal; `none` if there is no such call.
unfoldable pub remove_last_over : Registry → Option Registry
remove_last_over [] = none
remove_last_over (r ∷ rs) = elim (remove_last_over rs) [
  | some rs' ↦ some (r ∷ rs')
  | none ↦ if is_over r.state then some rs else none
]

-- The loop that trims; each round removes a record, so as many rounds as records are enough.
unfoldable pub trim : ℕ → Registry → Registry
trim zero calls = calls
trim (suc fuel) calls =
    if ltb max_calls (length calls)
    then elim (remove_last_over calls) [ none ↦ calls | some rest ↦ trim fuel rest ]
    else calls

unfoldable pub get_or_create : Registry → Text → ℕ → CallRecord × Registry
unfolding get
get_or_create calls call_id now = elim (get calls call_id) [
  | some existing ↦ (existing, calls)
  | none ↦
      let created = new_record call_id now in (created, trim (suc (length calls)) (created ∷ calls))
]

-- a write through a shared record
unfoldable pub update : (CallRecord → CallRecord) → Text → Registry → Registry
update f call_id [] = []
update f call_id (r ∷ rs) = if text_eq r.call_id call_id then f r ∷ rs else r ∷ update f call_id rs

-- the part of `remove` that is about the registry: the rest deletes files
unfoldable pub remove : Registry → Text → Registry × Bool
remove calls call_id =
    let rest = keep (λ r. not (text_eq r.call_id call_id)) calls in
    (rest, not (length rest == length calls))

unfoldable pub clear : Registry → Registry × ℕ
clear calls = ([], length calls)

unfoldable pub active_count : Registry → ℕ
active_count calls = length (keep (λ r. not (is_over r.state)) calls)

abbrev pub abs_diff : ℕ → ℕ → ℕ
abs_diff a b = if leb a b then b - a else a - b

abbrev pub is_inbound : Option CallDirection → Bool
is_inbound (some inbound) = true
is_inbound (some outbound) = false
is_inbound none = false

-- the tests of `find_duplicate_inbound` on one record
unfoldable pub is_duplicate :
    (call_id caller callee_user : Text) (started window : ℕ) → CallRecord → Bool
is_duplicate call_id caller callee_user started_at_ms window_ms r =
    not (text_eq r.call_id call_id || not (is_inbound r.direction))
    && (text_eq r.caller caller
        && (text_eq (before b'@' r.callee) callee_user
            && leb (abs_diff r.started_at_ms started_at_ms) window_ms))

unfoldable pub find_duplicate_inbound :
    Registry → (call_id caller callee_user : Text) (started window : ℕ) → Option Text
unfolding is_duplicate
find_duplicate_inbound [] call_id caller callee_user started window = none
find_duplicate_inbound (r ∷ rs) call_id caller callee_user started window =
    if is_duplicate call_id caller callee_user started window r
    then some r.call_id
    else find_duplicate_inbound rs call_id caller callee_user started window
