-- ===== src/Sip/Call/Task.antt =====
-- src/sip.rs, `handle_invite`: the task of an incoming call, with its record, its stages, its guard
-- and its counters.
use sipbot.Prelude.{List, ◌∷◌, ℕ, Option, none, some, [], ◌∷◌, ◌++◌, take}
use sipbot.Prelude.Text.{Text, codes, before}
use sipbot.Stats.{
  CallStats, add_total_planned, inc_current, dec_current, inc_finished, add_duration,
}
use sipbot.Stats as Stats
use sipbot.Web.Record.{CallRecord, inbound}
use sipbot.Web.Registry.{Registry, get_or_create, update, find_duplicate_inbound}
use sipbot.Config.Account.{AccountConfig}
use sipbot.Sip.Caller.{caller_user_part}
use sipbot.Sip.Call.{Session, World, CallTask, Stage, running, ◌>>=◌, final_state, start}
use sipbot.Sip.Call.Early.{
  match_stage, random_stage, plain_reject_stage, open_stage, tone_stage, early_stage, ring_stage,
  cancelled_stage,
}
use sipbot.Sip.Call.Answer.{
  sdp_jump_stage, accept_stage, announce_stage, answer_media, hangup_stage,
}

-- `split('@').next()`
abbrev pub user_of : Text → Text
user_of uri = before b'@' uri

-- what an incoming call writes into its record, in serve mode
unfoldable pub describe :
    AccountConfig → (caller callee : Text) → Option Text → CallRecord → CallRecord
describe account caller callee recording r = record r {
  direction = some inbound;
  caller = caller;
  callee = callee;
  account = account.username;
  strategy = account.strategy;
  stats = some Stats.new;
  recording = elim recording [ none ↦ r.recording | some path ↦ some path ];
}

abbrev duplicate_issue : (callee_user other : Text) → Text
duplicate_issue callee_user other =
    codes "duplicate delivery: a parallel INVITE for "
    ++ callee_user
    ++ codes " arrived as "
    ++ take 13 other
    ++ codes "… — server forked to multiple contacts"

unfoldable pub flag_duplicate : (callee : Text) → Option Text → CallRecord → CallRecord
flag_duplicate callee other r = record r {
  issues = elim other [
    | none ↦ r.issues
    | some call_id ↦ r.issues ++ duplicate_issue (user_of callee) call_id ∷ []
  ];
}

-- The record of an incoming call in the registry, and the registry with it.
unfoldable pub start_record :
    Registry
    → AccountConfig
    → (call_id caller callee : Text) → Option Text
    → ℕ
    → CallRecord × Registry
unfolding describe flag_duplicate
start_record calls account call_id caller callee recording now =
    let (found, grown) = get_or_create calls call_id now in
    let described = describe account caller callee recording found in
    let known = update (describe account caller callee recording) call_id grown in
    let other =
      find_duplicate_inbound known call_id caller (user_of callee) described.started_at_ms 4000 in
    (flag_duplicate callee other described, update (flag_duplicate callee other) call_id known)

-- the stages that may reject the call
unfoldable pub screening : World → AccountConfig → Text → CallTask → Stage
unfolding match_stage
screening w account caller_user s =
    match_stage w account caller_user s
    >>= random_stage w account
    >>= plain_reject_stage w account
    >>= open_stage w account
    >>= tone_stage w account

-- before the answer
unfoldable pub alerting : World → AccountConfig → Text → CallTask → Stage
unfolding screening
alerting w account caller_user s =
    screening w account caller_user s
    >>= early_stage w account
    >>= ring_stage w account
    >>= cancelled_stage w

-- from the answer on
unfoldable pub answering : World → AccountConfig → Text → CallTask → Stage
unfolding sdp_jump_stage
answering w account caller_user s = sdp_jump_stage w account s >>= accept_stage w account >>= λ t.
    running
      (hangup_stage w account (answer_media w account (announce_stage w account caller_user t)))

-- `call_logic`
unfoldable pub call_logic : World → AccountConfig → Text → CallTask → Stage
unfolding alerting answering
call_logic w account caller_user s =
    alerting w account caller_user s >>= answering w account caller_user

-- the stopped sessions, with that of the guard
abbrev pub after_guard : Option Session → List Session → List Session
after_guard none stopped = stopped
after_guard (some m) stopped = m ∷ stopped

-- `drop` of the guard
unfoldable pub drop_guard : World → CallTask → CallTask
drop_guard w s = record s {
  stats = add_duration (inc_finished s.stats) w.duration_ms;
  guarded = none;
  stopped = after_guard s.guarded s.stopped;
}

-- The whole task: the counters before it, the logic, the guard that falls with it, and the counter
-- after it.
unfoldable pub call_task : World → AccountConfig → Text → CallStats → Option CallRecord → CallTask
unfolding call_logic start drop_guard
call_task w account caller stats call_record =
    let begun = start (inc_current (add_total_planned stats 1)) call_record in
    let ended = drop_guard w (final_state (call_logic w account (caller_user_part caller) begun)) in
    record ended { stats = dec_current ended.stats }
