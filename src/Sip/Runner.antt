-- ===== src/Sip/Runner.antt =====
-- src/sip.rs: the runs of a bot: `run_call` with its pace, the end of `run_wait`, single requests,
-- and the playback of an answered outgoing call. Times are nanoseconds where calls are placed.
pub mod Pace
use sipbot.Prelude.{
  ℕ, zero, suc, ◌+◌, ◌==◌, ◌&&◌, Bool, true, false, ltb, leb, Option, none, some, get_or, or_else,
  List, [], ◌∷◌, if◌then◌else◌,
}
use sipbot.Prelude.Text.{Text}
use sipbot.Stats.{CallStats, add_total_planned, set_total_planned, add_status}
use sipbot.Config.Account.{AccountConfig, AnswerConfig, play, echo, local}
use sipbot.Sip.Flows.{is_before}

-- When the calls are placed: `left` of them, the first now. Without a pace they follow at once;
-- after the last nothing is waited for.
unfoldable pub place_calls : (cancelled : Option ℕ) → (pace : Option ℕ) → (now left : ℕ) → List ℕ
place_calls cancelled pace now zero = []
place_calls cancelled pace now (suc zero) = now ∷ []
place_calls cancelled none now (suc (suc left)) = now ∷ place_calls cancelled none now (suc left)
place_calls cancelled (some delay) now (suc (suc left)) =
    let rest = place_calls cancelled (some delay) (now + delay) (suc left) in
    if is_before (now + delay) cancelled then now ∷ rest else now ∷ []

-- `seconds_between` is `Duration::from_secs_f64(1.0 / cps)`.
abbrev pub pace_of : (ℕ → ℕ) → ℕ → Option ℕ
pace_of seconds_between cps = if ltb 0 cps then some (seconds_between cps) else none

-- The counters and the times of the calls; without a target no call is placed.
unfoldable pub run_call :
    (seconds_between : ℕ → ℕ)
    → AccountConfig
    → (cancelled : Option ℕ) → (total cps : ℕ) → CallStats
    → CallStats × List ℕ
unfolding place_calls set_total_planned add_total_planned
run_call seconds_between a cancelled total cps s =
    let planned = set_total_planned (add_total_planned s total) total in
    (
      planned,
      elim a.target [
        | none ↦ []
        | some target ↦ place_calls cancelled (pace_of seconds_between cps) 0 total
      ],
    )

-- The rounds of 100 ms that `run_wait` gives the calls to end. `current` tells how many calls are
-- active after so many rounds. The fuel may run out.
unfoldable pub drain : (fuel : ℕ) → (current : ℕ → ℕ) → (wait_count : ℕ) → Option ℕ
drain zero current wait_count = none
drain (suc fuel) current wait_count =
    let rest = drain fuel current (suc wait_count) in
    if ltb 0 (current wait_count) && ltb wait_count 50 then rest else some wait_count

-- whether each second's look at the active calls prints a summary
unfoldable pub monitor : (last_was_zero : Bool) → List ℕ → List Bool
monitor last_was_zero [] = []
monitor last_was_zero (current ∷ rest) =
    if ltb 0 current
    then true ∷ monitor false rest
    else if last_was_zero
    then false ∷ monitor last_was_zero rest
    else true ∷ monitor true rest

-- What a transaction brings: a response with its code, or something else.
pub data Message : Type 0 where
  response : ℕ → Message
  other : Message

-- `send_standalone_request`: the first final response is counted, and ends the wait.
unfoldable pub await_final : List Message → CallStats → CallStats
unfolding add_status
await_final [] s = s
await_final (response code ∷ ms) s = if leb 200 code then add_status s code else await_final ms s
await_final (other ∷ ms) s = await_final ms s

-- `run_options` and `run_info`: `answers` is what comes to a request to a target.
unfoldable pub run_request :
    AccountConfig
    → (answers : Text → List Message) → (target_override : Option Text) → CallStats
    → CallStats
unfolding await_final add_total_planned
run_request a answers target_override s =
    let planned = add_total_planned s 1 in
    elim (or_else target_override a.target) [
      | none ↦ planned
      | some target ↦ await_final (answers target) planned
    ]

-- What is played to an answered outgoing call.
pub data Playback : Type 0 where
  unmute : Playback
  play_file : Text → (record_path : Option Text) → (keep_alive : Bool) → Playback
  play_ringing : (record_path : Option Text) → (keep_alive : Bool) → Playback
  play_local_device : (record_path : Option Text) → (keep_alive : Bool) → Playback
  await_early_media : Playback

-- `start_media_playback`, by whether early media are played already. `device_ok` is whether the
-- playback on the local device succeeds.
unfoldable pub start_media_playback :
    (has_local_device device_ok : Bool)
    → (record_path : Option Text) → (has_media_task keep_alive : Bool) → Option AnswerConfig
    → List Playback
start_media_playback has_local_device device_ok record_path true keep_alive answer =
    if has_local_device
    then unmute ∷ play_local_device record_path keep_alive ∷ await_early_media ∷ []
    else unmute ∷ await_early_media ∷ []
start_media_playback has_local_device device_ok record_path false keep_alive none =
    play_ringing record_path keep_alive ∷ []
start_media_playback has_local_device device_ok record_path false keep_alive
      (some (play wav_file)) =
    play_file wav_file record_path keep_alive ∷ []
start_media_playback has_local_device device_ok record_path false keep_alive (some echo) = []
start_media_playback has_local_device device_ok record_path false keep_alive (some local) =
    if has_local_device
    then (if device_ok
        then unmute ∷ play_local_device record_path keep_alive ∷ []
        else unmute
          ∷ play_local_device record_path keep_alive
          ∷ play_ringing record_path keep_alive
          ∷ [])
    else unmute ∷ play_ringing record_path keep_alive ∷ []
