-- ===== src/Web/Json/RoundTrip.antt =====
-- src/web/state.rs: what is left of a call record that is saved and loaded again.
use sipbot.Prelude.{
  ℕ, ◌≡◌, ◌-◌, ◌∙◌, refl, true, Option, none, some, List, [], ◌∷◌, ap, if◌then◌else◌,
}
use sipbot.Prelude.Text.{Text, text_eq}
use sipbot.Web.Record.{
  CallDirection, inbound, outbound, CallState, trying, ringing, early_media, answered, terminated,
  rejected, failed, state_str, CallRecord, SipTraceEntry, JumpEvent, DtmfEventLog,
}
use sipbot.Web.Json.{
  get, lookup, as_str, as_u64, texts, as_texts, opt_string, opt_number, strings, direction_str,
  opt_direction, opt_state, direction_of, state_of, elapsed, is_over, Derived, list_of, to_fields,
  to_json_full, read_record, set_times, from_json, Json, opt_json, not_null, stats_of,
}

pub as_str-opt_string : (o : Option Text) → as_str (some (opt_string o)) ≡ o
unfolding as_str opt_string
as_str-opt_string none = refl
as_str-opt_string (some t) = refl

pub as_u64-opt_number : (o : Option ℕ) → as_u64 (some (opt_number o)) ≡ o
unfolding as_u64 opt_number
as_u64-opt_number none = refl
as_u64-opt_number (some n) = refl

texts-strings : (ts : List Text) → texts (strings ts) ≡ ts
unfolding texts strings
texts-strings [] = refl
texts-strings (t ∷ ts) = ap (λ l. t ∷ l) (texts-strings ts)

direction_of-opt_direction :
    (o : Option CallDirection) → direction_of (as_str (some (opt_direction o))) ≡ o
unfolding direction_of as_str opt_direction direction_str text_eq
direction_of-opt_direction none = refl
direction_of-opt_direction (some inbound) = refl
direction_of-opt_direction (some outbound) = refl

state_of-opt_state : (o : Option CallState) → state_of (as_str (some (opt_state o))) ≡ o
unfolding state_of as_str opt_state state_str text_eq
state_of-opt_state none = refl
state_of-opt_state (some trying) = refl
state_of-opt_state (some ringing) = refl
state_of-opt_state (some early_media) = refl
state_of-opt_state (some answered) = refl
state_of-opt_state (some terminated) = refl
state_of-opt_state (some rejected) = refl
state_of-opt_state (some failed) = refl

not_null-opt_json : (o : Option Json) → not_null (some (opt_json o)) ≡ not_null o
unfolding not_null opt_json
not_null-opt_json none = refl
not_null-opt_json (some v) = refl

-- What comes back: the record without its counters, with other times.
abbrev pub restored : (saved_at loaded_at : ℕ) → CallRecord → CallRecord
restored saved_at loaded_at r = record r {
  started_at_ms = loaded_at - elapsed saved_at r;
  ended_at_ms = if is_over r.state then some loaded_at else r.ended_at_ms;
  stats = none;
  persisted = true;
}

module _ (d : Derived) (trace : (l : List SipTraceEntry) → d.trace_of (d.trace_json l) ≡ some l)
    (jumps : (l : List JumpEvent) → d.jumps_of (d.jumps_json l) ≡ some l)
    (dtmf : (l : List DtmfEventLog) → d.dtmf_of (d.dtmf_json l) ≡ some l) where
  read_record-to_json_full :
      (saved_at : ℕ) (r : CallRecord) (snapshot : Option Json)
      → read_record d (to_json_full d saved_at r snapshot) r.call_id
        ≡ record r { stats = none; persisted = true }
  unfolding to_json_full to_fields get lookup read_record text_eq as_texts list_of as_str as_u64
  read_record-to_json_full saved_at r snapshot =
      rw
        (
          as_str-opt_string r.strategy,
          as_str-opt_string r.end_reason,
          as_str-opt_string r.codec,
          as_str-opt_string r.recording,
          as_str-opt_string r.sdp_offer,
          as_str-opt_string r.sdp_183,
          as_str-opt_string r.sdp_200,
          as_u64-opt_number r.ended_at_ms,
          direction_of-opt_direction r.direction,
          state_of-opt_state r.state,
          texts-strings r.issues,
          trace r.sip_trace,
          jumps r.jump_events,
          dtmf r.dtmf_events,
        )
        refl

  -- A record that is saved and loaded again is what it was, but for its times and its counters: it
  -- starts so long before it is loaded as it lasted when it was saved, and ends when it is loaded if
  -- it was terminated or rejected; the counters come back as the JSON that they were saved as. The
  -- derived conversions of the lists are taken to give back what they were given.
  pub from_json-to_json_full :
      (saved_at loaded_at : ℕ) (r : CallRecord) (snapshot : Option Json)
      → from_json d loaded_at (to_json_full d saved_at r snapshot)
        ≡ some (restored saved_at loaded_at r, not_null (stats_of d r snapshot))
  unfolding from_json to_json_full set_times text_eq
  from_json-to_json_full saved_at loaded_at r snapshot =
      let same = read_record-to_json_full saved_at r snapshot in
      let counters = not_null-opt_json (stats_of d r snapshot) in
      ap
        (λ x. some (
          set_times d loaded_at (elapsed saved_at r) x,
          not_null (some (opt_json (stats_of d r snapshot))),
        ))
        same
      ∙ ap (λ o. some (restored saved_at loaded_at r, o)) counters
