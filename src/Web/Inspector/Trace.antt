-- ===== src/Web/Inspector/Trace.antt =====
-- src/web/inspector.rs, `record`: the record of a call and the registry after a message.
use sipbot.Prelude.{
  ℕ, ◌-◌, ◌≤◌, ◌≡◌, refl, sym, ap, ◌∙◌, false, List, [], ◌∷◌, ◌++◌, Option, none, some, Bool, true,
  not, ◌&&◌, ◌⊎◌, get_or, Option-cases, Bool-cases, inl, inr, arith, length, if◌then◌else◌,
}
use sipbot.Prelude.Text.{Text, codes, text_eq, text_eq_iff, before}
use sipbot.Web.Record.{CallRecord, CallState, SipTraceEntry}
use sipbot.Web.Registry.{Registry, get, get_or_create, update}
use sipbot.Web.Registry.Lookup.{get-update}
use sipbot.Web.Inspector.Entries.{last_entries, push_trace_lem}
use sipbot.Web.Inspector.{
  Message, is_sdp, is_empty, is_invite, is_ignored, enter_state, is_terminal, push_trace,
  update_record, record_message, fill_meta, capture_sdp, apply_state, advance, derive_state,
  is_keepalive,
}

-- The message carries an SDP body, and its request or its status is `kind`.
abbrev pub carries : (kind : Text) → Message → Bool
carries kind msg =
    (is_sdp msg.content_type && not (is_empty msg.body)) && text_eq (before b' ' msg.summary) kind

-- what is kept of the SDP bodies
abbrev bodies : CallRecord → Option Text × Option Text × Option Text
bodies r = (r.sdp_offer, r.sdp_183, r.sdp_200)

-- the first offer and the first answer, and the last body of a 183
abbrev bodies_after :
    Message → Option Text × Option Text × Option Text → Option Text × Option Text × Option Text
bodies_after msg (offer, early, answer) = (
  if carries (codes "INVITE") msg then some (get_or offer msg.body) else offer,
  if carries (codes "183") msg then some msg.body else early,
  if carries (codes "200") msg then some (get_or answer msg.body) else answer,
)

-- What is kept of an old value: it stays, unless there was none.
abbrev IsKept {ℓ} : {A : Type ℓ} → (old new : Option A) → Type ℓ
IsKept old new = (old ≡ none) ⊎ (new ≡ old)

-- What the stages of an update leave alone.
abbrev fixed : CallRecord → Text × ℕ × List SipTraceEntry
fixed r = (r.call_id, r.started_at_ms, r.sip_trace)

fixed-advance :
    (r : CallRecord) (new_state : Option CallState) (summary : Text) (now : ℕ)
    → (fixed (advance r new_state summary now).0 ≡ fixed r)
      × (bodies (advance r new_state summary now).0 ≡ bodies r)
      × ((advance r new_state summary now).0.direction ≡ r.direction)
      × IsKept r.end_reason (advance r new_state summary now).0.end_reason
      × (((advance r new_state summary now).0.state ≡ r.state)
          ⊎ ((advance r new_state summary now).0.state ≡ new_state))
unfolding advance enter_state
fixed-advance r none summary now = (refl, refl, refl, inr refl, inl refl)
fixed-advance r (some s) summary now = elim (Bool-cases (is_ignored r.state s)) [
  | inl e ↦ rw (advance, e) (refl, refl, refl, inr refl, inl refl)
  | inr e ↦ elim (Bool-cases (is_terminal s)) [
    | inr f ↦ rw (advance, enter_state, e, f) (refl, refl, refl, inr refl, inr refl)
    | inl f ↦ elim (Option-cases r.end_reason) [
      | inl g ↦ rw (advance, enter_state, e, f, g) (refl, refl, refl, inl refl, inr refl)
      | inr (why, g) ↦ rw (advance, enter_state, e, f, g) (refl, refl, refl, inr refl, inr refl)
    ]
  ]
]

-- What the stages before the state leave alone.
abbrev state_of : CallRecord → Option CallState × Option Text
state_of r = (r.state, r.end_reason)

fixed-fill_meta :
    (r : CallRecord) (dir : Text) (msg : Message)
    → (fixed (fill_meta r dir msg) ≡ fixed r)
      × (bodies (fill_meta r dir msg) ≡ bodies r)
      × (state_of (fill_meta r dir msg) ≡ state_of r)
      × IsKept r.direction (fill_meta r dir msg).direction
unfolding fill_meta
fixed-fill_meta r dir msg = elim (Option-cases r.direction) [
  | inr (d, e) ↦ rw (fill_meta, e) (refl, refl, refl, inr refl)
  | inl e ↦ elim (Bool-cases (is_invite msg)) [
    | inr f ↦ rw (fill_meta, e, f) (refl, refl, refl, inl refl)
    | inl f ↦ elim (Bool-cases (text_eq dir (codes "in"))) [
      | inl g ↦ rw (fill_meta, e, f, g) (refl, refl, refl, inl refl)
      | inr g ↦ rw (fill_meta, e, f, g) (refl, refl, refl, inl refl)
    ]
  ]
]

-- A text that is one word is not another one.
text_eq_other : (s a b : Text) → text_eq s a ≡ true → text_eq a b ≡ false → text_eq s b ≡ false
text_eq_other s a b h k = rw ((text_eq_iff s a).0 h) k

-- The captured bodies, by the kind of the message.
bodies-capture_sdp :
    (r : CallRecord) (msg : Message)
    → bodies (capture_sdp r msg.summary msg) ≡ bodies_after msg (bodies r)
unfolding capture_sdp text_eq
bodies-capture_sdp r msg = elim (Bool-cases (text_eq (before b' ' msg.summary) (codes "INVITE"))) [
  | inl e ↦
      let not_183 = text_eq_other (before b' ' msg.summary) (codes "INVITE") (codes "183") e refl in
      let not_200 = text_eq_other (before b' ' msg.summary) (codes "INVITE") (codes "200") e refl in
      ground (arith, e, not_183, not_200)
  | inr e ↦ elim (Bool-cases (text_eq (before b' ' msg.summary) (codes "183"))) [
    | inl f ↦
        let not_200 = text_eq_other (before b' ' msg.summary) (codes "183") (codes "200") f refl in
        ground (arith, e, f, not_200)
    | inr f ↦ ground (arith, e, f)
  ]
]

fixed-capture_sdp :
    (r : CallRecord) (summary : Text) (msg : Message)
    → (fixed (capture_sdp r summary msg) ≡ fixed r)
      × (state_of (capture_sdp r summary msg) ≡ state_of r)
      × ((capture_sdp r summary msg).direction ≡ r.direction)
unfolding capture_sdp
fixed-capture_sdp r summary msg = ground arith

call_id-update_record :
    (dir : Text) (msg : Message) (peer : Option Text) (now : ℕ) (r : CallRecord)
    → (update_record dir msg peer now r).call_id ≡ r.call_id
unfolding update_record apply_state
call_id-update_record dir msg peer now r =
    let r1 = fill_meta r dir msg in
    let r2 = capture_sdp r1 msg.summary msg in
    let new_state = derive_state dir msg.summary msg.is_request in
    ap (λ f. f.0)
      ((fixed-advance r2 new_state msg.summary now).0
        ∙ (fixed-capture_sdp r1 msg.summary msg).0
        ∙ (fixed-fill_meta r dir msg).0)

record_message-registry :
    (calls : Registry) (dir : Text) (msg : Message) (peer : Option Text) (now : ℕ) (call_id : Text)
    → is_keepalive msg.method ≡ false
    → msg.call_id ≡ some call_id
    → (record_message calls dir msg peer now).0
      ≡ update (update_record dir msg peer now) call_id (get_or_create calls call_id now).1
unfolding record_message
record_message-registry calls dir msg peer now call_id k e = simp (k, e)

-- What a message does to the record of its call.
pub record Updated (dir : Text) (msg : Message) (peer : Option Text) (now : ℕ) (r r' : CallRecord)
    : Type 0 where
  pub call_id : r'.call_id ≡ r.call_id
  pub started : r'.started_at_ms ≡ r.started_at_ms
  pub trace :
      r'.sip_trace
      ≡ last_entries 500 (
          r.sip_trace
          ++ record {
            t_ms = now - r.started_at_ms;
            dir = dir;
            summary = msg.summary;
            peer = peer;
            raw = msg.raw;
          }
            ∷ [])
  pub offer :
      r'.sdp_offer
      ≡ (if carries (codes "INVITE") msg then some (get_or r.sdp_offer msg.body) else r.sdp_offer)
  pub early : r'.sdp_183 ≡ (if carries (codes "183") msg then some msg.body else r.sdp_183)
  pub answer :
      r'.sdp_200
      ≡ (if carries (codes "200") msg then some (get_or r.sdp_200 msg.body) else r.sdp_200)
  pub direction : IsKept r.direction r'.direction
  pub reason : IsKept r.end_reason r'.end_reason
  pub state : (r'.state ≡ r.state) ⊎ (r'.state ≡ derive_state dir msg.summary msg.is_request)

update_record-Updated :
    (dir : Text) (msg : Message) (peer : Option Text) (now : ℕ) (r : CallRecord)
    → length r.sip_trace ≤ 500
    → Updated dir msg peer now r (update_record dir msg peer now r)
unfolding update_record apply_state
update_record-Updated dir msg peer now r h =
    let r1 = fill_meta r dir msg in
    let r2 = capture_sdp r1 msg.summary msg in
    let (fixed_1, bodies_1, state_1, direction_1) = fixed-fill_meta r dir msg in
    let (fixed_2, state_2, direction_2) = fixed-capture_sdp r1 msg.summary msg in
    let (fixed_3, bodies_3, direction_3, reason_3, state_3) =
      fixed-advance r2 (derive_state dir msg.summary msg.is_request) msg.summary now in
    let same = fixed_3 ∙ fixed_2 ∙ fixed_1 in
    let same_bodies = bodies_3 ∙ bodies-capture_sdp r1 msg ∙ ap (bodies_after msg) bodies_1 in
    let same_state = state_2 ∙ state_1 in
    let entry : SipTraceEntry = record {
      t_ms = now - r.started_at_ms;
      dir = dir;
      summary = msg.summary;
      peer = peer;
      raw = msg.raw;
    } in
    record {
      call_id = ap (λ f. f.0) same;
      started = ap (λ f. f.1) same;
      trace = ap (λ f. push_trace f.2 entry) same ∙ push_trace_lem r.sip_trace entry h;
      offer = ap (λ b. b.0) same_bodies;
      early = ap (λ b. b.1) same_bodies;
      answer = ap (λ b. b.2) same_bodies;
      direction = elim direction_1 [
        | inl unset ↦ inl unset
        | inr kept ↦ inr (direction_3 ∙ direction_2 ∙ kept)
      ];
      reason = elim reason_3 [
        | inl unset ↦ inl (sym (ap (λ s. s.1) same_state) ∙ unset)
        | inr kept ↦ inr (kept ∙ ap (λ s. s.1) same_state)
      ];
      state = elim state_3 [
        | inl kept ↦ inl (kept ∙ ap (λ s. s.0) same_state)
        | inr entered ↦ inr entered
      ];
    }

-- A message of a known call, that is no REGISTER or OPTIONS, updates the record of that call and no
-- other call's: the trace, of at most 500 messages before, is the last 500 with the message at its
-- end; an SDP body of an INVITE or a 200 is kept if it is the first, and that of a 183 always; the
-- direction and the reason of the end stay once they are there; and the state is the old one or
-- that for which the message stands.
pub get-record_message :
    (calls : Registry) (dir : Text) (msg : Message) (peer : Option Text) (now : ℕ)
    (call_id other : Text) (r : CallRecord)
    → is_keepalive msg.method ≡ false
    → msg.call_id ≡ some call_id
    → get calls call_id ≡ some r
    → length r.sip_trace ≤ 500
    → (r' : CallRecord) × Updated dir msg peer now r r'
      × (get (record_message calls dir msg peer now).0 other
          ≡ (if text_eq call_id other then some r' else get calls other))
unfolding get_or_create
get-record_message calls dir msg peer now call_id other r k e known short = (
  update_record dir msg peer now r,
  update_record-Updated dir msg peer now r short,
  rw (record_message-registry calls dir msg peer now call_id k e, known, get_or_create)
      (rw (
        get-update (update_record dir msg peer now) call_id other calls
            (call_id-update_record dir msg peer now),
        known,
      )),
)
