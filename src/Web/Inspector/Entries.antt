-- ===== src/Web/Inspector/Entries.antt =====
-- src/web/inspector.rs, `record`: the trace of a call with one message more.
use sipbot.Prelude.{
  ℕ, suc, ◌-◌, ◌≤◌, ◌<◌, ◌≡◌, refl, sym, List, [], ◌∷◌, ◌++◌, Bool-cases, inl, inr, arith, length,
  drop, length-append, ltb,
}
use sipbot.Web.Record.{SipTraceEntry}
use sipbot.Web.Inspector.{push_trace}

abbrev pub last_entries : ℕ → List SipTraceEntry → List SipTraceEntry
last_entries n xs = drop (length xs - n) xs

push_trace-short :
    (trace : List SipTraceEntry) (e : SipTraceEntry)
    → length trace < 500
    → push_trace trace e ≡ trace ++ e ∷ []
unfolding push_trace
push_trace-short trace e h = ground (arith, length-append trace (e ∷ []))

push_trace-full :
    (x : SipTraceEntry) (trace : List SipTraceEntry) (e : SipTraceEntry)
    → 500 ≤ length (x ∷ trace)
    → push_trace (x ∷ trace) e ≡ trace ++ e ∷ []
unfolding push_trace
push_trace-full x trace e h = ground (arith, length-append trace (e ∷ []))

last_entries-all : (xs : List SipTraceEntry) → length xs ≤ 500 → last_entries 500 xs ≡ xs
last_entries-all xs h = let e : length xs - 500 ≡ 0 = omega arith in rw e

-- A trace of at most 500 messages that gains one keeps the last 500 of them all, in their order.
pub push_trace_lem :
    (trace : List SipTraceEntry) (e : SipTraceEntry)
    → length trace ≤ 500
    → push_trace trace e ≡ last_entries 500 (trace ++ e ∷ [])
push_trace_lem [] e h =
    rw (push_trace-short [] e (omega arith)) (sym (last_entries-all (e ∷ []) (omega arith)))
push_trace_lem (x ∷ trace) e h = elim (Bool-cases (ltb (length (x ∷ trace)) 500)) [
  | inl short ↦
      rw (push_trace-short (x ∷ trace) e (ground arith)) (
        sym (last_entries-all (x ∷ trace ++ e ∷ []) (ground (arith, length-append trace (e ∷ [])))))
  | inr full ↦
      let n : suc (length (trace ++ e ∷ [])) - 500 ≡ 1 =
        ground (arith, length-append trace (e ∷ [])) in
      rw (push_trace-full x trace e (ground arith), n) refl
]
