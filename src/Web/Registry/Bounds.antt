-- ===== src/Web/Registry/Bounds.antt =====
-- src/web/state.rs, `CallRegistry::get_or_create`: trimming.
use sipbot.Prelude.{
  ℕ, zero, suc, ◌≤◌, ◌≡◌, ◌⊎◌, inl, inr, refl, sym, ap, ◌∙◌, false, not, [], ◌∷◌, ◌++◌,
  append_assoc, append-nil, Option, none, some, Bool-cases, arith, length, keep, ltb, if◌then◌else◌,
  All,
}
use sipbot.Prelude.Text.{Text}
use sipbot.Web.Record.{CallRecord, failed, new_record}
use sipbot.Web.Registry.{Registry, max_calls, is_over, get, remove_last_over, trim, get_or_create}

abbrev pub active_calls : Registry → Registry
active_calls = keep (λ r. not (is_over r.state))

abbrev pub over_calls : Registry → Registry
over_calls = keep (λ r. is_over r.state)

abbrev pub NoneOver : Registry → Type 0
NoneOver = All (λ r. is_over r.state ≡ false)

-- One record less: the active calls are the same, and of the others the oldest is gone.
record OneLess (calls rest : Registry) : Type 0 where
  active : active_calls rest ≡ active_calls calls
  oldest : (x : CallRecord) × (over_calls calls ≡ over_calls rest ++ x ∷ [])
  shorter : length calls ≡ suc (length rest)

abbrev Removal : Registry → Option Registry → Type 0
Removal calls none = NoneOver calls
Removal calls (some rest) = OneLess calls rest

over_calls-NoneOver : (calls : Registry) → NoneOver calls → over_calls calls ≡ []
over_calls-NoneOver [] h = refl
over_calls-NoneOver (r ∷ rs) (h, hs) = rw h (over_calls-NoneOver rs hs)

add_active : (r : CallRecord) (rs rs' : Registry) → OneLess rs rs' → OneLess (r ∷ rs) (r ∷ rs')
add_active r rs rs' h = elim (Bool-cases (is_over r.state)) [
  | inl e ↦ record {
    active = rw e h.active;
    oldest = (h.oldest.0, rw e (ap (λ (l : Registry). r ∷ l) h.oldest.1));
    shorter = omega (arith, h.shorter);
  }
  | inr e ↦ record {
    active = rw e (ap (λ (l : Registry). r ∷ l) h.active);
    oldest = (h.oldest.0, rw e h.oldest.1);
    shorter = omega (arith, h.shorter);
  }
]

remove_last_over-Removal : (calls : Registry) → Removal calls (remove_last_over calls)
unfolding remove_last_over
remove_last_over-Removal [] = tt
remove_last_over-Removal (r ∷ rs) = go (remove_last_over rs) (remove_last_over-Removal rs)
  where
    go :
        (o : Option Registry)
        → Removal rs o
        → Removal (r ∷ rs) (elim o [
          | some rs' ↦ some (r ∷ rs')
          | none ↦ if is_over r.state then some rs else none
        ])
    go (some rs') h = add_active r rs rs' h
    go none h = elim (Bool-cases (is_over r.state)) [
      | inl e ↦ rw e (record {
        active = rw e refl;
        oldest = (r, rw (e, over_calls-NoneOver rs h) refl);
        shorter = refl;
      })
      | inr e ↦ rw e (e, h)
    ]

-- What trimming does: it ends within the limit, or with no call left that is over; it keeps all
-- active calls, in their order; and of the calls that are over it drops the oldest.
pub record IsTrimmed (calls rest : Registry) : Type 0 where
  pub bounded : (length rest ≤ max_calls) ⊎ NoneOver rest
  pub active : active_calls rest ≡ active_calls calls
  pub dropped : (old : Registry) × (over_calls calls ≡ over_calls rest ++ old)

IsTrimmed-trim :
    (fuel : ℕ) (calls : Registry) → length calls ≤ fuel → IsTrimmed calls (trim fuel calls)
unfolding trim
IsTrimmed-trim zero calls h = record {
  bounded = inl (omega arith);
  active = refl;
  dropped = ([], sym (append-nil (over_calls calls)));
}
IsTrimmed-trim (suc fuel) calls h = elim (Bool-cases (ltb max_calls (length calls))) [
  | inl long ↦ rw long (
      go (remove_last_over calls) (remove_last_over-Removal calls)
        (λ rest h'. IsTrimmed-trim fuel rest h'))
  | inr short ↦ rw short (record {
    bounded = inl (ground arith);
    active = refl;
    dropped = ([], sym (append-nil (over_calls calls)));
  })
]
  where
    go :
        (o : Option Registry)
        → Removal calls o
        → ((rest : Registry) → length rest ≤ fuel → IsTrimmed rest (trim fuel rest))
        → IsTrimmed calls (elim o [ none ↦ calls | some rest ↦ trim fuel rest ])
    go none none_over again = record {
      bounded = inr none_over;
      active = refl;
      dropped = ([], sym (append-nil (over_calls calls)));
    }
    go (some rest) less again =
        let ih : IsTrimmed rest (trim fuel rest) = again rest (omega (arith, less.shorter)) in
        record {
          bounded = ih.bounded;
          active = ih.active ∙ less.active;
          dropped = (
            ih.dropped.0 ++ less.oldest.0 ∷ [],
            less.oldest.1
                ∙ ap (λ (l : Registry). l ++ less.oldest.0 ∷ []) ih.dropped.1
                ∙ append_assoc (over_calls (trim fuel rest)) ih.dropped.0 (less.oldest.0 ∷ []),
          );
        }

-- A call that is not known yet: its record is the newest and not over, the active calls stay and
-- gain it, and the registry ends within 200 calls or with no terminated or rejected one left to
-- drop; what it drops are the oldest of those.
pub get_or_create-IsTrimmed :
    (calls : Registry) (call_id : Text) (now : ℕ)
    → get calls call_id ≡ none
    → IsTrimmed (new_record call_id now ∷ calls) (get_or_create calls call_id now).1
unfolding get_or_create
get_or_create-IsTrimmed calls call_id now h =
    rw (h, get_or_create)
      (IsTrimmed-trim (suc (length calls)) (new_record call_id now ∷ calls) (omega arith))

remove_last_over-NoneOver : (calls : Registry) → NoneOver calls → remove_last_over calls ≡ none
unfolding remove_last_over
remove_last_over-NoneOver [] h = refl
remove_last_over-NoneOver (r ∷ rs) h = rw (remove_last_over-NoneOver rs h.1, h.0)

trim-NoneOver : (fuel : ℕ) (calls : Registry) → NoneOver calls → trim fuel calls ≡ calls
unfolding trim
trim-NoneOver zero calls h = refl
trim-NoneOver (suc fuel) calls h = elim (Bool-cases (ltb max_calls (length calls))) [
  | inl long ↦ rw (long, remove_last_over-NoneOver calls h)
  | inr short ↦ rw short
]

abbrev pub AllFailed : Registry → Type 0
AllFailed = All (λ r. r.state ≡ some failed)

AllFailed-NoneOver : (calls : Registry) → AllFailed calls → NoneOver calls
AllFailed-NoneOver [] h = tt
AllFailed-NoneOver (r ∷ rs) h = (rw h.0 refl, AllFailed-NoneOver rs h.1)

-- Failed calls are never dropped: a registry of failed calls grows with every new call, however many
-- it holds already.
get_or_create-AllFailed :
    (calls : Registry) (call_id : Text) (now : ℕ)
    → get calls call_id ≡ none
    → AllFailed calls
    → (get_or_create calls call_id now).1 ≡ new_record call_id now ∷ calls
unfolding get_or_create
get_or_create-AllFailed calls call_id now h failed_calls =
    rw (h, get_or_create)
      (trim-NoneOver (suc (length calls)) (new_record call_id now ∷ calls)
        (unfold new_record in (refl, AllFailed-NoneOver calls failed_calls)))
