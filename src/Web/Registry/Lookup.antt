-- ===== src/Web/Registry/Lookup.antt =====
-- src/web/state.rs, `CallRegistry`: the registry as a map from call ids.
use sipbot.Prelude.{
  ℕ, zero, suc, ◌≡◌, ◌≢◌, inl, inr, refl, false, [], ◌∷◌, Option, none, some, Option-cases,
  Bool-cases, arith, length, ltb, if◌then◌else◌, All,
}
use sipbot.Prelude.Text.{Text, text_eq, text_eq_iff, text_eq_self}
use sipbot.Web.Record.{CallRecord, new_record}
use sipbot.Web.Registry.{
  Registry, max_calls, is_over, get, remove_last_over, trim, get_or_create, update,
}

-- A first record that is not over stays the first.
trim_front :
    (fuel : ℕ) (r : CallRecord) (rs : Registry)
    → is_over r.state ≡ false
    → (rest : Registry) × (trim fuel (r ∷ rs) ≡ r ∷ rest)
unfolding trim remove_last_over
trim_front zero r rs h = (rs, refl)
trim_front (suc fuel) r rs h = elim (Bool-cases (ltb max_calls (length (r ∷ rs)))) [
  | inl long ↦ elim (Option-cases (remove_last_over rs)) [
    | inl e ↦ (rs, rw (long, e, h))
    | inr (rs', e) ↦ rw (long, e) (trim_front fuel r rs' h)
  ]
  | inr short ↦ (rs, rw short)
]

-- Whatever the registry holds and however full it is, the record that `get_or_create` returns is the
-- one that is found under the call id afterwards.
pub get-get_or_create :
    (calls : Registry) (call_id : Text) (now : ℕ)
    → get (get_or_create calls call_id now).1 call_id ≡ some (get_or_create calls call_id now).0
unfolding get_or_create
get-get_or_create calls call_id now = elim (Option-cases (get calls call_id)) [
  | inl e ↦
      let created : CallRecord = new_record call_id now in
      let (rest, first) =
        trim_front (suc (length calls)) created calls (unfold new_record in refl) in
      rw (e, get_or_create, first) (unfold get new_record in rw (text_eq_self call_id))
  | inr (r, e) ↦ rw (e, get_or_create) e
]

-- A write through one record, which keeps its call id, changes that record alone.
pub get-update :
    (f : CallRecord → CallRecord) (call_id other : Text) (calls : Registry)
    → ((r : CallRecord) → (f r).call_id ≡ r.call_id)
    → get (update f call_id calls) other ≡ (
        if text_eq call_id other
        then (elim (get calls call_id) [ none ↦ none | some r ↦ some (f r) ])
        else get calls other)
unfolding get update
get-update f call_id other [] same = ground arith
get-update f call_id other (r ∷ rs) same = ground (
  arith,
  same r,
  text_eq_iff r.call_id call_id,
  text_eq_iff r.call_id other,
  text_eq_iff call_id other,
  get-update f call_id other rs same,
)

abbrev pub Fresh : Text → Registry → Type 0
Fresh call_id = All (λ r. r.call_id ≢ call_id)

-- No two records have the same call id.
abbrev pub IsUnique : Registry → Type 0
IsUnique [] = Unit
IsUnique (r ∷ rs) = Fresh r.call_id rs × IsUnique rs

-- `rest` is `calls` with some records left out.
abbrev Keeps : Registry → Registry → Type 0
Keeps calls rest =
    ((call_id : Text) → Fresh call_id calls → Fresh call_id rest) × (IsUnique calls → IsUnique rest)

abbrev KeepsIf : Registry → Option Registry → Type 0
KeepsIf calls none = Unit
KeepsIf calls (some rest) = Keeps calls rest

remove_last_over-Keeps : (calls : Registry) → KeepsIf calls (remove_last_over calls)
unfolding remove_last_over
remove_last_over-Keeps [] = tt
remove_last_over-Keeps (r ∷ rs) = go (remove_last_over rs) (remove_last_over-Keeps rs)
  where
    go :
        (o : Option Registry)
        → KeepsIf rs o
        → KeepsIf (r ∷ rs) (elim o [
          | some rs' ↦ some (r ∷ rs')
          | none ↦ if is_over r.state then some rs else none
        ])
    go (some rs') k = (λ call_id h. (h.0, k.0 call_id h.1), λ u. (k.0 r.call_id u.0, k.1 u.1))
    go none k = elim (Bool-cases (is_over r.state)) [
      | inl e ↦ rw e (λ call_id h. h.1, λ u. u.1)
      | inr e ↦ rw e tt
    ]

IsUnique-trim : (fuel : ℕ) (calls : Registry) → IsUnique calls → IsUnique (trim fuel calls)
unfolding trim
IsUnique-trim zero calls u = u
IsUnique-trim (suc fuel) calls u = elim (Bool-cases (ltb max_calls (length calls))) [
  | inl long ↦ rw long (
      go (remove_last_over calls) (remove_last_over-Keeps calls)
        (λ rest v. IsUnique-trim fuel rest v))
  | inr short ↦ rw short u
]
  where
    go :
        (o : Option Registry)
        → KeepsIf calls o
        → ((rest : Registry) → IsUnique rest → IsUnique (trim fuel rest))
        → IsUnique (elim o [ none ↦ calls | some rest ↦ trim fuel rest ])
    go none k again = u
    go (some rest) k again = again rest (k.1 u)

get-none-Fresh :
    (calls : Registry) (call_id : Text) → get calls call_id ≡ none → Fresh call_id calls
unfolding get
get-none-Fresh [] call_id h = tt
get-none-Fresh (r ∷ rs) call_id h = (
  ground (arith, text_eq_iff r.call_id call_id),
  get-none-Fresh rs call_id (ground (arith, text_eq_iff r.call_id call_id)),
)

-- `get_or_create` never makes a second record for a call id.
get_or_create-IsUnique :
    (calls : Registry) (call_id : Text) (now : ℕ)
    → IsUnique calls
    → IsUnique (get_or_create calls call_id now).1
unfolding get_or_create
get_or_create-IsUnique calls call_id now u = elim (Option-cases (get calls call_id)) [
  | inl e ↦
      rw (e, get_or_create)
        (IsUnique-trim (suc (length calls)) (new_record call_id now ∷ calls)
          (unfold new_record in (get-none-Fresh calls call_id e, u)))
  | inr (r, e) ↦ rw (e, get_or_create) u
]
