-- ===== src/Config/Flows/Parts.antt =====
-- src/config.rs: flows put together from two flows, and the digits of a parsed flow.
use sipbot.Prelude.{
  ℕ, ◌≤◌, ◌≡◌, ◌⊎◌, inl, inr, refl, ap, subst, ◌∙◌, true, Option, none, some, List, [], ◌∷◌, ◌++◌,
  arith, All,
}
use sipbot.Prelude.Text.{Text, trim, split, split_once}
use sipbot.Prelude.Splitting.{split-append}
use sipbot.Dtmf.Digit.{digit_to_event, position}
use sipbot.Config.Flows.{
  Parsed, ok, failed, panicked, ◌>>=◌, or_failed, parse_parts, is_dtmf_digit, DtmfFlowEntry,
  first_digit, parse_delay, dtmf_entry, parse_dtmf_flows, parse_info_flows, info_entry,
}

-- A flow after another: the first that does not parse is what comes out.
abbrev pub join {ℓ} : {A : Type ℓ} → Parsed (List A) → Parsed (List A) → Parsed (List A)
join a b = a >>= λ es. b >>= λ fs. ok (es ++ fs)

join-nil {ℓ} : {A : Type ℓ} (a : Parsed (List A)) → a ≡ join (ok []) a
join-nil (ok es) = refl
join-nil failed = refl
join-nil panicked = refl

join-cons {ℓ} :
    {A : Type ℓ} (a : Parsed A) (b c : Parsed (List A))
    → (a >>= λ e. join b c >>= λ es. ok (e ∷ es)) ≡ join (a >>= λ e. b >>= λ es. ok (e ∷ es)) c
join-cons (ok e) (ok es) (ok fs) = refl
join-cons (ok e) (ok es) failed = refl
join-cons (ok e) (ok es) panicked = refl
join-cons (ok e) failed c = refl
join-cons (ok e) panicked c = refl
join-cons failed b c = refl
join-cons panicked b c = refl

Blank-cases : (t : Text) → (t ≡ []) ⊎ ((c : ℕ) × (cs : Text) × (t ≡ c ∷ cs))
Blank-cases [] = inl refl
Blank-cases (c ∷ cs) = inr (c, cs, refl)

parse_parts-append {ℓ} :
    {A : Type ℓ} (entry : Text → Parsed A) (ps qs : List Text)
    → parse_parts entry (ps ++ qs) ≡ join (parse_parts entry ps) (parse_parts entry qs)
unfolding parse_parts
parse_parts-append entry [] qs = join-nil (parse_parts entry qs)
parse_parts-append entry (p ∷ ps) qs =
    let ih : parse_parts entry (ps ++ qs) ≡ join (parse_parts entry ps) (parse_parts entry qs) =
      parse_parts-append entry ps qs in
    elim (Blank-cases (trim p)) [
      | inl e ↦ rw (e, parse_parts) ih
      | inr (c, cs, e) ↦
          rw (e, parse_parts)
            (ap (λ r. entry (c ∷ cs) >>= λ x. r >>= λ es. ok (x ∷ es)) ih
              ∙ join-cons (entry (c ∷ cs)) (parse_parts entry ps) (parse_parts entry qs))
    ]

-- The digits that an entry may have: those with an event code, and the letters a to d, which have
-- none.
abbrev pub IsDialed : ℕ → Type 0
IsDialed digit =
    ((event : ℕ) × (digit_to_event digit ≡ some event))
    ⊎ ((b'a' ≤ digit) × (digit ≤ b'd') × (digit_to_event digit ≡ none))

is_dtmf_digit-IsDialed : (c : ℕ) → is_dtmf_digit c ≡ true → IsDialed c
unfolding digit_to_event position
is_dtmf_digit-IsDialed c h = ground arith

bind-ok {ℓ κ} :
    {A : Type ℓ} {B : Type κ} (a : Parsed A) (f : A → Parsed B) (b : B)
    → (a >>= f) ≡ ok b
    → (x : A) × (a ≡ ok x) × (f x ≡ ok b)
bind-ok (ok x) f b h = (x, refl, h)
bind-ok failed f b h = absurd (ground arith)
bind-ok panicked f b h = absurd (ground arith)

ok_injective {ℓ} : {A : Type ℓ} (a b : A) → ok a ≡ ok b → a ≡ b
ok_injective a b h = ground arith

first_digit-IsDialed : (t : Text) (c : ℕ) → first_digit t ≡ ok c → IsDialed c
unfolding first_digit
first_digit-IsDialed [] c h = absurd (ground arith)
first_digit-IsDialed (d ∷ ds) c h = ground (arith, is_dtmf_digit-IsDialed d)

module _ {ℓ κ} {A : Type ℓ} (P : A → Type κ) (entry : Text → Parsed A) where
  parse_parts-All :
      ((part : Text) (a : A) → entry part ≡ ok a → P a)
      → (parts : List Text) (es : List A) → parse_parts entry parts ≡ ok es
      → All P es
  unfolding parse_parts
  parse_parts-All h [] es e = subst (All P) (ok_injective [] es e) (omega arith)
  parse_parts-All h (part ∷ parts) es e = elim (Blank-cases (trim part)) [
    | inl blank ↦ parse_parts-All h parts es (rw (blank, parse_parts) at e)
    | inr (c, cs, full) ↦
        let (a, is_a, e') =
          bind-ok (entry (c ∷ cs)) (λ e. parse_parts entry parts >>= λ es. ok (e ∷ es)) es
            (rw (full, parse_parts) at e) in
        let (as_, is_as, e'') = bind-ok (parse_parts entry parts) (λ es. ok (a ∷ es)) es e' in
        subst (All P) (ok_injective (a ∷ as_) es e'')
          (h (c ∷ cs) a is_a, parse_parts-All h parts as_ is_as)
  ]

module _ {F Duration : Type 0} (parse_f64 : Text → Option F)
    (from_secs_f64 : F → Option Duration) where
  -- Two DTMF flows with a comma between them parse as the one and then the other.
  parse_dtmf_flows-append :
      (s t : Text)
      → parse_dtmf_flows parse_f64 from_secs_f64 (s ++ b',' ∷ t)
        ≡ join
            (parse_dtmf_flows parse_f64 from_secs_f64 s)
            (parse_dtmf_flows parse_f64 from_secs_f64 t)
  unfolding parse_dtmf_flows
  parse_dtmf_flows-append s t =
      rw (split-append b',' s t)
        (parse_parts-append (dtmf_entry parse_f64 from_secs_f64) (split b',' s) (split b',' t))

  -- Two INFO flows with a semicolon between them parse as the one and then the other.
  parse_info_flows-append :
      (s t : Text)
      → parse_info_flows parse_f64 from_secs_f64 (s ++ b';' ∷ t)
        ≡ join
            (parse_info_flows parse_f64 from_secs_f64 s)
            (parse_info_flows parse_f64 from_secs_f64 t)
  unfolding parse_info_flows
  parse_info_flows-append s t =
      rw (split-append b';' s t)
        (parse_parts-append (info_entry parse_f64 from_secs_f64) (split b';' s) (split b';' t))

  dtmf_entry-IsDialed :
      (part : Text) (e : DtmfFlowEntry parse_f64 from_secs_f64)
      → dtmf_entry parse_f64 from_secs_f64 part ≡ ok e
      → IsDialed e.digit
  unfolding dtmf_entry
  dtmf_entry-IsDialed part e h =
      let (p, _, h1) = bind-ok (or_failed (split_once b':' part)) _ e h in
      let (delay, _, h2) = bind-ok (parse_delay parse_f64 from_secs_f64 (trim p.0)) _ e h1 in
      let (digit, is_digit, h3) = bind-ok (first_digit (trim p.1)) _ e h2 in
      subst (λ (c : DtmfFlowEntry parse_f64 from_secs_f64). IsDialed c.digit)
        (ok_injective (record { delay = delay; digit = digit }) e h3)
        (first_digit-IsDialed (trim p.1) digit is_digit)

  -- Every digit of a DTMF flow that parses has an event code, or is one of the letters a to d, which
  -- have none, so that sending them does nothing.
  parse_dtmf_flows-IsDialed :
      (input : Text) (es : List (DtmfFlowEntry parse_f64 from_secs_f64))
      → parse_dtmf_flows parse_f64 from_secs_f64 input ≡ ok es
      → All (λ e. IsDialed e.digit) es
  unfolding parse_dtmf_flows
  parse_dtmf_flows-IsDialed input es h =
      parse_parts-All (λ e. IsDialed e.digit) (dtmf_entry parse_f64 from_secs_f64)
        dtmf_entry-IsDialed (split b',' input) es h
