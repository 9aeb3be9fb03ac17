-- ===== src/Dtmf/Sdp/Lines.antt =====
-- src/dtmf.rs and src/media.rs: words and lines of an SDP document, and `pick_telephone_event`.
use sipbot.Prelude.{
  ℕ, ◌≡◌, ◌≢◌, ◌⊎◌, inl, inr, refl, sym, ap, ◌∙◌, true, Option, none, some, List, [], ◌∷◌, ◌++◌,
  arith, All, get_elem?, get_or, find_first, ◌==◌, Bool-cases, Option-cases,
}
use sipbot.Prelude.Text.{Text, is_whitespace, starts_with}
use sipbot.Prelude.Spaces.{NoSpace}
use sipbot.Dtmf.Sdp.{
  TelephoneEventInfo, contains, words, parse_telephone_events, pick, pick_telephone_event,
}

words-NoSpace : (c : ℕ) (s : Text) → NoSpace (c ∷ s) → words (c ∷ s) ≡ (c ∷ s) ∷ []
unfolding words
words-NoSpace c [] h = rw (h.0)
words-NoSpace c (d ∷ s) h = rw (h.0, h.1.0, words-NoSpace d s h.1)

pub words-append :
    (c : ℕ) (s : Text) (d : ℕ) (t : Text)
    → NoSpace (c ∷ s)
    → NoSpace (d ∷ t)
    → words (c ∷ s ++ 32 ∷ d ∷ t) ≡ (c ∷ s) ∷ (d ∷ t) ∷ []
unfolding words is_whitespace
words-append c [] d t h k = rw (h.0, words-NoSpace d t k)
words-append c (x ∷ s) d t h k = rw (h.0, h.1.0, words-append x s d t h.1 k)

starts_with-append_self : (p t : Text) → starts_with (p ++ t) p ≡ true
unfolding starts_with
starts_with-append_self [] t = refl
starts_with-append_self (c ∷ p) t = ground (arith, starts_with-append_self p t)

contains-starts_with : (p s : Text) → starts_with s p ≡ true → contains p s ≡ true
unfolding contains
contains-starts_with p [] h = h
contains-starts_with p (c ∷ s) h = rw h

pub contains-append : (p s t : Text) → contains p (s ++ (p ++ t)) ≡ true
unfolding contains
contains-append p [] t = contains-starts_with p (p ++ t) (starts_with-append_self p t)
contains-append p (c ∷ s) t = ground (arith, contains-append p s t)

-- The event is one of the list.
abbrev pub IsOffered : TelephoneEventInfo → List TelephoneEventInfo → Type 0
IsOffered e [] = ⊥
IsOffered e (x ∷ xs) = (x ≡ e) ⊎ IsOffered e xs

abbrev pub NoneAt : ℕ → List TelephoneEventInfo → Type 0
NoneAt audio_clock = All (λ e. e.clock_rate ≢ audio_clock)

abbrev pub at_clock : ℕ → List TelephoneEventInfo → Option TelephoneEventInfo
at_clock audio_clock = find_first (λ e. e.clock_rate == audio_clock)

at_clock-some :
    (audio_clock : ℕ) (xs : List TelephoneEventInfo) (e : TelephoneEventInfo)
    → at_clock audio_clock xs ≡ some e
    → (e.clock_rate ≡ audio_clock) × IsOffered e xs
at_clock-some audio_clock [] e h = absurd (ground arith)
at_clock-some audio_clock (x ∷ xs) e h = elim (Bool-cases (x.clock_rate == audio_clock)) [
  | inl found ↦
      let same : x ≡ e = ground arith in
      let rate : x.clock_rate ≡ audio_clock = ground arith in
      (sym (ap (λ (y : TelephoneEventInfo). y.clock_rate) same) ∙ rate, inl same)
  | inr other ↦
      let (rate, offered) = at_clock-some audio_clock xs e (rw other at h) in (rate, inr offered)
]

at_clock-none :
    (audio_clock : ℕ) (xs : List TelephoneEventInfo)
    → at_clock audio_clock xs ≡ none
    → NoneAt audio_clock xs
at_clock-none audio_clock [] h = tt
at_clock-none audio_clock (x ∷ xs) h = elim (Bool-cases (x.clock_rate == audio_clock)) [
  | inl found ↦ absurd (ground arith)
  | inr other ↦ (ground arith, at_clock-none audio_clock xs (rw other at h))
]

-- How the telephone event of an answer is chosen.
abbrev pub IsPicked : TelephoneEventInfo → List TelephoneEventInfo → ℕ → Type 0
IsPicked e offered audio_clock =
    (IsOffered e offered × (e.clock_rate ≡ audio_clock))
    ⊎ (NoneAt audio_clock offered
        × ((get_elem? offered 0 ≡ some e)
            ⊎ ((offered ≡ []) × (e ≡ record { pt = 101; clock_rate = audio_clock }))))

pick-IsPicked :
    (offered : List TelephoneEventInfo) (audio_clock : ℕ)
    → IsPicked (pick offered audio_clock) offered audio_clock
unfolding pick
pick-IsPicked offered audio_clock = elim (Option-cases (at_clock audio_clock offered)) [
  | inl e ↦ rw (e, pick) (inr (at_clock-none audio_clock offered e, first offered))
  | inr (x, e) ↦
      let (rate, is_offered) = at_clock-some audio_clock offered x e in
      rw (e, pick) (inl (is_offered, rate))
]
  where
    first :
        (xs : List TelephoneEventInfo)
        → (get_elem? xs 0
            ≡ some (get_or (get_elem? xs 0) (record { pt = 101; clock_rate = audio_clock })))
          ⊎ ((xs ≡ [])
              × (get_or (get_elem? xs 0) (record { pt = 101; clock_rate = audio_clock })
                  ≡ record { pt = 101; clock_rate = audio_clock }))
    first [] = inr (refl, refl)
    first (x ∷ xs) = inl refl

-- What is picked for an answer is an offered event at the audio clock; if none is at that clock, the
-- first that is offered, and without any offer the payload type 101 at the audio clock.
pick_telephone_event-IsPicked :
    (sdp : Text) (audio_clock : ℕ)
    → IsPicked (pick_telephone_event sdp audio_clock) (parse_telephone_events sdp) audio_clock
unfolding pick_telephone_event
pick_telephone_event-IsPicked sdp audio_clock =
    pick-IsPicked (parse_telephone_events sdp) audio_clock
