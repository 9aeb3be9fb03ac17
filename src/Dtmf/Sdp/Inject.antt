-- ===== src/Dtmf/Sdp/Inject.antt =====
-- src/media.rs, `inject_telephone_event_sdp`: a telephone event that is put into an SDP document.
pub mod Once
use sipbot.Prelude.{
  ℕ, zero, suc, ◌≡◌, ◌≤◌, ◌<◌, ◌⊎◌, refl, sym, ap, ◌∙◌, arith, All, get_or, Option-cases, Bool,
  true, false, ◌||◌, Option, none, some, List, [], ◌∷◌, ◌++◌, length, leb, if◌then◌else◌, inl, inr,
  Bool-cases,
}
use sipbot.Prelude.Text.{Text, codes, to_lowercase, lower, starts_with, join}
use sipbot.Prelude.Decimal.{to_string}
use sipbot.Dtmf.Sdp.{TelephoneEventInfo, contains, lines, words, build_rtpmap_line, build_fmtp_line}

-- the index of the last element that fits
unfoldable pub last_index {ℓ} : {A : Type ℓ} → (A → Bool) → List A → Option ℕ
last_index p [] = none
last_index p (x ∷ xs) = elim (last_index p xs) [
  | some i ↦ some (suc i)
  | none ↦ if p x then some 0 else none
]

unfoldable pub set_line : ℕ → (Text → Text) → List Text → List Text
set_line i f [] = []
set_line zero f (l ∷ ls) = f l ∷ ls
set_line (suc i) f (l ∷ ls) = l ∷ set_line i f ls

-- `splice` of an empty range
unfoldable pub insert_at : ℕ → List Text → List Text → List Text
insert_at zero new ls = new ++ ls
insert_at (suc i) new [] = new
insert_at (suc i) new (l ∷ ls) = l ∷ insert_at i new ls

abbrev pub crlf : Text
crlf = 13 ∷ 10 ∷ []

abbrev pub is_media_line : Text → Bool
is_media_line l = starts_with (to_lowercase l) (codes "m=audio")

abbrev pub is_rtpmap_line : Text → Bool
is_rtpmap_line l = starts_with l (codes "a=rtpmap:")

abbrev pub has_telephone_event : Text → Bool
has_telephone_event sdp = contains (codes "telephone-event") (to_lowercase sdp)

-- the payload type at the end of the media line, if that has a codec
unfoldable pub with_pt : Text → Text → Text
with_pt pt_str mline =
    if leb 4 (length (words mline)) then join (codes " ") (words mline ++ pt_str ∷ []) else mline

-- after the last rtpmap line, or after the media line
abbrev pub insert_idx : Option ℕ → ℕ → ℕ
insert_idx none mline_idx = suc mline_idx
insert_idx (some i) mline_idx = suc i

abbrev pub event_lines : TelephoneEventInfo → List Text
event_lines info = build_rtpmap_line info.pt info.clock_rate ∷ build_fmtp_line info.pt ∷ []

unfoldable pub inject_lines : Option ℕ → Option ℕ → TelephoneEventInfo → List Text → List Text
unfolding set_line insert_at with_pt
inject_lines none last_rtpmap_idx info ls = ls
inject_lines (some i) last_rtpmap_idx info ls =
    insert_at (insert_idx last_rtpmap_idx i) (event_lines info)
      (set_line i (with_pt (to_string info.pt)) ls)

unfoldable pub inject_telephone_event_sdp : Text → TelephoneEventInfo → Text
unfolding inject_lines last_index join
inject_telephone_event_sdp sdp info =
    if has_telephone_event sdp
    then sdp
    else join crlf (
        inject_lines (last_index is_media_line (lines sdp)) (last_index is_rtpmap_line (lines sdp))
          info (lines sdp))
      ++ crlf

starts_with-append : (s p rest : Text) → starts_with s p ≡ true → starts_with (s ++ rest) p ≡ true
unfolding starts_with
starts_with-append s [] rest h = refl
starts_with-append [] (p ∷ ps) rest h = absurd cc
starts_with-append (c ∷ s) (p ∷ ps) rest h = ground (arith, starts_with-append s ps rest)

contains_before : (p s rest : Text) → contains p s ≡ true → contains p (s ++ rest) ≡ true
unfolding contains
contains_before p [] [] h = h
contains_before p [] (c ∷ rest) h = rw (contains, starts_with-append [] p (c ∷ rest) h) refl
contains_before p (c ∷ s) rest h = elim (Bool-cases (starts_with (c ∷ s) p)) [
  | inl e ↦ rw (contains, starts_with-append (c ∷ s) p rest e) refl
  | inr e ↦ ground (arith, contains_before p s rest, e, h)
]

contains_after : (p a s : Text) → contains p s ≡ true → contains p (a ++ s) ≡ true
unfolding contains
contains_after p [] s h = h
contains_after p (c ∷ a) s h = ground (arith, contains_after p a s h)

to_lowercase-append : (s t : Text) → to_lowercase (s ++ t) ≡ to_lowercase s ++ to_lowercase t
unfolding to_lowercase
to_lowercase-append [] t = refl
to_lowercase-append (c ∷ s) t = ap (λ r. lower c ∷ r) (to_lowercase-append s t)

has_before : (s rest : Text) → has_telephone_event s ≡ true → has_telephone_event (s ++ rest) ≡ true
has_before s rest h =
    rw (to_lowercase-append s rest)
      (contains_before (codes "telephone-event") (to_lowercase s) (to_lowercase rest) h)

has_after : (a s : Text) → has_telephone_event s ≡ true → has_telephone_event (a ++ s) ≡ true
has_after a s h =
    rw (to_lowercase-append a s)
      (contains_after (codes "telephone-event") (to_lowercase a) (to_lowercase s) h)

rtpmap_line_has : (pt clock_rate : ℕ) → has_telephone_event (build_rtpmap_line pt clock_rate) ≡ true
unfolding build_rtpmap_line contains to_lowercase lower starts_with
rtpmap_line_has pt clock_rate =
    has_after (codes "a=rtpmap:" ++ to_string pt)
      (codes " telephone-event/" ++ to_string clock_rate)
      (has_before (codes " telephone-event/") (to_string clock_rate) refl)

-- one of the lines has a telephone event
any_has : List Text → Bool
any_has [] = false
any_has (l ∷ ls) = has_telephone_event l || any_has ls

any_has-insert_at :
    (i : ℕ) (x : Text) (new ls : List Text)
    → has_telephone_event x ≡ true
    → any_has (insert_at i (x ∷ new) ls) ≡ true
unfolding insert_at any_has
any_has-insert_at zero x new ls h = rw h refl
any_has-insert_at (suc i) x new [] h = rw h refl
any_has-insert_at (suc i) x new (l ∷ ls) h = ground (arith, any_has-insert_at i x new ls h)

any_has-join :
    (sep : Text) (ls : List Text) → any_has ls ≡ true → has_telephone_event (join sep ls) ≡ true
unfolding join any_has
any_has-join sep [] h = absurd cc
any_has-join sep (l ∷ []) h = ground (arith, h)
any_has-join sep (l ∷ next ∷ ls) h = elim (Bool-cases (has_telephone_event l)) [
  | inl e ↦ has_before l (sep ++ join sep (next ∷ ls)) e
  | inr e ↦ has_after l _ (has_after sep _ (any_has-join sep (next ∷ ls) (rw e at h)))
]

pub injected_has :
    (sdp : Text) (info : TelephoneEventInfo) (i : ℕ)
    → last_index is_media_line (lines sdp) ≡ some i
    → has_telephone_event (inject_telephone_event_sdp sdp info) ≡ true
unfolding inject_telephone_event_sdp inject_lines
injected_has sdp info i media = elim (Bool-cases (has_telephone_event sdp)) [
  | inl e ↦ rw (inject_telephone_event_sdp, e) e
  | inr e ↦
      rw (inject_telephone_event_sdp, e, media)
        (has_before _ crlf (
          any_has-join crlf _ (
            any_has-insert_at (insert_idx (last_index is_rtpmap_line (lines sdp)) i) _ _ _
              (rtpmap_line_has info.pt info.clock_rate))))
]

pub left_as_it_is :
    (sdp : Text) (info : TelephoneEventInfo)
    → has_telephone_event sdp ≡ true
    → inject_telephone_event_sdp sdp info ≡ sdp
unfolding inject_telephone_event_sdp
left_as_it_is sdp info has = rw has refl
