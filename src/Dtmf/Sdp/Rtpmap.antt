-- ===== src/Dtmf/Sdp/Rtpmap.antt =====
-- src/dtmf.rs, `build_rtpmap_line` and `parse_telephone_events`: printing and reading.
use sipbot.Prelude.{
  ℕ, subst, ◌+◌, ◌<◌, ◌≡◌, ◌≢◌, inl, inr, refl, sym, ap, ◌∙◌, true, false, ◌&&◌, some, [], ◌∷◌,
  ◌++◌, map, arith, if◌then◌else◌, append_assoc, leb,
}
use sipbot.Prelude.Text.{
  Text, codes, is_whitespace, trim, trim_start, trim_end, to_lowercase, lower, split,
}
use sipbot.Prelude.Decimal.{
  parse_uint, to_string, parse_uint-to_string, AreDigits, to_string-AreDigits,
}
use sipbot.Prelude.Spaces.{
  Lacks, NoSpace, AreDigits-Lacks, AreDigits-NoSpace, All-join, trim_end-NoSpace,
}
use sipbot.Dtmf.Sdp.{
  TelephoneEventInfo, contains, words, lines, end_lines, build_rtpmap_line, number_in, parse_line,
  events_of, parse_telephone_events,
}
use sipbot.Prelude.Splitting.{split-Lacks}
use sipbot.Dtmf.Sdp.Lines.{words-append, contains-append}

trim_end-tail : (s : Text) (d : ℕ) (t : Text) → NoSpace (d ∷ t) → trim_end (s ++ d ∷ t) ≡ s ++ d ∷ t
unfolding trim_end
trim_end-tail [] d t h = trim_end-NoSpace (d ∷ t) h
trim_end-tail (c ∷ []) d t h = rw (trim_end-NoSpace (d ∷ t) h)
trim_end-tail (c ∷ x ∷ s) d t h = rw (trim_end-tail (x ∷ s) d t h)

lower-AreDigits : (s : Text) → AreDigits s → map lower s ≡ s
unfolding lower
lower-AreDigits [] h = refl
lower-AreDigits (c ∷ s) h =
    let same : (if leb b'A' c && leb c b'Z' then c + 32 else c) ≡ c = ground arith in
    rw (same, lower-AreDigits s h.2)

lower-append : (s t : Text) → map lower (s ++ t) ≡ map lower s ++ map lower t
lower-append [] t = refl
lower-append (c ∷ s) t = ap (λ r. lower c ∷ r) (lower-append s t)

-- The line with its two numbers as texts.
abbrev line_of : Text → Text → Text
line_of p r = codes "a=rtpmap:" ++ (p ++ (codes " telephone-event/" ++ r))

lower-line_of : (p r : Text) → AreDigits p → AreDigits r → to_lowercase (line_of p r) ≡ line_of p r
unfolding to_lowercase lower
lower-line_of p r hp hr =
    let rest : Text = codes " telephone-event/" ++ r in
    ap (λ t. codes "a=rtpmap:" ++ t)
      (lower-append p rest
        ∙ ap (λ t. t ++ map lower rest) (lower-AreDigits p hp)
        ∙ ap (λ t. p ++ (codes " telephone-event/" ++ t)) (lower-AreDigits r hr))

-- the line cut in front of its second word
line_of_words :
    (p r : Text)
    → line_of p r ≡ (codes "a=rtpmap:" ++ (p ++ 32 ∷ [])) ++ (codes "telephone-event/" ++ r)
line_of_words p r =
    ap (λ t. codes "a=rtpmap:" ++ t)
      (sym (append_assoc p (32 ∷ []) (codes "telephone-event/" ++ r)))

NoSpace-tag : NoSpace (codes "telephone-event/")
unfolding is_whitespace
NoSpace-tag = ground arith

NoSpace-word : (r : Text) → AreDigits r → NoSpace (codes "telephone-event/" ++ r)
NoSpace-word r hr =
    All-join (λ c. is_whitespace c ≡ false) (codes "telephone-event/") r NoSpace-tag
      (AreDigits-NoSpace r hr)

trim-line_of : (p r : Text) → AreDigits r → trim (line_of p r) ≡ line_of p r
unfolding trim trim_start is_whitespace
trim-line_of p r hr =
    subst (λ t. trim_end t ≡ t) (sym (line_of_words p r))
      (trim_end-tail (codes "a=rtpmap:" ++ (p ++ 32 ∷ [])) b't' (codes "elephone-event/" ++ r)
        (NoSpace-word r hr))

words-line_of :
    (p r : Text)
    → AreDigits p
    → AreDigits r
    → words (line_of p r) ≡ (codes "a=rtpmap:" ++ p) ∷ (codes "telephone-event/" ++ r) ∷ []
unfolding is_whitespace
words-line_of p r hp hr =
    words-append b'a' (codes "=rtpmap:" ++ p) b't' (codes "elephone-event/" ++ r)
      (refl, (refl, (refl, (refl, (refl, (refl, (refl, (refl, (refl, AreDigits-NoSpace p hp)))))))))
      (NoSpace-word r hr)

contains-line_of : (p r : Text) → contains (codes "telephone-event") (line_of p r) ≡ true
contains-line_of p r =
    subst (λ t. contains (codes "telephone-event") t ≡ true) (sym (line_of_words p r))
      (contains-append (codes "telephone-event") (codes "a=rtpmap:" ++ (p ++ 32 ∷ [])) (b'/' ∷ r))

number_in-pt :
    (p : Text) (pt : ℕ)
    → AreDigits p
    → parse_uint 255 p ≡ some pt
    → number_in b':' 255 (some (codes "a=rtpmap:" ++ p)) ≡ some pt
unfolding split
number_in-pt p pt hp e = rw (split-Lacks b':' p (AreDigits-Lacks b':' p (inr (omega arith)) hp)) e

number_in-rate :
    (r : Text) (rate : ℕ)
    → AreDigits r
    → parse_uint 4294967295 r ≡ some rate
    → number_in b'/' 4294967295 (some (codes "telephone-event/" ++ r)) ≡ some rate
unfolding split
number_in-rate r rate hr e =
    rw (split-Lacks b'/' r (AreDigits-Lacks b'/' r (inl (omega arith)) hr)) e

parse_line-line_of :
    (p r : Text) (pt rate : ℕ)
    → AreDigits p
    → AreDigits r
    → parse_uint 255 p ≡ some pt
    → parse_uint 4294967295 r ≡ some rate
    → parse_line (line_of p r) ≡ some (record { pt = pt; clock_rate = rate })
unfolding parse_line
parse_line-line_of p r pt rate hp hr ep er = rw (
  parse_line,
  lower-line_of p r hp hr,
  trim-line_of p r hr,
  contains-line_of p r,
  words-line_of p r hp hr,
  number_in-pt p pt hp ep,
  number_in-rate r rate hr er,
)

Lacks-prefix : Lacks 10 (codes "a=rtpmap:")
Lacks-prefix = ground arith

Lacks-tag : Lacks 10 (codes " telephone-event/")
Lacks-tag = ground arith

lines-line_of : (p r : Text) → AreDigits p → AreDigits r → lines (line_of p r) ≡ line_of p r ∷ []
unfolding lines end_lines
lines-line_of p r hp hr = rw (
    split-Lacks 10 (line_of p r) (
      All-join (λ d. d ≢ 10) (codes "a=rtpmap:") (p ++ (codes " telephone-event/" ++ r))
        Lacks-prefix
        (All-join (λ d. d ≢ 10) p (codes " telephone-event/" ++ r)
          (AreDigits-Lacks 10 p (inl (omega arith)) hp)
          (All-join (λ d. d ≢ 10) (codes " telephone-event/") r Lacks-tag
            (AreDigits-Lacks 10 r (inl (omega arith)) hr)))))

events_of-one :
    (line : Text) (e : TelephoneEventInfo)
    → parse_line line ≡ some e
    → events_of (line ∷ []) ≡ e ∷ []
unfolding events_of
events_of-one line e h = rw (events_of, h)

-- The line that is written for a telephone event, with a payload type of 8 and a clock rate of 32
-- bits, is read back as that event and no other.
pub parse_telephone_events-build_rtpmap_line :
    (pt clock_rate : ℕ)
    → pt < 256
    → clock_rate < 4294967296
    → parse_telephone_events (build_rtpmap_line pt clock_rate)
      ≡ record { pt = pt; clock_rate = clock_rate } ∷ []
unfolding parse_telephone_events build_rtpmap_line lines events_of
parse_telephone_events-build_rtpmap_line pt clock_rate h k =
    let p : AreDigits (to_string pt) = to_string-AreDigits pt in
    let r : AreDigits (to_string clock_rate) = to_string-AreDigits clock_rate in
    rw (parse_telephone_events, lines-line_of (to_string pt) (to_string clock_rate) p r)
      (events_of-one (line_of (to_string pt) (to_string clock_rate))
        (record { pt = pt; clock_rate = clock_rate })
        (parse_line-line_of (to_string pt) (to_string clock_rate) pt clock_rate p r
          (parse_uint-to_string 255 pt (omega arith))
          (parse_uint-to_string 4294967295 clock_rate (omega arith))))
