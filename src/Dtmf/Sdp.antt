-- ===== src/Dtmf/Sdp.antt =====
-- src/dtmf.rs and src/media.rs: telephone events in an SDP document, and the one that is answered.
pub mod Lines
pub mod Inject
pub mod Rtpmap
use mathlib.Core.Option
pub mod Caps
use sipbot.Prelude.{
  ℕ, ◌≡◌, refl, Bool, true, false, not, ◌||◌, Option, none, some, List, [], ◌∷◌, ◌++◌, map,
  get_elem?, get_or, or_else, find_first, ◌==◌, if◌then◌else◌, ◌>>=◌,
}
use sipbot.Prelude.Text.{Text, codes, is_whitespace, trim, to_lowercase, starts_with, split}
use sipbot.Prelude.Decimal.{parse_uint, to_string}

abbrev pub dtmf_telephone_event_pt : ℕ
dtmf_telephone_event_pt = 101

abbrev pub dtmf_clock_rate : ℕ
dtmf_clock_rate = 8000

pub record TelephoneEventInfo : Type 0 where
  pub pt : ℕ  -- u8
  pub clock_rate : ℕ  -- u32

-- `contains`
unfoldable pub contains : Text → Text → Bool
contains part [] = starts_with [] part
contains part (c ∷ cs) = starts_with (c ∷ cs) part || contains part cs

strip_cr : Text → Text
strip_cr [] = []
strip_cr (c ∷ []) = if c == 13 then [] else c ∷ []
strip_cr (c ∷ d ∷ ds) = c ∷ strip_cr (d ∷ ds)

-- What follows the last line feed is a line if it is not empty.
end_lines : List Text → List Text
unfolding strip_cr
end_lines [] = []
end_lines ([] ∷ []) = []
end_lines ((c ∷ cs) ∷ []) = (c ∷ cs) ∷ []
end_lines (part ∷ next ∷ parts) = strip_cr part ∷ end_lines (next ∷ parts)

-- `lines`
unfoldable pub lines : Text → List Text
unfolding end_lines
lines s = end_lines (split 10 s)

attach : ℕ → List Text → List Text
attach c [] = (c ∷ []) ∷ []
attach c (word ∷ rest) = (c ∷ word) ∷ rest

-- `split_whitespace`
unfoldable pub words : Text → List Text
unfolding attach
words [] = []
words (c ∷ []) = if is_whitespace c then [] else (c ∷ []) ∷ []
words (c ∷ d ∷ ds) =
    let rest = words (d ∷ ds) in
    if is_whitespace c then rest else if is_whitespace d then (c ∷ []) ∷ rest else attach c rest

unfoldable pub build_rtpmap_line : (pt clock_rate : ℕ) → Text
build_rtpmap_line pt clock_rate =
    codes "a=rtpmap:" ++ (to_string pt ++ (codes " telephone-event/" ++ to_string clock_rate))

unfoldable pub build_fmtp_line : ℕ → Text
build_fmtp_line pt = codes "a=fmtp:" ++ (to_string pt ++ codes " 0-16")

-- a word's part behind the first separator, read as a number
abbrev pub number_in : ℕ → ℕ → Option Text → Option ℕ
number_in sep bound word = do w ← word; part ← get_elem? (split sep w) 1; parse_uint bound part

unfoldable pub parse_line : Text → Option TelephoneEventInfo
unfolding contains words
parse_line line =
    let parts = words line in
    if contains (codes "telephone-event") (trim (to_lowercase line))
    then Option.map
        (λ pt. record {
          pt = pt;
          clock_rate = get_or (number_in b'/' 4294967295 (get_elem? parts 1)) dtmf_clock_rate;
        })
        (number_in b':' 255 (get_elem? parts 0))
    else none

-- the loop over the lines
unfoldable pub events_of : List Text → List TelephoneEventInfo
unfolding parse_line
events_of [] = []
events_of (line ∷ rest) =
    let events = events_of rest in
    elim (parse_line line) [ none ↦ events | some event ↦ event ∷ events ]

unfoldable pub parse_telephone_events : Text → List TelephoneEventInfo
unfolding lines events_of
parse_telephone_events sdp = events_of (lines sdp)

unfoldable pub parse_telephone_event_pt : Text → Option ℕ
parse_telephone_event_pt sdp = Option.map (λ e. e.pt) (get_elem? (parse_telephone_events sdp) 0)

unfoldable pub sdp_has_telephone_event : Text → Bool
sdp_has_telephone_event sdp = contains (codes "telephone-event") (to_lowercase sdp)

-- `pick_telephone_event` of src/media.rs
unfoldable pub pick : List TelephoneEventInfo → ℕ → TelephoneEventInfo
pick offered audio_clock =
    get_or (or_else (find_first (λ e. e.clock_rate == audio_clock) offered) (get_elem? offered 0))
      (record { pt = dtmf_telephone_event_pt; clock_rate = audio_clock })

unfoldable pub pick_telephone_event : Text → ℕ → TelephoneEventInfo
unfolding pick
pick_telephone_event remote_sdp audio_clock = pick (parse_telephone_events remote_sdp) audio_clock
