-- ===== src/Dtmf/Sdp/Caps.antt =====
-- src/dtmf.rs, `inject_telephone_event_caps`: a telephone event with a payload type of its own.
pub mod Free
use sipbot.Prelude.{
  ℕ, zero, suc, ◌+◌, Bool, true, false, ◌||◌, ◌%◌, Option, none, some, List, [], ◌∷◌, ◌++◌, drop,
  length, leb, ltb, get_or, take, get_elem?, if◌then◌else◌, ◌>>=◌,
}
use sipbot.Prelude.Text.{Text, codes, to_lowercase, starts_with, text_eq, join}
use sipbot.Prelude.Decimal.{to_string}
use sipbot.Dtmf.Sdp.{contains, lines, words, build_rtpmap_line, build_fmtp_line, dtmf_clock_rate}
use sipbot.Dtmf.Sdp.Inject.{
  last_index, set_line, insert_at, crlf, is_media_line, has_telephone_event,
}

unfoldable pub has : List Text → Text → Bool
has [] s = false
has (p ∷ ps) s = text_eq p s || has ps s

-- The loop that looks for a payload type that is not there: a number of 8 bits, which panics past
-- 255. The fuel may run out.
unfoldable pub free_pt : (fuel : ℕ) → (audio_pts : List Text) → (new_pt : ℕ) → Option ℕ
unfolding has
free_pt zero audio_pts new_pt = none
free_pt (suc fuel) audio_pts new_pt =
    let next = if ltb new_pt 255 then free_pt fuel audio_pts (suc new_pt) else none in
    if has audio_pts (to_string new_pt) then next else some new_pt

-- The payload types of a media line.
abbrev pub pts_of : List Text → List Text
pts_of parts = if leb 4 (length parts) then drop 3 parts else []

-- The new line, with the payload type before the old ones. A line of fewer than three words panics.
abbrev pub with_first_pt : ℕ → List Text → Option Text
with_first_pt new_pt parts =
    if leb 3 (length parts)
    then some (join (codes " ") (take 3 parts ++ (to_string new_pt ∷ drop 3 parts)))
    else none

-- as `starts_with` of the line in small letters
abbrev pub is_lower_rtpmap : Text → Bool
is_lower_rtpmap l = starts_with (to_lowercase l) (codes "a=rtpmap:")

unfoldable pub inject_caps_lines : ℕ → List Text → Option (List Text)
unfolding last_index set_line insert_at free_pt
inject_caps_lines pt ls = elim (last_index is_media_line ls) [
  | none ↦ some ls
  | some mline_idx ↦
      let parts = words (get_or (get_elem? ls mline_idx) []) in
      let idx = get_or (last_index is_lower_rtpmap ls) mline_idx in
      free_pt (suc (length (pts_of parts))) (pts_of parts) pt >>= λ new_pt.
      with_first_pt new_pt parts >>= λ new_mline. some (
        insert_at (suc idx) (build_rtpmap_line new_pt dtmf_clock_rate ∷ build_fmtp_line new_pt ∷ [])
          (set_line mline_idx (λ l. new_mline) ls))
]

-- `none` is a panic.
unfoldable pub inject_telephone_event_caps : Text → ℕ → Option Text
unfolding inject_caps_lines join
inject_telephone_event_caps sdp pt =
    if has_telephone_event sdp
    then some sdp
    else inject_caps_lines pt (lines sdp) >>= λ ls. some (join crlf ls ++ crlf)
