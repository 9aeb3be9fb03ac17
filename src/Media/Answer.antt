-- ===== src/Media/Answer.antt =====
-- src/media.rs, `set_remote_answer_typed` and `get_codec_name_from_sdp`: the answer to an offer of
-- the program, provisional (183) or final. The peer connection is the rustrtc crate's.
use sipbot.Prelude.{
  ℕ, ◌≡◌, refl, Bool, true, false, Option, none, some, get_or, List, [], ◌∷◌, ◌++◌, get_elem?,
  find_first, if◌then◌else◌, ◌>>=◌,
}
use sipbot.Prelude.Text.{Text, codes, text_eq, text_eq_self, to_lowercase, starts_with, before}
use sipbot.Prelude.Decimal.{parse_uint, to_string}
use sipbot.Dtmf.Sdp.{TelephoneEventInfo, lines, words, parse_telephone_events}

pub data SdpType : Type 0 where
  answer : SdpType
  pranswer : SdpType

-- The part of a session that an answer changes: the description that the peer connection has of the
-- other side, and the telephone event.
pub record Remote : Type 0 where
  pub description : Option (SdpType × Text)
  pub telephone_event : TelephoneEventInfo

-- What the crate does: whether it can parse a description and takes it, how it prints one that it
-- parsed, which codec a payload type is by itself, and capital letters.
pub record PeerConnection : Type 0 where
  pub parses : SdpType → Text → Bool
  pub takes : Option (SdpType × Text) → SdpType → Text → Bool
  pub print : Text → Text
  pub codec_of_pt : ℕ → Option Text
  pub to_uppercase : Text → Text

module _ (pc : PeerConnection) where
  abbrev is_media_line : Text → Bool
  is_media_line l = starts_with (to_lowercase l) (codes "m=audio")

  abbrev rtpmap_prefix : ℕ → Text
  rtpmap_prefix pt = codes "a=rtpmap:" ++ (to_string pt ++ codes " ")

  -- the name of a payload type: that of its rtpmap line, if there is one
  abbrev name_of : (sdp : Text) → ℕ → Option Text
  name_of sdp pt = elim (find_first (λ l. starts_with l (rtpmap_prefix pt)) (lines sdp)) [
    | some rtpmap ↦ get_elem? (words rtpmap) 1 >>= λ spec. some (pc.to_uppercase (before b'/' spec))
    | none ↦ pc.codec_of_pt pt
  ]

  unfoldable pub get_codec_name_from_sdp : Text → Text
  get_codec_name_from_sdp sdp =
      get_or
        (find_first is_media_line (lines sdp) >>= λ mline.
          get_elem? (words mline) 3 >>= λ pt_str. parse_uint 255 pt_str >>= λ pt. name_of sdp pt)
        (codes "Unknown")

  abbrev is_unchanged : Option (SdpType × Text) → Text → Bool
  is_unchanged none sdp = false
  is_unchanged (some (t, current)) sdp = text_eq (pc.print current) sdp

  abbrev first_event : List TelephoneEventInfo → TelephoneEventInfo → TelephoneEventInfo
  first_event [] old = old
  first_event (info ∷ infos) old = info

  -- The codec's name and the session after it; none is an error.
  unfoldable pub set_remote_answer_typed : SdpType → Text → Remote → Option (Text × Remote)
  unfolding get_codec_name_from_sdp
  set_remote_answer_typed t sdp r =
      let set : Option (Text × Remote) =
        if pc.takes r.description t sdp
        then some (
          get_codec_name_from_sdp sdp,
          record {
            description = some (t, sdp);
            telephone_event = first_event (parse_telephone_events sdp) r.telephone_event;
          },
        )
        else none in
      if pc.parses t sdp
      then (if is_unchanged r.description sdp then some (get_codec_name_from_sdp sdp, r) else set)
      else none

  -- A final answer with the text of the provisional one before it is not given to the peer
  -- connection, which keeps the provisional description.
  set_remote_answer_typed_same :
      (sdp : Text) (r : Remote)
      → pc.print sdp ≡ sdp
      → pc.parses answer sdp ≡ true
      → r.description ≡ some (pranswer, sdp)
      → set_remote_answer_typed answer sdp r ≡ some (get_codec_name_from_sdp sdp, r)
  unfolding set_remote_answer_typed
  set_remote_answer_typed_same sdp r printed parsed there =
      rw (parsed, there, printed, text_eq_self sdp) refl
