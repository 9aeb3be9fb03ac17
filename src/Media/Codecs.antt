-- ===== src/Media/Codecs.antt =====
-- src/media.rs: the codecs of a session: `get_codec_type`, `get_codec_channels`, `get_audio_caps`
-- and `order_caps_by_remote_offer`. The codec types, their names and numbers are of the audio_codec
-- crate, and the three capabilities that it knows by name of the rustrtc crate.

pub mod Order
use mathlib.Core.Option
use sipbot.Prelude.{
  ℕ, suc, Bool, true, false, not, ◌&&◌, ◌==◌, leb, max, Option, none, some, or_else, get_or,
  is_none, List, [], ◌∷◌, ◌++◌, length, drop, keep, find_first, if◌then◌else◌,
}
use sipbot.Prelude.Text.{
  Text, codes, text_eq, trim, to_lowercase, starts_with, strip_prefix, split, split_once,
}
use sipbot.Prelude.Decimal.{parse_uint}
use sipbot.Dtmf.Sdp.{lines, words}

pub record AudioCapability : Type 0 where
  pub payload_type : ℕ  -- u8
  pub codec_name : Text
  pub clock_rate : ℕ  -- u32
  pub channels : ℕ  -- u8
  pub fmtp : Option Text
  pub rtcp_fbs : List Text

-- the codec types of the crate, and what it says of them
pub record CodecTypes : Type 1 where
  pub CodecType : Type 0
  pub opus : CodecType
  pub pcmu : CodecType
  pub pcma : CodecType
  pub g722 : CodecType
  pub g729 : CodecType
  pub of_name : Text → Option CodecType
  pub of_pt : ℕ → Option CodecType
  pub capability : CodecType → AudioCapability  -- numbers, debug name and `nack`, without `fmtp`
  pub channels : CodecType → ℕ
  pub pcmu_cap : AudioCapability
  pub pcma_cap : AudioCapability
  pub opus_cap : AudioCapability

module _ (types : CodecTypes) where
  -- a capability's codec: by its name in lower case, or by what the crate reads
  unfoldable pub type_of_name : Text → Option types.CodecType
  type_of_name codec_name =
      let name = to_lowercase codec_name in
      if text_eq name (codes "opus")
      then some types.opus
      else if text_eq name (codes "pcmu")
      then some types.pcmu
      else if text_eq name (codes "pcma")
      then some types.pcma
      else if text_eq name (codes "g722")
      then some types.g722
      else if text_eq name (codes "g729")
      then some types.g729
      else types.of_name codec_name

  abbrev cap_with_pt : ℕ → List AudioCapability → Option AudioCapability
  cap_with_pt pt caps = find_first (λ a. a.payload_type == pt) caps

  unfoldable pub type_by_pt : Option ℕ → List AudioCapability → Option types.CodecType
  unfolding type_of_name
  type_by_pt none caps = none
  type_by_pt (some p) caps = elim (cap_with_pt p caps) [
    | none ↦ none
    | some a ↦ type_of_name a.codec_name
  ]

  unfoldable pub type_by_range : Option ℕ → Option types.CodecType
  type_by_range none = none
  type_by_range (some p) = types.of_pt p

  -- the codec of a single capability
  unfoldable pub type_if_single : List AudioCapability → Option types.CodecType
  unfolding type_of_name
  type_if_single [] = none
  type_if_single (a ∷ []) = type_of_name a.codec_name
  type_if_single (a ∷ b ∷ caps) = none

  -- no capabilities at all are as good as an empty list of them
  unfoldable pub get_codec_type : Option ℕ → Option (List AudioCapability) → types.CodecType
  unfolding type_by_pt type_by_range type_if_single
  get_codec_type pt caps =
      let list = get_or caps [] in
      get_or (or_else (type_by_pt pt list) (or_else (type_by_range pt) (type_if_single list)))
        types.pcmu

  unfoldable pub get_codec_channels : Option ℕ → Option (List AudioCapability) → types.CodecType → ℕ
  get_codec_channels none caps ct = types.channels ct
  get_codec_channels (some p) caps ct = elim (cap_with_pt p (get_or caps [])) [
    | none ↦ types.channels ct
    | some cap ↦ max cap.channels 1
  ]

  abbrev opus_fmtp : Text
  opus_fmtp = codes "minptime=10;useinbandfec=1;stereo=1;sprop-stereo=0"

  -- the capability of a configured codec; an unknown one is left out
  unfoldable pub cap_of : Text → Option AudioCapability
  cap_of codec =
      let name = to_lowercase codec in
      if text_eq name (codes "pcmu")
      then some types.pcmu_cap
      else if text_eq name (codes "pcma")
      then some types.pcma_cap
      else if text_eq name (codes "opus")
      then some (record types.opus_cap { fmtp = some opus_fmtp })
      else Option.map types.capability (types.of_name codec)

  unfoldable pub without_nack : Bool → AudioCapability → AudioCapability
  without_nack nack_enabled cap = record cap {
    rtcp_fbs =
        if nack_enabled
        then cap.rtcp_fbs
        else keep (λ fb. not (text_eq fb (codes "nack"))) cap.rtcp_fbs;
  }

  unfoldable pub caps_of : Bool → List Text → List AudioCapability
  unfolding cap_of without_nack
  caps_of nack_enabled [] = []
  caps_of nack_enabled (codec ∷ codecs) =
      let rest = caps_of nack_enabled codecs in
      elim (cap_of codec) [ none ↦ rest | some cap ↦ without_nack nack_enabled cap ∷ rest ]

  abbrev default_codecs : List Text
  default_codecs = codes "pcmu" ∷ codes "pcma" ∷ codes "g722" ∷ codes "g729" ∷ codes "opus" ∷ []

  unfoldable pub get_audio_caps : Option (List Text) → Bool → List AudioCapability
  unfolding caps_of
  get_audio_caps codecs nack_enabled = elim (caps_of nack_enabled (get_or codecs default_codecs)) [
    | [] ↦ types.pcmu_cap ∷ []
    | cap ∷ caps ↦ cap ∷ caps
  ]

-- `usize::MAX`
abbrev pub unknown_position : ℕ
unknown_position = 18446744073709551615

-- the position of the first of equal entries
unfoldable pub pt_position : ℕ → ℕ → List Text → Option ℕ
pt_position pt i [] = none
pt_position pt i (tok ∷ toks) =
    let rest = pt_position pt (suc i) toks in
    elim (parse_uint 255 tok) [ none ↦ rest | some p ↦ if p == pt then some i else rest ]

abbrev pub is_audio_line : Text → Bool
is_audio_line l = starts_with (to_lowercase l) (codes "m=audio")

-- the payload types of the first audio line
unfoldable pub offered_pts : Text → List Text
offered_pts remote_sdp = elim (find_first is_audio_line (lines remote_sdp)) [
  | none ↦ []
  | some mline ↦ drop 3 (words mline)
]

-- `split('/').next()` is always there
abbrev first_part : List Text → Text
first_part [] = []
first_part (part ∷ parts) = part

-- the codec name of an rtpmap line, in lower case
unfoldable pub rtpmap_name : Text → Option Text
rtpmap_name line = elim (strip_prefix (to_lowercase line) (codes "a=rtpmap:")) [
  | none ↦ none
  | some rest ↦ Option.map (λ p. trim (first_part (split b'/' p.1))) (split_once b' ' rest)
]

unfoldable pub name_position : Text → ℕ → List Text → Option ℕ
unfolding rtpmap_name
name_position name i [] = none
name_position name i (line ∷ rest) =
    let later = name_position name (suc i) rest in
    elim (rtpmap_name line) [ none ↦ later | some n ↦ if text_eq n name then some i else later ]

-- the key by which the capabilities are sorted
unfoldable pub offer_position : Text → AudioCapability → ℕ
unfolding pt_position offered_pts name_position
offer_position remote_sdp cap =
    get_or
      (or_else (pt_position cap.payload_type 0 (offered_pts remote_sdp))
        (name_position (to_lowercase cap.codec_name) 0 (lines remote_sdp)))
      unknown_position

-- `sort_by_key`, which is stable
unfoldable pub insert_by {ℓ} : {A : Type ℓ} → (A → ℕ) → A → List A → List A
insert_by key x [] = x ∷ []
insert_by key x (y ∷ ys) = if leb (key x) (key y) then x ∷ y ∷ ys else y ∷ insert_by key x ys

unfoldable pub sort_by_key {ℓ} : {A : Type ℓ} → (A → ℕ) → List A → List A
unfolding insert_by
sort_by_key key [] = []
sort_by_key key (x ∷ xs) = insert_by key x (sort_by_key key xs)

unfoldable pub order_caps_by_remote_offer : List AudioCapability → Text → List AudioCapability
unfolding sort_by_key offer_position
order_caps_by_remote_offer caps remote_sdp = sort_by_key (offer_position remote_sdp) caps
