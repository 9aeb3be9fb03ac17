-- ===== src/Media/Receive.antt =====
-- src/media.rs, `spawn_audio_loop_into`: the loop that takes the samples of a track, without the
-- jitter buffer; with it the samples come out of the buffer, of the rustrtc crate, and each is
-- taken by the same code. The codec of a payload type, its rates and its decoder are functions of
-- the section; the resampler of the recorder is that of `Codec`.
pub mod Counting
use sipbot.Prelude.{
  ℕ, Bool, true, false, ◌&&◌, ◌==◌, ltb, leb, Option, none, some, List, [], ◌∷◌, length, not,
  if◌then◌else◌,
}
use sipbot.Media.Frame.{AudioFrame, MediaSample, audio, other}
use sipbot.Media.Sample.{Codec, Settings, Session, is_pt, take_dtmf, process_sample}

-- the payload type of telephone events, where 0 stands for none
unfoldable pub te_pt_of : ℕ → Option ℕ
te_pt_of telephone_event_pt = if ltb 0 telephone_event_pt then some telephone_event_pt else none

abbrev pub same_pt : Option ℕ → Option ℕ → Bool
same_pt none none = true
same_pt none (some q) = false
same_pt (some p) none = false
same_pt (some p) (some q) = p == q

module _ (codec : Codec) {CodecType : Type 0} (codec_type : Option ℕ → CodecType) (pcmu : CodecType)
    (clock_rate samplerate : CodecType → ℕ) (create_decoder : CodecType → codec.Decoder) where
  -- The state of the loop; the decoder of the session counts only once there is one.
  pub record Receiver : Type 0 where
    pub session : Session codec
    pub has_decoder : Bool
    pub current_pt : Option ℕ

  -- a new payload type gets a new decoder
  unfoldable pub change_pt : Option ℕ → Receiver → Receiver
  change_pt none s = record s { current_pt = none }
  change_pt (some pt) s = record s {
    current_pt = some pt;
    has_decoder = true;
    session = record s.session { decoder = create_decoder (codec_type (some pt)) };
  }

  unfoldable pub follow_pt : Option ℕ → Receiver → Receiver
  unfolding change_pt
  follow_pt pt s = if same_pt s.current_pt pt then s else change_pt pt s

  -- the settings for one codec
  abbrev pub settings_for : Settings → CodecType → Settings
  settings_for c ct = record c {
    rtp_clock_rate = clock_rate ct;
    actual_sample_rate = samplerate ct;
  }

  -- what a decoder is there for; before the first one a sample is dropped
  unfoldable pub process : MediaSample → Settings → Receiver → Receiver
  process other c s = record s {
    session =
        if s.has_decoder
        then process_sample codec s.session other (settings_for c pcmu)
        else s.session;
  }
  process (audio frame) c s =
      let ct = codec_type frame.payload_type in
      record s {
        session =
            if s.has_decoder
            then process_sample codec s.session
                (audio (record frame { clock_rate = clock_rate ct })) (settings_for c ct)
            else s.session;
      }

  -- A telephone event of less than four bytes is dropped, and the others go to no decoder.
  unfoldable pub receive_audio : Bool → Settings → Receiver → AudioFrame → Receiver
  unfolding follow_pt process
  receive_audio true c s frame = record s {
    session = if leb 4 (length frame.payload) then take_dtmf codec s.session frame else s.session;
  }
  receive_audio false c s frame = process (audio frame) c (follow_pt frame.payload_type s)

  unfoldable pub receive : Settings → Receiver → MediaSample → Receiver
  unfolding receive_audio process
  receive c s other = process other c s
  receive c s (audio frame) =
      receive_audio (is_pt c.telephone_event_pt frame.payload_type) c s frame

  unfoldable pub receive_all : Settings → Receiver → List MediaSample → Receiver
  unfolding receive
  receive_all c s [] = s
  receive_all c s (x ∷ xs) = receive_all c (receive c s x) xs
