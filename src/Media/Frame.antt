-- ===== src/Media/Frame.antt =====
-- The media frames of the rustrtc crate, with the fields that src/media.rs reads and writes, and
-- src/media.rs, `build_dtmf_frames`.
use sipbot.Prelude.{
  ℕ, ◌*◌, ◌/◌, ◌<◌, ◌≡◌, List, Option, none, some, Bool, true, false, arith, min, max,
}
use sipbot.Dtmf.Packet.{encode_dtmf, decode_dtmf}

pub record AudioFrame : Type 0 where
  pub rtp_timestamp : ℕ  -- u32
  pub payload : List ℕ  -- `data`
  pub clock_rate : ℕ  -- u32
  pub payload_type : Option ℕ  -- u8
  pub marker : Bool
  pub sequence_number : Option ℕ  -- u16

-- `other` stands for all the samples that are not audio.
pub data MediaSample : Type 0 where
  audio : AudioFrame → MediaSample
  other : MediaSample

-- `clock_rate / 1000 * 60`, at most what an `u16` holds
abbrev pub dtmf_end_duration : ℕ → ℕ
dtmf_end_duration clock_rate = min (clock_rate / 1000 * 60) 65535

unfoldable pub build_dtmf_frames : (event pt clock_rate ts : ℕ) → AudioFrame × AudioFrame
build_dtmf_frames event pt clock_rate ts =
    let rate = max clock_rate 1 in
    (
      record {
        rtp_timestamp = ts;
        payload = encode_dtmf (record { event = event; end = false; volume = 10; duration = 0 });
        clock_rate = rate;
        payload_type = some pt;
        marker = true;
        sequence_number = none;
      },
      record {
        rtp_timestamp = ts;
        payload =
            encode_dtmf (record {
              event = event;
              end = true;
              volume = 10;
              duration = dtmf_end_duration rate;
            });
        clock_rate = rate;
        payload_type = some pt;
        marker = false;
        sequence_number = none;
      },
    )

-- What a receiver decodes from the two frames, for a clock rate that is not 0: the same event, first
-- without and then with the end bit, where the end carries sixty milliseconds in ticks of the clock,
-- or the most that 16 bits hold; and both frames have the given time.
pub build_dtmf_frames_decoded :
    (event pt clock_rate ts : ℕ)
    → 0 < clock_rate
    → (decode_dtmf (build_dtmf_frames event pt clock_rate ts).0.payload
        ≡ some (record { event = event; end = false; volume = 10; duration = 0 }))
      × (decode_dtmf (build_dtmf_frames event pt clock_rate ts).1.payload
          ≡ some (record {
            event = event;
            end = true;
            volume = 10;
            duration = min (clock_rate / 1000 * 60) 65535;
          }))
      × ((build_dtmf_frames event pt clock_rate ts).0.rtp_timestamp ≡ ts)
      × ((build_dtmf_frames event pt clock_rate ts).1.rtp_timestamp ≡ ts)
unfolding build_dtmf_frames encode_dtmf decode_dtmf
build_dtmf_frames_decoded event pt clock_rate ts h = ground arith
