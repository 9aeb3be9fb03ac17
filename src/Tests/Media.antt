-- ===== src/Tests/Media.antt =====
-- Concrete media: streams that come in.
use sipbot.Prelude.{
  find_first, ℕ, ◌≡◌, ◌+◌, refl, arith, true, false, none, some, List, [], ◌∷◌, ◌++◌, length, leb,
  ◌&&◌, if◌then◌else◌,
}
use sipbot.Stats.{new}
use sipbot.Dtmf.Digit.{event_to_digit}
use sipbot.Dtmf.Packet.{decode_dtmf}
use sipbot.Media.Frame.{AudioFrame, MediaSample, audio, other}
use sipbot.Media.Nack.{Totals, NackState}
use sipbot.Media.Sample.{Codec, Settings, Session, is_pt, check_ts, process_sample}
use sipbot.Media.Sample.Counting.{
  process_all, Counted, packets_of, events_of, total_of, process_all-Counted,
}
use sipbot.Media.Sample.Recorded.{
  process_recorded_all, packets_in, Heard, process_recorded_all-Heard,
}
use sipbot.Media.Sample.Echo.{process_sample-sent}
use sipbot.Prelude.Text.{Text, codes, is_whitespace, split, to_lowercase, lower, starts_with}
use sipbot.Media.Receive.{Receiver, receive_all as receive_samples}
use sipbot.Media.Receive.Counting.{total_heard, total_digits, receive_all-Counted}
use sipbot.Media.Codecs.{AudioCapability, is_audio_line, order_caps_by_remote_offer}
use sipbot.Dtmf.Sdp.{lines, words}
use sipbot.Media.Codecs.Order.{IsSortedBy, with_key, place, order_caps_by_remote_offer_lem}

-- A codec of one byte for each sample, whose decoder counts its frames.
abbrev plain : Codec
plain = record {
  Sample = ℕ;
  Decoder = ℕ;
  Analyzer = ℕ;
  decode = λ d bytes. (bytes, d + 1);
  analyze = λ a samples ts rate actual. (
    record { mismatch = false; shrill = false; muffled = false; clipping = false; silence = true },
    a + 1,
  );
  resample = λ samples. samples;
}

abbrev settings : Settings
settings = record {
  rtp_clock_rate = 8000;
  actual_sample_rate = 8000;
  telephone_event_pt = some 101;
  audio_silent = false;
  tolerance_ms = 50;
  recording = true;
  now = 7;
}

abbrev session : Session plain
session = record {
  stats = new;
  decoder = 0;
  analyzer = some 0;
  last_seq = some 10;
  last_timestamp = some 160;
  rtp_ts_state = none;
  notified = [];
  recorded_rx = [];
  recorded_tx = [];
  sent = [];
}

abbrev frame : AudioFrame
frame = record {
  rtp_timestamp = 500000;
  payload = 1 ∷ 2 ∷ 3 ∷ [];
  clock_rate = 8000;
  payload_type = some 0;
  marker = false;
  sequence_number = some 14;
}

-- the digit 5 with its end bit
abbrev event_frame : AudioFrame
event_frame = record {
  rtp_timestamp = 163;
  payload = 5 ∷ 138 ∷ 1 ∷ 224 ∷ [];
  clock_rate = 8000;
  payload_type = some 101;
  marker = false;
  sequence_number = some 15;
}

abbrev samples : List MediaSample
samples = audio frame ∷ audio event_frame ∷ other ∷ audio frame ∷ []

process_all-Counted_example :
    Counted plain session
      (process_all plain session samples settings)
      (total_of (packets_of settings) samples)
      (total_of (events_of settings) samples)
unfolding new
process_all-Counted_example =
    process_all-Counted plain samples session settings (omega arith) (omega arith) (omega arith)

samples_counted : total_of (packets_of settings) samples ≡ 2
unfolding decode_dtmf event_to_digit
samples_counted = refl

process_sample-sent_example : (process_sample plain session (audio frame) settings).sent ≡ (
    if is_pt settings.telephone_event_pt frame.payload_type && leb 4 (length frame.payload)
    then session.sent
    else if settings.audio_silent
    then session.sent
    else session.sent
      ++ audio (record frame {
        rtp_timestamp =
            (check_ts session.stats session.last_timestamp frame.rtp_timestamp
              (length (plain.decode session.decoder frame.payload).0)
              settings).0;
        sequence_number = none;
      })
        ∷ [])
process_sample-sent_example = process_sample-sent plain session frame settings

abbrev nacks : NackState
nacks = record { stats = new; last = record { sent = 0; recv = 0; recovered = 0 } }

abbrev seen_totals : List Totals
seen_totals =
    record { sent = 3; recv = 1; recovered = 2 } ∷ record { sent = 3; recv = 4; recovered = 3 } ∷ []

abbrev receiver : Receiver plain (λ pt. pt) none (λ ct. 8000) (λ ct. 8000) (λ ct. 0)
receiver = record { session = session; has_decoder = false; current_pt = none }

receive_all-Counted_example :
    Counted plain session
      (receive_samples plain
        (λ pt. pt)
        none
        (λ ct. 8000)
        (λ ct. 8000)
        (λ ct. 0)
        settings
        receiver
        samples).session
      (total_heard settings false samples)
      (total_digits settings samples)
unfolding new
receive_all-Counted_example =
    receive_all-Counted plain (λ pt. pt) none (λ ct. 8000) (λ ct. 8000) (λ ct. 0) samples settings
      receiver false (record { decoder = refl; no_pt = λ d. refl })
      (record { rx = omega arith; tx = omega arith; dtmf = omega arith })

-- the offer prefers payload type 8
abbrev offer : Text
offer = codes "m=audio 4000 RTP/AVP 8 0"

abbrev cap : ℕ → AudioCapability
cap pt = record {
  payload_type = pt;
  codec_name = codes "PCMU";
  clock_rate = 8000;
  channels = 1;
  fmtp = none;
  rtcp_fbs = [];
}

abbrev offered : List Text
offered = codes "8" ∷ codes "0" ∷ []

audio_line_found : find_first is_audio_line (lines offer) ≡ some offer
unfolding lines split to_lowercase lower starts_with
audio_line_found = refl

audio_line_words : words offer ≡ codes "m=audio" ∷ codes "4000" ∷ codes "RTP/AVP" ∷ offered
unfolding words is_whitespace
audio_line_words = refl

order_caps_by_remote_offer_lem_example :
    IsSortedBy (place offered offer) (order_caps_by_remote_offer (cap 0 ∷ cap 8 ∷ []) offer)
    × ((k : ℕ)
        → with_key (place offered offer) k (order_caps_by_remote_offer (cap 0 ∷ cap 8 ∷ []) offer)
          ≡ with_key (place offered offer) k (cap 0 ∷ cap 8 ∷ []))
order_caps_by_remote_offer_lem_example =
    order_caps_by_remote_offer_lem (cap 0 ∷ cap 8 ∷ []) offer offer (codes "m=audio") (codes "4000")
      (codes "RTP/AVP") offered audio_line_found audio_line_words

process_recorded_all-Heard_example :
    Heard plain session (process_recorded_all plain session samples settings) (packets_in samples)
unfolding new
process_recorded_all-Heard_example =
    process_recorded_all-Heard plain samples session settings (omega arith)
