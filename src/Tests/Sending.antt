-- ===== src/Tests/Sending.antt =====
-- Concrete telephone events and playbacks.
use sipbot.Prelude.{
  ℕ, ◌≡◌, ◌⊎◌, ◌+◌, ◌*◌, ◌-◌, length, replicate, refl, arith, true, false, none, some, List, [],
  ◌∷◌, ◌++◌,
}
use sipbot.Stats.{new}
use sipbot.Dtmf.Digit.{digit_to_event, position}
use sipbot.Dtmf.Packet.{DtmfEvent, decode_dtmf, encode_dtmf, decode_dtmf-encode_dtmf}
use sipbot.Prelude.Text.{Text, codes, to_lowercase, starts_with, split, lower}
use sipbot.Dtmf.Sdp.{TelephoneEventInfo, lines, build_rtpmap_line, parse_telephone_events}
use sipbot.Dtmf.Sdp.Inject.Once.{Injected, inject_telephone_event_sdp_once}
use sipbot.Dtmf.Sdp.Inject.{
  last_index, is_media_line, has_telephone_event, inject_telephone_event_sdp,
}
use sipbot.Dtmf.Sdp.Rtpmap.{parse_telephone_events-build_rtpmap_line}
use sipbot.Media.Playback.{Source, Tick, Playback, play, num_chunks, chunk_size}
use sipbot.Media.Playback.Chunks.{chunks, num_chunks-cover}
use sipbot.Media.Playback.Grid.{Advanced, play-Advanced}
use sipbot.Media.Playback.Once.{frames_of, play_once}
use sipbot.Media.SendDtmf.{Sender, both_sent, send_dtmf, Dialed, send_dtmf-Dialed}

abbrev event : DtmfEvent
event = record { event = 5; end = true; volume = 74; duration = 480 }

decode_dtmf-encode_dtmf_example :
    decode_dtmf (encode_dtmf event) ≡ some (record event { volume = 10 })
decode_dtmf-encode_dtmf_example = decode_dtmf-encode_dtmf event (omega arith)

-- a rate of 100 samples a second, so that a chunk is two samples
abbrev source : Source ℕ
source = record {
  samples = 10 ∷ 20 ∷ 30 ∷ [];
  record_samples = 10 ∷ 20 ∷ 30 ∷ [];
  sample_rate = 100;
  clock_rate = 8000;
  channels = 2;
  payload_type = 0;
  loop_playback = true;
}

abbrev echo_encoder : ℕ → List ℕ → List ℕ × ℕ
echo_encoder e samples = (samples, e + 1)

abbrev playback : Playback 0 echo_encoder
playback = record {
  encoder = 0;
  chunk_index = 0;
  rtp_timestamp = 4294967200;
  rtp_ts_state = none;
  stats = new;
  recorded_tx = [];
  sent = [];
  running = true;
}

abbrev playback_ticks : List Tick
playback_ticks =
    record { now = 0; on_hold = false; accepts = true }
    ∷ record { now = 20; on_hold = true; accepts = true }
    ∷ record { now = 40; on_hold = false; accepts = true }
    ∷ []

play-Advanced_example :
    Advanced 0 echo_encoder source playback (play 0 echo_encoder source playback playback_ticks) 3 2
unfolding new
play-Advanced_example =
    play-Advanced 0 echo_encoder source playback_ticks playback (λ e x xs n. tt) (omega arith) refl
      refl (omega arith) (refl, (refl, (refl, tt))) (omega arith) (omega arith)

abbrev once : Source ℕ
once = record source { loop_playback = false }

num_chunks-cover_example :
    chunks 0 source.samples (chunk_size source) 0 (num_chunks source)
    ≡ source.samples ++ replicate (num_chunks source * chunk_size source - length source.samples) 0
num_chunks-cover_example = num_chunks-cover 0 source (omega arith)

abbrev plain_tick : Tick
plain_tick = record { now = 0; on_hold = false; accepts = true }

play_once_example :
    ((play 0 echo_encoder once playback ((plain_tick ∷ plain_tick ∷ []) ++ plain_tick ∷ [])).sent
      ≡ frames_of 0 echo_encoder once 0 4294967200 0 (num_chunks once))
    × ((play 0 echo_encoder once playback
          ((plain_tick ∷ plain_tick ∷ []) ++ plain_tick ∷ [])).running
        ≡ false)
play_once_example =
    play_once 0 echo_encoder once playback (plain_tick ∷ plain_tick ∷ []) plain_tick
      (λ e x xs n. tt) (omega arith) refl refl refl refl refl ((refl, refl), ((refl, refl), tt))

abbrev sender : Sender
sender = record {
  telephone_event_pt = 101;
  telephone_event_clock_rate = 8000;
  rtp_ts_state = some (1600, 3);
  stats = new;
  sent = [];
  notified = [];
}

send_dtmf-Dialed_example : Dialed sender (send_dtmf sender both_sent 9 77 b'7').0 b'7' 1600 9
unfolding digit_to_event position
send_dtmf-Dialed_example = send_dtmf-Dialed sender 9 77 b'7' 1600 3 7 (omega arith) refl refl

parse_telephone_events-build_rtpmap_line_example :
    parse_telephone_events (build_rtpmap_line 101 48000)
    ≡ record { pt = 101; clock_rate = 48000 } ∷ []
parse_telephone_events-build_rtpmap_line_example =
    parse_telephone_events-build_rtpmap_line 101 48000 (omega arith) (omega arith)

abbrev offer : Text
offer = codes "v=0" ++ 10 ∷ (build_rtpmap_line 97 48000 ++ 10 ∷ build_rtpmap_line 101 8000)

-- an audio line alone
abbrev audio_line : Text
audio_line = codes "m=audio 1 RTP 0"

media_line_found : last_index is_media_line (lines audio_line) ≡ some 0
unfolding last_index lines to_lowercase starts_with split lower
media_line_found = refl

abbrev tone : TelephoneEventInfo
tone = record { pt = 101; clock_rate = 8000 }

inject_telephone_event_sdp_once_example :
    (((has_telephone_event audio_line ≡ true)
        × (inject_telephone_event_sdp audio_line tone ≡ audio_line))
      ⊎ ((has_telephone_event audio_line ≡ false)
          × Injected audio_line tone (inject_telephone_event_sdp audio_line tone)))
    × (inject_telephone_event_sdp
          (inject_telephone_event_sdp audio_line tone)
          (record { pt = 96; clock_rate = 8000 })
        ≡ inject_telephone_event_sdp audio_line tone)
inject_telephone_event_sdp_once_example =
    inject_telephone_event_sdp_once audio_line tone (record { pt = 96; clock_rate = 8000 }) 0
      media_line_found
