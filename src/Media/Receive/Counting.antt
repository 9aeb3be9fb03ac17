-- ===== src/Media/Receive/Counting.antt =====
-- src/media.rs, `spawn_audio_loop_into`: the counters over many samples.
use sipbot.Prelude.{
  ℕ, ◌+◌, ◌<◌, ◌≡◌, refl, sym, ap, subst, ◌∙◌, List, [], ◌∷◌, Option, none, some, Bool, true, false,
  arith, length, leb, ◌||◌, not, is_none, if◌then◌else◌, add_u64, Bool-cases, inl, inr,
}
use sipbot.Stats.{CallStats}
use sipbot.Media.Frame.{AudioFrame, MediaSample, audio, other}
use sipbot.Media.Sample.{Codec, Settings, Session, is_pt, take_dtmf, process_sample}
use sipbot.Media.Sample.Counting.{
  Counted, digits_in, is_event, events_of, take_dtmf-Counted, process_sample-Counted,
}
use sipbot.Media.Receive.{
  Receiver, same_pt, change_pt, follow_pt, settings_for, process, receive_audio, receive,
  receive_all,
}

-- Whether there is a decoder after a packet that is an event or is not, and after a sample.
abbrev pub hears_packet : (event has : Bool) → Option ℕ → Bool
hears_packet true has pt = has
hears_packet false has pt = has || not (is_none pt)

abbrev pub hears : Settings → Bool → MediaSample → Bool
hears c has other = has
hears c has (audio frame) =
    hears_packet (is_pt c.telephone_event_pt frame.payload_type) has frame.payload_type

-- A packet counts if it is no event and there is a decoder for it.
abbrev pub heard_packet : (event has : Bool) → Option ℕ → ℕ
heard_packet true has pt = 0
heard_packet false has pt = if has || not (is_none pt) then 1 else 0

abbrev pub packets_heard : Settings → Bool → MediaSample → ℕ
packets_heard c has other = 0
packets_heard c has (audio frame) =
    heard_packet (is_pt c.telephone_event_pt frame.payload_type) has frame.payload_type

abbrev pub total_heard : Settings → Bool → List MediaSample → ℕ
total_heard c has [] = 0
total_heard c has (x ∷ xs) = packets_heard c has x + total_heard c (hears c has x) xs

abbrev pub total_digits : Settings → List MediaSample → ℕ
total_digits c [] = 0
total_digits c (x ∷ xs) = events_of c x + total_digits c xs

module _ (codec : Codec) {CodecType : Type 0} (codec_type : Option ℕ → CodecType) (pcmu : CodecType)
    (clock_rate samplerate : CodecType → ℕ) (create_decoder : CodecType → codec.Decoder) where
  abbrev R : Type 0
  R = Receiver codec codec_type pcmu clock_rate samplerate create_decoder

  -- Without a decoder there is no payload type.
  pub record Ready (s : R) (has : Bool) : Type 0 where
    pub decoder : s.has_decoder ≡ has
    pub no_pt : s.has_decoder ≡ false → s.current_pt ≡ none

  abbrev follow : Option ℕ → R → R
  follow pt s = follow_pt codec codec_type pcmu clock_rate samplerate create_decoder pt s

  -- A payload type that stays the same came with a decoder.
  same_pt-decoder : (s : R) (p : ℕ) → Ready s false → same_pt s.current_pt (some p) ≡ true → ⊥
  same_pt-decoder s p h same = ground (arith, h.decoder, h.no_pt h.decoder)

  follow_pt-Ready :
      (pt : Option ℕ) (s : R) (has : Bool)
      → Ready s has
      → Ready (follow pt s) (has || not (is_none pt))
  unfolding follow_pt change_pt
  follow_pt-Ready none s true h = elim (Bool-cases (same_pt s.current_pt none)) [
    | inl e ↦ rw (follow_pt, e) h
    | inr e ↦ rw (follow_pt, e) (record { decoder = h.decoder; no_pt = λ d. refl })
  ]
  follow_pt-Ready none s false h = elim (Bool-cases (same_pt s.current_pt none)) [
    | inl e ↦ rw (follow_pt, e) h
    | inr e ↦ rw (follow_pt, e) (record { decoder = h.decoder; no_pt = λ d. refl })
  ]
  follow_pt-Ready (some p) s true h = elim (Bool-cases (same_pt s.current_pt (some p))) [
    | inl e ↦ rw (follow_pt, e) h
    | inr e ↦ rw (follow_pt, e) (record { decoder = refl; no_pt = λ d. absurd cc })
  ]
  follow_pt-Ready (some p) s false h = elim (Bool-cases (same_pt s.current_pt (some p))) [
    | inl e ↦ absurd (same_pt-decoder s p h e)
    | inr e ↦ rw (follow_pt, e) (record { decoder = refl; no_pt = λ d. absurd cc })
  ]

  -- A new payload type leaves the counters as they are.
  follow_pt-stats : (pt : Option ℕ) (s : R) → (follow pt s).session.stats ≡ s.session.stats
  unfolding follow_pt change_pt
  follow_pt-stats none s = elim (Bool-cases (same_pt s.current_pt none)) [
    | inl e ↦ rw e refl
    | inr e ↦ rw e refl
  ]
  follow_pt-stats (some p) s = elim (Bool-cases (same_pt s.current_pt (some p))) [
    | inl e ↦ rw e refl
    | inr e ↦ rw e refl
  ]

  -- Counters within their words.
  pub record InWords (s : Session codec) : Type 0 where
    pub rx : s.stats.rx_packets < 18446744073709551616
    pub tx : s.stats.tx_packets < 18446744073709551616
    pub dtmf : s.stats.rx_dtmf_events < 18446744073709551616

  unchanged-Counted : (s : Session codec) → InWords s → Counted codec s s 0 0
  unchanged-Counted s h = omega (arith, h)

  process_other-Counted :
      (c : Settings) (s : Session codec) (b : Bool)
      → InWords s
      → Counted codec s (if b then process_sample codec s other c else s) 0 0
  process_other-Counted c s true h = process_sample-Counted codec s other c h.rx h.tx h.dtmf
  process_other-Counted c s false h = unchanged-Counted s h

  process_audio-Counted :
      (c : Settings) (s : Session codec) (frame : AudioFrame) (b : Bool)
      → InWords s
      → is_pt c.telephone_event_pt frame.payload_type ≡ false
      → Counted codec s
          (if b then process_sample codec s (audio frame) c else s)
          (if b then 1 else 0)
          0
  process_audio-Counted c s frame true h e =
      let one = process_sample-Counted codec s (audio frame) c h.rx h.tx h.dtmf in
      let no_event : is_event c frame ≡ false = rw e refl in rw no_event at one
  process_audio-Counted c s frame false h e = unchanged-Counted s h

  take_event-Counted :
      (c : Settings) (s : Session codec) (frame : AudioFrame)
      → InWords s
      → is_pt c.telephone_event_pt frame.payload_type ≡ true
      → Counted codec s
          (if leb 4 (length frame.payload) then take_dtmf codec s frame else s)
          0
          (events_of c (audio frame))
  take_event-Counted c s frame h e = elim (Bool-cases (leb 4 (length frame.payload))) [
    | inl long ↦ rw (e, long) (take_dtmf-Counted codec s frame h.rx h.tx h.dtmf)
    | inr short ↦ rw (e, short) (unchanged-Counted s h)
  ]

  abbrev step : Settings → R → MediaSample → R
  step c s x = receive codec codec_type pcmu clock_rate samplerate create_decoder c s x

  abbrev take_frame : Bool → Settings → R → AudioFrame → R
  take_frame event c s frame =
      receive_audio codec codec_type pcmu clock_rate samplerate create_decoder event c s frame

  abbrev run : Settings → R → List MediaSample → R
  run c s xs = receive_all codec codec_type pcmu clock_rate samplerate create_decoder c s xs

  moved-Counted :
      (s t u : Session codec) (p e : ℕ)
      → t.stats ≡ s.stats
      → Counted codec t u p e
      → Counted codec s u p e
  moved-Counted s t u p e same counted = record {
    rx = counted.rx ∙ ap (λ (x : CallStats). add_u64 x.rx_packets p) same;
    tx = counted.tx ∙ ap (λ (x : CallStats). add_u64 x.tx_packets p) same;
    dtmf = counted.dtmf ∙ ap (λ (x : CallStats). add_u64 x.rx_dtmf_events e) same;
  }

  recounted :
      (s u : Session codec) (b b' event : Bool) (digits : ℕ)
      → b ≡ b'
      → event ≡ false
      → Counted codec s u (if b then 1 else 0) 0
      → Counted codec s u (if b' then 1 else 0) (if event then digits else 0)
  recounted s u b b' event digits same no_event counted =
      subst (λ (x : Bool). Counted codec s u (if x then 1 else 0) (if event then digits else 0))
        same
        (subst (λ (x : Bool). Counted codec s u (if b then 1 else 0) (if x then digits else 0))
          (sym no_event) counted)

  moved-InWords : (s t : Session codec) → t.stats ≡ s.stats → InWords s → InWords t
  moved-InWords s t same h = record {
    rx = subst (λ (x : CallStats). x.rx_packets < 18446744073709551616) (sym same) h.rx;
    tx = subst (λ (x : CallStats). x.tx_packets < 18446744073709551616) (sym same) h.tx;
    dtmf = subst (λ (x : CallStats). x.rx_dtmf_events < 18446744073709551616) (sym same) h.dtmf;
  }

  receive_audio_lem :
      (event : Bool) (c : Settings) (s : R) (frame : AudioFrame) (has : Bool)
      → Ready s has
      → InWords s.session
      → is_pt c.telephone_event_pt frame.payload_type ≡ event
      → Ready (take_frame event c s frame) (hears_packet event has frame.payload_type)
        × Counted codec s.session
            (take_frame event c s frame).session
            (heard_packet event has frame.payload_type)
            (events_of c (audio frame))
  unfolding receive_audio process
  receive_audio_lem true c s frame has h words e = (
    record { decoder = h.decoder; no_pt = h.no_pt },
    take_event-Counted c s.session frame words e,
  )
  receive_audio_lem false c s frame has h words e =
      let next = follow_pt-Ready frame.payload_type s has h in
      let same = follow_pt-stats frame.payload_type s in
      let t = follow frame.payload_type s in
      let no_event : is_event c frame ≡ false = rw e refl in
      let counted =
        process_audio-Counted
          (settings_for codec codec_type pcmu clock_rate samplerate create_decoder c
            (codec_type frame.payload_type))
          t.session (record frame { clock_rate = clock_rate (codec_type frame.payload_type) })
          t.has_decoder (moved-InWords s.session t.session same words) e in
      (
        record { decoder = next.decoder; no_pt = next.no_pt },
        moved-Counted s.session t.session _ _ _ same (
            recounted _ _ _ _ (is_event c frame) (digits_in frame.payload) next.decoder no_event
              counted),
      )

  receive_lem :
      (c : Settings) (s : R) (x : MediaSample) (has : Bool)
      → Ready s has
      → InWords s.session
      → Ready (step c s x) (hears c has x)
        × Counted codec s.session (step c s x).session (packets_heard c has x) (events_of c x)
  unfolding receive process
  receive_lem c s other has h words = (
    record { decoder = h.decoder; no_pt = h.no_pt },
    process_other-Counted _ s.session s.has_decoder words,
  )
  receive_lem c s (audio frame) has h words =
      receive_audio_lem (is_pt c.telephone_event_pt frame.payload_type) c s frame has h words refl

  -- Over any samples, from counters within 64 bits, the packets counted in, and out, are those of
  -- audio that come with a decoder or bring one by their payload type, and the DTMF events are the
  -- telephone events with a known digit (modulo 2 ^ 64).
  pub receive_all-Counted :
      (xs : List MediaSample) (c : Settings) (s : R) (has : Bool)
      → Ready s has
      → InWords s.session
      → Counted codec s.session (run c s xs).session (total_heard c has xs) (total_digits c xs)
  unfolding receive_all
  receive_all-Counted [] c s has h words = unchanged-Counted s.session words
  receive_all-Counted (x ∷ xs) c s has h words =
      let (next, one) = receive_lem c s x has h words in
      let ih =
        receive_all-Counted xs c (step c s x) (hears c has x) next (record {
          rx = omega (arith, one);
          tx = omega (arith, one);
          dtmf = omega (arith, one);
        }) in
      omega (arith, one, ih)
