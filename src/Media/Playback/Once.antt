-- ===== src/Media/Playback/Once.antt =====
-- src/media.rs, `play_samples`: a playback that does not repeat.
use native.Mathlib.Nat.{mod-eq_of_lt}
use sipbot.Prelude.{
  ℕ, zero, suc, ◌+◌, ◌%◌, ◌≤◌, ◌<◌, ◌≡◌, refl, sym, ap, ◌∙◌, subst, not, ◌&&◌, true, false,
  Bool-cases, inl, inr, none, some, List, [], ◌∷◌, ◌++◌, arith, length, leb, ◌==◌, add_u32, All,
  append_assoc, append-nil,
}
use sipbot.Media.Frame.{AudioFrame}
use sipbot.Media.Playback.{
  Source, num_chunks, ticks, Tick, Playback, advance, send_chunk, record_chunk, play_chunk, tick,
  play,
}
use sipbot.Media.Playback.Grid.{IsFilled, audio_of, audio_of-IsFilled, FillsChunks}

-- The call is not on hold, and the sender takes the frame.
abbrev pub IsPlain : Tick → Type 0
IsPlain t = (t.on_hold ≡ false) × (t.accepts ≡ true)

module _ {Sample Encoder : Type 0} (silence : Sample)
    (encode : Encoder → List Sample → List ℕ × Encoder) (src : Source Sample) where
  abbrev frame_of : ℕ → List ℕ → AudioFrame
  frame_of ts encoded = record {
    rtp_timestamp = ts;
    payload = encoded;
    clock_rate = src.clock_rate;
    payload_type = some src.payload_type;
    marker = false;
    sequence_number = none;
  }

  -- The frames of `n` chunks from the chunk `first` on: encoded one after the other, with a time
  -- that moves on by 20 ms for each.
  abbrev pub frames_of : Encoder → (ts first n : ℕ) → List AudioFrame
  frames_of e ts first zero = []
  frames_of e ts first (suc n) =
      frame_of ts (encode e (audio_of silence encode src first)).0
      ∷ frames_of (encode e (audio_of silence encode src first)).1 (add_u32 ts (ticks src))
          (suc first) n

  record Sent (s s' : Playback silence encode) (e : Encoder) (encoded : List ℕ) : Type 0 where
    still_running : s'.running ≡ true
    index : s'.chunk_index ≡ s.chunk_index + 1
    timeline : s'.rtp_timestamp ≡ add_u32 s.rtp_timestamp (ticks src)
    encoder : s'.encoder ≡ e
    frames : s'.sent ≡ s.sent ++ frame_of s.rtp_timestamp encoded ∷ []

  send_chunk-Sent :
      (s : Playback silence encode) (e : Encoder) (t : Tick) (encoded : List ℕ)
      → IsFilled encoded
      → s.running ≡ true
      → IsPlain t
      → Sent s
          (send_chunk silence encode src
            (record (record_chunk silence encode src s) {
              chunk_index = s.chunk_index + 1;
              encoder = e;
            })
            t
            encoded)
          e
          encoded
  unfolding send_chunk advance record_chunk
  send_chunk-Sent s e t [] h r a = absurd h
  send_chunk-Sent s e t (x ∷ xs) h r a = record {
    still_running = rw (a.1) r;
    index = refl;
    timeline = refl;
    encoder = refl;
    frames = rw (a.1);
  }

  play_chunk-Sent :
      (s : Playback silence encode) (t : Tick)
      → FillsChunks silence encode src
      → 50 ≤ src.sample_rate
      → s.running ≡ true
      → IsPlain t
      → Sent s
          (play_chunk silence encode src s t)
          (encode s.encoder (audio_of silence encode src (s.chunk_index % num_chunks src))).1
          (encode s.encoder (audio_of silence encode src (s.chunk_index % num_chunks src))).0
  unfolding play_chunk
  play_chunk-Sent s t h p r a =
      rw (a.0, play_chunk)
        (send_chunk-Sent s
          (encode s.encoder (audio_of silence encode src (s.chunk_index % num_chunks src))).1 t
          (encode s.encoder (audio_of silence encode src (s.chunk_index % num_chunks src))).0
          (audio_of-IsFilled silence encode src s.encoder (s.chunk_index % num_chunks src) h p) r a)

  tick-playing :
      (s : Playback silence encode) (t : Tick)
      → s.running ≡ true
      → s.chunk_index < num_chunks src
      → tick silence encode src s t ≡ play_chunk silence encode src s t
  unfolding tick
  tick-playing s t r n =
      let some_chunks : (num_chunks src == 0) ≡ false = ground arith in
      let not_done : (not src.loop_playback && leb (num_chunks src) s.chunk_index) ≡ false =
        ground arith in
      rw (r, some_chunks, not_done)

  tick-Sent :
      (s : Playback silence encode) (t : Tick)
      → FillsChunks silence encode src
      → 50 ≤ src.sample_rate
      → s.running ≡ true
      → s.chunk_index < num_chunks src
      → IsPlain t
      → Sent s
          (tick silence encode src s t)
          (encode s.encoder (audio_of silence encode src s.chunk_index)).1
          (encode s.encoder (audio_of silence encode src s.chunk_index)).0
  tick-Sent s t h p r n a = rw (tick-playing s t r n) (
      subst
        (λ j.
          Sent s (play_chunk silence encode src s t)
            (encode s.encoder (audio_of silence encode src j)).1
            (encode s.encoder (audio_of silence encode src j)).0)
        (mod-eq_of_lt n) (play_chunk-Sent s t h p r a))

  same_frames :
      {e e' : Encoder} {ts ts' first first' : ℕ} (n : ℕ)
      → e ≡ e'
      → ts ≡ ts'
      → first ≡ first'
      → frames_of e ts first n ≡ frames_of e' ts' first' n
  same_frames n h k l = cc (h, k, l)

  frames_of_lem :
      (ts : List Tick) (s : Playback silence encode)
      → FillsChunks silence encode src
      → 50 ≤ src.sample_rate
      → s.running ≡ true
      → s.chunk_index + length ts ≤ num_chunks src
      → All IsPlain ts
      → ((play silence encode src s ts).sent
          ≡ s.sent ++ frames_of s.encoder s.rtp_timestamp s.chunk_index (length ts))
        × ((play silence encode src s ts).running ≡ true)
        × ((play silence encode src s ts).chunk_index ≡ s.chunk_index + length ts)
  unfolding play
  frames_of_lem [] s h p r n a = (sym (append-nil s.sent), r, omega arith)
  frames_of_lem (t ∷ ts) s h p r n a =
      let s' : Playback silence encode = tick silence encode src s t in
      let one : Sent s s' (encode s.encoder (audio_of silence encode src s.chunk_index)).1
          (encode s.encoder (audio_of silence encode src s.chunk_index)).0 =
        tick-Sent s t h p r (omega arith) a.0 in
      let (frames, running, index) =
        frames_of_lem ts s' h p one.still_running (omega (arith, one.index)) a.1 in
      let frame : AudioFrame =
        frame_of s.rtp_timestamp (encode s.encoder (audio_of silence encode src s.chunk_index)).0 in
      let later : List AudioFrame =
        frames_of s'.encoder s'.rtp_timestamp s'.chunk_index (length ts) in
      (
        frames
            ∙ ap (λ l. l ++ later) one.frames
            ∙ append_assoc s.sent (frame ∷ []) later
            ∙ ap (λ l. s.sent ++ frame ∷ l)
                (same_frames (length ts) one.encoder one.timeline (omega (arith, one.index))),
        running,
        omega (arith, index, one.index),
      )

  tick-done :
      (s : Playback silence encode) (t : Tick)
      → s.running ≡ true
      → src.loop_playback ≡ false
      → num_chunks src ≤ s.chunk_index
      → tick silence encode src s t ≡ record s { running = false }
  unfolding tick
  tick-done s t r l n =
      let done : leb (num_chunks src) s.chunk_index ≡ true = ground arith in
      elim (Bool-cases (num_chunks src == 0)) [
        | inl no_chunks ↦ rw (r, no_chunks, tick)
        | inr some_chunks ↦ rw (r, some_chunks, l, done, tick)
      ]

  play-append :
      (s : Playback silence encode) (ts us : List Tick)
      → play silence encode src s (ts ++ us)
        ≡ play silence encode src (play silence encode src s ts) us
  unfolding play
  play-append s [] us = refl
  play-append s (t ∷ ts) us = play-append (tick silence encode src s t) ts us

  -- A playback that does not repeat, from its start and with as many ticks as there are chunks,
  -- none of them on hold, sends the frames of all the chunks in their order, each encoded after the
  -- one before and 20 ms of the RTP clock later, and the next tick ends it without another frame.
  -- The encoder gives at least one byte for a whole chunk of at least one sample, the sample rate is
  -- at least 50, and the sender takes every frame.
  pub play_once :
      (s : Playback silence encode) (ts : List Tick) (t : Tick)
      → FillsChunks silence encode src
      → 50 ≤ src.sample_rate
      → s.running ≡ true
      → s.chunk_index ≡ 0
      → s.sent ≡ []
      → src.loop_playback ≡ false
      → length ts ≡ num_chunks src
      → All IsPlain ts
      → ((play silence encode src s (ts ++ t ∷ [])).sent
          ≡ frames_of s.encoder s.rtp_timestamp 0 (num_chunks src))
        × ((play silence encode src s (ts ++ t ∷ [])).running ≡ false)
  play_once s ts t h p r i e l n a =
      let s' : Playback silence encode = play silence encode src s ts in
      let (frames, running, index) = frames_of_lem ts s h p r (omega (arith, i, n)) a in
      let ended : play silence encode src s (ts ++ t ∷ []) ≡ record s' { running = false } =
        play-append s ts (t ∷ [])
        ∙ unfold play in tick-done s' t running l (omega (arith, i, n, index)) in
      (
        ap (λ (x : Playback silence encode). x.sent) ended
            ∙ frames
            ∙ ap (λ l. l ++ frames_of s.encoder s.rtp_timestamp s.chunk_index (length ts)) e
            ∙ cc (i, n),
        ap (λ (x : Playback silence encode). x.running) ended,
      )
