-- ===== src/Media/Playback/Grid.antt =====
-- src/media.rs, `play_samples`: the RTP timeline of a playback, tick by tick.
use sipbot.Prelude.{
  ℕ, suc, ◌+◌, ◌*◌, ◌%◌, ◌≤◌, ◌<◌, ◌≡◌, refl, true, false, Bool-cases, inl, inr, some, List, [],
  ◌∷◌, arith, length-append, length, ◌==◌, if◌then◌else◌, add_u32, add_u64, All,
}
use sipbot.Stats.{inc_tx}
use sipbot.Media.Playback.{
  Source, num_chunks, ticks, chunk_size, chunk_at, double, Tick, Playback, advance, send_chunk,
  record_chunk, play_chunk, tick, play,
}
use sipbot.Media.Playback.Chunks.{length-chunk_at}

abbrev pub IsFilled : List ℕ → Type 0
IsFilled [] = ⊥
IsFilled (b ∷ bs) = Unit

abbrev pub IsAccepted : Tick → Type 0
IsAccepted t = t.accepts ≡ true

length-double : {A : Type 0} (xs : List A) → length (double xs) ≡ length xs * 2
length-double [] = refl
length-double (x ∷ xs) = omega (arith, length-double xs)

grid_step :
    (a b c t n : ℕ)
    → b ≡ add_u32 a t
    → c ≡ (b + n * t) % 4294967296
    → c ≡ (a + suc n * t) % 4294967296
grid_step a b c t n h k = let e : suc n * t ≡ t + n * t = omega arith in rw e (omega (arith, h, k))

abbrev pub played : List Tick → ℕ
played [] = 0
played (t ∷ ts) = (if t.on_hold then 0 else 1) + played ts

module _ {Sample Encoder : Type 0} (silence : Sample)
    (encode : Encoder → List Sample → List ℕ × Encoder) (src : Source Sample) where
  -- What is encoded of the chunk `i`.
  abbrev pub audio_of : ℕ → List Sample
  audio_of i =
      let chunk = chunk_at silence src.samples (i * chunk_size src) (chunk_size src) in
      if src.channels == 2 then double chunk else chunk

  -- the samples of a whole chunk, for both ears where there are two channels
  abbrev pub audio_size : ℕ
  audio_size = if src.channels == 2 then chunk_size src * 2 else chunk_size src

  -- The encoder gives at least one byte for a whole chunk, which is not empty.
  abbrev pub FillsChunks : Type 0
  FillsChunks =
      (e : Encoder) (x : Sample) (xs : List Sample)
      → length (x ∷ xs) ≡ audio_size
      → IsFilled (encode e (x ∷ xs)).0

  length-audio_of : (i : ℕ) → length (audio_of i) ≡ audio_size
  length-audio_of i =
      let start = i * chunk_size src in
      let n : length (chunk_at silence src.samples start (chunk_size src)) ≡ chunk_size src =
        length-chunk_at silence src.samples start (chunk_size src) in
      elim (Bool-cases (src.channels == 2)) [
        | inl two ↦
            rw two (
              omega (arith, n, length-double (chunk_at silence src.samples start (chunk_size src))))
        | inr other ↦ rw other n
      ]

  fills :
      (e : Encoder) (xs : List Sample)
      → FillsChunks
      → 0 < audio_size
      → length xs ≡ audio_size
      → IsFilled (encode e xs).0
  fills e [] h p n = absurd (omega (arith, p, n))
  fills e (x ∷ xs) h p n = h e x xs n

  pub audio_of-IsFilled :
      (e : Encoder) (i : ℕ)
      → FillsChunks
      → 50 ≤ src.sample_rate
      → IsFilled (encode e (audio_of i)).0
  audio_of-IsFilled e i h p =
      let chunk : 0 < chunk_size src = omega arith in
      fills e (audio_of i) h (ground (arith, chunk)) (length-audio_of i)

  -- One tick: the next chunk is taken, the time moves on by 20 ms and is marked, and `p` frames are
  -- sent.
  record Step (s s' : Playback silence encode) (now p : ℕ) : Type 0 where
    still_running : s'.running ≡ true
    index : s'.chunk_index ≡ s.chunk_index + 1
    timeline : s'.rtp_timestamp ≡ add_u32 s.rtp_timestamp (ticks src)
    marked : s'.rtp_ts_state ≡ some (s'.rtp_timestamp, now)
    packets : s'.stats.tx_packets ≡ add_u64 s.stats.tx_packets p
    frames : length s'.sent ≡ length s.sent + p

  -- `s` with its next chunk taken and encoded
  abbrev taken : Playback silence encode → Encoder → Playback silence encode
  taken s e = record (record_chunk silence encode src s) {
    chunk_index = s.chunk_index + 1;
    encoder = e;
  }

  send_chunk-Step :
      (s : Playback silence encode) (e : Encoder) (t : Tick) (encoded : List ℕ)
      → IsFilled encoded
      → s.running ≡ true
      → IsAccepted t
      → Step s (send_chunk silence encode src (taken s e) t encoded) t.now 1
  unfolding send_chunk advance record_chunk inc_tx
  send_chunk-Step s e t [] h r a = absurd h
  send_chunk-Step s e t (x ∷ xs) h r a = record {
    still_running = rw a r;
    index = refl;
    timeline = refl;
    marked = refl;
    packets = refl;
    frames = rw a (omega (arith, length-append s.sent));
  }

  play_chunk-Step :
      (s : Playback silence encode) (t : Tick)
      → FillsChunks
      → 50 ≤ src.sample_rate
      → s.running ≡ true
      → IsAccepted t
      → s.stats.tx_packets < 18446744073709551616
      → Step s (play_chunk silence encode src s t) t.now (if t.on_hold then 0 else 1)
  unfolding play_chunk advance record_chunk
  play_chunk-Step s t h p r a b = elim (Bool-cases t.on_hold) [
    | inl held ↦
        rw (held, play_chunk)
          (record {
            still_running = r;
            index = refl;
            timeline = refl;
            marked = refl;
            packets = omega arith;
            frames = omega arith;
          })
    | inr sends ↦
        rw (sends, play_chunk)
          (send_chunk-Step s _ t _
            (audio_of-IsFilled s.encoder (s.chunk_index % num_chunks src) h p) r a)
  ]

  tick-running :
      (s : Playback silence encode) (t : Tick)
      → s.running ≡ true
      → src.loop_playback ≡ true
      → 0 < num_chunks src
      → tick silence encode src s t ≡ play_chunk silence encode src s t
  unfolding tick
  tick-running s t r l n = let e : (num_chunks src == 0) ≡ false = ground arith in rw (r, l, e)

  tick-Step :
      (s : Playback silence encode) (t : Tick)
      → FillsChunks
      → 50 ≤ src.sample_rate
      → s.running ≡ true
      → src.loop_playback ≡ true
      → 0 < num_chunks src
      → IsAccepted t
      → s.stats.tx_packets < 18446744073709551616
      → Step s (tick silence encode src s t) t.now (if t.on_hold then 0 else 1)
  tick-Step s t h p r l n a b = rw (tick-running s t r l n) (play_chunk-Step s t h p r a b)

  -- The playback is `n` ticks further on its timeline, and has sent `p` frames more.
  pub record Advanced (s s' : Playback silence encode) (n p : ℕ) : Type 0 where
    pub still_running : s'.running ≡ true
    pub index : s'.chunk_index ≡ s.chunk_index + n
    pub timeline : s'.rtp_timestamp ≡ (s.rtp_timestamp + n * ticks src) % 4294967296
    pub packets : s'.stats.tx_packets ≡ add_u64 s.stats.tx_packets p
    pub frames : length s'.sent ≡ length s.sent + p

  -- A running playback that repeats, of a source with at least one chunk, keeps running: it moves
  -- on by 20 ms of the RTP clock on every tick, also while on hold, and sends and counts one frame
  -- on every tick that is not on hold. The encoder gives at least one byte for a whole chunk of at
  -- least one sample, the sample rate is at least 50, the sender takes every frame, and time and
  -- counter are within their words at the start.
  pub play-Advanced :
      (ts : List Tick) (s : Playback silence encode)
      → FillsChunks
      → 50 ≤ src.sample_rate
      → s.running ≡ true
      → src.loop_playback ≡ true
      → 0 < num_chunks src
      → All IsAccepted ts
      → s.stats.tx_packets < 18446744073709551616
      → s.rtp_timestamp < 4294967296
      → Advanced s (play silence encode src s ts) (length ts) (played ts)
  unfolding play
  play-Advanced [] s h f r l n a b c = record {
    still_running = r;
    index = omega arith;
    timeline = omega arith;
    packets = omega arith;
    frames = omega arith;
  }
  play-Advanced (t ∷ ts) s h f r l n a b c =
      let s' : Playback silence encode = tick silence encode src s t in
      let one : Step s s' t.now (if t.on_hold then 0 else 1) = tick-Step s t h f r l n a.0 b in
      let p : ℕ = if t.on_hold then 0 else 1 in
      let ih : Advanced s' (play silence encode src s' ts) (length ts) (played ts) =
        play-Advanced ts s' h f one.still_running l n a.1 (omega (arith, one.packets))
          (omega (arith, one.timeline)) in
      record {
        still_running = ih.still_running;
        index = omega (arith, ih.index, one.index);
        timeline =
            grid_step s.rtp_timestamp s'.rtp_timestamp _ (ticks src) (length ts) one.timeline
              ih.timeline;
        packets = omega (arith, ih.packets, one.packets);
        frames = omega (arith, ih.frames, one.frames);
      }

  -- Whatever happened before, after a tick on which the playback takes a chunk the marked time is
  -- that of its next frame.
  tick-marked :
      (s : Playback silence encode) (t : Tick)
      → FillsChunks
      → 50 ≤ src.sample_rate
      → s.running ≡ true
      → src.loop_playback ≡ true
      → 0 < num_chunks src
      → IsAccepted t
      → s.stats.tx_packets < 18446744073709551616
      → (tick silence encode src s t).rtp_ts_state
        ≡ some ((tick silence encode src s t).rtp_timestamp, t.now)
  tick-marked s t h p r l n a b = (tick-Step s t h p r l n a b).marked
