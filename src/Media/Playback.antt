-- ===== src/Media/Playback.antt =====
-- src/media.rs: `play_samples` from its preparation on, and `FileAudioSource::next_chunk`. The
-- encoder and the resampled copy for the recorder come from the audio_codec crate and are
-- parameters. A tick of the 20 ms timer is one step, whose input says whether the call is on hold
-- at that moment and whether the sender takes the frame. The logged input level is left out.
pub mod Chunks
pub mod Grid
pub mod Once
use sipbot.Prelude.{
  ℕ, zero, suc, ◌+◌, ◌-◌, ◌*◌, ◌/◌, ◌%◌, ◌≤◌, ◌<◌, ◌≡◌, refl, Bool, true, false, not, ◌&&◌, Option,
  none, some, List, [], ◌∷◌, ◌++◌, arith, min, length, take, drop, replicate, ltb, leb, ◌==◌,
  if◌then◌else◌, add_u32,
}
use sipbot.Stats.{CallStats, inc_tx}
use sipbot.Media.Frame.{AudioFrame}

module _ {ℓ} {A : Type ℓ} where
  -- `xs[start..end]`, and `resize`
  abbrev pub slice : List A → ℕ → ℕ → List A
  slice xs start end = take (end - start) (drop start xs)

  abbrev pub resize : List A → ℕ → A → List A
  resize xs n z = take n xs ++ replicate (n - length xs) z

  abbrev pub double : List A → List A
  double [] = []
  double (x ∷ xs) = x ∷ x ∷ double xs

  -- One chunk of the source, with silence behind it where the source ends.
  unfoldable pub chunk_at : A → List A → (start size : ℕ) → List A
  chunk_at silence samples start size =
      let chunk = slice samples start (min (start + size) (length samples)) in
      if length chunk == size then chunk else resize chunk size silence

pub record FileAudioSource (Sample : Type 0) : Type 0 where
  pub samples : List Sample
  pub offset : ℕ

-- `next_chunk`
unfoldable pub next_chunk :
    {Sample : Type 0}
    → Sample
    → FileAudioSource Sample
    → ℕ
    → Option (List Sample) × FileAudioSource Sample
next_chunk silence s chunk_size =
    if leb (length s.samples) s.offset
    then (none, s)
    else (let end = min (s.offset + chunk_size) (length s.samples) in
        let chunk = slice s.samples s.offset end in
        (
          some (if ltb (length chunk) chunk_size then resize chunk chunk_size silence else chunk),
          record s { offset = end },
        ))

-- What stays the same during a playback.
pub record Source (Sample : Type 0) : Type 0 where
  pub samples : List Sample
  pub record_samples : List Sample
  pub sample_rate : ℕ  -- u32
  pub clock_rate : ℕ  -- u32
  pub channels : ℕ
  pub payload_type : ℕ
  pub loop_playback : Bool

module _ {Sample : Type 0} (src : Source Sample) where
  abbrev pub chunk_size : ℕ
  chunk_size = src.sample_rate / 50

  abbrev pub record_chunk_size : ℕ
  record_chunk_size =
      if src.sample_rate == 16000 then chunk_size else chunk_size * 16000 / src.sample_rate

  abbrev pub num_chunks : ℕ
  num_chunks = (length src.samples + chunk_size - 1) / chunk_size

  abbrev pub num_record_chunks : ℕ
  num_record_chunks = (length src.record_samples + record_chunk_size - 1) / record_chunk_size

  -- the ticks of the RTP clock in 20 ms
  abbrev pub ticks : ℕ
  ticks = chunk_size * src.clock_rate / src.sample_rate % 4294967296

pub record Tick : Type 0 where
  pub now : ℕ
  pub on_hold : Bool
  pub accepts : Bool

module _ {Sample Encoder : Type 0} (silence : Sample)
    (encode : Encoder → List Sample → List ℕ × Encoder) where
  pub record Playback : Type 0 where
    pub encoder : Encoder
    pub chunk_index : ℕ
    pub rtp_timestamp : ℕ
    pub rtp_ts_state : Option (ℕ × ℕ)
    pub stats : CallStats
    pub recorded_tx : List (List Sample)
    pub sent : List AudioFrame
    pub running : Bool

  -- `session_rtp_ts_mark` with the time of the next frame
  advance : Source Sample → Playback → Tick → Playback
  advance src s t =
      let ts = add_u32 s.rtp_timestamp (ticks src) in
      record s { rtp_timestamp = ts; rtp_ts_state = some (ts, t.now) }

  -- The frame of one chunk, from the encoder on.
  send_chunk : Source Sample → Playback → Tick → List ℕ → Playback
  unfolding inc_tx advance
  send_chunk src s t [] = s
  send_chunk src s t (b ∷ bs) =
      let frame : AudioFrame = record {
        rtp_timestamp = s.rtp_timestamp;
        payload = b ∷ bs;
        clock_rate = src.clock_rate;
        payload_type = some src.payload_type;
        marker = false;
        sequence_number = none;
      } in
      let s' = advance src (record s { stats = inc_tx s.stats 1 (length (b ∷ bs)) }) t in
      record s' {
        sent = if t.accepts then s'.sent ++ frame ∷ [] else s'.sent;
        running = if t.accepts then s'.running else false;
      }

  -- What the recorder gets of a tick.
  record_chunk : Source Sample → Playback → Playback
  record_chunk src s =
      let rstart = s.chunk_index % num_record_chunks src * record_chunk_size src in
      let rend = min (rstart + record_chunk_size src) (length src.record_samples) in
      record s {
        recorded_tx =
            if num_record_chunks src == 0
            then s.recorded_tx
            else s.recorded_tx ++ slice src.record_samples rstart rend ∷ [];
      }

  -- The body of the loop behind its guards.
  unfoldable pub play_chunk : Source Sample → Playback → Tick → Playback
  unfolding advance send_chunk record_chunk
  play_chunk src s t =
      let ci = s.chunk_index % num_chunks src in
      let final_chunk = chunk_at silence src.samples (ci * chunk_size src) (chunk_size src) in
      let recorded = record_chunk src s in
      let s1 = record recorded { chunk_index = s.chunk_index + 1 } in
      let audio = if src.channels == 2 then double final_chunk else final_chunk in
      let (encoded, encoder') = encode s.encoder audio in
      let sent = send_chunk src (record s1 { encoder = encoder' }) t encoded in
      if t.on_hold then advance src s1 t else sent

  -- The body of the loop; a tick after its end does nothing.
  unfoldable pub tick : Source Sample → Playback → Tick → Playback
  unfolding play_chunk
  tick src s t =
      if not s.running
      then s
      else if num_chunks src == 0
      then record s { running = false }
      else if not src.loop_playback && leb (num_chunks src) s.chunk_index
      then record s { running = false }
      else play_chunk src s t

  unfoldable pub play : Source Sample → Playback → List Tick → Playback
  unfolding tick
  play src s [] = s
  play src s (t ∷ ts) = play src (tick src s t) ts
