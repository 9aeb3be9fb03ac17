-- ===== src/Recorder.antt =====
-- src/recorder.rs: the recorder of a call and its manager. The queue between the callers and the
-- writing task holds 256 packets; the task is a step function over what it waits for, and the WAV
-- file is the list of the samples that were written to it, with no error of the hound crate.
pub mod Timeline
use sipbot.Prelude.{
  ℕ, ◌-◌, Bool, true, false, ltb, leb, Option, none, some, is_none, not, List, [], ◌∷◌, ◌++◌,
  length, take, drop, replicate, if◌then◌else◌,
}
use sipbot.Prelude.Text.{Text}

abbrev pub recorder_queue_capacity : ℕ
recorder_queue_capacity = 256

-- 20 ms at 16 kHz
abbrev pub chunk_size : ℕ
chunk_size = 320

module _ {Sample : Type 0} (silence : Sample) where
  pub data AudioPacket : Type 0 where
    rx : List Sample → AudioPacket
    tx : List Sample → AudioPacket
    stop : AudioPacket

  -- `try_send`: a packet that does not fit is dropped.
  unfoldable pub try_send : AudioPacket → List AudioPacket → List AudioPacket
  try_send p queue = if ltb (length queue) recorder_queue_capacity then queue ++ p ∷ [] else queue

  -- The writing task; `written` has the samples of the file, left and right in turn.
  pub record Writer : Type 0 where
    pub rx_buffer : List Sample
    pub tx_buffer : List Sample
    pub written : List Sample
    pub is_stopped : Bool

  unfoldable pub new_writer : Writer
  new_writer = record { rx_buffer = []; tx_buffer = []; written = []; is_stopped = false }

  -- the samples of one tick, with silence where there are too few
  unfoldable pub chunk_of : List Sample → List Sample
  chunk_of buffer =
      if leb chunk_size (length buffer)
      then take chunk_size buffer
      else buffer ++ replicate (chunk_size - length buffer) silence

  -- `drain`
  unfoldable pub rest_of : List Sample → List Sample
  rest_of buffer = if leb chunk_size (length buffer) then drop chunk_size buffer else []

  unfoldable pub interleave : (left right : List Sample) → List Sample
  interleave [] right = []
  interleave (l ∷ ls) [] = []
  interleave (l ∷ ls) (r ∷ rs) = l ∷ r ∷ interleave ls rs

  unfoldable pub tick : Writer → Writer
  unfolding chunk_of rest_of interleave
  tick w = record w {
    rx_buffer = rest_of w.rx_buffer;
    tx_buffer = rest_of w.tx_buffer;
    written = w.written ++ interleave (chunk_of w.rx_buffer) (chunk_of w.tx_buffer);
  }

  unfoldable pub take_packet : AudioPacket → Writer → Writer
  take_packet (rx samples) w = record w { rx_buffer = w.rx_buffer ++ samples }
  take_packet (tx samples) w = record w { tx_buffer = w.tx_buffer ++ samples }
  take_packet stop w = record w { is_stopped = true }

  -- What the task wakes up for; the end of the queue is a stop.
  pub data Event : Type 0 where
    ticked : Event
    received : AudioPacket → Event

  unfoldable pub step : Event → Writer → Writer
  unfolding tick take_packet
  step ticked w = tick w
  step (received p) w = take_packet p w

  -- the loop, which ends with the first stop
  unfoldable pub run : List Event → Writer → Writer
  unfolding step
  run [] w = w
  run (e ∷ es) w = let rest = run es (step e w) in if w.is_stopped then w else rest

  -- The manager: the queue of the recorder, if there is one.
  abbrev pub RecorderManager : Type 0
  RecorderManager = Option (List AudioPacket)

  -- A recorder that is replaced is told to stop by its `drop`; its queue comes second.
  unfoldable pub drop_recorder : RecorderManager → Option (List AudioPacket)
  unfolding try_send
  drop_recorder none = none
  drop_recorder (some queue) = some (try_send stop queue)

  unfoldable pub init : RecorderManager → RecorderManager × Option (List AudioPacket)
  unfolding drop_recorder
  init m = (some [], drop_recorder m)

  unfoldable pub stop_recording : RecorderManager → RecorderManager × Option (List AudioPacket)
  unfolding drop_recorder
  stop_recording m = (none, drop_recorder m)

  unfoldable pub record_rx : List Sample → RecorderManager → RecorderManager
  unfolding try_send
  record_rx samples none = none
  record_rx samples (some queue) = some (try_send (rx samples) queue)

  unfoldable pub record_tx : List Sample → RecorderManager → RecorderManager
  unfolding try_send
  record_tx samples none = none
  record_tx samples (some queue) = some (try_send (tx samples) queue)

  unfoldable pub is_active : RecorderManager → Bool
  is_active m = not (is_none m)
