-- ===== src/Recorder/Timeline.antt =====
-- src/recorder.rs: what the file holds of the samples that came in.
use sipbot.Prelude.{
  ℕ, suc, ◌+◌, ◌-◌, ◌≤◌, ◌≡◌, ◌∙◌, refl, sym, ap, subst, arith, true, false, leb, List, [], ◌∷◌,
  ◌++◌, append_assoc, append-nil, length-append, zero, length, take, drop, replicate, All,
  Bool-cases, inl, inr, if◌then◌else◌,
}
use native.Mathlib.Nat.{add-zero}
use sipbot.Recorder.{
  AudioPacket, rx, tx, stop, Writer, new_writer, chunk_of, rest_of, chunk_size, interleave, tick,
  take_packet, Event, ticked, received, step, run,
}

module _ {Sample : Type 0} (silence : Sample) where
  abbrev P : Type 0
  P = AudioPacket silence

  -- The samples of one side that come in before the stop, and the ticks before it.
  abbrev pub received_rx : List (Event silence) → List Sample
  received_rx [] = []
  received_rx (ticked ∷ es) = received_rx es
  received_rx (received (rx samples) ∷ es) = samples ++ received_rx es
  received_rx (received (tx samples) ∷ es) = received_rx es
  received_rx (received stop ∷ es) = []

  abbrev pub received_tx : List (Event silence) → List Sample
  received_tx [] = []
  received_tx (ticked ∷ es) = received_tx es
  received_tx (received (rx samples) ∷ es) = received_tx es
  received_tx (received (tx samples) ∷ es) = samples ++ received_tx es
  received_tx (received stop ∷ es) = []

  abbrev pub ticks : List (Event silence) → ℕ
  ticks [] = 0
  ticks (ticked ∷ es) = suc (ticks es)
  ticks (received (rx samples) ∷ es) = ticks es
  ticks (received (tx samples) ∷ es) = ticks es
  ticks (received stop ∷ es) = 0

  abbrev pub concat : List (List Sample) → List Sample
  concat [] = []
  concat (x ∷ xs) = x ++ concat xs

  -- a part of at most 20 ms, filled up with silence
  abbrev pub padded : List Sample → List Sample
  padded part = part ++ replicate (chunk_size - length part) silence

  abbrev pub Parts : Type 0
  Parts = List (List Sample × List Sample)

  abbrev pub lefts : Parts → List (List Sample)
  lefts [] = []
  lefts ((l, r) ∷ parts) = l ∷ lefts parts

  abbrev pub rights : Parts → List (List Sample)
  rights [] = []
  rights ((l, r) ∷ parts) = r ∷ rights parts

  abbrev pub frames : Parts → List Sample
  frames [] = []
  frames ((l, r) ∷ parts) = interleave silence (padded l) (padded r) ++ frames parts

  -- The file is made of one chunk for each tick; without the silence that fills a chunk up, each
  -- side has the samples that came in, in their order, but for those that still are in the buffer.
  pub record IsTimeline (left right : List Sample) (n : ℕ) (w : Writer silence) : Type 0 where
    pub parts : Parts
    pub one_for_each_tick : length parts ≡ n
    pub short :
        All
          (λ (p : List Sample × List Sample). (length p.0 ≤ chunk_size) × (length p.1 ≤ chunk_size))
          parts
    pub left_kept : left ≡ concat (lefts parts) ++ w.rx_buffer
    pub right_kept : right ≡ concat (rights parts) ++ w.tx_buffer
    pub file : w.written ≡ frames parts

  take-drop : (n : ℕ) (xs : List Sample) → take n xs ++ drop n xs ≡ xs
  take-drop zero xs = refl
  take-drop (suc n) [] = refl
  take-drop (suc n) (x ∷ xs) = ap (λ ys. x ∷ ys) (take-drop n xs)

  length-take : (n : ℕ) (xs : List Sample) → n ≤ length xs → length (take n xs) ≡ n
  length-take zero xs h = refl
  length-take (suc n) [] h = omega (arith, h)
  length-take (suc n) (x ∷ xs) h = omega (arith, length-take n xs (omega (arith, h)))

  -- what one tick takes out of a buffer
  part_of : List Sample → List Sample
  part_of buffer = if leb chunk_size (length buffer) then take chunk_size buffer else buffer

  part_of-rest_of : (buffer : List Sample) → part_of buffer ++ rest_of silence buffer ≡ buffer
  unfolding part_of rest_of
  part_of-rest_of buffer = elim (Bool-cases (leb chunk_size (length buffer))) [
    | inl e ↦ rw e (take-drop chunk_size buffer)
    | inr e ↦ rw e (append-nil buffer)
  ]

  part_of_short : (buffer : List Sample) → length (part_of buffer) ≤ chunk_size
  unfolding part_of
  part_of_short buffer = elim (Bool-cases (leb chunk_size (length buffer))) [
    | inl e ↦ rw e (omega (arith, length-take chunk_size buffer (ground arith)))
    | inr e ↦ rw e (ground arith)
  ]

  chunk_of-part_of : (buffer : List Sample) → chunk_of silence buffer ≡ padded (part_of buffer)
  unfolding part_of chunk_of
  chunk_of-part_of buffer = elim (Bool-cases (leb chunk_size (length buffer))) [
    | inl e ↦
        let full : chunk_size ≤ length buffer = ground arith in
        rw (e, length-take chunk_size buffer full) (sym (append-nil (take chunk_size buffer)))
    | inr e ↦ rw e refl
  ]

  concat-lefts :
      (parts : Parts) (l r : List Sample)
      → concat (lefts (parts ++ (l, r) ∷ [])) ≡ concat (lefts parts) ++ l
  concat-lefts [] l r = append-nil l
  concat-lefts ((a, b) ∷ parts) l r =
      ap (λ xs. a ++ xs) (concat-lefts parts l r) ∙ sym (append_assoc a (concat (lefts parts)) l)

  concat-rights :
      (parts : Parts) (l r : List Sample)
      → concat (rights (parts ++ (l, r) ∷ [])) ≡ concat (rights parts) ++ r
  concat-rights [] l r = append-nil r
  concat-rights ((a, b) ∷ parts) l r =
      ap (λ xs. b ++ xs) (concat-rights parts l r) ∙ sym (append_assoc b (concat (rights parts)) r)

  frames-append :
      (parts : Parts) (l r : List Sample)
      → frames (parts ++ (l, r) ∷ []) ≡ frames parts ++ interleave silence (padded l) (padded r)
  frames-append [] l r = append-nil _
  frames-append ((a, b) ∷ parts) l r =
      ap (λ xs. interleave silence (padded a) (padded b) ++ xs) (frames-append parts l r)
      ∙ sym (append_assoc (interleave silence (padded a) (padded b)) (frames parts) _)

  All-snoc :
      (Q : List Sample × List Sample → Type 0) (parts : Parts) (p : List Sample × List Sample)
      → All Q parts
      → Q p
      → All Q (parts ++ p ∷ [])
  All-snoc Q [] p h q = (q, tt)
  All-snoc Q (x ∷ parts) p h q = (h.0, All-snoc Q parts p h.1 q)

  -- A tick moves samples from the buffer to the parts.
  moved :
      (all c buffer : List Sample)
      → all ≡ c ++ buffer
      → all ≡ (c ++ part_of buffer) ++ rest_of silence buffer
  moved all c buffer h =
      h
      ∙ ap (λ b. c ++ b) (sym (part_of-rest_of buffer))
      ∙ sym (append_assoc c (part_of buffer) (rest_of silence buffer))

  tick-IsTimeline :
      (left right : List Sample) (n : ℕ) (w : Writer silence)
      → IsTimeline left right n w
      → IsTimeline left right (suc n) (tick silence w)
  unfolding tick
  tick-IsTimeline left right n w h = record {
    parts = h.parts ++ (part_of w.rx_buffer, part_of w.tx_buffer) ∷ [];
    one_for_each_tick = omega (
      arith,
      length-append h.parts ((part_of w.rx_buffer, part_of w.tx_buffer) ∷ []),
      h.one_for_each_tick,
    );
    short = All-snoc _ h.parts _ h.short (part_of_short w.rx_buffer, part_of_short w.tx_buffer);
    left_kept =
        moved left (concat (lefts h.parts)) w.rx_buffer h.left_kept
        ∙ ap (λ c. c ++ rest_of silence w.rx_buffer) (sym (concat-lefts h.parts _ _));
    right_kept =
        moved right (concat (rights h.parts)) w.tx_buffer h.right_kept
        ∙ ap (λ c. c ++ rest_of silence w.tx_buffer) (sym (concat-rights h.parts _ _));
    file =
        rw (chunk_of-part_of w.rx_buffer, chunk_of-part_of w.tx_buffer, h.file)
          (sym (frames-append h.parts _ _));
  }

  stopped_run :
      (es : List (Event silence)) (w : Writer silence) → w.is_stopped ≡ true → run silence es w ≡ w
  unfolding run
  stopped_run [] w h = refl
  stopped_run (e ∷ es) w h = rw h refl

  run-step :
      (e : Event silence) (es : List (Event silence)) (w : Writer silence)
      → w.is_stopped ≡ false
      → run silence (e ∷ es) w ≡ run silence es (step silence e w)
  unfolding run
  run-step e es w h =
      subst
        (λ b.
          (if b then w else run silence es (step silence e w)) ≡ run silence es (step silence e w))
        (sym h) refl

  run-IsTimeline_from :
      (es : List (Event silence)) (left right : List Sample) (n : ℕ) (w : Writer silence)
      → w.is_stopped ≡ false
      → IsTimeline left right n w
      → IsTimeline
          (left ++ received_rx es)
          (right ++ received_tx es)
          (n + ticks es)
          (run silence es w)
  unfolding run step take_packet tick
  run-IsTimeline_from [] left right n w going h =
      rw (append-nil left, append-nil right, add-zero n) h
  run-IsTimeline_from (ticked ∷ es) left right n w going h =
      let rest =
        run-IsTimeline_from es left right (suc n) (tick silence w) going
          (tick-IsTimeline left right n w h) in
      let count : n + suc (ticks es) ≡ suc n + ticks es = omega arith in
      rw (run-step ticked es w going, count) rest
  run-IsTimeline_from (received (rx samples) ∷ es) left right n w going h =
      let w' : Writer silence = record w { rx_buffer = w.rx_buffer ++ samples } in
      let more : IsTimeline (left ++ samples) right n w' = record {
        parts = h.parts;
        one_for_each_tick = h.one_for_each_tick;
        short = h.short;
        left_kept = rw (h.left_kept) (append_assoc (concat (lefts h.parts)) w.rx_buffer samples);
        right_kept = h.right_kept;
        file = h.file;
      } in
      rw (run-step (received (rx samples)) es w going, ← append_assoc left samples (received_rx es))
        (run-IsTimeline_from es (left ++ samples) right n w' going more)
  run-IsTimeline_from (received (tx samples) ∷ es) left right n w going h =
      let w' : Writer silence = record w { tx_buffer = w.tx_buffer ++ samples } in
      let more : IsTimeline left (right ++ samples) n w' = record {
        parts = h.parts;
        one_for_each_tick = h.one_for_each_tick;
        short = h.short;
        left_kept = h.left_kept;
        right_kept = rw (h.right_kept) (append_assoc (concat (rights h.parts)) w.tx_buffer samples);
        file = h.file;
      } in
      rw
        (run-step (received (tx samples)) es w going, ← append_assoc right samples (received_tx es))
        (run-IsTimeline_from es left (right ++ samples) n w' going more)
  run-IsTimeline_from (received stop ∷ es) left right n w going h =
      rw
        (
          run-step (received stop) es w going,
          stopped_run es (record w { is_stopped = true }) refl,
          append-nil left,
          append-nil right,
          add-zero n,
        )
        (record {
          parts = h.parts;
          one_for_each_tick = h.one_for_each_tick;
          short = h.short;
          left_kept = h.left_kept;
          right_kept = h.right_kept;
          file = h.file;
        })

  -- Whatever comes in and however the ticks fall in between, the file is one chunk of 20 ms for each
  -- tick before the stop, and each side of it, without the silence that fills chunks up, has the
  -- samples of that side in the order in which they came in, but for those that are still in the
  -- buffer when the task ends.
  pub run-IsTimeline :
      (es : List (Event silence))
      → IsTimeline
          (received_rx es)
          (received_tx es)
          (ticks es)
          (run silence es (new_writer silence))
  unfolding new_writer
  run-IsTimeline es =
      let start : IsTimeline [] [] 0 (new_writer silence) = record {
        parts = [];
        one_for_each_tick = refl;
        short = tt;
        left_kept = refl;
        right_kept = refl;
        file = refl;
      } in
      subst
        (λ n. IsTimeline (received_rx es) (received_tx es) n (run silence es (new_writer silence)))
        (omega arith) (run-IsTimeline_from es [] [] 0 (new_writer silence) refl start)
