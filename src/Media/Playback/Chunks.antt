-- ===== src/Media/Playback/Chunks.antt =====
-- src/media.rs, `play_samples`: the chunks of a source.
use sipbot.Prelude.{
  ℕ, zero, suc, ◌+◌, ◌-◌, ◌*◌, ◌/◌, ◌≤◌, ◌<◌, ◌≡◌, refl, sym, ap, ◌∙◌, Bool-cases, inl, inr, List,
  [], ◌∷◌, ◌++◌, arith, min, length, take, drop, replicate, ◌==◌, append-nil,
}
use native.Mathlib.Nat.{div-add-mod', mod-lt}
use sipbot.Media.Playback.{slice, chunk_at, Source, chunk_size, num_chunks}

module _ {ℓ} {A : Type ℓ} where
  -- The first `n` samples, with silence where there are fewer.
  abbrev pub padded : A → ℕ → List A → List A
  padded z zero xs = []
  padded z (suc n) [] = z ∷ padded z n []
  padded z (suc n) (x ∷ xs) = x ∷ padded z n xs

  take-nil : (n : ℕ) (ys : List A) → ys ≡ take n [] ++ ys
  take-nil zero ys = refl
  take-nil (suc n) ys = refl

  padded_lem :
      (z : A) (n : ℕ) (xs : List A) → take n xs ++ replicate (n - length xs) z ≡ padded z n xs
  padded_lem z zero xs = let e : 0 - length xs ≡ 0 = omega arith in rw e
  padded_lem z (suc n) [] =
      let e : suc n - 0 ≡ suc (n - 0) = omega arith in
      rw e (ap (λ r. z ∷ r) (take-nil n (replicate (n - 0) z) ∙ padded_lem z n []))
  padded_lem z (suc n) (x ∷ xs) =
      let e : suc n - suc (length xs) ≡ n - length xs = omega arith in
      rw e (ap (λ r. x ∷ r) (padded_lem z n xs))

  abbrev pub chunks : A → List A → (size first n : ℕ) → List A
  chunks z xs size first zero = []
  chunks z xs size first (suc n) =
      chunk_at z xs (first * size) size ++ chunks z xs size (suc first) n

  length-drop : (n : ℕ) (xs : List A) → length (drop n xs) ≡ length xs - n
  length-drop zero xs = omega arith
  length-drop (suc n) [] = omega arith
  length-drop (suc n) (x ∷ xs) = omega (arith, length-drop n xs)

  take-min : (n : ℕ) (xs : List A) → take (min n (length xs)) xs ≡ take n xs
  take-min zero xs = let e : min 0 (length xs) ≡ 0 = omega arith in rw e
  take-min (suc n) [] = let e : min (suc n) 0 ≡ 0 = omega arith in rw e
  take-min (suc n) (x ∷ xs) =
      let e : min (suc n) (suc (length xs)) ≡ suc (min n (length xs)) = omega arith in
      rw e (ap (λ r. x ∷ r) (take-min n xs))

  take-all : (n : ℕ) (xs : List A) → length xs ≤ n → take n xs ≡ xs
  take-all zero [] h = refl
  take-all zero (x ∷ xs) h = absurd (omega arith)
  take-all (suc n) [] h = refl
  take-all (suc n) (x ∷ xs) h = ap (λ r. x ∷ r) (take-all n xs (omega arith))

  drop-nil : (n : ℕ) → drop {A = A} n [] ≡ []
  drop-nil zero = refl
  drop-nil (suc n) = refl

  length-take : (n : ℕ) (xs : List A) → length (take n xs) ≡ min n (length xs)
  length-take zero xs = omega arith
  length-take (suc n) [] = omega arith
  length-take (suc n) (x ∷ xs) = omega (arith, length-take n xs)

  take-take : (n : ℕ) (xs : List A) → take n (take n xs) ≡ take n xs
  take-take zero xs = refl
  take-take (suc n) [] = refl
  take-take (suc n) (x ∷ xs) = ap (λ r. x ∷ r) (take-take n xs)

  chunk_at-padded :
      (z : A) (xs : List A) (start size : ℕ)
      → chunk_at z xs start size ≡ padded z size (drop start xs)
  unfolding chunk_at
  chunk_at-padded z xs start size =
      let d : List A = drop start xs in
      let width : min (start + size) (length xs) - start ≡ min size (length d) =
        omega (arith, length-drop start xs) in
      let part : slice xs start (min (start + size) (length xs)) ≡ take size d =
        rw width (take-min size d) in
      rw part (elim (Bool-cases (length (take size d) == size)) [
        | inl full ↦
            let none_left : size - length d ≡ 0 = ground (arith, length-take size d) in
            let whole : take size d ++ [] ≡ padded z size d =
              rw none_left at (padded_lem z size d) in
            rw (full) (sym (append-nil (take size d)) ∙ whole)
        | inr short ↦
            let same : size - length (take size d) ≡ size - length d =
              omega (arith, length-take size d) in
            rw (short, same, take-take size d) (padded_lem z size d)
      ])

  length-padded : (z : A) (n : ℕ) (xs : List A) → length (padded z n xs) ≡ n
  length-padded z zero xs = refl
  length-padded z (suc n) [] = omega (arith, length-padded z n [])
  length-padded z (suc n) (x ∷ xs) = omega (arith, length-padded z n xs)

  pub length-chunk_at :
      (z : A) (xs : List A) (start size : ℕ) → length (chunk_at z xs start size) ≡ size
  length-chunk_at z xs start size =
      rw (chunk_at-padded z xs start size) (length-padded z size (drop start xs))

  padded-append :
      (z : A) (m n : ℕ) (xs : List A)
      → padded z m xs ++ padded z n (drop m xs) ≡ padded z (m + n) xs
  padded-append z zero n xs = let e : 0 + n ≡ n = omega arith in rw e
  padded-append z (suc m) n [] =
      let e : suc m + n ≡ suc (m + n) = omega arith in
      rw e (
        ap (λ r. z ∷ r)
          (ap (λ d. padded z m [] ++ padded z n d) (sym (drop-nil m)) ∙ padded-append z m n []))
  padded-append z (suc m) n (x ∷ xs) =
      let e : suc m + n ≡ suc (m + n) = omega arith in
      rw e (ap (λ r. x ∷ r) (padded-append z m n xs))

  drop-drop : (m n : ℕ) (xs : List A) → drop n (drop m xs) ≡ drop (m + n) xs
  drop-drop zero n xs = let e : 0 + n ≡ n = omega arith in rw e
  drop-drop (suc m) n [] = drop-nil n ∙ sym (drop-nil (suc m + n))
  drop-drop (suc m) n (x ∷ xs) =
      let e : suc m + n ≡ suc (m + n) = omega arith in rw e (drop-drop m n xs)

  chunks-padded :
      (z : A) (xs : List A) (size first n : ℕ)
      → chunks z xs size first n ≡ padded z (n * size) (drop (first * size) xs)
  chunks-padded z xs size first zero = let e : 0 * size ≡ 0 = omega arith in rw e
  chunks-padded z xs size first (suc n) =
      let d : List A = drop (first * size) xs in
      let next : suc first * size ≡ first * size + size = omega arith in
      let all : suc n * size ≡ size + n * size = omega arith in
      let rest : chunks z xs size (suc first) n ≡ padded z (n * size) (drop size d) =
        chunks-padded z xs size (suc first) n
        ∙ ap (λ k. padded z (n * size) (drop k xs)) next
        ∙ ap (padded z (n * size)) (sym (drop-drop (first * size) size xs)) in
      rw (chunk_at-padded z xs (first * size) size, rest, all) (padded-append z size (n * size) d)

  chunks_cover :
      (z : A) (xs : List A) (size n : ℕ)
      → length xs ≤ n * size
      → chunks z xs size 0 n ≡ xs ++ replicate (n * size - length xs) z
  chunks_cover z xs size n h =
      let e : 0 * size ≡ 0 = omega arith in
      rw (chunks-padded z xs size 0 n, e)
        (sym (padded_lem z (n * size) xs)
          ∙ ap (λ t. t ++ replicate (n * size - length xs) z) (take-all (n * size) xs h))

-- rounding up
ceil_lem : (n size : ℕ) → 0 < size → n ≤ (n + size - 1) / size * size
ceil_lem n size h = omega (arith, div-add-mod' (n + size - 1) size, mod-lt (n + size - 1) h)

-- The chunks that a playback takes one after the other in one round, put together, are the whole
-- source, with silence behind it up to the end of the last chunk. The sample rate is at least 50.
pub num_chunks-cover :
    {Sample : Type 0} (silence : Sample) (src : Source Sample)
    → 50 ≤ src.sample_rate
    → chunks silence src.samples (chunk_size src) 0 (num_chunks src)
      ≡ src.samples ++ replicate (num_chunks src * chunk_size src - length src.samples) silence
num_chunks-cover silence src h =
    chunks_cover silence src.samples (chunk_size src) (num_chunks src)
      (ceil_lem (length src.samples) (chunk_size src) (omega arith))
