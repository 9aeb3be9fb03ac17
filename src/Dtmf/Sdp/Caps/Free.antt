-- ===== src/Dtmf/Sdp/Caps/Free.antt =====
-- src/dtmf.rs: the search for a payload type that is not there ends.
use sipbot.Prelude.{
  ℕ, zero, suc, ◌+◌, ◌≤◌, ◌<◌, ◌≡◌, inl, inr, refl, ap, ◌∙◌, subst, arith, true, false, Bool-cases,
  ◌||◌, ◌==◌, ltb, leb, Option, none, some, List, [], ◌∷◌, length, if◌then◌else◌,
}
use sipbot.Prelude.Text.{Text, text_eq, text_eq_iff}
use sipbot.Prelude.Decimal.{to_string, parse_uint, parse_uint-to_string}
use sipbot.Dtmf.Sdp.Caps.{has, free_pt}

abbrev at_least : ℕ → Option ℕ → ℕ
at_least n none = 0
at_least n (some k) = if leb n k then 1 else 0

-- how many of the texts are numbers of at least `n`
abbrev count_from : ℕ → List Text → ℕ
count_from n [] = 0
count_from n (p ∷ ps) = at_least n (parse_uint 255 p) + count_from n ps

at_least_le : (n : ℕ) (o : Option ℕ) → at_least n o ≤ 1
at_least_le n none = omega arith
at_least_le n (some k) = ground arith

at_least-suc : (n : ℕ) (o : Option ℕ) → at_least (suc n) o ≤ at_least n o
at_least-suc n none = omega arith
at_least-suc n (some k) = ground arith

count_from-length : (n : ℕ) (ps : List Text) → count_from n ps ≤ length ps
count_from-length n [] = omega arith
count_from-length n (p ∷ ps) =
    omega (arith, at_least_le n (parse_uint 255 p), count_from-length n ps)

count_from-suc : (n : ℕ) (ps : List Text) → count_from (suc n) ps ≤ count_from n ps
count_from-suc n [] = omega arith
count_from-suc n (p ∷ ps) = omega (arith, at_least-suc n (parse_uint 255 p), count_from-suc n ps)

-- A number that is there counts once more than the ones after it.
count_from-has :
    (n : ℕ) (ps : List Text)
    → n ≤ 255
    → has ps (to_string n) ≡ true
    → suc (count_from (suc n) ps) ≤ count_from n ps
unfolding has
count_from-has n [] b h = cc h
count_from-has n (p ∷ ps) b h = elim (Bool-cases (text_eq p (to_string n))) [
  | inl same ↦
      let e : p ≡ to_string n = (text_eq_iff p (to_string n)).0 same in
      let parsed : parse_uint 255 p ≡ some n =
        ap (parse_uint 255) e ∙ parse_uint-to_string 255 n b in
      let more : leb (suc n) n ≡ false = ground arith in
      let this : leb n n ≡ true = ground arith in
      let rest = count_from-suc n ps in rw (parsed, more, this) (omega (arith, rest))
  | inr other ↦
      let later : has ps (to_string n) ≡ true =
        subst (λ b. (b || has ps (to_string n)) ≡ true) other h in
      omega (arith, at_least-suc n (parse_uint 255 p), count_from-has n ps b later)
]

-- Within the fuel and the 8 bits a free number is found.
free_pt_found :
    (fuel : ℕ) (ps : List Text) (n : ℕ)
    → count_from n ps < fuel
    → n + count_from n ps ≤ 255
    → (w : ℕ) × (free_pt fuel ps n ≡ some w)
      × (n ≤ w)
      × (w ≤ n + count_from n ps)
      × (has ps (to_string w) ≡ false)
      × ((k : ℕ) → n ≤ k → k < w → has ps (to_string k) ≡ true)
unfolding free_pt
free_pt_found zero ps n h b = absurd (omega (arith, h))
free_pt_found (suc fuel) ps n h b = elim (Bool-cases (has ps (to_string n))) [
  | inl there ↦
      let fewer = count_from-has n ps (omega (arith, b)) there in
      let room : ltb n 255 ≡ true = ground (arith, fewer, b) in
      let (w, e, lo, hi, free, all) =
        free_pt_found fuel ps (suc n) (omega (arith, h, fewer)) (omega (arith, b, fewer)) in
      (
        w,
        rw (there, room) e,
        omega (arith, lo),
        omega (arith, hi, fewer),
        free,
        λ k le lt. elim (Bool-cases (k == n)) [
          | inl here ↦
              let e' : n ≡ k = ground (arith, here) in
              subst (λ j. has ps (to_string j) ≡ true) e' there
          | inr after ↦ all k (ground (arith, after, le)) lt
        ],
      )
  | inr free ↦
      (n, rw free refl, omega arith, omega arith, free, λ k le lt. absurd (omega (arith, le, lt)))
]

-- The search for a payload type ends, after at most one round more than there are payload types,
-- with the first number from the wanted one on that is not among them, if numbers up to 255 are
-- enough.
pub free_pt_ends :
    (audio_pts : List Text) (pt : ℕ)
    → pt + length audio_pts ≤ 255
    → (w : ℕ) × (free_pt (suc (length audio_pts)) audio_pts pt ≡ some w)
      × (pt ≤ w)
      × (w ≤ pt + length audio_pts)
      × (has audio_pts (to_string w) ≡ false)
      × ((k : ℕ) → pt ≤ k → k < w → has audio_pts (to_string k) ≡ true)
free_pt_ends audio_pts pt h =
    let few = count_from-length pt audio_pts in
    let (w, e, lo, hi, free, all) =
      free_pt_found (suc (length audio_pts)) audio_pts pt (omega (arith, few))
        (omega (arith, few, h)) in
    (w, e, lo, omega (arith, hi, few), free, all)
