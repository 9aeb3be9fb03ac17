-- ===== src/Stats/Report/Sums.antt =====
-- src/stats.rs: what the classes of response codes count.
use sipbot.Prelude.{
  ℕ, suc, ◌+◌, ◌%◌, ◌≤◌, ◌<◌, ◌≡◌, ◌&&◌, refl, arith, leb, ◌==◌, List, [], ◌∷◌, if◌then◌else◌, drop,
}
use sipbot.Stats.{CallStats}
use sipbot.Stats.Report.{Classes, count_code, count_classes, classes}

-- The sum of the counters of the codes from `first` to `last`, of those from `code` on.
unfoldable pub sum_of : (first last : ℕ) → ℕ → List ℕ → ℕ
sum_of first last code [] = 0
sum_of first last code (count ∷ counts) =
    (if leb first code && leb code last then count else 0) + sum_of first last (suc code) counts

abbrev Small : Classes → Type 0
Small c =
    (c.c3xx < 4294967296) × (c.c4xx < 4294967296) × (c.c5xx < 4294967296) × (c.c6xx < 4294967296)

abbrev Sums : ℕ → List ℕ → Classes → Classes → Type 0
Sums code counts c d =
    (d.c3xx ≡ (c.c3xx + sum_of 300 399 code counts) % 4294967296)
    × (d.c4xx ≡ (c.c4xx + sum_of 400 499 code counts) % 4294967296)
    × (d.c5xx ≡ (c.c5xx + sum_of 500 599 code counts) % 4294967296)
    × (d.c6xx ≡ (c.c6xx + sum_of 600 699 code counts) % 4294967296)

-- one counter more
abbrev Counts : ℕ → ℕ → Classes → Classes → Type 0
Counts code count c d =
    (d.c3xx ≡ (c.c3xx + (if leb 300 code && leb code 399 then count else 0)) % 4294967296)
    × (d.c4xx ≡ (c.c4xx + (if leb 400 code && leb code 499 then count else 0)) % 4294967296)
    × (d.c5xx ≡ (c.c5xx + (if leb 500 code && leb code 599 then count else 0)) % 4294967296)
    × (d.c6xx ≡ (c.c6xx + (if leb 600 code && leb code 699 then count else 0)) % 4294967296)

count_code-Counts :
    (code count : ℕ) (c : Classes)
    → 300 ≤ code
    → Small c
    → Counts code count c (if count == 0 then c else count_code code count c)
count_code-Counts code count c h (a, b, d, e) =
    (ground arith, ground arith, ground arith, ground arith)

Counts-Small : (code count : ℕ) (c d : Classes) → Counts code count c d → Small d
Counts-Small code count c d (p, q, r, s) =
    (omega (arith, p), omega (arith, q), omega (arith, r), omega (arith, s))

add-mod :
    (a b c x y z : ℕ)
    → b ≡ (a + x) % 4294967296
    → c ≡ (b + y) % 4294967296
    → z ≡ x + y
    → c ≡ (a + z) % 4294967296
add-mod a b c x y z p q r = omega (arith, p, q, r)

count_classes-Sums :
    (code : ℕ) (counts : List ℕ) (c : Classes)
    → 300 ≤ code
    → Small c
    → Sums code counts c (count_classes code counts c)
unfolding count_classes sum_of
count_classes-Sums code [] c h (p, q, r, s) =
    (omega (arith, p), omega (arith, q), omega (arith, r), omega (arith, s))
count_classes-Sums code (count ∷ counts) c h small =
    let d = if count == 0 then c else count_code code count c in
    let (p, q, r, s) = count_code-Counts code count c h small in
    let (p', q', r', s') =
      count_classes-Sums (suc code) counts d (omega (arith, h))
        (Counts-Small code count c d (p, q, r, s)) in
    (
      add-mod _ _ _ _ _ _ p p' refl,
      add-mod _ _ _ _ _ _ q q' refl,
      add-mod _ _ _ _ _ _ r r' refl,
      add-mod _ _ _ _ _ _ s s' refl,
    )

-- The four classes of the progress line and of the CSV rows hold, as 32-bit numbers, the sums of the
-- counters of the codes 300 to 399, 400 to 499, 500 to 599 and 600 to 699.
pub classes_sums :
    (s : CallStats)
    → ((classes s).c3xx ≡ sum_of 300 399 300 (drop 300 s.status_codes) % 4294967296)
      × ((classes s).c4xx ≡ sum_of 400 499 300 (drop 300 s.status_codes) % 4294967296)
      × ((classes s).c5xx ≡ sum_of 500 599 300 (drop 300 s.status_codes) % 4294967296)
      × ((classes s).c6xx ≡ sum_of 600 699 300 (drop 300 s.status_codes) % 4294967296)
unfolding classes
classes_sums s =
    let zero_classes : Classes = record { c3xx = 0; c4xx = 0; c5xx = 0; c6xx = 0 } in
    let (p, q, r, t) =
      count_classes-Sums 300 (drop 300 s.status_codes) zero_classes (omega arith)
        (omega arith, omega arith, omega arith, omega arith) in
    (omega (arith, p), omega (arith, q), omega (arith, r), omega (arith, t))
