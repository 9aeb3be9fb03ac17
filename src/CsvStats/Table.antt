-- ===== src/CsvStats/Table.antt =====
-- src/csv_stats.rs: the file as a table.
use sipbot.Prelude.{
  ℕ, ◌≡◌, ◌≢◌, inl, inr, refl, ap, subst, ◌∙◌, arith, Bool, true, false, Bool-cases, List, [], ◌∷◌,
  ◌++◌, map, All, append_assoc, length, if◌then◌else◌, ◌==◌,
}
use sipbot.Prelude.Text.{Text, codes, join, split}
use sipbot.Prelude.Spaces.{Lacks, All-join, AreDigits-Lacks}
use sipbot.Prelude.Splitting.{split-first, split-Lacks}
use sipbot.Prelude.Decimal.{to_string, to_string-AreDigits}
use sipbot.Prelude.Floats.{Floats}
use sipbot.CsvStats.{
  Value, counter, ratio, print_value, values, header_columns, line_of, Sample, row_fields,
  format_csv_row, record_ticks, start,
}

-- A file of comma-separated values: its lines, each as its fields.
abbrev pub table : Text → List (List Text)
table s = map (λ l. split b',' l) (split 10 s)

abbrev pub IsPlain : Text → Type 0
IsPlain s = Lacks b',' s × Lacks 10 s

split-join :
    (x : Text) (xs : List Text)
    → All IsPlain (x ∷ xs)
    → split b',' (join (codes ",") (x ∷ xs)) ≡ x ∷ xs
unfolding join
split-join x [] h = split-Lacks b',' x h.0.0
split-join x (y ∷ xs) h =
    split-first b',' x (join (codes ",") (y ∷ xs)) h.0.0 ∙ ap (λ r. x ∷ r) (split-join y xs h.1)

Lacks-join :
    (x : Text) (xs : List Text) → All IsPlain (x ∷ xs) → Lacks 10 (join (codes ",") (x ∷ xs))
unfolding join
Lacks-join x [] h = h.0.1
Lacks-join x (y ∷ xs) h =
    All-join (λ d. d ≢ 10) x (b',' ∷ join (codes ",") (y ∷ xs)) h.0.1
      (λ e. omega (arith, e), Lacks-join y xs h.1)

table-line_of :
    (x : Text) (xs : List Text) (rest : Text)
    → All IsPlain (x ∷ xs)
    → table (line_of (x ∷ xs) ++ rest) ≡ (x ∷ xs) ∷ table rest
table-line_of x xs rest h =
    let line = join (codes ",") (x ∷ xs) in
    ap table (append_assoc line (codes "\n") rest)
    ∙ ap (map (λ l. split b',' l)) (split-first 10 line rest (Lacks-join x xs h))
    ∙ ap (λ r. r ∷ table rest) (split-join x xs h)

pub to_string-IsPlain : (n : ℕ) → IsPlain (to_string n)
to_string-IsPlain n = (
  AreDigits-Lacks b',' (to_string n) (inl (omega arith)) (to_string-AreDigits n),
  AreDigits-Lacks 10 (to_string n) (inl (omega arith)) (to_string-AreDigits n),
)

-- a test for plain texts
abbrev lacks : ℕ → Text → Bool
lacks c [] = true
lacks c (d ∷ s) = if d == c then false else lacks c s

abbrev are_plain : List Text → Bool
are_plain [] = true
are_plain (x ∷ xs) = if lacks b',' x then (if lacks 10 x then are_plain xs else false) else false

lacks-Lacks : (c : ℕ) (s : Text) → lacks c s ≡ true → Lacks c s
lacks-Lacks c [] h = tt
lacks-Lacks c (d ∷ s) h = elim (Bool-cases (d == c)) [
  | inl same ↦ cc (subst (λ b. (if b then false else lacks c s) ≡ true) same h)
  | inr other ↦ (
    λ e. ground (arith, e, other),
    lacks-Lacks c s (subst (λ b. (if b then false else lacks c s) ≡ true) other h),
  )
]

are_plain-IsPlain : (xs : List Text) → are_plain xs ≡ true → All IsPlain xs
are_plain-IsPlain [] h = tt
are_plain-IsPlain (x ∷ xs) h = elim (Bool-cases (lacks b',' x)) [
  | inl p ↦
      let h1 =
        subst (λ b. (if b then (if lacks 10 x then are_plain xs else false) else false) ≡ true) p
          h in
      elim (Bool-cases (lacks 10 x)) [
        | inl q ↦ (
          (lacks-Lacks b',' x p, lacks-Lacks 10 x q),
          are_plain-IsPlain xs (subst (λ b. (if b then are_plain xs else false) ≡ true) q h1),
        )
        | inr q ↦ cc (subst (λ b. (if b then are_plain xs else false) ≡ true) q h1)
      ]
  | inr p ↦
      cc (
        subst (λ b. (if b then (if lacks 10 x then are_plain xs else false) else false) ≡ true) p h)
]

header_columns-IsPlain : All IsPlain header_columns
unfolding header_columns
header_columns-IsPlain = are_plain-IsPlain header_columns refl

-- the line after the last line feed
abbrev pub last_line : List (List Text)
last_line = ([] ∷ []) ∷ []

module _ (f : Floats) where
  -- the rows that could be written
  abbrev pub written : List (Sample × Bool) → List (List Text)
  written [] = []
  written ((x, is_written) ∷ xs) = if is_written then row_fields f x ∷ written xs else written xs

module _ (f : Floats) (fixed_plain : (n : ℕ) (x : f.Float) → IsPlain (f.fixed n x)) where
  print_value-IsPlain : (v : Value f) → IsPlain (print_value f v)
  unfolding print_value
  print_value-IsPlain (counter n) = to_string-IsPlain n
  print_value-IsPlain (ratio x) = fixed_plain 2 x

  All-print_value : (vs : List (Value f)) → All IsPlain (map (λ v. print_value f v) vs)
  All-print_value [] = tt
  All-print_value (v ∷ vs) = (print_value-IsPlain v, All-print_value vs)

  row_fields-IsPlain : (x : Sample) → IsPlain x.timestamp → All IsPlain (row_fields f x)
  unfolding row_fields
  row_fields-IsPlain x h = (h, All-print_value (values f x))

  abbrev IsFilled : List Text → Type 0
  IsFilled [] = ⊥
  IsFilled (x ∷ xs) = Unit

  table-line :
      (xs : List Text) (rest : Text)
      → IsFilled xs
      → All IsPlain xs
      → table (line_of xs ++ rest) ≡ xs ∷ table rest
  table-line [] rest e h = absurd e
  table-line (x ∷ xs) rest e h = table-line_of x xs rest h

  row_fields-IsFilled : (x : Sample) → IsFilled (row_fields f x)
  unfolding row_fields
  row_fields-IsFilled x = tt

  table-format_csv_row :
      (x : Sample) (rest : Text)
      → IsPlain x.timestamp
      → table (format_csv_row f x ++ rest) ≡ row_fields f x ∷ table rest
  unfolding format_csv_row
  table-format_csv_row x rest h =
      table-line (row_fields f x) rest (row_fields-IsFilled x) (row_fields-IsPlain x h)

  table-record_ticks :
      (xs : List (Sample × Bool))
      → All (λ x. IsPlain (x.0).timestamp) xs
      → table (record_ticks f xs) ≡ written f xs ++ last_line
  unfolding record_ticks
  table-record_ticks [] h = unfold split in refl
  table-record_ticks ((x, true) ∷ xs) (h, hs) =
      table-format_csv_row x (record_ticks f xs) h
      ∙ ap (λ r. row_fields f x ∷ r) (table-record_ticks xs hs)
  table-record_ticks ((x, false) ∷ xs) (h, hs) = table-record_ticks xs hs

  header_columns-IsFilled : IsFilled header_columns
  unfolding header_columns
  header_columns-IsFilled = tt

  -- Read as comma-separated values, the file of a recorder is a table: the header, the row of the
  -- start, and, where the interval is not 0, the rows of the ticks that could be written. Each row
  -- holds the values of its sample, one for each column of the header. The times and the floats are
  -- printed without commas and line feeds.
  pub table-start :
      (interval_secs : ℕ) (initial : Sample) (ticks : List (Sample × Bool))
      → IsPlain initial.timestamp
      → All (λ x. IsPlain (x.0).timestamp) ticks
      → (table (start f interval_secs initial ticks)
          ≡ header_columns
            ∷ row_fields f initial
            ∷ ((if interval_secs == 0 then [] else written f ticks) ++ last_line))
        × ((x : Sample) → length (row_fields f x) ≡ length header_columns)
  unfolding start row_fields values header_columns
  table-start interval_secs initial ticks h hs =
      let rest = if interval_secs == 0 then [] else record_ticks f ticks in
      let rest_table : table rest
          ≡ (if interval_secs == 0 then [] else written f ticks) ++ last_line =
        elim (Bool-cases (interval_secs == 0)) [
          | inl e ↦ rw e (unfold split in refl)
          | inr e ↦ rw e (table-record_ticks ticks hs)
        ] in
      (
        table-line header_columns (format_csv_row f initial ++ rest) header_columns-IsFilled
              header_columns-IsPlain
            ∙ ap (λ r. header_columns ∷ r)
                (table-format_csv_row initial rest h
                  ∙ ap (λ r. row_fields f initial ∷ r) rest_table),
        λ x. refl,
      )
