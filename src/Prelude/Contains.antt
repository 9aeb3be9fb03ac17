-- ===== src/Prelude/Contains.antt =====
-- Beginnings and parts of a text.
use mathlib.Core.Path.{◌≡◌, refl}
use mathlib.Core.Logic.{◌↔◌, inl, inr}
use mathlib.Core.Bool.{Bool, true, ◌||◌}
use mathlib.Core.List.{[], ◌∷◌, ◌++◌}
use native.Mathlib.Omega.{arith}
use sipbot.Prelude.Tests.{Bool-cases}
use sipbot.Prelude.Text.{Text, starts_with}

pub starts_with-append : (s p : Text) → starts_with s p ≡ true → (rest : Text) × (s ≡ p ++ rest)
unfolding starts_with
starts_with-append s [] h = (s, refl)
starts_with-append [] (p ∷ ps) h = cc
starts_with-append (c ∷ cs) (p ∷ ps) h =
    let (rest, e) = starts_with-append cs ps (ground arith) in (rest, ground arith)

pub append-starts_with : (p rest : Text) → starts_with (p ++ rest) p ≡ true
unfolding starts_with
append-starts_with [] rest = refl
append-starts_with (p ∷ ps) rest = ground (arith, append-starts_with ps rest)

-- `contains`
unfoldable pub contains : Text → Text → Bool
contains [] p = starts_with [] p
contains (c ∷ cs) p = starts_with (c ∷ cs) p || contains cs p

-- One text is a part of another.
abbrev pub IsPart : Text → Text → Type 0
IsPart p s = (before : Text) × (rest : Text) × (s ≡ before ++ p ++ rest)

contains-IsPart : (s p : Text) → contains s p ≡ true → IsPart p s
unfolding contains
contains-IsPart [] p h = let (rest, e) = starts_with-append [] p h in ([], rest, e)
contains-IsPart (c ∷ cs) p h = elim (Bool-cases (starts_with (c ∷ cs) p)) [
  | inl e ↦ let (rest, parts) = starts_with-append (c ∷ cs) p e in ([], rest, parts)
  | inr e ↦
      let (before, rest, parts) = contains-IsPart cs p (rw e at h) in (c ∷ before, rest, cc parts)
]

parts-contains : (before p rest : Text) → contains (before ++ p ++ rest) p ≡ true
unfolding contains
parts-contains [] p rest = starts_contains (p ++ rest) p (append-starts_with p rest)
  where
    starts_contains : (s p : Text) → starts_with s p ≡ true → contains s p ≡ true
    starts_contains [] p h = h
    starts_contains (c ∷ cs) p h = rw (contains, h) refl
parts-contains (c ∷ before) p rest = ground (arith, parts-contains before p rest)

-- A text contains another exactly when it is a part of it.
pub contains_iff : (s p : Text) → (contains s p ≡ true) ↔ IsPart p s
contains_iff s p =
    (contains-IsPart s p, λ (before, rest, parts). rw parts (parts-contains before p rest))
