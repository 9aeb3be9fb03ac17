-- ===== src/Prelude/Splitting.antt =====
-- The parts of a text that was put together with separators.
use Prim.Native.Nat.{ℕ}
use mathlib.Core.Path.{◌≡◌, refl, ap, ◌∙◌}
use mathlib.Core.Logic.{inl, inr}
use mathlib.Core.Bool.{false}
use mathlib.Core.List.{List, [], ◌∷◌, ◌++◌}
use native.Mathlib.Omega.{arith}
use sipbot.Prelude.Tests.{Bool-cases, ◌==◌}
use sipbot.Prelude.Text.{Text, split}
use sipbot.Prelude.Spaces.{Lacks}

split_cons :
    (sep : ℕ) (t : Text) → (part : Text) × (parts : List Text) × (split sep t ≡ part ∷ parts)
unfolding split
split_cons sep [] = ([], [], refl)
split_cons sep (c ∷ t) =
    let (part, parts, e) = split_cons sep t in
    elim (Bool-cases (c == sep)) [
      | inl same ↦ rw (e, same) ([], part ∷ parts, refl)
      | inr other ↦ rw (e, other) (c ∷ part, parts, refl)
    ]

pub split-append : (sep : ℕ) (s t : Text) → split sep (s ++ sep ∷ t) ≡ split sep s ++ split sep t
unfolding split
split-append sep [] t = let (part, parts, e) = split_cons sep t in rw e (ground arith)
split-append sep (c ∷ s) t =
    let (part, parts, e) = split_cons sep s in
    rw (split-append sep s t, e)
      (elim (Bool-cases (c == sep)) [ inl same ↦ rw same | inr other ↦ rw other ])

pub split-Lacks : (c : ℕ) (s : Text) → Lacks c s → split c s ≡ s ∷ []
unfolding split
split-Lacks c [] h = refl
split-Lacks c (d ∷ s) h =
    let other : (d == c) ≡ false = ground (arith, h.0) in rw (split-Lacks c s h.1, other)

-- The first part ends at the first separator.
pub split-first : (c : ℕ) (s t : Text) → Lacks c s → split c (s ++ c ∷ t) ≡ s ∷ split c t
split-first c s t h = split-append c s t ∙ ap (λ parts. parts ++ split c t) (split-Lacks c s h)
