-- ===== src/Prelude/Spaces.antt =====
-- Texts without white space, or without a given character.
use Prim.Native.Nat.{ℕ, ◌<◌}
use mathlib.Core.Path.{◌≡◌, refl}
use mathlib.Core.Logic.{◌≢◌, ◌⊎◌}
use mathlib.Core.Bool.{false}
use mathlib.Core.List.{[], ◌∷◌, ◌++◌}
use native.Mathlib.Omega.{arith}
use sipbot.Prelude.Lists.{All}
use sipbot.Prelude.Text.{Text, trim, trim_start, trim_end, is_whitespace}
use sipbot.Prelude.Decimal.{AreDigits}

-- No character of the text is `c`, or white space.
abbrev pub Lacks : ℕ → Text → Type 0
Lacks c = All (λ d. d ≢ c)

abbrev pub NoSpace : Text → Type 0
NoSpace = All (λ d. is_whitespace d ≡ false)

pub trim_end-NoSpace : (s : Text) → NoSpace s → trim_end s ≡ s
unfolding trim_end
trim_end-NoSpace [] h = refl
trim_end-NoSpace (c ∷ []) h = rw (h.0)
trim_end-NoSpace (c ∷ d ∷ s) h = rw (trim_end-NoSpace (d ∷ s) h.1)

pub trim-NoSpace : (s : Text) → NoSpace s → trim s ≡ s
unfolding trim trim_start
trim-NoSpace [] h = unfold trim_end in refl
trim-NoSpace (c ∷ s) h = rw (h.0) (trim_end-NoSpace (c ∷ s) h)

pub AreDigits-Lacks : (c : ℕ) (s : Text) → (c < b'0') ⊎ (b'9' < c) → AreDigits s → Lacks c s
AreDigits-Lacks c [] h d = tt
AreDigits-Lacks c (x ∷ s) h d = (λ e. ground arith, AreDigits-Lacks c s h d.2)

pub AreDigits-NoSpace : (s : Text) → AreDigits s → NoSpace s
unfolding is_whitespace
AreDigits-NoSpace [] d = tt
AreDigits-NoSpace (x ∷ s) d = (ground arith, AreDigits-NoSpace s d.2)

pub All-join : (P : ℕ → Type 0) (s t : Text) → All P s → All P t → All P (s ++ t)
All-join P [] t hs ht = ht
All-join P (c ∷ s) t hs ht = (hs.0, All-join P s t hs.1 ht)
