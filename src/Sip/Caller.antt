-- ===== src/Sip/Caller.antt =====
-- src/sip.rs: `caller_user_part` and `caller_matches`.
use sipbot.Prelude.{
  ℕ, ◌≡◌, ◌⊎◌, Bool, true, false, ◌||◌, Option, none, some, List, [], ◌∷◌, ◌++◌, map, keep, not,
  ◌==◌, if◌then◌else◌, All,
}
use sipbot.Prelude.Text.{
  Text, codes, text_eq, trim, to_lowercase, starts_with, strip_prefix, split, is_whitespace,
}

-- `trim_start_matches`: the prefix is taken off as often as it is there. The fuel is the length of
-- the text.
strip_all : Text → Text → Text → Text
strip_all [] p s = s
strip_all (_ ∷ fuel) p s = elim (strip_prefix s p) [ none ↦ s | some rest ↦ strip_all fuel p rest ]

unfoldable pub trim_start_matches : Text → Text → Text
unfolding strip_all
trim_start_matches p s = strip_all s p s

is_in : ℕ → Text → Bool
is_in c [] = false
is_in c (d ∷ ds) = c == d || is_in c ds

-- `split([…]).next()`
unfoldable pub before_any : Text → Text → Text
unfolding is_in
before_any seps [] = []
before_any seps (c ∷ cs) = if is_in c seps then [] else c ∷ before_any seps cs

unfoldable pub caller_user_part : Text → Text
unfolding trim_start_matches before_any
caller_user_part uri =
    before_any (codes "@;:>?")
      (trim_start_matches (codes "sips:") (trim_start_matches (codes "sip:") (trim uri)))

-- `strip_suffix('*')`
unfoldable pub strip_star : Text → Option Text
strip_star [] = none
strip_star (c ∷ []) = if c == b'*' then some [] else none
strip_star (c ∷ d ∷ cs) = elim (strip_star (d ∷ cs)) [ none ↦ none | some p ↦ some (c ∷ p) ]

-- one pattern, in lower case and trimmed, against the caller in lower case
unfoldable pub pattern_matches : Text → Text → Bool
pattern_matches caller p = elim (strip_star p) [
  | some prefix ↦ starts_with caller prefix
  | none ↦ text_eq caller p
]

unfoldable pub any_matches : Text → List Text → Bool
any_matches caller [] = false
any_matches caller (p ∷ ps) = pattern_matches caller p || any_matches caller ps

abbrev pub is_blank : Text → Bool
is_blank [] = true
is_blank (c ∷ cs) = false

-- the parts between the bars, trimmed and in lower case, without the empty ones
unfoldable pub patterns : Text → List Text
patterns pattern =
    keep (λ p. not (is_blank p)) (map (λ p. to_lowercase (trim p)) (split b'|' pattern))

unfoldable pub caller_matches : Text → Text → Bool
caller_matches pattern caller_user = any_matches (to_lowercase caller_user) (patterns pattern)

-- What one pattern means: a prefix of the caller before a star, or the caller itself.
abbrev pub Fits : Text → Text → Type 0
Fits caller p =
    ((prefix : Text) × (p ≡ prefix ++ b'*' ∷ []) × ((rest : Text) × (caller ≡ prefix ++ rest)))
    ⊎ (caller ≡ p)

-- Some pattern of the list fits.
abbrev pub AnyFits : Text → List Text → Type 0
AnyFits caller [] = ⊥
AnyFits caller (p ∷ ps) = Fits caller p ⊎ AnyFits caller ps

-- White space and bars only.
abbrev pub IsBlank : Text → Type 0
IsBlank = All (λ c. (is_whitespace c ≡ true) ⊎ (c ≡ b'|'))

abbrev IsSpace : Text → Type 0
IsSpace = All (λ c. is_whitespace c ≡ true)
