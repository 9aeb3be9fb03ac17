-- ===== src/Prelude/Decimal.antt =====
-- `FromStr` of the unsigned integers: an optional plus sign, then one or more digits, in range.
use sipbot.Prelude.Tests.{ltb, leb, ◌==◌, if◌then◌else◌, Bool-cases}
use Prim.Native.Nat.{ℕ, zero, suc, ◌+◌, ◌-◌, ◌*◌, ◌/◌, ◌%◌, ◌≤◌, ◌<◌}
use mathlib.Core.Path.{◌≡◌, refl, ◌∙◌}
use mathlib.Core.Logic.{inl, inr}
use native.Mathlib.Omega.{arith}
use mathlib.Core.Bool.{Bool, ◌&&◌}
use mathlib.Core.Option.{Option, none, some}
use mathlib.Core.List.{[], ◌∷◌}
use sipbot.Prelude.Text.{Text}

unfoldable pub is_digit : ℕ → Bool
is_digit c = leb b'0' c && leb c b'9'

unfoldable pub digits_from : ℕ → ℕ → Text → Option ℕ
unfolding is_digit
digits_from bound n [] = some n
digits_from bound n (c ∷ cs) =
    let m = n * 10 + (c - b'0') in
    let rest = digits_from bound m cs in if is_digit c && leb m bound then rest else none

abbrev some_digits : ℕ → Text → Option ℕ
some_digits bound [] = none
some_digits bound (c ∷ cs) = digits_from bound 0 (c ∷ cs)

unfoldable pub parse_uint : ℕ → Text → Option ℕ
unfolding digits_from
parse_uint bound [] = none
parse_uint bound (c ∷ cs) = if c == b'+' then some_digits bound cs else some_digits bound (c ∷ cs)

-- `to_string`: each round takes the last digit. The fuel is more than the number of digits.
emit : ℕ → ℕ → Text → Text
emit zero n out = out
emit (suc fuel) n out =
    let longer = (b'0' + n % 10) ∷ out in
    let rest = emit fuel (n / 10) longer in if ltb n 10 then longer else rest

unfoldable pub to_string : ℕ → Text
unfolding emit
to_string n = emit (suc n) n []

digits_from-emit :
    (bound fuel n : ℕ) (out : Text)
    → n < fuel
    → n ≤ bound
    → digits_from bound 0 (emit fuel n out) ≡ digits_from bound n out
unfolding emit
digits_from-emit bound zero n out h b = absurd (omega arith)
digits_from-emit bound (suc fuel) n out h b = elim (Bool-cases (ltb n 10)) [
  | inl small ↦ rw small (unfold digits_from in ground arith)
  | inr big ↦ rw big (
      digits_from-emit bound fuel (n / 10) ((b'0' + n % 10) ∷ out) (ground arith) (omega arith)
      ∙ step)
]
  where
    step : digits_from bound (n / 10) ((b'0' + n % 10) ∷ out) ≡ digits_from bound n out
    step =
        let m : n / 10 * 10 + (b'0' + n % 10 - b'0') ≡ n = omega arith in
        unfold digits_from in rw m (ground arith)

-- The first character is a digit.
abbrev IsNumber : Text → Type 0
IsNumber [] = ⊥
IsNumber (c ∷ cs) = (b'0' ≤ c) × (c ≤ b'9')

IsNumber-emit : (fuel n : ℕ) (out : Text) → n < fuel → IsNumber (emit fuel n out)
unfolding emit
IsNumber-emit zero n out h = absurd (omega arith)
IsNumber-emit (suc fuel) n out h = elim (Bool-cases (ltb n 10)) [
  | inl small ↦ rw small (omega arith)
  | inr big ↦ rw big (IsNumber-emit fuel (n / 10) ((b'0' + n % 10) ∷ out) (ground arith))
]

parse_uint-IsNumber :
    (bound : ℕ) (s : Text) → IsNumber s → parse_uint bound s ≡ digits_from bound 0 s
unfolding parse_uint
parse_uint-IsNumber bound [] h = absurd h
parse_uint-IsNumber bound (c ∷ cs) h = ground arith

-- A number in range is read back from its print.
pub parse_uint-to_string : (bound n : ℕ) → n ≤ bound → parse_uint bound (to_string n) ≡ some n
unfolding to_string
parse_uint-to_string bound n h =
    rw (parse_uint-IsNumber bound (emit (suc n) n []) (IsNumber-emit (suc n) n [] (omega arith)))
      (digits_from-emit bound (suc n) n [] (omega arith) h ∙ unfold digits_from in refl)

abbrev pub AreDigits : Text → Type 0
AreDigits [] = Unit
AreDigits (c ∷ cs) = (b'0' ≤ c) × (c ≤ b'9') × AreDigits cs

AreDigits-emit : (fuel n : ℕ) (out : Text) → AreDigits out → AreDigits (emit fuel n out)
unfolding emit
AreDigits-emit zero n out h = h
AreDigits-emit (suc fuel) n out h = elim (Bool-cases (ltb n 10)) [
  | inl small ↦ rw small (omega arith, omega arith, h)
  | inr big ↦
      rw big (AreDigits-emit fuel (n / 10) ((b'0' + n % 10) ∷ out) (omega arith, omega arith, h))
]

pub to_string-AreDigits : (n : ℕ) → AreDigits (to_string n)
unfolding to_string
to_string-AreDigits n = AreDigits-emit (suc n) n [] tt
