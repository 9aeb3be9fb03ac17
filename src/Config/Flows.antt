-- ===== src/Config/Flows.antt =====
-- src/config.rs: the flow entries and their parsers. A delay is read by the standard library's
-- `f64` and `Duration::from_secs_f64`, which panics on what no `Duration` can hold: the section
-- takes both, where `none` stands for the error and for the panic.
pub mod Parts
use sipbot.Prelude.{
  ℕ, zero, suc, ◌≤◌, ◌≡◌, ◌==◌, leb, Bool, true, false, ◌&&◌, ◌||◌, Option, none, some, List, [],
  ◌∷◌, if◌then◌else◌,
}
use sipbot.Prelude.Text.{Text, codes, text_eq, trim, to_lowercase, split, split_once}

-- What a parser returns, or that it panics.
pub data Parsed {ℓ} (A : Type ℓ) : Type ℓ where
  ok : A → Parsed A
  failed : Parsed A
  panicked : Parsed A

infixl 5 ◌>>=◌
abbrev pub ◌>>=◌ {ℓ κ} : {A : Type ℓ} {B : Type κ} → Parsed A → (A → Parsed B) → Parsed B
ok a >>= f = f a
failed >>= f = failed
panicked >>= f = panicked

abbrev pub or_failed {ℓ} : {A : Type ℓ} → Option A → Parsed A
or_failed none = failed
or_failed (some a) = ok a

abbrev pub or_panicked {ℓ} : {A : Type ℓ} → Option A → Parsed A
or_panicked none = panicked
or_panicked (some a) = ok a

-- The loop over the parts: blank ones are skipped, and the first that fails ends it.
unfoldable pub parse_parts {ℓ} : {A : Type ℓ} → (Text → Parsed A) → List Text → Parsed (List A)
parse_parts entry [] = ok []
parse_parts entry (part ∷ parts) =
    let rest = parse_parts entry parts in
    elim (trim part) [ [] ↦ rest | c ∷ cs ↦ (entry (c ∷ cs) >>= λ e. rest >>= λ es. ok (e ∷ es)) ]

-- `strip_suffix('s')`
unfoldable pub strip_s : Text → Option Text
strip_s [] = none
strip_s (c ∷ []) = if c == b's' then some [] else none
strip_s (c ∷ d ∷ ds) = elim (strip_s (d ∷ ds)) [ none ↦ none | some t ↦ some (c ∷ t) ]

abbrev pub is_dtmf_digit : ℕ → Bool
is_dtmf_digit c =
    (leb b'0' c && leb c b'9')
    || c == b'*'
    || c == b'#'
    || (leb b'A' c && leb c b'D')
    || (leb b'a' c && leb c b'd')

pub data ReinviteAction : Type 0 where
  hold resume : ReinviteAction

unfoldable pub from_str : Text → Option ReinviteAction
from_str s =
    let word = to_lowercase (trim s) in
    if text_eq word (codes "hold")
    then some hold
    else if text_eq word (codes "resume")
    then some resume
    else none

-- `replace("\\n", "\n")`: a backslash and an `n` become a line feed.
unfoldable pub replace_newlines : Text → Text
replace_newlines [] = []
replace_newlines (c ∷ []) = c ∷ []
replace_newlines (c ∷ d ∷ ds) =
    let skipped = replace_newlines ds in
    let kept = replace_newlines (d ∷ ds) in if c == 92 && d == b'n' then 10 ∷ skipped else c ∷ kept

unfoldable pub first_digit : Text → Parsed ℕ
first_digit [] = failed
first_digit (c ∷ cs) = if is_dtmf_digit c then ok c else failed

not_empty : Text → Parsed Text
not_empty [] = failed
not_empty (c ∷ cs) = ok (c ∷ cs)

module _ {F Duration : Type 0} (parse_f64 : Text → Option F)
    (from_secs_f64 : F → Option Duration) where
  pub record DtmfFlowEntry : Type 0 where
    pub delay : Duration
    pub digit : ℕ

  pub record ReinviteFlowEntry : Type 0 where
    pub delay : Duration
    pub action : ReinviteAction

  pub record TransferFlowEntry : Type 0 where
    pub delay : Duration
    pub target : Text

  pub record InfoFlowEntry : Type 0 where
    pub delay : Duration
    pub content_type : Text
    pub body : Text

  -- the delay, with an `s` behind it or without
  unfoldable pub parse_delay : Text → Parsed Duration
  unfolding strip_s
  parse_delay s = elim (strip_s s) [
    | some num ↦ (or_failed (parse_f64 num) >>= λ n. or_panicked (from_secs_f64 n))
    | none ↦ (or_failed (parse_f64 s) >>= λ n. or_panicked (from_secs_f64 n))
  ]

  unfoldable pub dtmf_entry : Text → Parsed DtmfFlowEntry
  unfolding parse_delay first_digit
  dtmf_entry part = or_failed (split_once b':' part) >>= λ p. parse_delay (trim p.0) >>= λ delay.
      first_digit (trim p.1) >>= λ digit. ok (record { delay = delay; digit = digit })

  unfoldable pub parse_dtmf_flows : Text → Parsed (List DtmfFlowEntry)
  unfolding parse_parts dtmf_entry
  parse_dtmf_flows input = parse_parts dtmf_entry (split b',' input)

  unfoldable pub reinvite_entry : Text → Parsed ReinviteFlowEntry
  unfolding parse_delay from_str
  reinvite_entry part = or_failed (split_once b':' part) >>= λ p.
      parse_delay (trim p.0) >>= λ delay.
      or_failed (from_str (trim p.1)) >>= λ action. ok (record { delay = delay; action = action })

  unfoldable pub parse_reinvite_flows : Text → Parsed (List ReinviteFlowEntry)
  unfolding parse_parts reinvite_entry
  parse_reinvite_flows input = parse_parts reinvite_entry (split b',' input)

  -- the delay of a transfer: the number is trimmed again, and it is made a `Duration` later
  transfer_secs : Text → Parsed F
  unfolding strip_s
  transfer_secs s = elim (strip_s s) [
    | some num ↦ or_failed (parse_f64 (trim num))
    | none ↦ or_failed (parse_f64 s)
  ]

  unfoldable pub transfer_entry : Text → Parsed TransferFlowEntry
  unfolding transfer_secs not_empty
  transfer_entry part = or_failed (split_once b':' part) >>= λ p.
      transfer_secs (trim p.0) >>= λ num. not_empty (trim p.1) >>= λ target.
      or_panicked (from_secs_f64 num) >>= λ delay. ok (record { delay = delay; target = target })

  unfoldable pub parse_transfer_flows : Text → Parsed (List TransferFlowEntry)
  unfolding parse_parts transfer_entry
  parse_transfer_flows input = parse_parts transfer_entry (split b',' input)

  unfoldable pub info_entry : Text → Parsed InfoFlowEntry
  unfolding parse_delay not_empty replace_newlines
  info_entry part = or_failed (split_once b':' part) >>= λ p.
      or_failed (split_once b':' p.1) >>= λ q. parse_delay (trim p.0) >>= λ delay.
      not_empty (trim q.0) >>= λ content_type.
      ok (record { delay = delay; content_type = content_type; body = replace_newlines q.1 })

  unfoldable pub parse_info_flows : Text → Parsed (List InfoFlowEntry)
  unfolding parse_parts info_entry
  parse_info_flows input = parse_parts info_entry (split b';' input)
