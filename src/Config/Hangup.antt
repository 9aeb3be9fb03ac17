-- ===== src/Config/Hangup.antt =====
-- src/config.rs: `HangupConfig` and its effective mode.
use sipbot.Prelude.{
  ℕ, zero, suc, ◌≡◌, ◌↔◌, ◌⊎◌, inl, inr, Option-cases, refl, Option, none, some, get_or, arith, max,
  if◌then◌else◌,
}
use sipbot.Prelude.Text.{Text, codes, text_eq, text_eq_iff, trim, to_lowercase}

pub record HangupConfig : Type 0 where
  pub code : ℕ  -- u16
  pub after_secs : Option ℕ
  pub mode : Option Text

pub data HangupMode : Type 0 where
  remote : HangupMode
  after : ℕ → HangupMode
  playback : HangupMode

-- without a known mode word
legacy_mode : Option ℕ → HangupMode
legacy_mode (some secs) = after secs
legacy_mode none = playback

mode_of_word : Option ℕ → Text → HangupMode
unfolding legacy_mode
mode_of_word after_secs m =
    if text_eq m (codes "remote")
    then remote
    else if text_eq m (codes "playback")
    then playback
    else if text_eq m (codes "after")
    then after (max (get_or after_secs 0) 1)
    else legacy_mode after_secs

unfoldable pub effective_mode : HangupConfig → HangupMode
unfolding mode_of_word
effective_mode h = elim h.mode [
  | none ↦ legacy_mode h.after_secs
  | some m ↦ mode_of_word h.after_secs (to_lowercase (trim m))
]

-- The word by which a mode is chosen.
abbrev pub IsMode : HangupConfig → Text → Type 0
IsMode h word = (m : Text) × (h.mode ≡ some m) × (to_lowercase (trim m) ≡ word)

mode_of_word_remote :
    (after_secs : Option ℕ) (m : Text) → mode_of_word after_secs m ≡ remote → m ≡ codes "remote"
unfolding mode_of_word
mode_of_word_remote after_secs m h = ground (arith, text_eq_iff m (codes "remote"))

-- The bot leaves the hangup to the peer exactly when the mode is the word `remote`, in any case and
-- with white space around it.
effective_mode_remote_iff :
    (h : HangupConfig) → (effective_mode h ≡ remote) ↔ IsMode h (codes "remote")
unfolding effective_mode
effective_mode_remote_iff h = (to, from)
  where
    to : effective_mode h ≡ remote → IsMode h (codes "remote")
    to e = elim (Option-cases h.mode) [
      | inl no_mode ↦ absurd (ground arith)
      | inr (m, is_m) ↦
          (m, is_m, mode_of_word_remote h.after_secs (to_lowercase (trim m)) (rw is_m at e))
    ]

    from : IsMode h (codes "remote") → effective_mode h ≡ remote
    from (m, is_m, word) = rw (is_m, word) (unfold text_eq in refl)

mode_of_word_after :
    (after_secs : Option ℕ) (m : Text) (n : ℕ)
    → mode_of_word after_secs m ≡ after n
    → (after_secs ≡ some n) ⊎ ((n ≡ 1) × (m ≡ codes "after"))
unfolding mode_of_word
mode_of_word_after none m n h = ground (arith, text_eq_iff m (codes "after"))
mode_of_word_after (some zero) m n h = ground (arith, text_eq_iff m (codes "after"))
mode_of_word_after (some (suc k)) m n h = ground arith

-- A timer runs for the configured seconds, or for one second where the mode asks for a timer and
-- none is configured, or zero is.
effective_mode_after :
    (h : HangupConfig) (n : ℕ)
    → effective_mode h ≡ after n
    → (h.after_secs ≡ some n) ⊎ ((n ≡ 1) × IsMode h (codes "after"))
unfolding effective_mode
effective_mode_after h n e = elim (Option-cases h.mode) [
  | inl no_mode ↦ inl (ground arith)
  | inr (m, is_m) ↦
      elim (mode_of_word_after h.after_secs (to_lowercase (trim m)) n (rw is_m at e)) [
        | inl secs ↦ inl secs
        | inr (one, word) ↦ inr (one, (m, is_m, word))
      ]
]
