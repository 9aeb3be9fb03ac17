-- ===== src/Web/Api/Names.antt =====
-- src/web/api.rs: the name of a copied strategy.
use sipbot.Prelude.{
  ℕ, zero, suc, ◌≡◌, ◌⊎◌, inl, inr, refl, ap, subst, none, some, Option-cases, get_or, ◌++◌,
}
use sipbot.Prelude.Text.{Text, codes}
use sipbot.Prelude.Decimal.{to_string}
use sipbot.Config.Strategy.{Config, find_strategy}
use sipbot.Web.Api.{candidate, strategy_name_from, unique_strategy_name}

strategy_name_from_free :
    (fuel i : ℕ) (c : Config) (source name : Text)
    → strategy_name_from fuel i c source ≡ some name
    → find_strategy c name ≡ none
unfolding strategy_name_from
strategy_name_from_free zero i c source name h = absurd cc
strategy_name_from_free (suc fuel) i c source name h =
    elim (Option-cases (find_strategy c (candidate source i))) [
      | inl e ↦
          subst (λ n. find_strategy c n ≡ none)
            (ap (λ o. get_or o name) (rw (strategy_name_from, e) at h)) e
      | inr (s, e) ↦
          strategy_name_from_free fuel (suc i) c source name (rw (strategy_name_from, e) at h)
    ]

-- The name that a copied strategy gets is new, unless the ninety-nine names that are tried are all
-- taken: then it ends in the time stamp.
unique_strategy_name_free :
    (now : ℕ) (c : Config) (source : Text)
    → (find_strategy c (unique_strategy_name now c source) ≡ none)
      ⊎ (unique_strategy_name now c source ≡ source ++ codes "-copy" ++ to_string now)
unfolding unique_strategy_name
unique_strategy_name_free now c source = elim (Option-cases (strategy_name_from 99 1 c source)) [
  | inl e ↦ inr (rw (unique_strategy_name, e) refl)
  | inr (name, e) ↦
      inl (rw (unique_strategy_name, e) (strategy_name_from_free 99 1 c source name e))
]
