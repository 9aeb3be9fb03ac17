-- ===== src/Web/Api/Bound.antt =====
-- src/web/api.rs: the edits of the page keep every account bound to a strategy that is there.
use sipbot.Prelude.{
  ℕ, ◌≡◌, refl, arith, Bool, false, not, Option, none, some, List, [], ◌∷◌, ◌++◌, map, length, keep,
  find_first, if◌then◌else◌, ◌==◌, Bool-cases, Option-cases, get_or, inl, inr, All, ap, subst,
}
use sipbot.Prelude.Text.{Text, text_eq, text_eq_iff}
use sipbot.Config.Account.{AccountConfig, StrategyConfig}
use sipbot.Config.Strategy.{Config, find_strategy}
use sipbot.Web.Api.{
  update_first, is_account, is_bound_to, set_accounts, copy_strategy, post_strategy_copy, unbind,
  drop_strategy, delete_strategy, copy_account, post_account_copy, post_account_enabled,
  new_binding, bind, post_account_bind, Edit, strategy_copy, strategy_delete, account_copy,
  account_enabled, account_bind, edit,
}

abbrev find : List StrategyConfig → Text → Option StrategyConfig
find ss name = find_first (λ s. text_eq s.name name) ss

-- A binding is to no strategy, or to one of the list.
abbrev pub IsIn : List StrategyConfig → Option Text → Type 0
IsIn ss none = Unit
IsIn ss (some name) = (s : StrategyConfig) × (find ss name ≡ some s)

abbrev pub IsBound : Config → Type 0
IsBound c = All (λ (a : AccountConfig). IsIn c.strategies a.strategy) c.accounts

find-append :
    (ss more : List StrategyConfig) (name : Text) (s : StrategyConfig)
    → find ss name ≡ some s
    → find (ss ++ more) name ≡ some s
find-append [] more name s h = absurd cc
find-append (x ∷ ss) more name s h = ground (arith, find-append ss more name s)

IsIn-append : (ss more : List StrategyConfig) (o : Option Text) → IsIn ss o → IsIn (ss ++ more) o
IsIn-append ss more none h = tt
IsIn-append ss more (some name) (s, h) = (s, find-append ss more name s h)

-- Another strategy is still found.
find-keep :
    (ss : List StrategyConfig) (gone name : Text)
    → text_eq name gone ≡ false
    → find (keep (λ (s : StrategyConfig). not (text_eq s.name gone)) ss) name ≡ find ss name
find-keep [] gone name h = refl
find-keep (x ∷ ss) gone name h = ground (
  arith,
  text_eq_iff x.name gone,
  text_eq_iff x.name name,
  text_eq_iff name gone,
  find-keep ss gone name h,
)

IsIn-unbind :
    (ss : List StrategyConfig) (gone : Text) (o : Option Text)
    → IsIn ss o
    → IsIn
        (keep (λ (s : StrategyConfig). not (text_eq s.name gone)) ss)
        (if is_bound_to gone o then none else o)
IsIn-unbind ss gone none h = tt
IsIn-unbind ss gone (some name) (s, h) = elim (Bool-cases (text_eq name gone)) [
  | inl e ↦ rw e tt
  | inr e ↦ rw (e, find-keep ss gone name e, h) (s, refl)
]

module _ {ℓ κ} {A : Type ℓ} (P : A → Type κ) where
  All-append : (xs ys : List A) → All P xs → All P ys → All P (xs ++ ys)
  All-append [] ys p q = q
  All-append (x ∷ xs) ys p q = (p.0, All-append xs ys p.1 q)

  All-find_first : (p : A → Bool) (xs : List A) (x : A) → find_first p xs ≡ some x → All P xs → P x
  All-find_first p [] x e h = absurd cc
  All-find_first p (y ∷ ys) x e h = elim (Bool-cases (p y)) [
    | inl holds ↦ subst P (ap (λ o. get_or o y) (rw holds at e)) h.0
    | inr fails ↦ All-find_first p ys x (rw fails at e) h.1
  ]

  -- What a write to one element makes of the list, if it finds one.
  abbrev AllIf : Option (List A) → Type κ
  AllIf none = Unit
  AllIf (some xs) = All P xs

  All-update_first :
      (p : A → Bool) (f : A → A) (xs : List A)
      → ((x : A) → P x → P (f x))
      → All P xs
      → AllIf (update_first p f xs)
  unfolding update_first
  All-update_first p f [] keeps h = tt
  All-update_first p f (x ∷ xs) keeps h = elim (Bool-cases (p x)) [
    | inl holds ↦ rw (update_first, holds) (keeps x h.0, h.1)
    | inr fails ↦
        let rest = All-update_first p f xs keeps h.1 in
        elim (Option-cases (update_first p f xs)) [
          | inl e ↦ rw (update_first, fails, e) tt
          | inr (ys, e) ↦ rw (update_first, fails, e) (h.0, rw e at rest)
        ]
  ]

All-map :
    {A : Type 0} (P Q : A → Type 0) (f : A → A) (xs : List A)
    → ((x : A) → P x → Q (f x))
    → All P xs
    → All Q (map f xs)
All-map P Q f [] keeps h = tt
All-map P Q f (x ∷ xs) keeps h = (keeps x h.0, All-map P Q f xs keeps h.1)

All-weaken :
    {A : Type 0} (P Q : A → Type 0) (xs : List A) → ((x : A) → P x → Q x) → All P xs → All Q xs
All-weaken P Q [] keeps h = tt
All-weaken P Q (x ∷ xs) keeps h = (keeps x h.0, All-weaken P Q xs keeps h.1)

set_accounts-IsBound :
    (c : Config) (accounts : Option (List AccountConfig))
    → IsBound c
    → AllIf (λ (a : AccountConfig). IsIn c.strategies a.strategy) accounts
    → IsBound (set_accounts c accounts).1
set_accounts-IsBound c none h new = h
set_accounts-IsBound c (some accounts) h new = new

post_strategy_copy-IsBound :
    (now : ℕ) (source new_name : Option Text) (c : Config)
    → IsBound c
    → IsBound (post_strategy_copy now source new_name c).1
unfolding post_strategy_copy copy_strategy
post_strategy_copy-IsBound now none new_name c h = h
post_strategy_copy-IsBound now (some source) new_name c h =
    elim (Option-cases (find_strategy c source)) [
      | inl e ↦ rw (post_strategy_copy, e) h
      | inr (src, e) ↦
          rw (post_strategy_copy, e)
            (All-weaken (λ (a : AccountConfig). IsIn c.strategies a.strategy) _ c.accounts
              (λ a b. IsIn-append c.strategies _ a.strategy b) h)
    ]

delete_strategy-IsBound :
    (name : Text) (c : Config) → IsBound c → IsBound (delete_strategy name c).1
unfolding delete_strategy drop_strategy unbind
delete_strategy-IsBound name c h =
    elim (Bool-cases (length (drop_strategy name c).strategies == length c.strategies)) [
      | inl e ↦ rw e h
      | inr e ↦ rw e (
          All-map (λ (a : AccountConfig). IsIn c.strategies a.strategy) _ (unbind name) c.accounts
            (λ a b. IsIn-unbind c.strategies name a.strategy b) h)
    ]

post_account_copy-IsBound :
    (now : ℕ) (username domain : Text) (new_username : Option Text) (c : Config)
    → IsBound c
    → IsBound (post_account_copy now username domain new_username c).1
unfolding post_account_copy copy_account
post_account_copy-IsBound now username domain new_username c h =
    elim (Option-cases (find_first (is_account username domain) c.accounts)) [
      | inl e ↦ rw (post_account_copy, e) h
      | inr (src, e) ↦
          let bound =
            All-find_first (λ (a : AccountConfig). IsIn c.strategies a.strategy)
              (is_account username domain) c.accounts src e h in
          rw (post_account_copy, e) (All-append _ c.accounts _ h (bound, tt))
    ]

post_account_enabled-IsBound :
    (username domain : Text) (enabled : Option Bool) (c : Config)
    → IsBound c
    → IsBound (post_account_enabled username domain enabled c).1
unfolding post_account_enabled
post_account_enabled-IsBound username domain none c h = h
post_account_enabled-IsBound username domain (some enabled) c h = set_accounts-IsBound c _ h (
    All-update_first (λ (a : AccountConfig). IsIn c.strategies a.strategy)
      (is_account username domain) _ c.accounts (λ a b. b) h)

bind-IsBound :
    (username domain : Text) (strategy : Option Text) (c : Config)
    → IsBound c
    → IsIn c.strategies strategy
    → IsBound (bind username domain strategy c).1
unfolding bind
bind-IsBound username domain strategy c h known = set_accounts-IsBound c _ h (
    All-update_first (λ (a : AccountConfig). IsIn c.strategies a.strategy)
      (is_account username domain) _ c.accounts (λ a b. known) h)

post_account_bind-IsBound :
    (username domain : Text) (strategy : Option Text) (c : Config)
    → IsBound c
    → IsBound (post_account_bind username domain strategy c).1
unfolding post_account_bind find_strategy
post_account_bind-IsBound username domain strategy c h =
    elim (Option-cases (new_binding strategy)) [
      | inl e ↦ rw (post_account_bind, e) (bind-IsBound username domain none c h tt)
      | inr (name, e) ↦ elim (Option-cases (find_strategy c name)) [
        | inl f ↦ rw (post_account_bind, e, f) h
        | inr (s, f) ↦
            rw (post_account_bind, e, f) (bind-IsBound username domain (some name) c h (s, f))
      ]
    ]

-- Whatever the page edits, as long as it does not put a whole new configuration: if every account is
-- bound to a strategy of the configuration or to none, it is so afterwards.
pub edit-IsBound : (now : ℕ) (e : Edit) (c : Config) → IsBound c → IsBound (edit now e c).1
unfolding edit
edit-IsBound now (strategy_copy source new_name) c h =
    post_strategy_copy-IsBound now source new_name c h
edit-IsBound now (strategy_delete name) c h = delete_strategy-IsBound name c h
edit-IsBound now (account_copy username domain new_username) c h =
    post_account_copy-IsBound now username domain new_username c h
edit-IsBound now (account_enabled username domain enabled) c h =
    post_account_enabled-IsBound username domain enabled c h
edit-IsBound now (account_bind username domain strategy) c h =
    post_account_bind-IsBound username domain strategy c h
