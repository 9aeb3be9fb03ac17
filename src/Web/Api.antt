-- ===== src/Web/Api.antt =====
-- src/web/api.rs: the handlers that change the configuration, as edits of it. A field of a request
-- that is missing or no text is `none`. Saving the configuration and restarting the bots, which
-- `commit_config` starts, are not modelled.

pub mod Bound
pub mod Names
use sipbot.Prelude.{
  ℕ, zero, suc, Bool, true, false, not, ◌&&◌, ◌==◌, leb, Option, none, some, get_or, is_none, List,
  [], ◌∷◌, ◌++◌, map, length, keep, find_first, add_u64, if◌then◌else◌,
}
use sipbot.Prelude.Text.{Text, codes, text_eq}
use sipbot.Prelude.Decimal.{parse_uint, to_string}
use sipbot.Config.Account.{AccountConfig, StrategyConfig}
use sipbot.Config.Strategy.{Config, find_strategy}

pub data Reply : Type 0 where
  done : Reply
  bad_request : Text → Reply
  not_found : Text → Reply

abbrev pub candidate : Text → ℕ → Text
candidate source i =
    if i == 1 then source ++ codes "-copy" else source ++ codes "-copy" ++ to_string i

-- the candidates from `i` on, as many as the fuel; `now` is the time stamp in seconds
unfoldable pub strategy_name_from : (fuel i : ℕ) → Config → Text → Option Text
strategy_name_from zero i c source = none
strategy_name_from (suc fuel) i c source =
    let rest = strategy_name_from fuel (suc i) c source in
    if is_none (find_strategy c (candidate source i)) then some (candidate source i) else rest

unfoldable pub unique_strategy_name : ℕ → Config → Text → Text
unfolding strategy_name_from
unique_strategy_name now c source =
    get_or (strategy_name_from 99 1 c source) (source ++ codes "-copy" ++ to_string now)

unfoldable pub taken : Config → Text → Bool
taken c u = not (is_none (find_first (λ (a : AccountConfig). text_eq a.username u) c.accounts))

abbrev is_ascii_digit : ℕ → Bool
is_ascii_digit c = leb b'0' c && leb c b'9'

abbrev all_digits : Text → Bool
all_digits [] = true
all_digits (c ∷ cs) = is_ascii_digit c && all_digits cs

abbrev is_number : Text → Bool
is_number [] = false
is_number (c ∷ cs) = all_digits (c ∷ cs)

-- the next numbers
unfoldable pub number_from : (fuel i base : ℕ) → Config → Option Text
unfolding taken
number_from zero i base c = none
number_from (suc fuel) i base c =
    let rest = number_from fuel (suc i) base c in
    let next = to_string (add_u64 base i) in if taken c next then rest else some next

unfoldable pub username_from : (fuel i : ℕ) → Config → Text → Option Text
unfolding taken
username_from zero i c source = none
username_from (suc fuel) i c source =
    let rest = username_from fuel (suc i) c source in
    if taken c (candidate source i) then rest else some (candidate source i)

unfoldable pub unique_username : ℕ → Config → Text → Text
unfolding number_from username_from
unique_username now c source =
    let word = get_or (username_from 99 1 c source) (source ++ codes "-copy-" ++ to_string now) in
    if is_number source
    then get_or (number_from 999 1 (get_or (parse_uint 18446744073709551616 source) 0) c) word
    else word

-- `iter_mut().find`, and a write to what was found
unfoldable pub update_first {ℓ} : {A : Type ℓ} → (A → Bool) → (A → A) → List A → Option (List A)
update_first p f [] = none
update_first p f (x ∷ xs) =
    let rest = update_first p f xs in
    if p x then some (f x ∷ xs) else elim rest [ none ↦ none | some ys ↦ some (x ∷ ys) ]

abbrev pub is_account : (username domain : Text) → AccountConfig → Bool
is_account username domain a = text_eq a.username username && text_eq a.domain domain

abbrev pub is_bound_to : Text → Option Text → Bool
is_bound_to name none = false
is_bound_to name (some n) = text_eq n name

abbrev pub set_accounts : Config → Option (List AccountConfig) → Reply × Config
set_accounts c none = (not_found (codes "account not found"), c)
set_accounts c (some accounts) = (done, record c { accounts = accounts })

unfoldable pub copy_strategy : ℕ → StrategyConfig → Option Text → Text → Config → Config
unfolding unique_strategy_name
copy_strategy now src new_name source c = record c {
  strategies =
      c.strategies
      ++ record src { name = get_or new_name (unique_strategy_name now c source) } ∷ [];
}

unfoldable pub post_strategy_copy : ℕ → (source new_name : Option Text) → Config → Reply × Config
unfolding copy_strategy
post_strategy_copy now none new_name c = (bad_request (codes "missing source"), c)
post_strategy_copy now (some source) new_name c = elim (find_strategy c source) [
  | none ↦ (not_found (codes "strategy not found"), c)
  | some src ↦ (done, copy_strategy now src new_name source c)
]

-- the accounts that were bound to the strategy are bound to none
unfoldable pub unbind : Text → AccountConfig → AccountConfig
unbind name a = record a { strategy = if is_bound_to name a.strategy then none else a.strategy }

unfoldable pub drop_strategy : Text → Config → Config
unfolding unbind
drop_strategy name c = record c {
  strategies = keep (λ (s : StrategyConfig). not (text_eq s.name name)) c.strategies;
  accounts = map (unbind name) c.accounts;
}

unfoldable pub delete_strategy : Text → Config → Reply × Config
unfolding drop_strategy
delete_strategy name c =
    if length (drop_strategy name c).strategies == length c.strategies
    then (not_found (codes "strategy not found"), c)
    else (done, drop_strategy name c)

unfoldable pub copy_account : ℕ → AccountConfig → Option Text → Text → Config → Config
unfolding unique_username
copy_account now src new_username username c = record c {
  accounts =
      c.accounts
      ++ record src { username = get_or new_username (unique_username now c username) } ∷ [];
}

unfoldable pub post_account_copy :
    ℕ → (username domain : Text) → (new_username : Option Text) → Config → Reply × Config
unfolding copy_account
post_account_copy now username domain new_username c =
    elim (find_first (is_account username domain) c.accounts) [
      | none ↦ (not_found (codes "account not found"), c)
      | some src ↦ (done, copy_account now src new_username username c)
    ]

unfoldable pub post_account_enabled :
    (username domain : Text) → Option Bool → Config → Reply × Config
unfolding update_first
post_account_enabled username domain none c = (bad_request (codes "missing enabled"), c)
post_account_enabled username domain (some enabled) c = set_accounts c (
    update_first (is_account username domain)
      (λ (a : AccountConfig). record a { enabled = some enabled }) c.accounts)

-- an empty name unbinds
unfoldable pub new_binding : Option Text → Option Text
new_binding none = none
new_binding (some []) = none
new_binding (some (ch ∷ chs)) = some (ch ∷ chs)

unfoldable pub bind : (username domain : Text) → Option Text → Config → Reply × Config
unfolding update_first
bind username domain strategy c = set_accounts c (
    update_first (is_account username domain)
      (λ (a : AccountConfig). record a { strategy = strategy }) c.accounts)

unfoldable pub post_account_bind : (username domain : Text) → Option Text → Config → Reply × Config
unfolding bind new_binding
post_account_bind username domain strategy c = elim (new_binding strategy) [
  | none ↦ bind username domain none c
  | some name ↦ elim (find_strategy c name) [
    | none ↦ (not_found (codes "strategy not found"), c)
    | some s ↦ bind username domain (some name) c
  ]
]

-- The edits of the page.
pub data Edit : Type 0 where
  strategy_copy : (source new_name : Option Text) → Edit
  strategy_delete : Text → Edit
  account_copy : (username domain : Text) → Option Text → Edit
  account_enabled : (username domain : Text) → Option Bool → Edit
  account_bind : (username domain : Text) → Option Text → Edit

unfoldable pub edit : ℕ → Edit → Config → Reply × Config
unfolding post_strategy_copy delete_strategy post_account_copy post_account_enabled
    post_account_bind
edit now (strategy_copy source new_name) c = post_strategy_copy now source new_name c
edit now (strategy_delete name) c = delete_strategy name c
edit now (account_copy username domain new_username) c =
    post_account_copy now username domain new_username c
edit now (account_enabled username domain enabled) c =
    post_account_enabled username domain enabled c
edit now (account_bind username domain strategy) c = post_account_bind username domain strategy c
