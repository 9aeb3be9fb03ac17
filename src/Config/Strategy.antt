-- ===== src/Config/Strategy.antt =====
-- src/config.rs: which strategy an account uses, and how it is merged into the account.
use sipbot.Prelude.{
  ◌≡◌, refl, Option, none, some, get_or, or_else, List, [], ◌∷◌, arith, find_first,
}
use sipbot.Prelude.Text.{Text, codes, text_eq, text_eq_iff}
use sipbot.Config.Account.{StrategyConfig, AccountConfig}

pub record Config : Type 0 where
  pub addr : Option Text
  pub external_ip : Option Text
  pub recorders : Option Text
  pub ws_url : Option Text
  pub tls_ca : Option Text
  pub http_addr : Option Text
  pub media_dir : Option Text
  pub records_dir : Option Text
  pub accounts : List AccountConfig
  pub strategies : List StrategyConfig

unfoldable pub http_listen_addr : Config → Text
http_listen_addr c = get_or c.http_addr (codes "0.0.0.0:8080")

unfoldable pub media_directory : Config → Text
media_directory c = get_or (or_else c.media_dir c.recorders) (codes "./wavs")

unfoldable pub records_directory : Config → Text
records_directory c = get_or c.records_dir (codes "./records")

unfoldable pub find_strategy : Config → Text → Option StrategyConfig
find_strategy c name = find_first (λ s. text_eq s.name name) c.strategies

-- the synthetic strategy of the inline fields
unfoldable pub inline_strategy : AccountConfig → StrategyConfig
inline_strategy a = record {
  name = get_or a.strategy (codes "inline");
  match_caller = a.match_caller;
  codecs = a.codecs;
  early_media = a.early_media;
  ring = a.ring;
  reject = a.reject;
  answer = a.answer;
  announce = a.announce;
  sdp_jump = a.sdp_jump;
  jump_codecs = a.jump_codecs;
  dtmf_flows = a.dtmf_flows;
  reinvite_flows = a.reinvite_flows;
  transfer_flows = a.transfer_flows;
  info_flows = a.info_flows;
  hangup = a.hangup;
}

unfoldable pub bound_strategy : Config → Option Text → Option StrategyConfig
bound_strategy c none = none
bound_strategy c (some name) = find_strategy c name

unfoldable pub strategy_for : Config → AccountConfig → StrategyConfig
unfolding bound_strategy
strategy_for c a = get_or (bound_strategy c a.strategy) (inline_strategy a)

unfoldable pub apply_to : StrategyConfig → AccountConfig → AccountConfig
apply_to s a = record a {
  match_caller = s.match_caller;
  codecs = s.codecs;
  early_media = s.early_media;
  ring = s.ring;
  reject = s.reject;
  answer = s.answer;
  announce = s.announce;
  sdp_jump = s.sdp_jump;
  jump_codecs = s.jump_codecs;
  dtmf_flows = s.dtmf_flows;
  reinvite_flows = s.reinvite_flows;
  info_flows = s.info_flows;
  hangup = s.hangup;
}

-- An account that names no strategy, or one that the configuration does not have, runs with its
-- inline fields as they are.
apply_to-strategy_for_inline :
    (c : Config) (a : AccountConfig)
    → bound_strategy c a.strategy ≡ none
    → apply_to (strategy_for c a) a ≡ a
unfolding strategy_for
apply_to-strategy_for_inline c a h = rw (h, strategy_for) (unfold apply_to inline_strategy in refl)

find_first-name :
    (strategies : List StrategyConfig) (name : Text) (s : StrategyConfig)
    → find_first (λ s. text_eq s.name name) strategies ≡ some s
    → s.name ≡ name
find_first-name [] name s h = cc
find_first-name (x ∷ xs) name s h =
    ground (arith, text_eq_iff x.name name, find_first-name xs name s)

-- An account bound to a known strategy runs with that strategy: read back from the merged account it
-- has the strategy's name and all its fields, but for the transfer flow, which is the account's own.
pub apply_to-strategy_for_bound :
    (c : Config) (a : AccountConfig) (name : Text) (s : StrategyConfig)
    → a.strategy ≡ some name
    → find_strategy c name ≡ some s
    → inline_strategy (apply_to (strategy_for c a) a)
      ≡ record s { transfer_flows = a.transfer_flows }
unfolding strategy_for
apply_to-strategy_for_bound c a name s b f =
    let same : s.name ≡ name = unfold find_strategy in find_first-name c.strategies name s f in
    let found : strategy_for c a ≡ s = simp (b, f) in
    rw found (unfold apply_to inline_strategy in ground (arith, same))
