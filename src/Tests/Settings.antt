-- ===== src/Tests/Settings.antt =====
-- Concrete configurations: strategies, flows, transports, caller patterns and addresses.
use sipbot.Prelude.{ℕ, ◌≡◌, refl, Option, none, some, List, [], ◌∷◌}
use sipbot.Prelude.Text.{Text, codes, text_eq, trim, to_lowercase, split, split_once, strip_prefix}
use sipbot.Prelude.Decimal.{parse_uint}
use sipbot.Config.Account.{StrategyConfig, AccountConfig, echo}
use sipbot.Config.Hangup.{HangupConfig, after, effective_mode}
use sipbot.Config.Strategy.{
  Config, find_strategy, strategy_for, apply_to, inline_strategy, apply_to-strategy_for_bound,
}
use sipbot.Config.Flows.{ok, parse_dtmf_flows, DtmfFlowEntry}
use sipbot.Sip.Address.{wss, parse_ws_url}

abbrev hangup : HangupConfig
hangup = record { code = 200; after_secs = some 0; mode = some (codes " After ") }

effective_mode_runs : effective_mode hangup ≡ after 1
unfolding effective_mode trim to_lowercase text_eq
effective_mode_runs = refl

abbrev one : ℕ
one = 1

abbrev account : AccountConfig
account = record {
  username = codes "alice";
  auth_username = none;
  domain = codes "d";
  password = none;
  proxy = none;
  register = none;
  from_user = none;
  target = none;
  recording = none;
  srtp_enabled = none;
  webrtc_enabled = none;
  nack_enabled = none;
  jitter_buffer_enabled = none;
  reject_prob = none;
  codecs = none;
  headers = none;
  cancel_prob = 0;
  transport = none;
  transport_addr = none;
  transport_ws_url = none;
  tls_ca = none;
  tls_sni = none;
  strategy = some (codes "night");
  match_caller = none;
  enabled = none;
  early_media = none;
  ring = none;
  reject = none;
  answer = none;
  announce = none;
  sdp_jump = none;
  jump_codecs = none;
  hangup = none;
  refer_reject = none;
  refer_to = none;
  refer_delay_secs = none;
  ts_jump_tolerance_ms = 50;
  dtmf_flows = none;
  reinvite_flows = none;
  transfer_flows = none;
  info_flows = none;
}

abbrev pub night : StrategyConfig
night = record {
  name = codes "night";
  match_caller = some (codes "10*");
  codecs = none;
  early_media = none;
  ring = none;
  reject = none;
  answer = some echo;
  announce = none;
  sdp_jump = none;
  jump_codecs = none;
  dtmf_flows = none;
  reinvite_flows = none;
  transfer_flows = some (codes "5s:sip:x@y");
  info_flows = none;
  hangup = none;
}

abbrev pub config : List StrategyConfig → Config
config strategies = record {
  addr = none;
  external_ip = none;
  recorders = none;
  ws_url = none;
  tls_ca = none;
  http_addr = none;
  media_dir = none;
  records_dir = none;
  accounts = account ∷ [];
  strategies = strategies;
}

pub night_found : find_strategy (config (night ∷ [])) (codes "night") ≡ some night
unfolding find_strategy text_eq
night_found = refl

apply_to-strategy_for_bound_example :
    inline_strategy (apply_to (strategy_for (config (night ∷ [])) account) account)
    ≡ record night { transfer_flows = none }
apply_to-strategy_for_bound_example =
    apply_to-strategy_for_bound (config (night ∷ [])) account (codes "night") night refl night_found

-- whole seconds as numbers and as durations
abbrev seconds : Text → Option ℕ
seconds s = parse_uint 1000000 s

abbrev flows : List (DtmfFlowEntry seconds some)
flows = record { delay = 3; digit = b'1' } ∷ record { delay = 5; digit = b'd' } ∷ []

flows_run : parse_dtmf_flows seconds some (codes "3s:1, ,5:d") ≡ ok flows
unfolding parse_dtmf_flows split trim split_once parse_uint
flows_run = refl

ws_url_runs :
    parse_ws_url (codes " wss://host:8443/a/b ")
    ≡ some (record { transport = wss; host = codes "host"; port = 8443; path = codes "/a/b" })
unfolding parse_ws_url trim strip_prefix text_eq parse_uint
ws_url_runs = refl
