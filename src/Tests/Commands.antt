-- ===== src/Tests/Commands.antt =====
-- A concrete command line: `wait` with a configuration file.
use sipbot.Prelude.Contains.{contains}
use sipbot.Prelude.Decimal.{to_string}
use sipbot.Sip.Endpoint.{SipAddr, over_tcp, destination, wants_tls, wants_tcp, contact_of, uses_ws}
use sipbot.Sip.Caller.{trim_start_matches}
use sipbot.Prelude.{◌≡◌, refl, Bool, true, false, Option, none, some, List, [], ◌∷◌, get_or, map}
use sipbot.Prelude.Text.{starts_with, to_lowercase, Text, codes, strip_prefix}
use sipbot.Config.Strategy.{Config}
use sipbot.Cli.{WaitArgs, wait, Args}
use sipbot.Cli.Run.{Bot, bots, override, overrides_of}
use sipbot.Cli.Effect.{AllKept, bots-AllKept}
use sipbot.Tests.Settings.{config}
use sipbot.Tests.Flows.{account}

abbrev waiting : WaitArgs
waiting = record {
  addr = codes "0.0.0.0:5060";
  username = some (codes "bob");
  auth_user = none;
  domain = none;
  password = none;
  register = some (codes "sip:reg.example.com");
  ringback = some [];
  ring_duration = some 3;
  answer = none;
  use_echo = true;
  use_local = false;
  hangup = some 10;
  reject = none;
  reject_prob = some 50;
  srtp = false;
  webrtc = false;
  nack = false;
  jitter = false;
  codec_names = none;
  audio_quality = false;
  jump_warn_ms = 50;
  headers = none;
  recording = none;
  refer_reject = none;
}

abbrev args : Args
args = record {
  external = some (codes "192.0.2.1");
  ws_url = some (codes "wss://host/ws");
  tls_ca = none;
  command = wait waiting;
}

abbrev file : Config
file = record (config []) { accounts = account ∷ [] }

abbrev no_uri : Text → Option (Option Text × Text)
no_uri s = none

-- the bot of the account
abbrev started : List (Bot no_uri)
started = get_or (bots no_uri (some file) args) []

abbrev proxy_and_nack : Bot no_uri → Option Text × Option Bool
proxy_and_nack b = ((b.account).proxy, (b.account).nack_enabled)

started_runs : map proxy_and_nack started ≡ (some (codes "reg.example.com"), some false) ∷ []
unfolding bots override overrides_of strip_prefix trim_start_matches
started_runs = refl

is_started : bots no_uri (some file) args ≡ some started
unfolding bots
is_started = refl

bots-AllKept_example : AllKept no_uri file file.accounts started
bots-AllKept_example = bots-AllKept no_uri file args started is_started

-- A `sips` target that also asks for TCP is called over TCP, without TLS.
abbrev read_addr : Text → Option SipAddr
read_addr s = some (record { via = none; host = codes "h"; port = none })

sips_over_tcp :
    destination read_addr
      (λ s. starts_with s (codes "sips:"))
      account
      (codes "sips:a@h;transport=tcp")
    ≡ some (record { via = some over_tcp; host = codes "h"; port = some 5060 })
unfolding destination wants_tls wants_tcp contains starts_with to_lowercase
sips_over_tcp = refl

-- With WebRTC over UDP the contact has the local address, not the external one.
ice_contact :
    contact_of
      (λ s. true)
      (record account { webrtc_enabled = some true })
      (record file { external_ip = some (codes "192.0.2.1") })
      (some (codes "10.0.0.1", 5060))
    ≡ some (record { uri = codes "sip:bot@10.0.0.1:5060"; has_ice = true })
unfolding contact_of uses_ws to_string
ice_contact = refl
