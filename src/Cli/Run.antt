-- ===== src/Cli/Run.antt =====
-- src/main.rs: the overrides of the command line, and the bots that are started.
use sipbot.Prelude.{
  ℕ, ◌==◌, ◌&&◌, ◌||◌, not, Bool, true, false, ltb, Option, none, some, is_none, get_or, or_else,
  List, map, if◌then◌else◌, ◌>>=◌,
}
use sipbot.Prelude.Text.{Text, codes, starts_with, strip_prefix}
use sipbot.Config.Account.{AccountConfig, AnswerConfig, play, local}
use sipbot.Config.Hangup.{HangupConfig}
use sipbot.Config.Strategy.{Config}
use sipbot.Cli.{
  CallArgs, WaitArgs, Commands, call, wait, options, info, Args, Overrides, reg_target, is_register,
  without_file,
}

abbrev call_overrides : CallArgs → Overrides
call_overrides c = record {
  is_call = true;
  target = c.target;
  caller = c.username;
  auth_user = c.auth_user;
  password = c.password;
  hangup = c.hangup;
  play_file = c.play_file;
  recording = c.recording;
  srtp = c.srtp;
  webrtc = c.webrtc;
  nack = some c.nack;
  jitter_buffer = some c.jitter;
  use_local = c.use_local;
  total = c.total;
  cps = c.cps;
  register = is_register c.register c.password;
  proxy = reg_target c.register;
  cancel_prob = c.cancel_prob;
  codec_names = c.codec_names;
  headers = c.headers;
  from = c.from;
  addr = c.addr;
  audio_quality = c.audio_quality;
  jump_warn_ms = c.jump_warn_ms;
  dtmf_flows = c.dtmf_flows;
  reinvite_flows = c.reinvite_flows;
  info_flows = c.info_flows;
  refer_reject = none;
  refer = elim c.refer_to [ none ↦ none | some uri ↦ some (uri, c.refer_delay) ];
}

-- a request to one target, which overrides nothing else
abbrev request_overrides : Option Text → Overrides
request_overrides target = record {
  is_call = false;
  target = target;
  caller = none;
  auth_user = none;
  password = none;
  hangup = none;
  play_file = none;
  recording = none;
  srtp = false;
  webrtc = false;
  nack = none;
  jitter_buffer = none;
  use_local = false;
  total = 1;
  cps = 1;
  register = false;
  proxy = none;
  cancel_prob = 0;
  codec_names = none;
  headers = none;
  from = none;
  addr = none;
  audio_quality = false;
  jump_warn_ms = 50;
  dtmf_flows = none;
  reinvite_flows = none;
  info_flows = none;
  refer_reject = none;
  refer = none;
}

abbrev wait_overrides : WaitArgs → Overrides
wait_overrides w = record (request_overrides none) {
  caller = w.username;
  auth_user = w.auth_user;
  password = w.password;
  recording = w.recording;
  srtp = w.srtp;
  webrtc = w.webrtc;
  nack = some w.nack;
  jitter_buffer = some w.jitter;
  use_local = w.use_local;
  register = is_register w.register w.password;
  proxy = reg_target w.register;
  codec_names = w.codec_names;
  headers = w.headers;
  audio_quality = w.audio_quality;
  jump_warn_ms = w.jump_warn_ms;
  refer_reject = w.refer_reject;
}

unfoldable pub overrides_of : Commands → Overrides
overrides_of (call c) = call_overrides c
overrides_of (wait w) = wait_overrides w
overrides_of (options target) = request_overrides target
overrides_of (info target) = request_overrides target

abbrev set_answer : Overrides → Option AnswerConfig → Option AnswerConfig
set_answer o answer = elim o.play_file [
  | some wav_file ↦ some (play wav_file)
  | none ↦
      if o.use_local then some local else if o.cps == 1 && o.is_call then some local else answer
]

abbrev set_hangup : Option ℕ → Option HangupConfig → Option HangupConfig
set_hangup none h = h
set_hangup (some secs) (some h) = some (record h { after_secs = some secs })
set_hangup (some secs) none = some (record { code = 0; after_secs = some secs; mode = none })

abbrev strip_sip : Text → Text
strip_sip s = get_or (strip_prefix s (codes "sip:")) s

-- `parse_uri` gives the user, if there is one, and the host with its port.
module _ (parse_uri : Text → Option (Option Text × Text)) where
  abbrev caller_uri : Option Text → Option (Option Text × Text)
  caller_uri caller = caller >>= λ c. if starts_with c (codes "sip:") then parse_uri c else none

  abbrev set_username : Option Text → Text → Text
  set_username caller username = elim caller [
    | none ↦ username
    | some c ↦
        if starts_with c (codes "sip:")
        then elim (parse_uri c) [ none ↦ username | some uri ↦ get_or uri.0 username ]
        else c
  ]

  abbrev set_domain : Option Text → Text → Text
  set_domain caller domain = elim (caller_uri caller) [ none ↦ domain | some uri ↦ uri.1 ]

  -- the body of the loop over the accounts
  unfoldable pub override : Overrides → (ws_url : Option Text) → AccountConfig → AccountConfig
  override o ws_url a = record a {
    target = or_else o.target a.target;
    recording = or_else o.recording a.recording;
    srtp_enabled = if o.srtp then some true else a.srtp_enabled;
    webrtc_enabled = if o.webrtc || not (is_none ws_url) then some true else a.webrtc_enabled;
    nack_enabled = or_else o.nack a.nack_enabled;
    jitter_buffer_enabled = or_else o.jitter_buffer a.jitter_buffer_enabled;
    codecs = or_else o.codec_names a.codecs;
    headers = or_else o.headers a.headers;
    answer = set_answer o a.answer;
    cancel_prob = if ltb 0 o.cancel_prob then o.cancel_prob else a.cancel_prob;
    hangup = set_hangup o.hangup a.hangup;
    username = set_username o.caller a.username;
    from_user = or_else o.from a.from_user;
    auth_username = or_else o.auth_user a.auth_username;
    password = or_else o.password a.password;
    register = if o.register then some true else a.register;
    proxy = elim o.proxy [ none ↦ a.proxy | some proxy ↦ some (strip_sip proxy) ];
    domain = strip_sip (set_domain o.caller a.domain);
    dtmf_flows = or_else o.dtmf_flows a.dtmf_flows;
    ts_jump_tolerance_ms = o.jump_warn_ms;
    reinvite_flows = or_else o.reinvite_flows a.reinvite_flows;
    info_flows = or_else o.info_flows a.info_flows;
    refer_reject = or_else o.refer_reject a.refer_reject;
    refer_to = elim o.refer [ none ↦ a.refer_to | some (uri, delay) ↦ some uri ];
    refer_delay_secs = elim o.refer [ none ↦ a.refer_delay_secs | some (uri, delay) ↦ some delay ];
  }

  -- A bot, with the configuration that it is given and whether its audio is analyzed for the
  -- command line's sake.
  pub record Bot : Type 0 where
    pub account : AccountConfig
    pub global_config : Config
    pub audio_quality : Bool

  -- The configuration is copied for the bots before the loop puts the WebSocket URL into it.
  abbrev pub global_of : Args → Overrides → Config → Config
  global_of args o config = record config {
    external_ip = or_else args.external config.external_ip;
    addr = or_else o.addr config.addr;
  }

  -- The bots of a run, by the file if there is one; none is an error.
  unfoldable pub bots : (file : Option Config) → Args → Option (List Bot)
  unfolding overrides_of override without_file
  bots file args = or_else file (without_file args) >>= λ config.
      let o = overrides_of args.command in
      some (
        map
          (λ a. record {
            account = override o args.ws_url a;
            global_config = global_of args o config;
            audio_quality = o.audio_quality;
          })
          config.accounts)
