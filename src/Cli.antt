-- ===== src/Cli.antt =====
-- src/main.rs: the command line. The arguments are as clap has read them, defaults filled in; a URI
-- is read by the rsipstack crate. The flag of the audio analysis is kept beside the account, whose
-- record has no place for it.
pub mod Run
pub mod Effect
use sipbot.Prelude.{
  ℕ, ◌==◌, ◌&&◌, ◌||◌, not, Bool, true, false, ltb, Option, none, some, is_none, get_or, or_else,
  List, [], ◌∷◌, map, if◌then◌else◌,
}
use sipbot.Prelude.Text.{Text, codes, starts_with, strip_prefix}
use sipbot.Config.Account.{AccountConfig, RingConfig, AnswerConfig, play, echo, local}
use sipbot.Config.Hangup.{HangupConfig}
use sipbot.Config.Strategy.{Config}
use sipbot.Sip.Caller.{trim_start_matches}
use sipbot.Web.Request.{default_account}

pub record CallArgs : Type 0 where
  pub target : Option Text
  pub username : Option Text
  pub auth_user : Option Text
  pub password : Option Text
  pub register : Option Text
  pub from : Option Text
  pub hangup : Option ℕ
  pub play_file : Option Text  -- `play`
  pub use_local : Bool  -- `local`
  pub recording : Option Text  -- `record`
  pub srtp : Bool
  pub webrtc : Bool
  pub nack : Bool
  pub jitter : Bool
  pub total : ℕ
  pub cps : ℕ
  pub cancel_prob : ℕ
  pub codec_names : Option (List Text)  -- `codecs`
  pub audio_quality : Bool
  pub jump_warn_ms : ℕ
  pub headers : Option (List Text)
  pub addr : Option Text
  pub dtmf_flows : Option Text
  pub reinvite_flows : Option Text
  pub info_flows : Option Text
  pub refer_to : Option Text
  pub refer_delay : ℕ

pub record WaitArgs : Type 0 where
  pub addr : Text
  pub username : Option Text
  pub auth_user : Option Text
  pub domain : Option Text
  pub password : Option Text
  pub register : Option Text
  pub ringback : Option Text
  pub ring_duration : Option ℕ
  pub answer : Option Text
  pub use_echo : Bool  -- `echo`
  pub use_local : Bool  -- `local`
  pub hangup : Option ℕ
  pub reject : Option ℕ
  pub reject_prob : Option ℕ
  pub srtp : Bool
  pub webrtc : Bool
  pub nack : Bool
  pub jitter : Bool
  pub codec_names : Option (List Text)  -- `codecs`
  pub audio_quality : Bool
  pub jump_warn_ms : ℕ
  pub headers : Option (List Text)
  pub recording : Option Text  -- `record`
  pub refer_reject : Option ℕ

pub data Commands : Type 0 where
  call : CallArgs → Commands
  wait : WaitArgs → Commands
  options : (target : Option Text) → Commands
  info : (target : Option Text) → Commands

pub record Args : Type 0 where
  pub external : Option Text
  pub ws_url : Option Text
  pub tls_ca : Option Text
  pub command : Commands

-- `-r` with a domain
abbrev pub reg_target : Option Text → Option Text
reg_target none = none
reg_target (some []) = none
reg_target (some (c ∷ cs)) = some (trim_start_matches (codes "sip:") (c ∷ cs))

abbrev pub is_register : (register password : Option Text) → Bool
is_register register password = not (is_none register) || not (is_none password)

abbrev standalone : (tls_ca addr : Option Text) → AccountConfig → Config
standalone tls_ca addr a = record {
  addr = addr;
  external_ip = none;
  recorders = none;
  ws_url = none;
  tls_ca = tls_ca;
  http_addr = none;
  media_dir = none;
  records_dir = none;
  accounts = a ∷ [];
  strategies = [];
}

abbrev plain_account : AccountConfig
plain_account = record default_account {
  username = codes "sipbot";
  domain = codes "127.0.0.1";
  register = some false;
}

abbrev ring_of : WaitArgs → Option RingConfig
ring_of w =
    if is_none w.ringback && is_none w.ring_duration
    then none
    else some (record {
      duration_secs = w.ring_duration;
      ringback = w.ringback;
      local = some w.use_local;
    })

abbrev answer_of : WaitArgs → Option AnswerConfig
answer_of w =
    if w.use_echo
    then some echo
    else if w.use_local
    then some local
    else elim w.answer [ none ↦ none | some file ↦ some (play file) ]

abbrev hangup_of : WaitArgs → Option HangupConfig
hangup_of w = elim w.reject [
  | some code ↦ some (record { code = code; after_secs = none; mode = none })
  | none ↦ elim w.hangup [
    | some secs ↦ some (record { code = 200; after_secs = some secs; mode = none })
    | none ↦ none
  ]
]

abbrev wait_account : WaitArgs → AccountConfig
wait_account w = record default_account {
  username = get_or w.username (codes "sipbot");
  auth_username = w.auth_user;
  domain = get_or (or_else w.domain (reg_target w.register)) (codes "127.0.0.1");
  password = w.password;
  proxy = reg_target w.register;
  register = some (is_register w.register w.password);
  srtp_enabled = some w.srtp;
  nack_enabled = some w.nack;
  jitter_buffer_enabled = some w.jitter;
  reject_prob = w.reject_prob;
  ring = ring_of w;
  answer = answer_of w;
  hangup = hangup_of w;
  codecs = w.codec_names;
  headers = w.headers;
}

-- The configuration where there is no file; none is an error, as a call needs a target.
unfoldable pub without_file : Args → Option Config
unfolding trim_start_matches
without_file args = elim args.command [
  | call c ↦ elim c.target [
    | none ↦ none
    | some target ↦ some (
        standalone args.tls_ca (some (get_or c.addr (codes "0.0.0.0:0")))
          (record plain_account { codecs = c.codec_names }))
  ]
  | wait w ↦ some (standalone args.tls_ca (some w.addr) (wait_account w))
  | options target ↦ some (standalone args.tls_ca (some (codes "0.0.0.0:0")) plain_account)
  | info target ↦ some (standalone args.tls_ca (some (codes "0.0.0.0:0")) plain_account)
]

-- What the command line says of every account.
pub record Overrides : Type 0 where
  pub is_call : Bool  -- `command_name`
  pub target : Option Text
  pub caller : Option Text
  pub auth_user : Option Text
  pub password : Option Text
  pub hangup : Option ℕ
  pub play_file : Option Text
  pub recording : Option Text
  pub srtp : Bool
  pub webrtc : Bool
  pub nack : Option Bool
  pub jitter_buffer : Option Bool
  pub use_local : Bool
  pub total : ℕ
  pub cps : ℕ
  pub register : Bool
  pub proxy : Option Text
  pub cancel_prob : ℕ
  pub codec_names : Option (List Text)
  pub headers : Option (List Text)
  pub from : Option Text
  pub addr : Option Text
  pub audio_quality : Bool
  pub jump_warn_ms : ℕ
  pub dtmf_flows : Option Text
  pub reinvite_flows : Option Text
  pub info_flows : Option Text
  pub refer_reject : Option ℕ
  pub refer : Option (Text × ℕ)
