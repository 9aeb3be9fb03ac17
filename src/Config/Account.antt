-- ===== src/Config/Account.antt =====
-- src/config.rs: the records of an account and of a strategy.
use sipbot.Prelude.{ℕ, Bool, List, Option}
use sipbot.Prelude.Text.{Text}
use sipbot.Config.Hangup.{HangupConfig}

pub record EarlyMediaConfig : Type 0 where
  pub wav_file : Option Text
  pub local : Option Bool

pub record RingConfig : Type 0 where
  pub duration_secs : Option ℕ
  pub ringback : Option Text
  pub local : Option Bool

pub data AnswerConfig : Type 0 where
  play : Text → AnswerConfig
  echo : AnswerConfig
  local : AnswerConfig

pub record RejectConfig : Type 0 where
  pub code : ℕ  -- u16
  pub tone : Option Text
  pub delay_secs : Option ℕ

pub record AnnounceConfig : Type 0 where
  pub file : Text
  pub jump_after : Bool
  pub jump_codec : Option Text

pub record StrategyConfig : Type 0 where
  pub name : Text
  pub match_caller : Option Text
  pub codecs : Option (List Text)
  pub early_media : Option EarlyMediaConfig
  pub ring : Option RingConfig
  pub reject : Option RejectConfig
  pub answer : Option AnswerConfig
  pub announce : Option AnnounceConfig
  pub sdp_jump : Option Bool
  pub jump_codecs : Option (List Text)
  pub dtmf_flows : Option Text
  pub reinvite_flows : Option Text
  pub transfer_flows : Option Text
  pub info_flows : Option Text
  pub hangup : Option HangupConfig

-- The field of the audio analysis is left out.
pub record AccountConfig : Type 0 where
  pub username : Text
  pub auth_username : Option Text
  pub domain : Text
  pub password : Option Text
  pub proxy : Option Text
  pub register : Option Bool
  pub from_user : Option Text
  pub target : Option Text
  pub recording : Option Text  -- `record`
  pub srtp_enabled : Option Bool
  pub webrtc_enabled : Option Bool
  pub nack_enabled : Option Bool
  pub jitter_buffer_enabled : Option Bool
  pub reject_prob : Option ℕ  -- u8
  pub codecs : Option (List Text)
  pub headers : Option (List Text)
  pub cancel_prob : ℕ  -- u8
  pub transport : Option Text
  pub transport_addr : Option Text
  pub transport_ws_url : Option Text
  pub tls_ca : Option Text
  pub tls_sni : Option Text
  pub strategy : Option Text
  pub match_caller : Option Text
  pub enabled : Option Bool
  pub early_media : Option EarlyMediaConfig
  pub ring : Option RingConfig
  pub reject : Option RejectConfig
  pub answer : Option AnswerConfig
  pub announce : Option AnnounceConfig
  pub sdp_jump : Option Bool
  pub jump_codecs : Option (List Text)
  pub hangup : Option HangupConfig
  pub refer_reject : Option ℕ  -- u16
  pub refer_to : Option Text
  pub refer_delay_secs : Option ℕ
  pub ts_jump_tolerance_ms : ℕ  -- u32
  pub dtmf_flows : Option Text
  pub reinvite_flows : Option Text
  pub transfer_flows : Option Text
  pub info_flows : Option Text
