-- ===== src/Web/Request.antt =====
-- src/web/api.rs, `post_call_outbound`: the account that places a test call, from the JSON of the
-- request and the outbound profiles. Starting the bot, and the list of the running calls, are not
-- modelled.
pub mod Action
use sipbot.Prelude.{
  ℕ, ◌%◌, Bool, true, false, ◌||◌, not, max, Option, none, some, get_or, or_else, is_none, List, [],
  ◌∷◌, map, keep, find_first, if◌then◌else◌,
}
use sipbot.Prelude.Text.{Text, codes, text_eq, trim, to_lowercase, split}
use sipbot.Config.Account.{AccountConfig, AnswerConfig, play, echo}
use sipbot.Config.Hangup.{HangupConfig}
use sipbot.Sip.Caller.{trim_start_matches, before_any}
use sipbot.Web.Json.{Json, null, string, number, array, object, get, as_str, as_u64, texts}

-- `OutboundProfile` of src/config.rs
pub record OutboundProfile : Type 0 where
  pub name : Text
  pub target : Option Text
  pub codecs : Option (List Text)
  pub action : Option Text
  pub wav_file : Option Text
  pub dtmf_flows : Option Text
  pub reinvite_flows : Option Text
  pub transfer_flows : Option Text
  pub proxy : Option Text
  pub hangup_secs : Option ℕ

abbrev pub is_empty : Text → Bool
is_empty [] = true
is_empty (c ∷ cs) = false

abbrev pub is_blank : Text → Bool
is_blank t = is_empty (trim t)

abbrev pub text_field : Json → Text → Option Text
text_field body key = as_str (get body key)

abbrev pub not_blank : Option Text → Option Text
not_blank none = none
not_blank (some t) = if is_blank t then none else some t

abbrev pub tidy : List Text → List Text
tidy ts = keep (λ c. not (is_empty c)) (map (λ c. to_lowercase (trim c)) ts)

abbrev pub if_any : List Text → Option (List Text)
if_any [] = none
if_any (t ∷ ts) = some (t ∷ ts)

-- an array, or a text with commas
unfoldable pub codecs_of : Option Json → Option (List Text)
codecs_of (some (array items)) = if_any (tidy (texts items))
codecs_of (some (string s)) = if_any (tidy (split b',' s))
codecs_of (some null) = none
codecs_of (some (number n)) = none
codecs_of (some (object o)) = none
codecs_of none = none

-- What the request says, or else the profile.
unfoldable pub pick : Option Text → Option Text → Option Text
pick none p = p
pick (some v) p = if is_blank v then p else some v

abbrev pub of_profile {ℓ} :
    {A : Type ℓ} → (OutboundProfile → Option A) → Option OutboundProfile → Option A
of_profile field none = none
of_profile field (some p) = field p

-- `split(['@', ';']).nth(1)`
unfoldable pub second_part : Text → Option Text
second_part [] = none
second_part (c ∷ cs) =
    let rest = second_part cs in
    if text_eq (c ∷ []) (codes "@") || text_eq (c ∷ []) (codes ";")
    then some (before_any (codes "@;") cs)
    else rest

unfoldable pub domain_of : Text → Text
unfolding second_part
domain_of target =
    get_or (second_part (trim_start_matches (codes "sip:") target)) (codes "127.0.0.1")

unfoldable pub answer_of : (action : Text) → (wav_file : Option Text) → Option AnswerConfig
answer_of action wav_file =
    if text_eq action (codes "echo")
    then some echo
    else if text_eq action (codes "play")
    then some (play (get_or wav_file (codes "wavs/play.wav")))
    else none

-- `AccountConfig::default()`, as it is derived
abbrev pub default_account : AccountConfig
default_account = record {
  username = [];
  auth_username = none;
  domain = [];
  password = none;
  proxy = none;
  register = none;
  from_user = none;
  target = none;
  recording = none;
  srtp_enabled = none;
  webrtc_enabled = none;
  nack_enabled = none;
  jitter_buffer_enabled = none;
  reject_prob = none;
  codecs = none;
  headers = none;
  cancel_prob = 0;
  transport = none;
  transport_addr = none;
  transport_ws_url = none;
  tls_ca = none;
  tls_sni = none;
  strategy = none;
  match_caller = none;
  enabled = none;
  early_media = none;
  ring = none;
  reject = none;
  answer = none;
  announce = none;
  sdp_jump = none;
  jump_codecs = none;
  hangup = none;
  refer_reject = none;
  refer_to = none;
  refer_delay_secs = none;
  ts_jump_tolerance_ms = 0;
  dtmf_flows = none;
  reinvite_flows = none;
  transfer_flows = none;
  info_flows = none;
}

pub data Answer : Type 0 where
  unknown_profile : Text → Answer
  missing_target : Answer
  started : AccountConfig → (total cps : ℕ) → Answer

-- `unwrap_or(1).max(1) as u32`
unfoldable pub at_least_one : Option ℕ → ℕ
at_least_one n = max (get_or n 1) 1 % 4294967296

unfoldable pub target_of : Json → Option OutboundProfile → Text
unfolding pick
target_of body profile =
    let target = get_or (text_field body (codes "target")) [] in
    get_or (pick (some target) (of_profile (λ p. p.target) profile)) target

unfoldable pub action_of : Json → Option OutboundProfile → Text
unfolding pick
action_of body profile =
    get_or
      (pick (some (get_or (text_field body (codes "action")) (codes "play")))
        (of_profile (λ p. p.action) profile))
      (codes "play")

unfoldable pub wav_file_of : Json → Option OutboundProfile → Option Text
unfolding pick
wav_file_of body profile =
    pick (text_field body (codes "wav_file")) (of_profile (λ p. p.wav_file) profile)

unfoldable pub chosen_codecs : Json → Option OutboundProfile → List Text
unfolding codecs_of
chosen_codecs body profile =
    get_or (or_else (codecs_of (get body (codes "codecs"))) (of_profile (λ p. p.codecs) profile))
      (codes "pcmu" ∷ codes "pcma" ∷ codes "g722" ∷ [])

abbrev pub hangup_of : Option ℕ → Option HangupConfig
hangup_of none = none
hangup_of (some secs) = some (record { code = 0; after_secs = some secs; mode = none })

abbrev pub register_of : Option Text → Option Bool
register_of none = none
register_of (some p) = some true

unfoldable pub account_of : Json → Option OutboundProfile → AccountConfig
unfolding target_of domain_of answer_of action_of wav_file_of chosen_codecs pick
account_of body profile =
    let target = target_of body profile in
    let proxy = pick (text_field body (codes "proxy")) (of_profile (λ p. p.proxy) profile) in
    record default_account {
      username = get_or (text_field body (codes "from_user")) (codes "caller");
      auth_username = text_field body (codes "auth_user");
      domain = domain_of target;
      password = text_field body (codes "password");
      proxy = proxy;
      register = register_of proxy;
      target = some target;
      answer = answer_of (action_of body profile) (wav_file_of body profile);
      hangup = hangup_of (
          or_else (as_u64 (get body (codes "hangup_secs")))
            (of_profile (λ p. p.hangup_secs) profile));
      dtmf_flows =
          pick (text_field body (codes "dtmf_flows")) (of_profile (λ p. p.dtmf_flows) profile);
      reinvite_flows =
          pick (not_blank (text_field body (codes "reinvite_flows")))
            (of_profile (λ p. p.reinvite_flows) profile);
      transfer_flows =
          pick (not_blank (text_field body (codes "transfer_flows")))
            (of_profile (λ p. p.transfer_flows) profile);
      codecs = some (chosen_codecs body profile);
    }

-- the profile is known, or none was asked for
unfoldable pub start_with : Json → Option OutboundProfile → Answer
unfolding account_of at_least_one target_of
start_with body profile =
    if is_empty (target_of body profile)
    then missing_target
    else started (account_of body profile) (at_least_one (as_u64 (get body (codes "total"))))
        (at_least_one (as_u64 (get body (codes "cps"))))

unfoldable pub post_call_outbound : List OutboundProfile → Json → Answer
unfolding start_with
post_call_outbound outbound_profiles body = elim (text_field body (codes "profile")) [
  | none ↦ start_with body none
  | some name ↦ elim (find_first (λ p. text_eq p.name name) outbound_profiles) [
    | none ↦ unknown_profile name
    | some p ↦ start_with body (some p)
  ]
]
