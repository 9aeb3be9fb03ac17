-- ===== src/Cli/Effect.antt =====
-- src/main.rs: what the command line does to the accounts of a configuration file, and what it does
-- not.
use sipbot.Prelude.{◌≡◌, refl, ap, subst, Option, none, some, List, [], ◌∷◌, map}
use sipbot.Prelude.Text.{Text}
use sipbot.Config.Account.{AccountConfig}
use sipbot.Config.Strategy.{Config}
use sipbot.Cli.{Args}
use sipbot.Cli.Run.{Bot, override, overrides_of, global_of, bots}

module _ (parse_uri : Text → Option (Option Text × Text)) where
  -- What a bot has from its account and its configuration, whatever the command line says.
  abbrev pub Kept : Config → AccountConfig → Bot parse_uri → Type 0
  Kept config a b =
      ((b.account).strategy ≡ a.strategy)
      × ((b.account).match_caller ≡ a.match_caller)
      × ((b.account).enabled ≡ a.enabled)
      × ((b.account).early_media ≡ a.early_media)
      × ((b.account).ring ≡ a.ring)
      × ((b.account).reject ≡ a.reject)
      × ((b.account).reject_prob ≡ a.reject_prob)
      × ((b.account).announce ≡ a.announce)
      × ((b.account).sdp_jump ≡ a.sdp_jump)
      × ((b.account).jump_codecs ≡ a.jump_codecs)
      × ((b.account).transport ≡ a.transport)
      × ((b.account).transport_addr ≡ a.transport_addr)
      × ((b.account).transport_ws_url ≡ a.transport_ws_url)
      × ((b.account).tls_ca ≡ a.tls_ca)
      × ((b.account).tls_sni ≡ a.tls_sni)
      × ((b.account).transfer_flows ≡ a.transfer_flows)
      × ((b.global_config).ws_url ≡ config.ws_url)
      × ((b.global_config).tls_ca ≡ config.tls_ca)
      × ((b.global_config).strategies ≡ config.strategies)

  -- bot for account, in order
  abbrev pub AllKept : Config → List AccountConfig → List (Bot parse_uri) → Type 0
  AllKept config [] [] = Unit
  AllKept config [] (b ∷ bs) = ⊥
  AllKept config (a ∷ accounts) [] = ⊥
  AllKept config (a ∷ accounts) (b ∷ bs) = Kept config a b × AllKept config accounts bs

  map-AllKept :
      (args : Args) (config : Config) (accounts : List AccountConfig)
      → AllKept config accounts (
          map
            (λ a. record {
              account = override parse_uri (overrides_of args.command) args.ws_url a;
              global_config = global_of parse_uri args (overrides_of args.command) config;
              audio_quality = (overrides_of args.command).audio_quality;
            })
            accounts)
  unfolding override
  map-AllKept args config [] = tt
  map-AllKept args config (a ∷ accounts) = (
    (
      refl, refl, refl, refl, refl, refl, refl, refl, refl, refl, refl, refl, refl, refl, refl,
      refl, refl, refl, refl,
    ),
    map-AllKept args config accounts,
  )

  -- With a configuration file there is one bot for each of its accounts, in their order, and the
  -- command line changes neither the strategy of an account, its stages before the answer, its
  -- transport and its transfer flows, nor the WebSocket URL, the CA bundle and the strategies in the
  -- configuration that the bot is given: those are the ones of the file, whatever --ws-url and
  -- --tls-ca say.
  pub bots-AllKept :
      (config : Config) (args : Args) (bs : List (Bot parse_uri))
      → bots parse_uri (some config) args ≡ some bs
      → AllKept config config.accounts bs
  unfolding bots
  bots-AllKept config args bs h =
      let get : Option (List (Bot parse_uri)) → List (Bot parse_uri) =
        λ o. elim o [ none ↦ [] | some xs ↦ xs ] in
      subst (AllKept config config.accounts) (ap get h) (map-AllKept args config config.accounts)
