-- ===== src/Web/Serve.antt =====
-- src/web/mod.rs: the bots of the serve mode, `spawn_bots`, `pick_free_bind_addr` and `reload_bots`.
-- A socket address is read and printed by the standard library; whether a port can be bound is for
-- the system to say. The port after 65535 is 0, as in a release build.
pub mod Ports
use sipbot.Prelude.{
  ℕ, zero, suc, ◌==◌, ◌||◌, ◌&&◌, not, Bool, true, false, Option, none, some, or_else, get_or,
  is_none, List, [], ◌∷◌, ◌++◌, map, add_u16, if◌then◌else◌,
}
use sipbot.Prelude.Text.{Text, codes}
use sipbot.Config.Account.{AccountConfig}
use sipbot.Config.Strategy.{Config, strategy_for, apply_to}
use sipbot.Config.Transport.{TransportKind, udp, tcp, ws, wss, parse}

pub record SocketAddr : Type 0 where
  pub ip : Text
  pub port : ℕ  -- u16

-- what the standard library and the system give
pub record System : Type 0 where
  pub parse_addr : Text → Option SocketAddr
  pub print_addr : SocketAddr → Text
  pub can_bind : TransportKind → SocketAddr → Bool

-- `HashSet::contains`
unfoldable pub has : ℕ → List ℕ → Bool
has p [] = false
has p (q ∷ qs) = p == q || has p qs

pub record BotHandle : Type 0 where
  pub key : Text
  pub account : AccountConfig  -- of the bot, its strategy applied
  pub picked : Option SocketAddr  -- the address that was found for it
  pub is_cancelled : Bool
  pub is_aborted : Bool

abbrev pub kind_of : AccountConfig → TransportKind
kind_of a = elim a.transport [ none ↦ udp | some s ↦ get_or (parse s) udp ]

abbrev pub is_bound_by_port : TransportKind → Bool
is_bound_by_port udp = true
is_bound_by_port tcp = true
is_bound_by_port k = false

abbrev pub is_disabled : AccountConfig → Bool
is_disabled a = elim a.enabled [ none ↦ false | some e ↦ not e ]

module _ (system : System) where
  -- the rounds of the search from one address on
  unfoldable pub probe_from : (fuel : ℕ) → SocketAddr → List ℕ → TransportKind → Option SocketAddr
  unfolding has
  probe_from zero addr used kind = none
  probe_from (suc fuel) addr used kind =
      let rest = probe_from fuel (record addr { port = add_u16 addr.port 1 }) used kind in
      if has addr.port used then rest else if system.can_bind kind addr then some addr else rest

  unfoldable pub pick_free_bind_addr : Text → List ℕ → TransportKind → Option SocketAddr
  unfolding probe_from
  pick_free_bind_addr base used kind = elim (system.parse_addr base) [
    | none ↦ none
    | some addr ↦ probe_from 50 addr used kind
  ]

  -- `used.insert`, on the one path where an address is found
  abbrev pub insert_port : Option SocketAddr → List ℕ → List ℕ
  insert_port none used = used
  insert_port (some addr) used = addr.port ∷ used

  -- only an account without an address of its own that listens on a port gets one
  unfoldable pub pick_for : Config → AccountConfig → List ℕ → Option SocketAddr
  unfolding pick_free_bind_addr
  pick_for config a used =
      if is_none a.transport_addr && is_bound_by_port (kind_of a)
      then pick_free_bind_addr (get_or config.addr (codes "0.0.0.0:35060")) used (kind_of a)
      else none

  abbrev addr_text : Option SocketAddr → Option Text
  addr_text none = none
  addr_text (some addr) = some (system.print_addr addr)

  unfoldable pub bot_of : AccountConfig → Option SocketAddr → BotHandle
  bot_of a picked = record {
    key = a.username ++ b'@' ∷ a.domain;
    account = record a { transport_addr = or_else (addr_text picked) a.transport_addr };
    picked = picked;
    is_cancelled = false;
    is_aborted = false;
  }

  unfoldable pub spawn_from : Config → List AccountConfig → List ℕ → List BotHandle
  unfolding pick_for bot_of
  spawn_from config [] used = []
  spawn_from config (a ∷ accounts) used =
      let merged = apply_to (strategy_for config a) a in
      let picked = pick_for config merged used in
      let later = spawn_from config accounts (insert_port picked used) in
      let skipped = spawn_from config accounts used in
      if is_disabled a then skipped else bot_of merged picked ∷ later

  unfoldable pub spawn_bots : Config → List BotHandle → List BotHandle
  unfolding spawn_from
  spawn_bots config bots = bots ++ spawn_from config config.accounts []

  abbrev pub cancel : BotHandle → BotHandle
  cancel b = record b { is_cancelled = true }

  abbrev pub abort : BotHandle → BotHandle
  abort b = record b { is_aborted = true }

  -- The bots that were stopped, first cancelled and then aborted, and the new ones.
  unfoldable pub reload_bots : Config → List BotHandle → List BotHandle × List BotHandle
  unfolding spawn_bots
  reload_bots config bots = (map abort (map cancel bots), spawn_bots config [])
