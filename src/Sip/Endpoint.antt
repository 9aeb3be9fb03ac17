-- ===== src/Sip/Endpoint.antt =====
-- src/sip.rs: the transport that `init_endpoint` chooses, the contact that it pins, and the
-- addresses of `make_call`. URIs are read by the rsipstack crate, sockets are opened by the system.
pub mod Choice
use sipbot.Prelude.{
  ℕ, ◌||◌, ◌&&◌, not, Bool, true, false, Option, none, some, is_none, get_or, or_else, List, [],
  ◌∷◌, ◌++◌, if◌then◌else◌, ◌>>=◌,
}
use sipbot.Prelude.Text.{Text, codes, starts_with, to_lowercase}
use sipbot.Prelude.Decimal.{to_string}
use sipbot.Prelude.Contains.{contains}
use sipbot.Config.Account.{AccountConfig}
use sipbot.Config.Strategy.{Config}
use sipbot.Config.Transport.{TransportKind, udp, tcp, tls, ws, wss, parse, is_tls}
use sipbot.Sip.Address.{Transport, WsUrl, parse_ws_url, normalize_sip_addr}
use sipbot.Sip.Address as Address

abbrev pub transport_of : AccountConfig → Option TransportKind
transport_of a = a.transport >>= λ t. parse t

-- The account's transport, or else whether there is a WebSocket URL for all.
unfoldable pub uses_ws : AccountConfig → Config → Bool
uses_ws a config = elim (transport_of a) [
  | some ws ↦ true
  | some wss ↦ true
  | some k ↦ false
  | none ↦ not (is_none config.ws_url)
]

-- What is opened: a connection to a WebSocket server, a TCP listener, or a UDP socket with the
-- address that it is known by outside.
pub data Opened : Type 0 where
  websocket : WsUrl → Opened
  tcp_listener : (addr : Text) → Opened
  udp_socket : (addr : Text) → (external_ip : Option Text) → Opened

abbrev pub bind_addr : AccountConfig → Config → Text
bind_addr a config = get_or (or_else a.transport_addr config.addr) (codes "0.0.0.0:35060")

abbrev is_tcp : Option TransportKind → Bool
is_tcp (some tcp) = true
is_tcp k = false

abbrev transport_param : Transport → Text
transport_param Address.wss = codes "wss"
transport_param Address.ws = codes "ws"

-- the proxy through which all requests go to the server
abbrev pub ws_proxy : WsUrl → Text
ws_proxy u =
    u.host
    ++ (codes ":" ++ (to_string u.port ++ (codes ";transport=" ++ transport_param u.transport)))

-- a connection to the server of the URL
unfoldable pub connect : AccountConfig → Option Text → Option (Opened × AccountConfig)
connect a none = none
connect a (some url) = elim (parse_ws_url url) [
  | none ↦ none
  | some u ↦ some (websocket u, record a { proxy = some (ws_proxy u); webrtc_enabled = some true })
]

-- What is opened, and the account after it; none is an error before anything is opened.
unfoldable pub open_transport : AccountConfig → Config → Option (Opened × AccountConfig)
unfolding uses_ws connect
open_transport a config =
    if uses_ws a config
    then connect a (or_else a.transport_ws_url config.ws_url)
    else if is_tcp (transport_of a)
    then some (tcp_listener (bind_addr a config), a)
    else some (udp_socket (bind_addr a config) config.external_ip, a)

pub record Contact : Type 0 where
  pub uri : Text
  pub has_ice : Bool  -- the parameter `+sip.ice`

abbrev contact_uri : Text → Text → ℕ → Text
contact_uri username host port =
    codes "sip:" ++ (username ++ (codes "@" ++ (host ++ (codes ":" ++ to_string port))))

-- The contact of the registration. `local` is the first address of the transports, if it is a
-- socket.
module _ (is_uri : Text → Bool) where
  abbrev pinned : AccountConfig → Config → Text × ℕ → Option Contact
  pinned a config (ip, port) =
      let uri = contact_uri a.username (get_or config.external_ip ip) port in
      if is_uri uri then some (record { uri = uri; has_ice = false }) else none

  abbrev with_ice : AccountConfig → Text × ℕ → Option Contact → Option Contact
  with_ice a (ip, port) before =
      let uri = contact_uri a.username ip port in
      if is_uri uri then some (record { uri = uri; has_ice = true }) else before

  unfoldable pub contact_of : AccountConfig → Config → (local : Option (Text × ℕ)) → Option Contact
  unfolding uses_ws
  contact_of a config none = none
  contact_of a config (some at) =
      if not (uses_ws a config) && get_or a.webrtc_enabled false
      then with_ice a at (pinned a config at)
      else pinned a config at

-- The transport of a destination, as far as the code tells them apart.
pub data Via : Type 0 where
  over_tls : Via
  over_tcp : Via
  over_other : Via

pub record SipAddr : Type 0 where
  pub via : Option Via
  pub host : Text
  pub port : Option ℕ

unfoldable pub wants_tls : (is_sips : Bool) → Text → AccountConfig → Bool
wants_tls is_sips target a =
    is_sips
    || contains target (codes "transport=tls")
    || elim (transport_of a) [ none ↦ false | some k ↦ is_tls k ]

unfoldable pub wants_tcp : Text → Bool
wants_tcp target = contains (to_lowercase target) (codes "transport=tcp")

abbrev pub default_port : Option Via → Option ℕ → Option ℕ
default_port (some over_tls) port = or_else port (some 5061)
default_port (some over_tcp) port = or_else port (some 5060)
default_port via port = port

-- Where an INVITE goes. `parse_addr` reads a URI as an address, `is_sips` sees its scheme.
unfoldable pub destination :
    (parse_addr : Text → Option SipAddr)
    → (is_sips : Text → Bool) → AccountConfig
    → (target_uri : Text) → Option SipAddr
unfolding wants_tls wants_tcp
destination parse_addr is_sips a target_uri =
    parse_addr (elim a.proxy [ none ↦ target_uri | some proxy ↦ normalize_sip_addr proxy ]) >>= λ d.
    let via = if wants_tls (is_sips target_uri) target_uri a then some over_tls else d.via in
    let via' = if wants_tcp target_uri then some over_tcp else via in
    some (record { via = via'; host = d.host; port = default_port via' d.port })

-- The URI in From. `with_user` puts a user into a URI that has none.
unfoldable pub from_uri : (with_user : Text → Text → Option Text) → AccountConfig → Option Text
from_uri with_user a = elim a.from_user [
  | none ↦ some (codes "sip:" ++ (a.username ++ (codes "@" ++ a.domain)))
  | some from ↦
      if starts_with from (codes "sip:")
      then with_user from a.username
      else some (codes "sip:" ++ (from ++ (codes "@" ++ a.domain)))
]
