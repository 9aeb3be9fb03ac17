-- ===== src/Sip/Endpoint/Choice.antt =====
-- src/sip.rs: what a WebSocket URL makes of the transport.
use sipbot.Prelude.{ℕ, ◌≡◌, ◌<◌, refl, true, some, or_else, ◌∷◌}
use sipbot.Prelude.Text.{Text}
use sipbot.Prelude.Spaces.{Lacks, NoSpace}
use sipbot.Config.Account.{AccountConfig}
use sipbot.Config.Strategy.{Config}
use sipbot.Sip.Address.{Transport, WsUrl}
use sipbot.Sip.Address.Url.{print, parse_ws_url-print}
use sipbot.Sip.Endpoint.{uses_ws, websocket, ws_proxy, connect, open_transport}

-- An account that uses WebSockets connects to the server of its URL, or else of the common one:
-- host, port and path are those of the URL, all its requests go through that server, and its calls
-- use WebRTC.
open_transport-print :
    (a : AccountConfig) (config : Config) (t : Transport) (host : Text) (port : ℕ) (path : Text)
    → uses_ws a config ≡ true
    → or_else a.transport_ws_url config.ws_url ≡ some (print t host port path)
    → NoSpace host
    → NoSpace path
    → Lacks b'/' host
    → port < 65536
    → let u : WsUrl = record { transport = t; host = host; port = port; path = b'/' ∷ path } in
      open_transport a config
      ≡ some (websocket u, record a { proxy = some (ws_proxy u); webrtc_enabled = some true })
unfolding open_transport connect
open_transport-print a config t host port path uses url h p l n =
    rw (uses, url, connect, parse_ws_url-print t host port path h p l n) refl
