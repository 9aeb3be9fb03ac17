-- ===== src/Sip/Address.antt =====
-- src/sip.rs: `normalize_sip_addr` and `parse_ws_url`.
pub mod Url
use sipbot.Prelude.{
  ℕ, ◌≡◌, refl, Option, none, some, get_or, [], ◌∷◌, ◌++◌, arith, ◌==◌, if◌then◌else◌, ◌>>=◌,
}
use sipbot.Prelude.Text.{Text, codes, text_eq, trim, strip_prefix}
use sipbot.Prelude.Decimal.{parse_uint}

unfoldable pub normalize_sip_addr : Text → Text
normalize_sip_addr addr = codes "sip:" ++ get_or (strip_prefix addr (codes "sip:")) addr

strip_prefix-append : (p s : Text) → strip_prefix (p ++ s) p ≡ some s
unfolding strip_prefix
strip_prefix-append [] s = refl
strip_prefix-append (c ∷ p) s = ground (arith, strip_prefix-append p s)

append-strip_prefix : (p s rest : Text) → strip_prefix s p ≡ some rest → s ≡ p ++ rest
unfolding strip_prefix
append-strip_prefix [] s rest h = ground arith
append-strip_prefix (c ∷ p) [] rest h = cc
append-strip_prefix (c ∷ p) (d ∷ s) rest h = ground (arith, append-strip_prefix p s rest)

-- An address with the prefix `sip:` is left as it is, and normalising twice is normalising once.
normalize_sip_addr_lem :
    (addr : Text)
    → (normalize_sip_addr (codes "sip:" ++ addr) ≡ codes "sip:" ++ addr)
      × (normalize_sip_addr (normalize_sip_addr addr) ≡ normalize_sip_addr addr)
unfolding normalize_sip_addr
normalize_sip_addr_lem addr = (simp strip_prefix-append, simp strip_prefix-append)

-- the transports of the rsipstack crate that a WebSocket URL names
pub data Transport : Type 0 where
  ws wss : Transport

pub record WsUrl : Type 0 where
  pub transport : Transport
  pub host : Text
  pub port : ℕ
  pub path : Text

-- `split_once` by a separator of several characters
unfoldable pub split_at : Text → Text → Option (Text × Text)
split_at sep [] = elim (strip_prefix [] sep) [ none ↦ none | some rest ↦ some ([], rest) ]
split_at sep (c ∷ cs) = elim (strip_prefix (c ∷ cs) sep) [
  | some rest ↦ some ([], rest)
  | none ↦ elim (split_at sep cs) [ none ↦ none | some (a, b) ↦ some (c ∷ a, b) ]
]

-- the text up to the first `c`, and the text from there on; `none` if there is no `c`
unfoldable pub break_at : ℕ → Text → Option (Text × Text)
break_at sep [] = none
break_at sep (c ∷ cs) =
    if c == sep
    then some ([], c ∷ cs)
    else elim (break_at sep cs) [ none ↦ none | some (a, b) ↦ some (c ∷ a, b) ]

-- the text before the last `c`, and the text behind it
unfoldable pub split_last : ℕ → Text → Option (Text × Text)
split_last sep [] = none
split_last sep (c ∷ cs) = elim (split_last sep cs) [
  | some (a, b) ↦ some (c ∷ a, b)
  | none ↦ if c == sep then some ([], cs) else none
]

scheme_of : Text → Option Transport
scheme_of s =
    if text_eq s (codes "wss") then some wss else if text_eq s (codes "ws") then some ws else none

default_port : Transport → ℕ
default_port wss = 443
default_port ws = 80

host_and_port : Transport → Text → Option (Text × ℕ)
unfolding default_port split_last
host_and_port t host_port = elim (split_last b':' host_port) [
  | none ↦ some (host_port, default_port t)
  | some (host, port) ↦ elim (parse_uint 65535 port) [ none ↦ none | some n ↦ some (host, n) ]
]

-- Every error is `none`. A path that is found begins with a slash, so it is never empty.
unfoldable pub parse_ws_url : Text → Option WsUrl
unfolding split_at break_at scheme_of host_and_port
parse_ws_url url = do
  (scheme, rest) ← split_at (codes "://") (trim url)
  transport ← scheme_of scheme
  let parts = get_or (break_at b'/' rest) (rest, codes "/ws")
  (host, port) ← host_and_port transport parts.0
  some (record { transport = transport; host = host; port = port; path = parts.1 })
