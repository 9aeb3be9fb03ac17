-- ===== src/Sip/Address/Url.antt =====
-- src/sip.rs, `parse_ws_url`: reading a printed URL.
use sipbot.Prelude.{ℕ, ◌<◌, ◌≡◌, ◌≢◌, inl, inr, refl, false, none, some, [], ◌∷◌, ◌++◌, arith, ◌==◌}
use sipbot.Prelude.Text.{Text, codes, text_eq, strip_prefix, is_whitespace}
use sipbot.Prelude.Decimal.{to_string, parse_uint-to_string, to_string-AreDigits}
use sipbot.Prelude.Spaces.{
  Lacks, NoSpace, trim-NoSpace, AreDigits-Lacks, AreDigits-NoSpace, All-join,
}
use sipbot.Sip.Address.{
  Transport, ws, wss, split_at, break_at, split_last, scheme_of, host_and_port, parse_ws_url,
}

break_at-Lacks : (c : ℕ) (s t : Text) → Lacks c s → break_at c (s ++ c ∷ t) ≡ some (s, c ∷ t)
unfolding break_at
break_at-Lacks c [] t h = ground arith
break_at-Lacks c (d ∷ s) t h =
    let other : (d == c) ≡ false = ground (arith, h.0) in rw (other, break_at-Lacks c s t h.1)

split_last-none : (c : ℕ) (s : Text) → Lacks c s → split_last c s ≡ none
unfolding split_last
split_last-none c [] h = refl
split_last-none c (d ∷ s) h =
    let other : (d == c) ≡ false = ground (arith, h.0) in rw (split_last-none c s h.1, other)

split_last-Lacks : (c : ℕ) (s t : Text) → Lacks c t → split_last c (s ++ c ∷ t) ≡ some (s, t)
unfolding split_last
split_last-Lacks c [] t h = rw (split_last-none c t h) (ground arith)
split_last-Lacks c (d ∷ s) t h = rw (split_last-Lacks c s t h)

abbrev pub scheme : Transport → Text
scheme ws = codes "ws"
scheme wss = codes "wss"

abbrev pub authority : Text → ℕ → Text
authority host port = host ++ b':' ∷ to_string port

abbrev pub print : Transport → (host : Text) → (port : ℕ) → (path : Text) → Text
print t host port path = scheme t ++ (codes "://" ++ (authority host port ++ b'/' ∷ path))

split_at-scheme :
    (t : Transport) (rest : Text)
    → split_at (codes "://") (scheme t ++ (codes "://" ++ rest)) ≡ some (scheme t, rest)
unfolding split_at strip_prefix
split_at-scheme ws rest = refl
split_at-scheme wss rest = refl

scheme_of-scheme : (t : Transport) → scheme_of (scheme t) ≡ some t
unfolding scheme_of text_eq
scheme_of-scheme ws = refl
scheme_of-scheme wss = refl

NoSpace-scheme : (t : Transport) → NoSpace (scheme t)
unfolding is_whitespace
NoSpace-scheme ws = (refl, (refl, tt))
NoSpace-scheme wss = (refl, (refl, (refl, tt)))

NoSpace-print :
    (t : Transport) (host : Text) (port : ℕ) (path : Text)
    → NoSpace host
    → NoSpace path
    → NoSpace (print t host port path)
unfolding is_whitespace
NoSpace-print t host port path h p =
    All-join (λ d. is_whitespace d ≡ false) (scheme t)
      (codes "://" ++ (authority host port ++ b'/' ∷ path)) (NoSpace-scheme t)
      (
        refl,
        (
          refl,
          (
            refl,
            All-join (λ d. is_whitespace d ≡ false) (authority host port) (b'/' ∷ path)
                (All-join (λ d. is_whitespace d ≡ false) host (b':' ∷ to_string port) h
                  (refl, AreDigits-NoSpace (to_string port) (to_string-AreDigits port)))
                (refl, p),
          ),
        ),
      )

host_and_port-authority :
    (t : Transport) (host : Text) (port : ℕ)
    → port < 65536
    → host_and_port t (authority host port) ≡ some (host, port)
unfolding host_and_port
host_and_port-authority t host port h = rw (
  host_and_port,
  split_last-Lacks b':' host (to_string port)
      (AreDigits-Lacks b':' (to_string port) (inr (omega arith)) (to_string-AreDigits port)),
  parse_uint-to_string 65535 port (omega arith),
)

Lacks-authority : (host : Text) (port : ℕ) → Lacks b'/' host → Lacks b'/' (authority host port)
Lacks-authority host port l =
    All-join (λ d. d ≢ b'/') host (b':' ∷ to_string port) l
      (
        λ e. ground arith,
        AreDigits-Lacks b'/' (to_string port) (inl (omega arith)) (to_string-AreDigits port),
      )

-- A WebSocket URL that is printed with its port and its path is read back as it was, where host and
-- path hold no white space, the host no slash, and the port fits in 16 bits. The host may hold
-- colons.
pub parse_ws_url-print :
    (t : Transport) (host : Text) (port : ℕ) (path : Text)
    → NoSpace host
    → NoSpace path
    → Lacks b'/' host
    → port < 65536
    → parse_ws_url (print t host port path)
      ≡ some (record { transport = t; host = host; port = port; path = b'/' ∷ path })
unfolding parse_ws_url
parse_ws_url-print t host port path h p l n = rw (
  trim-NoSpace (print t host port path) (NoSpace-print t host port path h p),
  split_at-scheme t (authority host port ++ b'/' ∷ path),
  scheme_of-scheme t,
  break_at-Lacks b'/' (authority host port) path (Lacks-authority host port l),
  host_and_port-authority t host port n,
)
