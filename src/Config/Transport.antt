-- ===== src/Config/Transport.antt =====
-- src/config.rs: `TransportKind`.
use sipbot.Prelude.{
  ◌≡◌, ◌↔◌, ◌⊎◌, inl, inr, refl, Bool, true, false, Option, none, some, arith, if◌then◌else◌,
}
use sipbot.Prelude.Text.{Text, codes, text_eq, text_eq_iff, trim, to_lowercase}

pub data TransportKind : Type 0 where
  udp tcp tls ws wss : TransportKind

unfoldable pub as_str : TransportKind → Text
as_str udp = codes "udp"
as_str tcp = codes "tcp"
as_str tls = codes "tls"
as_str ws = codes "ws"
as_str wss = codes "wss"

kind_of_word : Text → Option TransportKind
kind_of_word w =
    if text_eq w (codes "udp")
    then some udp
    else if text_eq w (codes "tcp")
    then some tcp
    else if text_eq w (codes "tls")
    then some tls
    else if text_eq w (codes "sips")
    then some tls
    else if text_eq w (codes "ws")
    then some ws
    else if text_eq w (codes "wss")
    then some wss
    else none

unfoldable pub parse : Text → Option TransportKind
unfolding kind_of_word
parse s = kind_of_word (to_lowercase (trim s))

unfoldable pub is_tls : TransportKind → Bool
is_tls tls = true
is_tls k = false

words :
    (w : Text)
    → ((text_eq w (codes "udp") ≡ true) → w ≡ codes "udp")
      × ((text_eq w (codes "tcp") ≡ true) → w ≡ codes "tcp")
      × ((text_eq w (codes "tls") ≡ true) → w ≡ codes "tls")
      × ((text_eq w (codes "sips") ≡ true) → w ≡ codes "sips")
      × ((text_eq w (codes "ws") ≡ true) → w ≡ codes "ws")
      × ((text_eq w (codes "wss") ≡ true) → w ≡ codes "wss")
words w = (
  (text_eq_iff w (codes "udp")).0,
  (text_eq_iff w (codes "tcp")).0,
  (text_eq_iff w (codes "tls")).0,
  (text_eq_iff w (codes "sips")).0,
  (text_eq_iff w (codes "ws")).0,
  (text_eq_iff w (codes "wss")).0,
)

kind_of_word_to :
    (k : TransportKind) (w : Text)
    → kind_of_word w ≡ some k
    → (w ≡ as_str k) ⊎ ((k ≡ tls) × (w ≡ codes "sips"))
unfolding kind_of_word as_str
kind_of_word_to udp w h = ground (arith, words w)
kind_of_word_to tcp w h = ground (arith, words w)
kind_of_word_to tls w h = ground (arith, words w)
kind_of_word_to ws w h = ground (arith, words w)
kind_of_word_to wss w h = ground (arith, words w)

kind_of_word_from : (k : TransportKind) → kind_of_word (as_str k) ≡ some k
unfolding kind_of_word as_str text_eq
kind_of_word_from udp = refl
kind_of_word_from tcp = refl
kind_of_word_from tls = refl
kind_of_word_from ws = refl
kind_of_word_from wss = refl

-- A transport is read from its name, or from `sips` for TLS, in any case and with white space around
-- it, and from nothing else.
parse_iff :
    (s : Text) (k : TransportKind)
    → (parse s ≡ some k)
      ↔ ((to_lowercase (trim s) ≡ as_str k) ⊎ ((k ≡ tls) × (to_lowercase (trim s) ≡ codes "sips")))
unfolding parse
parse_iff s k = (kind_of_word_to k (to_lowercase (trim s)), from)
  where
    from :
        (to_lowercase (trim s) ≡ as_str k) ⊎ ((k ≡ tls) × (to_lowercase (trim s) ≡ codes "sips"))
        → kind_of_word (to_lowercase (trim s)) ≡ some k
    from (inl e) = rw e (kind_of_word_from k)
    from (inr (is_tls, e)) = rw (is_tls, e) (unfold text_eq in refl)
