-- ===== src/Dtmf/Packet.antt =====
-- src/dtmf.rs: `encode_dtmf` and `decode_dtmf`.
use sipbot.Prelude.{
  ℕ, ◌+◌, ◌*◌, ◌/◌, ◌%◌, ◌<◌, ◌≡◌, List, [], ◌∷◌, Option, none, some, Bool, arith, length, ◌==◌,
  if◌then◌else◌,
}

pub record DtmfEvent : Type 0 where
  pub event : ℕ  -- u8
  pub end : Bool
  pub volume : ℕ  -- u8
  pub duration : ℕ  -- u16

-- `x & 0x3F` is `x % 64`, and an `|` of bit 7 with it is a sum.
unfoldable pub encode_dtmf : DtmfEvent → List ℕ
encode_dtmf ev =
    ev.event
    ∷ ((if ev.end then 128 else 0) + ev.volume % 64)
    ∷ (ev.duration / 256 % 256)
    ∷ (ev.duration % 256)
    ∷ []

-- `data[1] & 0x80 != 0` is bit 7 of a byte
unfoldable pub decode_dtmf : List ℕ → Option DtmfEvent
decode_dtmf (b0 ∷ b1 ∷ b2 ∷ b3 ∷ rest) =
    some
      (record { event = b0; end = b1 / 128 % 2 == 1; volume = b1 % 64; duration = b2 * 256 + b3 })
decode_dtmf short = none

-- Decoding what was encoded gives the event back, with the volume cut to its six bits, where the
-- duration fits in 16 bits.
pub decode_dtmf-encode_dtmf :
    (ev : DtmfEvent)
    → ev.duration < 65536
    → decode_dtmf (encode_dtmf ev) ≡ some (record ev { volume = ev.volume % 64 })
unfolding decode_dtmf encode_dtmf
decode_dtmf-encode_dtmf ev h = ground arith

-- Encoding what was decoded from four bytes, all but the first within their 8 bits, gives the bytes
-- back, with bit 6 of the second cleared.
encode_dtmf-decode_dtmf :
    (b0 b1 b2 b3 : ℕ) {ev : DtmfEvent}
    → b1 < 256
    → b2 < 256
    → b3 < 256
    → decode_dtmf (b0 ∷ b1 ∷ b2 ∷ b3 ∷ []) ≡ some ev
    → encode_dtmf ev ≡ b0 ∷ (b1 / 128 * 128 + b1 % 64) ∷ b2 ∷ b3 ∷ []
unfolding decode_dtmf encode_dtmf
encode_dtmf-decode_dtmf b0 b1 b2 b3 h1 h2 h3 h = ground arith

-- A payload is refused exactly when it has fewer than four bytes.
decode_dtmf-none_iff :
    (bytes : List ℕ)
    → ((decode_dtmf bytes ≡ none) → length bytes < 4)
      × (length bytes < 4 → decode_dtmf bytes ≡ none)
unfolding decode_dtmf
decode_dtmf-none_iff [] = ground arith
decode_dtmf-none_iff (a ∷ []) = ground arith
decode_dtmf-none_iff (a ∷ b ∷ []) = ground arith
decode_dtmf-none_iff (a ∷ b ∷ c ∷ []) = ground arith
decode_dtmf-none_iff (a ∷ b ∷ c ∷ d ∷ rest) = ground arith
