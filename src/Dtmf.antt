-- ===== src/Dtmf.antt =====
-- src/dtmf.rs: DTMF digits and the telephone-event payload of RFC 4733.
pub mod Digit
pub mod Packet
pub mod Sdp
