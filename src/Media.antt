-- ===== src/Media.antt =====
-- src/media.rs: the media session.
pub mod Frame
pub mod Sequence
pub mod Timestamp
pub mod Nack
pub mod Sample
pub mod Playback
pub mod SendDtmf
pub mod Receive
pub mod Codecs
pub mod Answer
