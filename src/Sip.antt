-- ===== src/Sip.antt =====
-- src/sip.rs: the pure parts of the SIP bot.
pub mod Caller
pub mod Address
pub mod Health
pub mod Flows
pub mod Registration
pub mod Runner
pub mod Endpoint
pub mod Call
pub mod Outbound
pub mod Dispatch
