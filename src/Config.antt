-- ===== src/Config.antt =====
-- src/config.rs: the configuration of accounts, strategies and flows. TOML reading and writing, and
-- the derived (de)serialisers, are not modelled.
pub mod Account
pub mod Hangup
pub mod Strategy
pub mod Flows
pub mod Transport
