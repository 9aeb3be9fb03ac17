-- ===== src/Web.antt =====
-- src/web: the observing side of the serve mode.
pub mod Record
pub mod Registry
pub mod Json
pub mod Api
pub mod Files
pub mod Request
pub mod Control
pub mod Serve
pub mod Inspector
