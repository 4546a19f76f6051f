-- ===== src/Session.antt =====
-- internal/session/session.go: the run loop, the command path and their limits.
pub mod Limits
pub mod Dedupe
pub mod Handle
pub mod Run
pub mod Pump
pub mod Connect
pub mod New
