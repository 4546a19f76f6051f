-- ===== src/Tests.antt =====
-- Runs of the model on the inputs of the source's own tests, and each property at a concrete input.
pub mod Vocab
pub mod Resolving
pub mod Session
pub mod Wildcards
pub mod Client
pub mod Tools
pub mod Config
pub mod Pump
pub mod Connect
pub mod Running
pub mod Teamcity
pub mod Dial
pub mod Daemon
