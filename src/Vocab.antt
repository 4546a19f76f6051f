-- ===== src/Vocab.antt =====
-- internal/vocab/vocab.go: the typed command allowlist and its argument constraints.
pub mod Schema
pub mod Table
pub mod Scoping
pub mod Validate
pub mod Resolve
pub mod Selfcheck
