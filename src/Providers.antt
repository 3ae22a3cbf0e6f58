-- ===== src/Providers.antt =====
-- internal/driver: what the drivers of the providers decide.
pub mod Interpret
pub mod Codex
pub mod Claude
