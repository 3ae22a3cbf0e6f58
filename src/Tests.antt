-- ===== src/Tests.antt =====
-- Runs of the definitions on a small pool, and instances of the theorems.
mod Fixture
mod Acquires
mod Cooldowns
mod Routes
mod Owners
mod Stores
mod Services
mod Relays
mod Streams
mod Users
mod Codex
mod Claude
mod Chats
