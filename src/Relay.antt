-- ===== src/Relay.antt =====
-- internal/relay: how a request is relayed over several accounts.
pub mod Answers
pub mod Attempt
pub mod Loop
pub mod Request
pub mod Handle
pub mod Pooled
