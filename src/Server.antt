-- ===== src/Server.antt =====
-- internal/server: the parts of the HTTP server that keep state of their own.
pub mod RateLimit
pub mod Stream
pub mod Users
pub mod Chat
