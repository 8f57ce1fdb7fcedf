-- ===== src/Security.antt =====
-- The server's guards against abuse (apps/server/src/security).
pub mod AuthAttempts
pub mod Blocklist
