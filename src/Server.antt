-- ===== src/Server.antt =====
-- The server's stores (apps/server/src): one-time codes.
pub mod OtpStore
