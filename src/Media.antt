-- ===== src/Media.antt =====
-- packages/media: the buffers and policies between the network and playout.
pub mod Jitter
