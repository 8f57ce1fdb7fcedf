-- ===== src/Ipc.antt =====
-- The control channel between the host's service and its session agent
-- (packages/platform-windows/src/ipc): the messages, their size limits and their frames.
pub mod Message
pub mod Limits
pub mod Codec
