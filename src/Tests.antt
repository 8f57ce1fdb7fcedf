-- ===== src/Tests.antt =====
-- Each property at a concrete input.
mod Registry
mod Auth
mod Media
mod Security
mod Viewer
mod Host
mod Ipc
mod Server
mod Identity
