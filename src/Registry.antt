-- ===== src/Registry.antt =====
-- The session registry of apps/server/src/session.rs, the single-node source of truth for who is
-- connected, which host is busy and which session may relay media.
pub mod State
pub mod Valid
pub mod Close
pub mod Presence
pub mod Lifecycle
pub mod Relay
pub mod Cases
pub mod Steps
pub mod SessionSteps
pub mod History
pub mod Media
pub mod Replay
pub mod Outcomes
pub mod Answers
pub mod Reconnect
