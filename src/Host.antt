-- ===== src/Host.antt =====
-- The host application (apps/host/src): its session agent, session manager, control loop and policy.
pub mod Agent
pub mod Session
pub mod Control
pub mod Policy
