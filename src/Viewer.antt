-- ===== src/Viewer.antt =====
-- The viewer's toolkit-independent core (packages/viewer-core).
pub mod Connection
pub mod Coalescer
pub mod Capture
