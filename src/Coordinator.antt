-- ===== src/Coordinator.antt =====
-- coordinator.py: rings, missed calls and the one video session at a time.
pub mod State
pub mod Rings
pub mod Connection
pub mod Video
pub mod Calls
pub mod Steps
