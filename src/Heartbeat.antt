-- ===== src/Heartbeat.antt =====
-- The background task of heartbeats and sweeps (src/tasks/heartbeat.rs).
pub mod Task
pub mod Laws
mod Tests
