-- ===== src/Cluster.antt =====
-- The routing of messages between servers (src/domain/cluster).
pub mod Types
pub mod Router
pub mod Delivery
mod Tests
