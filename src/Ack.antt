-- ===== src/Ack.antt =====
-- The tracking of acknowledgments (src/domain/ack): the in-memory backend.
pub mod Memory
pub mod Laws
pub mod Runs
mod Tests
