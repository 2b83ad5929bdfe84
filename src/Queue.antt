-- ===== src/Queue.antt =====
-- The queues of messages for users who are offline (src/domain/queue): the in-memory backend of the
-- service and the older per-user queue.
pub mod Core
pub mod Newest
pub mod Draining
pub mod Cleanup
pub mod Models
pub mod MemoryBackend
pub mod UserQueue
pub mod Enqueues
pub mod MemoryLaws
pub mod MemoryRuns
pub mod Replay
mod Tests
