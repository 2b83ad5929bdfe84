-- ===== src/Dispatcher.antt =====
-- The dispatcher of notifications (src/domain/notification/dispatcher.rs).
pub mod Model
pub mod Handlers
pub mod Recipients
pub mod Batches
pub mod Accounting
pub mod Offline
mod Tests
