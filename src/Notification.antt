-- ===== src/Notification.antt =====
-- Notifications: their data (src/domain/notification/types.rs).
pub mod Json
pub mod Types
