-- ===== src/RedisTrigger.antt =====
-- The trigger of notifications by Redis Pub/Sub (src/domain/notification/triggers/redis.rs).
pub mod Messages
pub mod Subscriber
pub mod Laws
mod Tests
