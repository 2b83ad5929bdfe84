-- ===== src/RateLimit.antt =====
-- Local rate limiting (src/domain/ratelimit).
pub mod TokenBucket
pub mod Bounds
pub mod Limiter
pub mod Checks
mod Tests
