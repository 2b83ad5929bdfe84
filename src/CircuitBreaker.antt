-- ===== src/CircuitBreaker.antt =====
-- The circuit breaker of the Redis connections (src/infrastructure/redis/circuit_breaker.rs). A call
-- runs alone, and each of its reads of the clock (`current_time_ms`) is an argument.
pub mod Breaker
pub mod Invariant
pub mod Runs
pub mod Recovery
pub mod Closing
mod Tests
