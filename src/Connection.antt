-- ===== src/Connection.antt =====
-- The connection manager (src/domain/connection): the registry of live connections and its three
-- indexes by user, tenant and channel.
pub mod Types
pub mod Manager
pub mod Queries
pub mod Valid
pub mod Invariant
pub mod Lookup
pub mod Narrowed
pub mod Limits
pub mod Stale
pub mod Registration
pub mod Effects
pub mod Calls
pub mod Bounds
pub mod Reachable
mod Tests
