-- ===== src/Tenant.antt =====
-- Tenants (src/domain/tenant/mod.rs and the queue keys of src/infrastructure/auth/claims.rs).
pub mod Context
pub mod Isolation
pub mod Manager
pub mod Counts
mod Tests
