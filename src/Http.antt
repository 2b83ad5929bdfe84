-- ===== src/Http.antt =====
-- The HTTP interface for notifications: the errors and their answers (src/infrastructure/error), the
-- triggers (src/domain/notification/triggers/http) with the batch, and the authentication of requests
-- (src/server/middleware.rs).
pub mod Errors
pub mod Auth
pub mod AuthLaws
pub mod Content
pub mod Handlers
pub mod BatchTypes
pub mod Batch
pub mod BatchRounds
pub mod BatchLaws
mod Tests
