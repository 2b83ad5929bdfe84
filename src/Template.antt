-- ===== src/Template.antt =====
-- Templates of notifications (src/domain/template): the store with its errors, and the substitution of
-- variables in a payload.
pub mod Types
pub mod Substitution
pub mod Store
pub mod Segments
pub mod Rendering
pub mod Runs
mod Tests
