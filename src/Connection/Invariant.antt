-- ===== src/Connection/Invariant.antt =====
-- The invariant of Connection/Valid.antt is kept by every operation of Connection/Manager.antt.
mod Register
mod Unregister
mod Subscribe
pub use Register.*
pub use Unregister.*
pub use Subscribe.*
