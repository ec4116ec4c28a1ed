-- ===== src/Session.antt =====
-- src/system/timestamp.rs and src/system/time.rs: the records of earlier authentications.
pub mod Time
pub mod Record
pub mod Store
pub mod Current
pub mod Operations
pub mod Records
pub mod Refinement
pub mod Run
pub mod Safety
mod Tests
