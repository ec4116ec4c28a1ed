-- ===== src/Env.antt =====
-- src/sudo/env/: the environment of the command that is run.
pub mod Wildcard
pub mod Keep
pub mod Target
mod Tests
