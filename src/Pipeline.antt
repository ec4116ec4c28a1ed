-- ===== src/Pipeline.antt =====
-- src/sudo/pam.rs and src/sudo/pipeline.rs: the authentication of a user, by the PAM library or by a
-- record of an earlier session. The library, the databases, the clock and the opening of the file
-- of session records are parameters.
pub mod Attempts
pub mod Auth
