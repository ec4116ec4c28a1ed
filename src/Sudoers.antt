-- ===== src/Sudoers.antt =====
-- src/sudoers/: the policy. Ast is the syntax tree; the other children stand for the parts of
-- src/sudoers/mod.rs and src/sudoers/policy.rs.
pub mod Ast
pub mod FindItem
pub mod Aliases
pub mod AliasOrder
pub mod Matchers
pub mod Rules
pub mod Permission
pub mod Policy
pub mod Check
pub mod Analyze
pub mod Editor
pub mod CharStream
mod Samples
mod Tests
