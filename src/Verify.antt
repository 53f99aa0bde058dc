-- ===== src/Verify.antt =====
-- src/server/agents/verify/mapping.ts: the tests that the verification of a change runs. `Globs` has the
-- patterns of the policy, `Mapping` the selection by rules.
pub mod Globs
pub mod Mapping
pub mod Below
pub mod Selected
pub mod Brings
pub mod Agrees
mod Tests
