-- ===== src/Attempts.antt =====
-- src/server/task-board/collaborators/verify-attempts.ts: machine verification, whose attempts are rows
-- of the database. The process that verifies, its workspace and the commands it runs are outside.
pub mod Rows
pub mod Failures
pub mod Checks
pub mod Writes
pub mod Details
pub mod Steps
pub mod Settled
pub mod Created
pub mod Once
pub mod Poll
pub mod Verdicts
pub mod Stays
pub mod Starts
mod Tests
