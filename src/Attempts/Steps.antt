-- ===== src/Attempts/Steps.antt =====
-- src/server/task-board/collaborators/verify-attempts.ts: the transactions as steps on the database, in any
-- order, since an attempt may be retired while its start or its poll waits.
use nexus_seventeen.Prelude.{◌≡◌, Bool, Option, Text, ok}
use nexus_seventeen.Contract.{WorkItemStage}
use mathlib.Core.List.{Memᴰ}
use nexus_seventeen.Attempts.Rows.{
  AttemptState, green, failed, died, VerifyAttempt, VerifyDb, Settlement, AttemptContext,
}
use nexus_seventeen.Attempts.Checks.{CheckOutcome}
use nexus_seventeen.Attempts.Writes.{
  StartingResult, SettleInTransaction, create_starting_attempt, record_running, start_error,
  finalize, retire_open_attempts, clear_resources,
}

-- The states that `#finalize` is given.
pub data IsFinal : AttemptState → Type 0 where
  is_green : IsFinal green
  is_failed : IsFinal failed
  is_died : IsFinal died

-- `randomUUID` draws an identifier that no row has.
pub record IsFresh (verify_attempt_id : Text) (db : VerifyDb) : Type 0 where
  pub unused :
      (a : VerifyAttempt) → Memᴰ a db.verify_attempts → a.verify_attempt_id ≡ verify_attempt_id → ⊥
  pub unsettled :
      (s : Settlement) → Memᴰ s db.settlements → s.verify_attempt_id ≡ verify_attempt_id → ⊥

pub data Step (redact : Text → Text) (settle : SettleInTransaction)
    : VerifyDb → VerifyDb → Type 0 where
  create :
      {db db' : VerifyDb} (node_id : Text) (stage : WorkItemStage) (verify_attempt_id now : Text)
      (r : StartingResult)
      → IsFresh verify_attempt_id db
      → create_starting_attempt db node_id stage verify_attempt_id now ≡ ok (db', r)
      → Step redact settle db db'
  run :
      {db db' : VerifyDb} (id verify_run_id path : Text)
      → (record_running id verify_run_id path db).0 ≡ db'
      → Step redact settle db db'
  fail :
      {db db' : VerifyDb} (id : Text) (path : Option Text) (error now : Text)
      → start_error redact settle id path error now db ≡ ok db'
      → Step redact settle db db'
  finish :
      {db db' : VerifyDb} (current : AttemptContext) (state : AttemptState) (checks : CheckOutcome)
      (detail : Text) (passed : Bool) (stored now : Text)
      → IsFinal state
      → finalize redact settle current state checks detail passed stored now db ≡ ok db'
      → Step redact settle db db'
  retire :
      {db db' : VerifyDb} (work_item_id reason now : Text)
      → (retire_open_attempts redact settle work_item_id reason now db).0 ≡ db'
      → Step redact settle db db'
  clear :
      {db db' : VerifyDb} (id : Text) (terminated removed : Bool)
      → clear_resources id terminated removed db ≡ db'
      → Step redact settle db db'

pub data Reach (redact : Text → Text) (settle : SettleInTransaction) (db : VerifyDb)
    : VerifyDb → Type 0 where
  here : Reach redact settle db db
  next :
      {db' db'' : VerifyDb}
      → Reach redact settle db db'
      → Step redact settle db' db''
      → Reach redact settle db db''
