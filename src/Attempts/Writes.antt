-- ===== src/Attempts/Writes.antt =====
-- src/server/task-board/collaborators/verify-attempts.ts: the transactions that change an attempt. A
-- transaction that throws leaves the database as it was, and is an error here.
use nexus_seventeen.Prelude.{
  ℕ, suc, Bool, true, false, ◌&&◌, List, [], ◌∷◌, ◌++◌, Option, none, some, Text, lit, tally,
  update_where, if◌then◌else◌, Result, ok, err, ◌==◌, eq_text, eq_nat, ltb, nat_eq,
}
use nexus_seventeen.Contract.{WorkItemStage, eq_stage}
use nexus_seventeen.Redact.{redact_for_persistence}
use nexus_seventeen.Attempts.Rows.{
  AttemptState, starting, running, failed, failed_to_start, retired, active, VerifyAttempt,
  StageAttemptRow, WorkNode, PlanRow, VerifiedItem, MachineVerifyEvidence, Settlement, VerifyDb,
  AttemptContext, is_startable, is_running, is_retired, is_open, is_activatable, node_of, plan_of,
  item_of, context, node_is_of,
}
use nexus_seventeen.Attempts.Failures.{failures_marker, start_failure_count}
use nexus_seventeen.Attempts.Checks.{CheckOutcome, clean_to, redacted_check_outcome, evidence}

pub data StartingResult : Type 0 where
  created : Text → StartingResult
  ineligible pipeline_required : StartingResult

pub data VerifyError : Type 0 where
  activation_conflict settlement_failed : VerifyError

-- `settleInTransaction`, which the workflow provides: it changes the nodes or throws.
abbrev pub SettleInTransaction : Type 0
SettleInTransaction =
    Text
    → WorkItemStage
    → Bool
    → MachineVerifyEvidence
    → List WorkNode
    → Result VerifyError (List WorkNode)

abbrev max : ℕ → ℕ → ℕ
max a b = if ltb a b then b else a

-- The highest attempt of a stage of a node in `verify_attempts`, at least `n`.
unfoldable pub max_verify_attempt : Text → WorkItemStage → ℕ → List VerifyAttempt → ℕ
max_verify_attempt node_id stage n [] = n
max_verify_attempt node_id stage n (a ∷ rows) =
    max_verify_attempt node_id stage
      (if a.node_id == node_id && a.stage == stage then max n a.attempt else n) rows

unfoldable pub max_stage_attempt : Text → WorkItemStage → ℕ → List StageAttemptRow → ℕ
max_stage_attempt node_id stage n [] = n
max_stage_attempt node_id stage n (a ∷ rows) =
    max_stage_attempt node_id stage
      (if a.node_id == node_id && a.stage == stage then max n a.attempt else n) rows

unfoldable pub next_attempt : VerifyDb → Text → WorkItemStage → ℕ
unfolding max_verify_attempt max_stage_attempt
next_attempt db node_id stage = suc (
    max_stage_attempt node_id stage (max_verify_attempt node_id stage 0 db.verify_attempts)
      db.stage_attempts)

abbrev pub new_attempt : VerifyDb → Text → Text → WorkItemStage → Text → VerifyAttempt
new_attempt db verify_attempt_id node_id stage now = record {
  verify_attempt_id = verify_attempt_id;
  node_id = node_id;
  stage = stage;
  attempt = next_attempt db node_id stage;
  verify_run_id = none;
  workspace_path = none;
  state = starting;
  check_results = none;
  detail = none;
  created_at = now;
  ended_at = none;
}

abbrev pub activates : Text → WorkItemStage → WorkNode → Bool
activates node_id stage n =
    n.node_id == node_id && n.current_stage == stage && is_activatable n.state

abbrev pub activated : Text → WorkNode → WorkNode
activated now n = record n { state = active; version = suc n.version; updated_at = now }

abbrev pub insert_attempt :
    VerifyDb → Text → Text → WorkItemStage → Text → Result VerifyError (VerifyDb × StartingResult)
insert_attempt db verify_attempt_id node_id stage now =
    if nat_eq (tally (activates node_id stage) db.work_nodes) 1
    then ok (
      record db {
        verify_attempts =
            db.verify_attempts ++ new_attempt db verify_attempt_id node_id stage now ∷ [];
        work_nodes = update_where (activates node_id stage) (activated now) db.work_nodes;
      },
      created verify_attempt_id,
    )
    else err activation_conflict

abbrev pub for_branch :
    VerifyDb
    → Text
    → Text
    → WorkItemStage
    → Text
    → Option Text
    → Result VerifyError (VerifyDb × StartingResult)
for_branch db verify_attempt_id node_id stage now none = ok (db, pipeline_required)
for_branch db verify_attempt_id node_id stage now (some branch) =
    insert_attempt db verify_attempt_id node_id stage now

abbrev pub for_item :
    VerifyDb
    → Text
    → WorkNode
    → WorkItemStage
    → Text
    → Option VerifiedItem
    → Result VerifyError (VerifyDb × StartingResult)
for_item db verify_attempt_id node stage now none = ok (db, ineligible)
for_item db verify_attempt_id node stage now (some item) =
    if node.current_stage == stage && is_activatable node.state
    then for_branch db verify_attempt_id node.node_id stage now item.pipeline_branch
    else ok (db, ineligible)

abbrev pub for_plan :
    VerifyDb
    → Text
    → WorkNode
    → WorkItemStage
    → Text
    → Option PlanRow
    → Result VerifyError (VerifyDb × StartingResult)
for_plan db verify_attempt_id node stage now none = ok (db, ineligible)
for_plan db verify_attempt_id node stage now (some plan) =
    for_item db verify_attempt_id node stage now (item_of db plan.work_item_id)

abbrev pub for_node :
    VerifyDb
    → Text
    → Option WorkNode
    → WorkItemStage
    → Text
    → Result VerifyError (VerifyDb × StartingResult)
for_node db verify_attempt_id none stage now = ok (db, ineligible)
for_node db verify_attempt_id (some node) stage now =
    for_plan db verify_attempt_id node stage now (plan_of db node.plan_revision_id)

-- `createStartingAttemptInTransaction`; the new identifier is an argument.
unfoldable pub create_starting_attempt :
    VerifyDb → Text → WorkItemStage → Text → Text → Result VerifyError (VerifyDb × StartingResult)
unfolding next_attempt tally update_where is_activatable item_of plan_of node_of
create_starting_attempt db node_id stage verify_attempt_id now =
    for_node db verify_attempt_id (node_of db node_id) stage now

-- The rows that `WHERE verify_attempt_id=? AND state IN (…)` selects.
abbrev pub selects : Text → (AttemptState → Bool) → VerifyAttempt → Bool
selects verify_attempt_id guard a = a.verify_attempt_id == verify_attempt_id && guard a.state

abbrev pub update_attempt :
    Text → (AttemptState → Bool) → (VerifyAttempt → VerifyAttempt) → VerifyDb → VerifyDb
update_attempt verify_attempt_id guard f db = record db {
  verify_attempts = update_where (selects verify_attempt_id guard) f db.verify_attempts;
}

-- The transaction of `#start` that records the spawned run, and whether it did.
unfoldable pub record_running : Text → Text → Text → VerifyDb → VerifyDb × Bool
unfolding update_where tally is_startable
record_running verify_attempt_id verify_run_id workspace_path db = (
  update_attempt verify_attempt_id is_startable
      (λ a. record a {
        state = running;
        verify_run_id = some verify_run_id;
        workspace_path = some workspace_path;
        detail = none;
      })
      db,
  nat_eq (tally (selects verify_attempt_id is_startable) db.verify_attempts) 1,
)

abbrev pub settled_by :
    Settlement → VerifyDb → Result VerifyError (List WorkNode) → Result VerifyError VerifyDb
settled_by s db (err e) = err e
settled_by s db (ok nodes) = ok (record db { work_nodes = nodes; settlements = s ∷ db.settlements })

module _ (redact_recognized_credentials : Text → Text) (settle : SettleInTransaction) where
  abbrev pub run_settlement : Settlement → VerifyDb → Result VerifyError VerifyDb
  run_settlement s db = settled_by s db (settle s.node_id s.stage s.passed s.evidence db.work_nodes)

  abbrev pub start_detail : ℕ → Text → Text
  start_detail failures safe_error =
      clean_to redact_recognized_credentials 4000 (failures_marker failures ++ 32 ∷ safe_error)

  abbrev pub start_settlement : AttemptContext → Text → Text → Settlement
  start_settlement current detail safe_error = record {
    verify_attempt_id = current.attempt.verify_attempt_id;
    node_id = current.attempt.node_id;
    stage = current.attempt.stage;
    passed = false;
    evidence = record {
      summary = lit "Machine verify failed to start after two attempts: " ++ safe_error;
      evidence = detail ∷ [];
      acceptance_criteria = [];
      blockers = safe_error ∷ [];
    };
  }

  -- The transaction of the handler of `#start`, on an attempt that may still start.
  unfoldable pub fail_start :
      AttemptContext → Option Text → Text → Text → VerifyDb → Result VerifyError VerifyDb
  unfolding update_where is_startable start_failure_count failures_marker redact_for_persistence lit
  fail_start current workspace_path safe_error now db =
      let failures = suc (start_failure_count current.attempt.detail) in
      let detail = start_detail failures safe_error in
      let id = current.attempt.verify_attempt_id in
      if ltb failures 2
      then ok (
          update_attempt id is_startable
            (λ a. record a {
              state = failed_to_start;
              workspace_path = workspace_path;
              detail = some detail;
            })
            db)
      else run_settlement (start_settlement current detail safe_error) (
          update_attempt id is_startable
            (λ a. record a {
              state = failed;
              workspace_path = workspace_path;
              detail = some detail;
              ended_at = some now;
            })
            db)

  abbrev pub on_start_error :
      Option AttemptContext → Option Text → Text → Text → VerifyDb → Result VerifyError VerifyDb
  on_start_error none workspace_path error now db = ok db
  on_start_error (some current) workspace_path error now db =
      if is_startable current.attempt.state
      then fail_start current workspace_path (clean_to redact_recognized_credentials 4000 error) now
          db
      else ok db

  -- The handler of `#start`, which reads the context again.
  unfoldable pub start_error :
      Text → Option Text → Text → Text → VerifyDb → Result VerifyError VerifyDb
  unfolding is_startable fail_start redact_for_persistence context
  start_error verify_attempt_id workspace_path error now db =
      on_start_error (context db verify_attempt_id) workspace_path error now db

  abbrev pub final_settlement : AttemptContext → CheckOutcome → Text → Bool → Settlement
  final_settlement current checks detail passed = record {
    verify_attempt_id = current.attempt.verify_attempt_id;
    node_id = current.attempt.node_id;
    stage = current.attempt.stage;
    passed = passed;
    evidence = evidence redact_recognized_credentials current.criterion_checks checks detail passed;
  }

  abbrev pub finalized : AttemptState → CheckOutcome → Text → Text → VerifyAttempt → VerifyAttempt
  finalized state checks stored_detail now a = record a {
    state = state;
    check_results = some (redacted_check_outcome redact_recognized_credentials checks).results;
    detail = some (clean_to redact_recognized_credentials 4000 stored_detail);
    ended_at = some now;
  }

  -- The transaction of `#finalize`.
  unfoldable pub finalize :
      AttemptContext
      → AttemptState
      → CheckOutcome
      → Text
      → Bool
      → Text
      → Text
      → VerifyDb
      → Result VerifyError VerifyDb
  unfolding tally update_where is_running evidence redacted_check_outcome redact_for_persistence
  finalize current state checks detail passed stored_detail now db =
      let id = current.attempt.verify_attempt_id in
      let db' = update_attempt id is_running (finalized state checks stored_detail now) db in
      if nat_eq (tally (selects id is_running) db.verify_attempts) 1
      then run_settlement (final_settlement current checks detail passed) db'
      else ok db'

  -- `retireOpenVerifyAttemptsForWorkItemInTransaction` with the number of attempts that it retires.
  unfoldable pub retire_open_attempts : Text → Text → Text → VerifyDb → VerifyDb × ℕ
  unfolding update_where tally is_open node_is_of redact_for_persistence lit
  retire_open_attempts work_item_id reason now db =
      let detail =
        clean_to redact_recognized_credentials 4000
          (lit "Retired after work item cancellation: " ++ reason) in
      (
        record db {
          verify_attempts =
              update_where (λ a. is_open a.state && node_is_of db work_item_id a.node_id)
                (λ a. record a { state = retired; detail = some detail; ended_at = some now })
                db.verify_attempts;
        },
        tally (λ a. is_open a.state && node_is_of db work_item_id a.node_id) db.verify_attempts,
      )

abbrev pub kept_unless : Bool → Option Text → Option Text
kept_unless true value = none
kept_unless false value = value

-- The statement of `#retireAttemptResources`.
unfoldable pub clear_resources : Text → Bool → Bool → VerifyDb → VerifyDb
unfolding update_where is_retired
clear_resources verify_attempt_id terminated workspace_removed db =
    update_attempt verify_attempt_id is_retired
      (λ a. record a {
        verify_run_id = kept_unless terminated a.verify_run_id;
        workspace_path = kept_unless workspace_removed a.workspace_path;
      })
      db
