-- ===== src/Attempts/Rows.antt =====
-- src/server/task-board/collaborators/verify-attempts.ts: the rows that machine verification reads and
-- writes, its context query, and what it tells the workflow.
use nexus_seventeen.Prelude.{
  ℕ, Bool, true, false, ◌&&◌, ◌||◌, List, Option, none, some, Text, any, find, ◌==◌, eq_text,
}
use nexus_seventeen.Contract.{WorkItemStage, eq_stage}

pub data AttemptState : Type 0 where
  starting running green failed died failed_to_start retired : AttemptState

pub data WorkNodeState : Type 0 where
  pending ready active blocked stale completed cancelled : WorkNodeState

pub record CheckResult : Type 0 where
  pub criterion : Text
  pub check : Text
  pub passed : Bool

-- A row of `verify_attempts`.
pub record VerifyAttempt : Type 0 where
  pub verify_attempt_id : Text
  pub node_id : Text
  pub stage : WorkItemStage
  pub attempt : ℕ
  pub verify_run_id : Option Text
  pub workspace_path : Option Text
  pub state : AttemptState
  pub check_results : Option (List CheckResult)
  pub detail : Option Text
  pub created_at : Text
  pub ended_at : Option Text

-- A row of `stage_attempts`.
pub record StageAttemptRow : Type 0 where
  pub node_id : Text
  pub stage : WorkItemStage
  pub attempt : ℕ

-- A row of `work_nodes`.
pub record WorkNode : Type 0 where
  pub node_id : Text
  pub project_id : Text
  pub plan_revision_id : Text
  pub current_stage : WorkItemStage
  pub state : WorkNodeState
  pub version : ℕ
  pub updated_at : Text

pub record PlanCriterionCheck : Type 0 where
  pub criterion : Text
  pub check : Text

-- A row of `plan_revisions`.
pub record PlanRow : Type 0 where
  pub plan_revision_id : Text
  pub work_item_id : Text
  pub criterion_checks : List PlanCriterionCheck

-- The columns of `work_items` that machine verification reads.
pub record VerifiedItem : Type 0 where
  pub work_item_id : Text
  pub pipeline_branch : Option Text
  pub base_sha : Option Text

pub record CriterionResult : Type 0 where
  pub criterion : Text
  pub passed : Bool
  pub evidence : Text

pub record MachineVerifyEvidence : Type 0 where
  pub summary : Text
  pub evidence : List Text
  pub acceptance_criteria : List CriterionResult
  pub blockers : List Text

-- A call of `settleInTransaction`. The attempt is not an argument of the call; it is noted for what is
-- said of the calls.
pub record Settlement : Type 0 where
  pub verify_attempt_id : Text
  pub node_id : Text
  pub stage : WorkItemStage
  pub passed : Bool
  pub evidence : MachineVerifyEvidence

-- The database, with the calls of `settleInTransaction` in committed transactions.
pub record VerifyDb : Type 0 where
  pub verify_attempts : List VerifyAttempt
  pub stage_attempts : List StageAttemptRow
  pub work_nodes : List WorkNode
  pub plan_revisions : List PlanRow
  pub work_items : List VerifiedItem
  pub settlements : List Settlement

-- `state IN ('starting','failed_to_start')`
unfoldable pub is_startable : AttemptState → Bool
is_startable starting = true
is_startable failed_to_start = true
is_startable _ = false

unfoldable pub is_running : AttemptState → Bool
is_running running = true
is_running _ = false

unfoldable pub is_retired : AttemptState → Bool
is_retired retired = true
is_retired _ = false

-- `state IN ('starting','running','failed_to_start')`
unfoldable pub is_open : AttemptState → Bool
unfolding is_startable is_running
is_open state = is_startable state || is_running state

-- `state IN ('ready','blocked')`
unfoldable pub is_activatable : WorkNodeState → Bool
is_activatable ready = true
is_activatable blocked = true
is_activatable _ = false

pub record AttemptContext : Type 0 where
  pub attempt : VerifyAttempt
  pub work_item_id : Text
  pub project_id : Text
  pub base_sha : Option Text
  pub criterion_checks : List PlanCriterionCheck

unfoldable pub node_of : VerifyDb → Text → Option WorkNode
unfolding find
node_of db node_id = find (λ n. n.node_id == node_id) db.work_nodes

unfoldable pub plan_of : VerifyDb → Text → Option PlanRow
unfolding find
plan_of db plan_revision_id = find (λ p. p.plan_revision_id == plan_revision_id) db.plan_revisions

unfoldable pub item_of : VerifyDb → Text → Option VerifiedItem
unfolding find
item_of db work_item_id = find (λ i. i.work_item_id == work_item_id) db.work_items

abbrev pub with_item :
    VerifyAttempt → WorkNode → PlanRow → Option VerifiedItem → Option AttemptContext
with_item attempt node plan none = none
with_item attempt node plan (some item) = some (record {
  attempt = attempt;
  work_item_id = plan.work_item_id;
  project_id = node.project_id;
  base_sha = item.base_sha;
  criterion_checks = plan.criterion_checks;
})

abbrev pub with_plan : VerifyDb → VerifyAttempt → WorkNode → Option PlanRow → Option AttemptContext
with_plan db attempt node none = none
with_plan db attempt node (some plan) = with_item attempt node plan (item_of db plan.work_item_id)

abbrev pub with_node : VerifyDb → VerifyAttempt → Option WorkNode → Option AttemptContext
with_node db attempt none = none
with_node db attempt (some node) = with_plan db attempt node (plan_of db node.plan_revision_id)

abbrev pub with_attempt : VerifyDb → Option VerifyAttempt → Option AttemptContext
with_attempt db none = none
with_attempt db (some attempt) = with_node db attempt (node_of db attempt.node_id)

-- `#context`
unfoldable pub context : VerifyDb → Text → Option AttemptContext
unfolding find node_of plan_of item_of
context db verify_attempt_id =
    with_attempt db (find (λ a. a.verify_attempt_id == verify_attempt_id) db.verify_attempts)

-- The nodes of the plans of a work item, as the join on `plan_revisions` gives them.
unfoldable pub node_is_of : VerifyDb → Text → Text → Bool
unfolding any
node_is_of db work_item_id node_id =
    any
      (λ n.
        n.node_id == node_id
        && any (λ p. p.plan_revision_id == n.plan_revision_id && p.work_item_id == work_item_id)
            db.plan_revisions)
      db.work_nodes
