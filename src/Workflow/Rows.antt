-- ===== src/Workflow/Rows.antt =====
-- src/server/task-board/persistence/workflow.ts: the rows of the workflow, and the statements on its nodes.
use nexus_seventeen.Prelude.{
  ℕ, suc, Bool, List, [], ◌∷◌, ◌++◌, Option, none, some, Text, lit, find, update_where, Result, ok,
  err, ◌==◌, eq_text,
}
use nexus_seventeen.Contract.{WorkItemState, WorkItemStage, ReviewFindingCategory}
use nexus_seventeen.Board.{WorkItem, Store, BoardError}
use nexus_seventeen.Attempts.Rows.{WorkNodeState, ready, blocked, CriterionResult, VerifyAttempt}

-- A row of `work_nodes`.
pub record FlowNode : Type 0 where
  pub node_id : Text
  pub project_id : Text
  pub plan_revision_id : Text
  pub title : Text
  pub objective : Text
  pub acceptance_criteria : List Text
  pub stage_template : List WorkItemStage
  pub current_stage : Option WorkItemStage
  pub state : WorkNodeState
  pub version : ℕ
  pub updated_at : Text

-- A row of `work_node_dependencies`.
pub record NodeDependency : Type 0 where
  pub node_id : Text
  pub dependency_node_id : Text

-- A row of `stage_attempts`.
pub record NodeAttempt : Type 0 where
  pub attempt_id : Text
  pub node_id : Text
  pub task_id : Text
  pub stage : WorkItemStage
  pub attempt : ℕ

-- A row of `plan_revisions`.
pub record FlowPlan : Type 0 where
  pub plan_revision_id : Text
  pub work_item_id : Text
  pub objective : Text

-- The column of `work_items` that the rows of the board leave out.
pub record ItemBranch : Type 0 where
  pub work_item_id : Text
  pub pipeline_branch : Option Text

pub data HandoffOutcome : Type 0 where
  passed failed needs_input : HandoffOutcome

pub record StageHandoff : Type 0 where
  pub handoff_id : Text
  pub node_id : Text
  pub task_id : Text
  pub stage : WorkItemStage
  pub outcome : HandoffOutcome
  pub summary : Text
  pub evidence : List Text
  pub artifact_ids : List Text
  pub acceptance_criteria : List CriterionResult
  pub blockers : List Text
  pub recommended_return_stage : Option WorkItemStage
  pub created_at : Text

-- A row of `review_findings`.
pub record FindingRow : Type 0 where
  pub finding_id : Text
  pub node_id : Text
  pub stage : WorkItemStage
  pub round : ℕ
  pub file : Option Text
  pub line : Option ℕ
  pub category : ReviewFindingCategory
  pub severity : Text
  pub expected : Text
  pub actual : Text
  pub blocking : Bool
  pub created_at : Text

pub record ProjectArtifact : Type 0 where
  pub artifact_id : Text
  pub project_id : Text

pub record ProjectEvent : Type 0 where
  pub event_id : Text
  pub project_id : Text
  pub node_id : Option Text
  pub task_id : Option Text
  pub event_type : Text
  pub summary : Text
  pub created_at : Text

pub record QuestionRow : Type 0 where
  pub task_id : Text
  pub is_open : Bool

pub record PlanningTask : Type 0 where
  pub work_item_id : Text
  pub task_id : Text

-- The columns of `tasks` and `task_events` that a settlement writes.
pub record TaskRow : Type 0 where
  pub task_id : Text
  pub project_id : Text
  pub title : Text
  pub objective : Text
  pub acceptance_criteria : Text
  pub is_completed : Bool
  pub order_key : ℕ
  pub started_at : Text
  pub ended_at : Text
  pub result : Text
  pub version : ℕ

pub record TaskEvent : Type 0 where
  pub event_id : Text
  pub project_id : Text
  pub task_id : Text
  pub is_completed : Bool
  pub created_at : Text

pub record FlowDb : Type 0 where
  pub board : Store
  pub branches : List ItemBranch
  pub work_nodes : List FlowNode
  pub dependencies : List NodeDependency
  pub stage_attempts : List NodeAttempt
  pub plan_revisions : List FlowPlan
  pub stage_handoffs : List StageHandoff
  pub review_findings : List FindingRow
  pub artifacts : List ProjectArtifact
  pub questions : List QuestionRow
  pub planning_tasks : List PlanningTask
  pub project_events : List ProjectEvent
  pub verify_attempts : List VerifyAttempt
  pub tasks : List TaskRow
  pub task_events : List TaskEvent

pub data WorkflowError : Type 0 where
  board_error : BoardError → WorkflowError
  handoff_outcome_mismatch handoff_artifact_invalid review_findings_not_allowed
        review_outcome_mismatch review_findings_required plan_work_item_missing
        workflow_node_missing node_activation_conflict suspend_conflict work_item_missing
        final_approval_node_not_completed interface_publication_node_not_completed
        machine_verify_activation_conflict work_node_version_conflict :
      WorkflowError

abbrev pub from_board {ℓ} : {A : Type ℓ} → Result BoardError A → Result WorkflowError A
from_board (ok a) = ok a
from_board (err e) = err (board_error e)

-- The join of an attempt with its node, its plan and its work item.
pub record SettledAttempt : Type 0 where
  pub attempt : NodeAttempt
  pub node : FlowNode
  pub work_item_id : Text
  pub work_item_state : WorkItemState
  pub pipeline_branch : Option Text

unfoldable pub plan_row : FlowDb → Text → Option FlowPlan
unfolding find
plan_row db plan_revision_id = find (λ p. p.plan_revision_id == plan_revision_id) db.plan_revisions

unfoldable pub item_row : FlowDb → Text → Option WorkItem
unfolding find
item_row db work_item_id = find (λ w. w.work_item_id == work_item_id) db.board.work_items

abbrev branch_or_none : Option ItemBranch → Option Text
branch_or_none none = none
branch_or_none (some b) = b.pipeline_branch

unfoldable pub branch_of : FlowDb → Text → Option Text
unfolding find
branch_of db work_item_id = branch_or_none (find (λ b. b.work_item_id == work_item_id) db.branches)

abbrev pub with_item_row : FlowDb → NodeAttempt → FlowNode → Option WorkItem → Option SettledAttempt
with_item_row db attempt node none = none
with_item_row db attempt node (some item) = some (record {
  attempt = attempt;
  node = node;
  work_item_id = item.work_item_id;
  work_item_state = item.state;
  pipeline_branch = branch_of db item.work_item_id;
})

abbrev pub with_plan_row : FlowDb → NodeAttempt → FlowNode → Option FlowPlan → Option SettledAttempt
with_plan_row db attempt node none = none
with_plan_row db attempt node (some plan) =
    with_item_row db attempt node (item_row db plan.work_item_id)

abbrev pub with_node_row : FlowDb → NodeAttempt → Option FlowNode → Option SettledAttempt
with_node_row db attempt none = none
with_node_row db attempt (some node) =
    with_plan_row db attempt node (plan_row db node.plan_revision_id)

abbrev pub with_attempt_row : FlowDb → Option NodeAttempt → Option SettledAttempt
with_attempt_row db none = none
with_attempt_row db (some attempt) =
    with_node_row db attempt (find (λ n. n.node_id == attempt.node_id) db.work_nodes)

unfoldable pub attempt_of_task : FlowDb → Text → Option SettledAttempt
unfolding find plan_row item_row branch_of
attempt_of_task db task_id =
    with_attempt_row db (find (λ a. a.task_id == task_id) db.stage_attempts)

-- `UPDATE work_nodes SET … WHERE node_id=?`, which advances the version.
abbrev pub is_node : Text → FlowNode → Bool
is_node node_id n = n.node_id == node_id

abbrev pub moved_node : WorkNodeState → Option WorkItemStage → Text → FlowNode → FlowNode
moved_node state stage now n = record n {
  state = state;
  current_stage = stage;
  version = suc n.version;
  updated_at = now;
}

abbrev pub blocked_node : Text → FlowNode → FlowNode
blocked_node now n = moved_node blocked n.current_stage now n

abbrev pub first_stage : List WorkItemStage → Option WorkItemStage
first_stage [] = none
first_stage (stage ∷ template) = some stage

-- `current_stage=json_extract(stage_template_json,'$[0]')`
abbrev pub started_node : Text → FlowNode → FlowNode
started_node now n = moved_node ready (first_stage n.stage_template) now n

unfoldable pub update_node : Text → (FlowNode → FlowNode) → FlowDb → FlowDb
unfolding update_where
update_node node_id f db = record db { work_nodes = update_where (is_node node_id) f db.work_nodes }

module _ (random_uuid : ℕ → Text) where
  -- `event`, without the delivery of its queue.
  unfoldable pub insert_event :
      Text → Option Text → Option Text → Text → Text → Text → FlowDb → FlowDb
  unfolding lit
  insert_event project_id node_id task_id event_type summary now db = record db {
    board = record db.board { drawn = suc db.board.drawn };
    project_events =
        db.project_events
        ++ record {
          event_id = lit "event_" ++ random_uuid db.board.drawn;
          project_id = project_id;
          node_id = node_id;
          task_id = task_id;
          event_type = event_type;
          summary = summary;
          created_at = now;
        }
          ∷ [];
  }
