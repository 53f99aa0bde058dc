-- ===== src/Workflow/Stages.antt =====
-- src/server/task-board/persistence/workflow.ts: `setWorkItemStage`, which moves the work item along with its node.
use nexus_seventeen.Prelude.{
  ℕ, Bool, not, ◌&&◌, List, map, Option, none, some, Text, lit, any, find, option_eq, if◌then◌else◌,
  Result, ok, err, ◌>>=◌, ◌==◌, eq_text,
}
use nexus_seventeen.Contract.{
  WorkItemState, planning, plan_approval, parked, eq_state, WorkItemStage, eq_stage, system,
  open_question, is_terminal_work_item_state,
}
use nexus_seventeen.Board.{WorkItem}
use nexus_seventeen.Transition.{Request, ParentTerminationCascade, transition_work_item}
use nexus_seventeen.Execution.{ReviewFinding, StageAttempt, work_item_state_for_node_stage}
use nexus_seventeen.Workflow.Rows.{
  FlowDb, FlowNode, FlowPlan, FindingRow, NodeAttempt, PlanningTask, WorkflowError,
  plan_work_item_missing, from_board, plan_row, item_row,
}

abbrev pub read_findings : List FindingRow → List ReviewFinding
read_findings rows =
    map (λ (f : FindingRow). record { node_id = f.node_id; round = f.round; blocking = f.blocking })
      rows

abbrev pub read_attempts : List NodeAttempt → List StageAttempt
read_attempts rows =
    map (λ (a : NodeAttempt). record { node_id = a.node_id; attempt = a.attempt; stage = a.stage })
      rows

abbrev item_of_plan : Option FlowPlan → Option Text
item_of_plan none = none
item_of_plan (some plan) = some plan.work_item_id

abbrev item_of_node : FlowDb → Option FlowNode → Option Text
item_of_node db none = none
item_of_node db (some node) = item_of_plan (plan_row db node.plan_revision_id)

abbrev item_of_attempt : FlowDb → Option NodeAttempt → Option Text
item_of_attempt db none = none
item_of_attempt db (some a) = item_of_node db (find (λ n. n.node_id == a.node_id) db.work_nodes)

-- `COALESCE(planning.work_item_id, question_plan.work_item_id)`
abbrev item_of_task : FlowDb → Text → Option PlanningTask → Option Text
item_of_task db task_id (some planning_task) = some planning_task.work_item_id
item_of_task db task_id none =
    item_of_attempt db (find (λ a. a.task_id == task_id) db.stage_attempts)

unfoldable pub has_open_question : FlowDb → Text → Bool
unfolding any find plan_row
has_open_question db work_item_id =
    any
      (λ q.
        q.is_open
        && option_eq
            (item_of_task db q.task_id (find (λ p. p.task_id == q.task_id) db.planning_tasks))
            (some work_item_id))
      db.questions

-- The request of the transition.
abbrev pub stage_request : WorkItem → Bool → WorkItemState → WorkItemStage → Text → Request
stage_request item questioned mapped stage now = record {
  work_item_id = item.work_item_id;
  to =
      if questioned
      then item.state
      else if item.state == plan_approval && mapped == planning
      then item.state
      else mapped;
  actor_type = system;
  actor_id = lit "system:workflow";
  now = now;
  ended_at = none;
  cancelled_reason = none;
  current_stage = some (some stage);
  park =
      if questioned
      then some (record {
        category = open_question;
        reason = lit "work item remains parked for open questions";
      })
      else none;
  touch = questioned && not (option_eq item.current_stage (some stage));
}

module _ (random_uuid : ℕ → Text) (redact : Text → Text)
    (registered : Option ParentTerminationCascade) where
  -- A transition of the work item on the database of the workflow.
  abbrev pub transition : FlowDb → Request → Result WorkflowError FlowDb
  transition db request =
      (from_board (transition_work_item random_uuid redact registered db.board request)
        >>= λ answer. ok (record db { board = answer.0 }))

  abbrev pub stage_of_item :
      FlowDb → Text → WorkItemStage → Text → Option WorkItem → Result WorkflowError FlowDb
  stage_of_item db node_id stage now none = err plan_work_item_missing
  stage_of_item db node_id stage now (some item) =
      let mapped =
        work_item_state_for_node_stage (read_findings db.review_findings)
          (read_attempts db.stage_attempts) db.board.work_item_transitions item.work_item_id
          (some node_id) (some stage) (some item.state) in
      let questioned = item.state == parked && has_open_question db item.work_item_id in
      let moved = transition db (stage_request item questioned mapped stage now) in
      if is_terminal_work_item_state item.state then ok db else moved

  abbrev pub stage_of_plan :
      FlowDb → Text → WorkItemStage → Text → Option FlowPlan → Result WorkflowError FlowDb
  stage_of_plan db node_id stage now none = err plan_work_item_missing
  stage_of_plan db node_id stage now (some plan) =
      stage_of_item db node_id stage now (item_row db plan.work_item_id)

  -- `setWorkItemStage`
  unfoldable pub set_work_item_stage :
      FlowDb → Text → Text → WorkItemStage → Text → Result WorkflowError FlowDb
  unfolding plan_row item_row transition_work_item work_item_state_for_node_stage has_open_question
      is_terminal_work_item_state lit
  set_work_item_stage db plan_revision_id node_id stage now =
      stage_of_plan db node_id stage now (plan_row db plan_revision_id)
