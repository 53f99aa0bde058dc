-- ===== src/Workflow/Machine.antt =====
-- src/server/task-board/persistence/workflow.ts: `settleMachineVerifyAttemptInTransaction`, which settles a stage
-- that no agent ran. Its task is the anchor of the handoff. What it shares with the settlement of an attempt is
-- taken from there.
use nexus_seventeen.Prelude.{
  ℕ, suc, Bool, true, false, not, ◌&&◌, ◌||◌, List, [], ◌∷◌, ◌++◌, Option, none, some, Text, lit,
  any, find, contains, take, tally, leb, ltb, if◌then◌else◌, Result, ok, err, ◌>>=◌, ◌==◌, eq_text,
  option_eq,
}
use nexus_seventeen.Contract.{
  WorkItemState, merged, final_approval, eq_state, is_terminal_work_item_state, WorkItemStage,
  implementation, eq_stage, system,
}
use nexus_seventeen.Board.{WorkItem}
use nexus_seventeen.Transition.{Request, ParentTerminationCascade}
use nexus_seventeen.Attempts.Rows.{
  AttemptState, VerifyAttempt, WorkNodeState, ready, MachineVerifyEvidence,
}
use nexus_seventeen.Attempts.Failures.{decimal}
use nexus_seventeen.Attempts.Poll.{join}
use nexus_seventeen.Workflow.Rows.{
  FlowDb, FlowNode, FlowPlan, NodeAttempt, SettledAttempt, StageHandoff, passed, failed, TaskRow,
  WorkflowError, work_item_missing, with_node_row, plan_row, item_row, branch_of, moved_node,
  blocked_node, is_node, update_node, insert_event,
}
use nexus_seventeen.Workflow.Stages.{transition, set_work_item_stage}
use nexus_seventeen.Workflow.Handoffs.{
  AttemptSettlement, run_completed, run_failed, is_pipeline, is_given,
}
use nexus_seventeen.Workflow.Settle.{
  stage_name, next_stage, newly_ready, start_nodes, advance_to, with_completed, attempt_event,
  node_to, is_unfinished,
}

abbrev pub is_attempt_at : Text → WorkItemStage → VerifyAttempt → Bool
is_attempt_at node_id stage v = v.node_id == node_id && v.stage == stage

-- `ORDER BY verify.attempt DESC LIMIT 1`; the number is unique within a stage of a node.
abbrev pub newer_attempt : Option VerifyAttempt → VerifyAttempt → Option VerifyAttempt
newer_attempt none v = some v
newer_attempt (some best) v = if ltb best.attempt v.attempt then some v else some best

unfoldable pub latest_attempt :
    Text → WorkItemStage → Option VerifyAttempt → List VerifyAttempt → Option VerifyAttempt
latest_attempt node_id stage best [] = best
latest_attempt node_id stage best (v ∷ rows) =
    latest_attempt node_id stage
      (if is_attempt_at node_id stage v then newer_attempt best v else best) rows

abbrev pub has_failed_state : AttemptState → Bool
has_failed_state state = elim state [
  | AttemptState.failed ↦ true
  | AttemptState.died ↦ true
  | AttemptState.starting ↦ false
  | AttemptState.running ↦ false
  | AttemptState.green ↦ false
  | AttemptState.failed_to_start ↦ false
  | AttemptState.retired ↦ false
]

abbrev pub is_active_state : WorkNodeState → Bool
is_active_state state = elim state [
  | WorkNodeState.active ↦ true
  | WorkNodeState.pending ↦ false
  | WorkNodeState.ready ↦ false
  | WorkNodeState.blocked ↦ false
  | WorkNodeState.stale ↦ false
  | WorkNodeState.completed ↦ false
  | WorkNodeState.cancelled ↦ false
]

unfoldable pub failed_attempt_count : FlowDb → Text → WorkItemStage → ℕ
unfolding tally
failed_attempt_count db node_id stage =
    tally (λ v. is_attempt_at node_id stage v && has_failed_state v.state) db.verify_attempts

-- The attempt as the settlement of an attempt sees it, with the task of the handoff.
abbrev pub anchored : VerifyAttempt → NodeAttempt
anchored v = record {
  attempt_id = v.verify_attempt_id;
  node_id = v.node_id;
  task_id = lit "task_" ++ v.verify_attempt_id;
  stage = v.stage;
  attempt = v.attempt;
}

abbrev pub join_row : FlowDb → VerifyAttempt → Option SettledAttempt
join_row db v = with_node_row db (anchored v) (find (is_node v.node_id) db.work_nodes)

abbrev pub of_latest : FlowDb → Option VerifyAttempt → Option SettledAttempt
of_latest db none = none
of_latest db (some v) = join_row db v

unfoldable pub verified_attempt : FlowDb → Text → WorkItemStage → Option SettledAttempt
unfolding find latest_attempt plan_row item_row branch_of lit
verified_attempt db node_id stage =
    of_latest db (latest_attempt node_id stage none db.verify_attempts)

abbrev pub max_order_key : ℕ → List TaskRow → ℕ
max_order_key n [] = n
max_order_key n (t ∷ tasks) = max_order_key (if leb n t.order_key then suc t.order_key else n) tasks

-- `outcome` and the time, for what is shared.
abbrev pub outcome_of : Bool → MachineVerifyEvidence → Text → AttemptSettlement
outcome_of is_passed e now = record {
  outcome = if is_passed then run_completed else run_failed;
  result = e.summary;
  draft = none;
  review_findings = none;
  scope_check = none;
  now = now;
}

module _ (random_uuid : ℕ → Text) (redact : Text → Text)
    (registered : Option ParentTerminationCascade) (a : SettledAttempt) (is_passed : Bool)
    (e : MachineVerifyEvidence) (now : Text) where
  abbrev pub machine_settlement : AttemptSettlement
  machine_settlement = outcome_of is_passed e now

  abbrev pub anchor_task : FlowDb → TaskRow
  anchor_task db = record {
    task_id = a.attempt.task_id;
    project_id = a.node.project_id;
    title = take 240 (lit "Machine verify: " ++ a.node.title);
    objective = a.node.objective;
    acceptance_criteria = join (10 ∷ []) a.node.acceptance_criteria;
    is_completed = is_passed;
    order_key = max_order_key 0 db.tasks;
    started_at = now;
    ended_at = now;
    result = e.summary;
    version = 1;
  }

  abbrev pub machine_handoff : StageHandoff
  machine_handoff = record {
    handoff_id = lit "handoff_" ++ a.attempt.attempt_id;
    node_id = a.attempt.node_id;
    task_id = a.attempt.task_id;
    stage = a.attempt.stage;
    outcome = if is_passed then passed else failed;
    summary = e.summary;
    evidence = e.evidence;
    artifact_ids = [];
    acceptance_criteria = e.acceptance_criteria;
    blockers = e.blockers;
    recommended_return_stage = if is_passed then none else some implementation;
    created_at = now;
  }

  -- The rows of the task, of its event and of the handoff.
  unfoldable pub insert_anchor : FlowDb → FlowDb
  unfolding lit
  insert_anchor db = record db {
    board = record db.board { drawn = suc db.board.drawn };
    tasks = db.tasks ++ anchor_task db ∷ [];
    task_events =
        db.task_events
        ++ record {
          event_id = random_uuid db.board.drawn;
          project_id = a.node.project_id;
          task_id = a.attempt.task_id;
          is_completed = is_passed;
          created_at = now;
        }
          ∷ [];
    stage_handoffs = db.stage_handoffs ++ machine_handoff ∷ [];
  }

  abbrev pub machine_event : Text → Text → FlowDb → FlowDb
  machine_event event_type summary db =
      attempt_event random_uuid redact registered a machine_settlement event_type summary db

  abbrev pub move_node : (FlowNode → FlowNode) → FlowDb → FlowDb
  move_node f db = node_to random_uuid redact registered a machine_settlement f db

  unfoldable pub machine_retry : ℕ → FlowDb → Result WorkflowError (FlowDb × List Text)
  unfolding update_node insert_event set_work_item_stage lit stage_name decimal
  machine_retry failures db = do
    staged ←
        set_work_item_stage random_uuid redact registered
          (move_node (moved_node ready (some implementation) now) db) a.node.plan_revision_id
          a.attempt.node_id implementation now
    ok (
      machine_event (lit "stage_retry_ready")
          (stage_name a.attempt.stage
            ++ lit " failed; returning to implementation (attempt "
            ++ decimal (suc failures)
            ++ lit " of 3)")
          staged,
      a.attempt.node_id ∷ [],
    )

  abbrev pub machine_dead_letter : Request
  machine_dead_letter = record {
    work_item_id = a.work_item_id;
    to = WorkItemState.dead_letter;
    actor_type = system;
    actor_id = lit "system:machine-verify";
    now = now;
    ended_at = some now;
    cancelled_reason = none;
    current_stage = some none;
    park = none;
    touch = false;
  }

  unfoldable pub machine_fail : ℕ → FlowDb → Result WorkflowError (FlowDb × List Text)
  unfolding update_node insert_event is_terminal_work_item_state lit stage_name
  machine_fail failures db = do
    let halted = move_node (blocked_node now) db
    let given_up = transition random_uuid redact registered halted machine_dead_letter
    ended ←
        if leb 3 failures && not (is_terminal_work_item_state a.work_item_state)
        then given_up
        else ok halted
    ok (
      machine_event (lit "stage_failed")
          (stage_name a.attempt.stage ++ lit " failed: " ++ take 240 e.summary) ended,
      [],
    )

  abbrev pub machine_finished : WorkItem → Request
  machine_finished item = record {
    work_item_id = item.work_item_id;
    to = if is_pipeline a then final_approval else merged;
    actor_type = system;
    actor_id = lit "system:machine-verify";
    now = now;
    ended_at = if is_pipeline a then none else some now;
    cancelled_reason = none;
    current_stage = if is_given item.current_stage then some none else none;
    park = none;
    touch = false;
  }

  abbrev pub objective_of : Option FlowPlan → Text
  objective_of none = []
  objective_of (some plan) = plan.objective

  abbrev pub machine_finish_item : FlowDb → Option WorkItem → Result WorkflowError FlowDb
  machine_finish_item db none = err work_item_missing
  machine_finish_item db (some item) =
      let moved = transition random_uuid redact registered db (machine_finished item) in
      (if is_terminal_work_item_state item.state then ok db else moved) >>= λ finished. ok (
        insert_event random_uuid a.node.project_id none (some a.attempt.task_id)
          (lit "workflow_completed")
          (lit "Completed: " ++ take 240 (objective_of (plan_row db a.node.plan_revision_id))) now
          finished)

  unfoldable pub machine_finish : FlowDb → Result WorkflowError FlowDb
  unfolding any item_row plan_row is_terminal_work_item_state insert_event lit
  machine_finish db =
      let finished = machine_finish_item db (item_row db a.work_item_id) in
      if is_unfinished random_uuid redact registered a machine_settlement db
      then ok db
      else finished

  unfoldable pub machine_complete : List Text → FlowDb → Result WorkflowError (FlowDb × List Text)
  unfolding start_nodes machine_finish
  machine_complete ids db = do
    finished ←
        machine_finish (start_nodes random_uuid redact registered a machine_settlement ids db)
    ok (finished, ids)

  abbrev pub machine_done : FlowDb → FlowDb
  machine_done db = with_completed random_uuid redact registered a machine_settlement db

  abbrev pub machine_passed :
      Option WorkItemStage → FlowDb → Result WorkflowError (FlowDb × List Text)
  machine_passed none db =
      machine_complete (newly_ready (machine_done db) a.attempt.node_id) (machine_done db)
  machine_passed (some next) db =
      advance_to random_uuid redact registered a machine_settlement next db

  unfoldable pub machine_move : ℕ → FlowDb → Result WorkflowError (FlowDb × List Text)
  unfolding contains next_stage newly_ready machine_complete advance_to machine_retry machine_fail
      update_node insert_event lit
  machine_move failures db =
      if is_passed
      then machine_passed (next_stage a.node.stage_template a.attempt.stage) db
      else if contains implementation a.node.stage_template && ltb failures 3
      then machine_retry failures db
      else machine_fail failures db

  abbrev pub is_settled_before : FlowDb → Bool
  is_settled_before db =
      any (λ (h : StageHandoff). h.handoff_id == lit "handoff_" ++ a.attempt.attempt_id)
        db.stage_handoffs

  abbrev pub is_current : Bool
  is_current = option_eq a.node.current_stage (some a.attempt.stage) && is_active_state a.node.state

  unfoldable pub settle_verified : FlowDb → Result WorkflowError (FlowDb × List Text)
  unfolding any lit insert_anchor machine_move failed_attempt_count
  settle_verified db =
      let settled =
        machine_move (failed_attempt_count db a.attempt.node_id a.attempt.stage)
          (insert_anchor db) in
      if not is_current || is_settled_before db then ok (db, []) else settled

module _ (random_uuid : ℕ → Text) (redact : Text → Text)
    (registered : Option ParentTerminationCascade) where
  abbrev pub settle_verified_optional :
      Bool
      → MachineVerifyEvidence
      → Text
      → FlowDb
      → Option SettledAttempt
      → Result WorkflowError (FlowDb × List Text)
  settle_verified_optional is_passed e now db none = ok (db, [])
  settle_verified_optional is_passed e now db (some a) =
      settle_verified random_uuid redact registered a is_passed e now db

  -- `settleMachineVerifyAttemptInTransaction`
  unfoldable pub settle_machine_verify :
      FlowDb
      → Text
      → WorkItemStage
      → Bool
      → MachineVerifyEvidence
      → Text
      → Result WorkflowError (FlowDb × List Text)
  unfolding verified_attempt settle_verified
  settle_machine_verify db node_id stage is_passed e now =
      settle_verified_optional is_passed e now db (verified_attempt db node_id stage)
