-- ===== src/Workflow/Settle.antt =====
-- src/server/task-board/persistence/workflow.ts: `settleAttemptInternal`. The result lists the identifiers of the
-- nodes whose rows the source reads back for its caller.
use nexus_seventeen.Prelude.{
  ℕ, suc, Bool, true, false, not, ◌&&◌, List, [], ◌∷◌, ◌++◌, map, Option, none, some, Text, lit,
  any, keep, find, take, contains, starts_with, ltb, leb, if◌then◌else◌, Result, ok, err, ◌>>=◌,
  ◌>>◌, ◌==◌, eq_text,
}
use nexus_seventeen.Contract.{
  WorkItemState, parked, merged, final_approval, eq_state, is_terminal_work_item_state,
  WorkItemStage, refinement, project_resolution, research, planning, implementation, testing,
  verification, human_review, deployment, eq_stage, system, bright_line, scope_violation,
}
use nexus_seventeen.Board.{WorkItem}
use nexus_seventeen.Transition.{Request, ParentTerminationCascade}
use nexus_seventeen.Attempts.Rows.{
  WorkNodeState, pending, ready, active, blocked, stale, completed, cancelled,
}
use nexus_seventeen.Attempts.Failures.{decimal}
use nexus_seventeen.Workflow.Rows.{
  FlowDb, FlowNode, FlowPlan, SettledAttempt, WorkflowError, work_item_missing, plan_row, item_row,
  attempt_of_task, moved_node, blocked_node, started_node, first_stage, is_node, update_node,
  insert_event,
}
use nexus_seventeen.Workflow.Stages.{transition, set_work_item_stage}
use nexus_seventeen.Workflow.Handoffs.{
  AttemptSettlement, StageHandoffDraft, has_passed, is_given, is_pipeline, is_pipeline_review,
  is_failed_review, findings_of, check_settlement, scope_failure_detail, insert_findings,
  insert_handoff, bright_line_detail,
}

unfoldable pub stage_name : WorkItemStage → Text
unfolding lit
stage_name refinement = lit "refinement"
stage_name project_resolution = lit "project_resolution"
stage_name research = lit "research"
stage_name planning = lit "planning"
stage_name implementation = lit "implementation"
stage_name testing = lit "testing"
stage_name verification = lit "verification"
stage_name human_review = lit "human_review"
stage_name deployment = lit "deployment"

abbrev pub is_completed : WorkNodeState → Bool
is_completed state = elim state [
  | completed ↦ true
  | pending ↦ false
  | ready ↦ false
  | active ↦ false
  | blocked ↦ false
  | stale ↦ false
  | cancelled ↦ false
]

abbrev pub is_pending : WorkNodeState → Bool
is_pending state = elim state [
  | pending ↦ true
  | completed ↦ false
  | ready ↦ false
  | active ↦ false
  | blocked ↦ false
  | stale ↦ false
  | cancelled ↦ false
]

-- `template[template.indexOf(stage) + 1] ?? null`; a stage that is missing has the index -1.
unfoldable pub behind_stage : WorkItemStage → List WorkItemStage → Option (Option WorkItemStage)
behind_stage stage [] = none
behind_stage stage (s ∷ template) =
    let rest = behind_stage stage template in
    if s == stage then some (first_stage template) else rest

abbrev pub or_first : List WorkItemStage → Option (Option WorkItemStage) → Option WorkItemStage
or_first template none = first_stage template
or_first template (some next) = next

unfoldable pub next_stage : List WorkItemStage → WorkItemStage → Option WorkItemStage
unfolding behind_stage
next_stage template stage = or_first template (behind_stage stage template)

-- The nodes that wait for a completed node and for nothing else.
unfoldable pub waits_for : FlowDb → FlowNode → FlowNode → Bool
unfolding any
waits_for db n m =
    any (λ d. d.node_id == n.node_id && d.dependency_node_id == m.node_id) db.dependencies

unfoldable pub has_unfinished_dependency : FlowDb → FlowNode → Bool
unfolding any waits_for
has_unfinished_dependency db n =
    any (λ m. waits_for db n m && not (is_completed m.state)) db.work_nodes

abbrev pub is_unblocked_by : FlowDb → Text → FlowNode → Bool
is_unblocked_by db node_id n =
    is_pending n.state
    && any (λ d. d.node_id == n.node_id && d.dependency_node_id == node_id) db.dependencies
    && not (has_unfinished_dependency db n)

unfoldable pub newly_ready : FlowDb → Text → List Text
unfolding keep any has_unfinished_dependency
newly_ready db node_id =
    map (λ (n : FlowNode). n.node_id) (keep (is_unblocked_by db node_id) db.work_nodes)

abbrev pub max_attempts : SettledAttempt → ℕ
max_attempts a = if is_pipeline_review a then 4 else 3

-- `returnStage`
abbrev pub drafted_return : Option StageHandoffDraft → Option WorkItemStage
drafted_return none = none
drafted_return (some draft) = draft.recommended_return_stage

unfoldable pub return_stage : SettledAttempt → AttemptSettlement → Option WorkItemStage
return_stage a s =
    if is_failed_review a s
    then some implementation
    else if not (is_given s.draft) && is_pipeline_review a
    then some a.attempt.stage
    else drafted_return s.draft

module _ (random_uuid : ℕ → Text) (redact : Text → Text)
    (registered : Option ParentTerminationCascade) (a : SettledAttempt)
    (s : AttemptSettlement) where
  abbrev pub attempt_event : Text → Text → FlowDb → FlowDb
  attempt_event event_type summary db =
      insert_event random_uuid a.node.project_id (some a.attempt.node_id) (some a.attempt.task_id)
        event_type summary s.now db

  abbrev pub node_to : (FlowNode → FlowNode) → FlowDb → FlowDb
  node_to f db = update_node a.attempt.node_id f db

  abbrev pub park_request : Text → Request
  park_request detail = record {
    work_item_id = a.work_item_id;
    to = parked;
    actor_type = system;
    actor_id = lit "system:workflow";
    now = s.now;
    ended_at = none;
    cancelled_reason = none;
    current_stage = none;
    park = some (record {
      category = if starts_with detail (lit "BRIGHT_LINE:") then bright_line else scope_violation;
      reason = detail;
    });
    touch = false;
  }

  -- `parkAttempt`
  unfoldable pub park_attempt : Text → FlowDb → Result WorkflowError (FlowDb × List Text)
  unfolding update_node insert_event is_terminal_work_item_state lit starts_with stage_name
  park_attempt detail db = do
    let halted = node_to (blocked_node s.now) db
    let moved = transition random_uuid redact registered halted (park_request detail)
    parked_db ←
        if not (is_terminal_work_item_state a.work_item_state) && not (a.work_item_state == parked)
        then moved
        else ok halted
    ok (
      attempt_event (lit "stage_failed")
          (stage_name a.attempt.stage ++ lit " blocked: " ++ take 240 detail) parked_db,
      [],
    )

  abbrev pub dead_letter_request : Request
  dead_letter_request = record {
    work_item_id = a.work_item_id;
    to = WorkItemState.dead_letter;
    actor_type = system;
    actor_id = lit "system:workflow";
    now = s.now;
    ended_at = some s.now;
    cancelled_reason = none;
    current_stage = some none;
    park = none;
    touch = false;
  }

  -- The work item is read again before it is given up.
  abbrev pub give_up : FlowDb → Option WorkItem → Result WorkflowError FlowDb
  give_up db none = err work_item_missing
  give_up db (some item) =
      let moved = transition random_uuid redact registered db dead_letter_request in
      if is_terminal_work_item_state item.state then ok db else moved

  abbrev pub retry_summary : WorkItemStage → Text
  retry_summary stage =
      stage_name a.attempt.stage
      ++ lit " failed; returning to "
      ++ stage_name stage
      ++ lit " (attempt "
      ++ decimal (suc a.attempt.attempt)
      ++ lit " of "
      ++ decimal (max_attempts a)
      ++ lit ")"

  unfoldable pub retry_at : WorkItemStage → FlowDb → Result WorkflowError (FlowDb × List Text)
  unfolding update_node insert_event set_work_item_stage lit stage_name decimal
  retry_at stage db = do
    staged ←
        set_work_item_stage random_uuid redact registered
          (node_to (moved_node ready (some stage) s.now) db) a.node.plan_revision_id
          a.attempt.node_id stage s.now
    ok (
      attempt_event (lit "stage_retry_ready") (retry_summary stage) staged,
      a.attempt.node_id ∷ [],
    )

  unfoldable pub fail_node : FlowDb → Result WorkflowError (FlowDb × List Text)
  unfolding update_node insert_event is_terminal_work_item_state item_row lit stage_name
  fail_node db = do
    let halted = node_to (blocked_node s.now) db
    let given_up = give_up halted (item_row halted a.work_item_id)
    ended ← if leb (max_attempts a) a.attempt.attempt then given_up else ok halted
    ok (
      attempt_event (lit "stage_failed")
          (stage_name a.attempt.stage ++ lit " failed: " ++ take 240 s.result) ended,
      [],
    )

  -- A failed attempt, with the stage that it returns to.
  unfoldable pub settle_failed :
      Option WorkItemStage → FlowDb → Result WorkflowError (FlowDb × List Text)
  unfolding contains retry_at fail_node
  settle_failed none db = fail_node db
  settle_failed (some stage) db =
      if contains stage a.node.stage_template && ltb a.attempt.attempt (max_attempts a)
      then retry_at stage db
      else fail_node db

  unfoldable pub advance_to : WorkItemStage → FlowDb → Result WorkflowError (FlowDb × List Text)
  unfolding update_node insert_event set_work_item_stage lit stage_name
  advance_to next db = do
    staged ←
        set_work_item_stage random_uuid redact registered
          (node_to (moved_node ready (some next) s.now) db) a.node.plan_revision_id
          a.attempt.node_id next s.now
    ok (
      attempt_event (lit "stage_completed")
          (stage_name a.attempt.stage ++ lit " completed; " ++ stage_name next ++ lit " is ready")
          staged,
      a.attempt.node_id ∷ [],
    )

  unfoldable pub start_nodes : List Text → FlowDb → FlowDb
  unfolding update_node insert_event lit
  start_nodes [] db = db
  start_nodes (id ∷ ids) db = start_nodes ids (
      insert_event random_uuid a.node.project_id (some id) none (lit "dependency_unblocked")
        (lit "Dependencies completed") s.now (update_node id (started_node s.now) db))

  -- The work item follows the first node that became ready, if it has a stage.
  abbrev pub stage_of_node : Text → FlowDb → Option FlowNode → Result WorkflowError FlowDb
  stage_of_node id db none = ok db
  stage_of_node id db (some node) = elim node.current_stage [
    | none ↦ ok db
    | some stage ↦
        set_work_item_stage random_uuid redact registered db a.node.plan_revision_id id stage s.now
  ]

  unfoldable pub follow_first : List Text → FlowDb → Result WorkflowError FlowDb
  unfolding find set_work_item_stage
  follow_first [] db = ok db
  follow_first (id ∷ ids) db = stage_of_node id db (find (is_node id) db.work_nodes)

  abbrev pub finished_request : WorkItem → Request
  finished_request item = record {
    work_item_id = item.work_item_id;
    to = if is_pipeline a then final_approval else merged;
    actor_type = system;
    actor_id = lit "system:workflow";
    now = s.now;
    ended_at = if is_pipeline a then none else some s.now;
    cancelled_reason = none;
    current_stage = if is_given item.current_stage then some none else none;
    park = none;
    touch = false;
  }

  abbrev pub finish_item : FlowDb → FlowPlan → Option WorkItem → Result WorkflowError FlowDb
  finish_item db plan none = err work_item_missing
  finish_item db plan (some item) =
      let moved = transition random_uuid redact registered db (finished_request item) in
      (if is_terminal_work_item_state item.state then ok db else moved) >>= λ finished. ok (
        insert_event random_uuid a.node.project_id none (some a.attempt.task_id)
          (lit "workflow_completed") (lit "Completed: " ++ take 240 plan.objective) s.now finished)

  abbrev pub finish_plan : FlowDb → Option FlowPlan → Result WorkflowError FlowDb
  finish_plan db none = err work_item_missing
  finish_plan db (some plan) = finish_item db plan (item_row db plan.work_item_id)

  -- `unfinished`
  abbrev pub is_unfinished : FlowDb → Bool
  is_unfinished db =
      any (λ n. n.plan_revision_id == a.node.plan_revision_id && not (is_completed n.state))
        db.work_nodes

  unfoldable pub finish_workflow : FlowDb → Result WorkflowError FlowDb
  unfolding any plan_row item_row is_terminal_work_item_state insert_event lit
  finish_workflow db =
      let finished = finish_plan db (plan_row db a.node.plan_revision_id) in
      if is_unfinished db then ok db else finished

  -- The nodes that became ready, the work item, and the plan, once the node is complete.
  unfoldable pub start_and_finish : List Text → FlowDb → Result WorkflowError (FlowDb × List Text)
  unfolding start_nodes follow_first finish_workflow
  start_and_finish ids db = do
    followed ← follow_first ids (start_nodes ids db)
    finished ← finish_workflow followed
    ok (finished, ids)

  abbrev pub with_completed : FlowDb → FlowDb
  with_completed db =
      attempt_event (lit "node_completed") (lit "Subtask completed")
        (node_to (moved_node completed none s.now) db)

  -- The node has no stage left.
  unfoldable pub complete_node : FlowDb → Result WorkflowError (FlowDb × List Text)
  unfolding update_node insert_event newly_ready start_and_finish lit
  complete_node db =
      start_and_finish (newly_ready (with_completed db) a.attempt.node_id) (with_completed db)

  unfoldable pub settle_passed :
      Option WorkItemStage → FlowDb → Result WorkflowError (FlowDb × List Text)
  unfolding advance_to complete_node
  settle_passed none db = complete_node db
  settle_passed (some next) db = advance_to next db

  -- What follows the handoff, by the two details that park the work item.
  unfoldable pub move_on :
      Option Text → Option Text → FlowDb → Result WorkflowError (FlowDb × List Text)
  unfolding park_attempt settle_passed settle_failed next_stage return_stage
  move_on (some detail) scope_failure db = park_attempt detail db
  move_on none (some detail) db = park_attempt detail db
  move_on none none db =
      if has_passed s
      then settle_passed (next_stage a.node.stage_template a.attempt.stage) db
      else settle_failed (return_stage a s) db

  unfoldable pub settle_found : FlowDb → Result WorkflowError (FlowDb × List Text)
  unfolding check_settlement scope_failure_detail insert_findings insert_handoff bright_line_detail
      move_on
  settle_found db = do
    check_settlement db a s
    let found = insert_findings random_uuid redact a s 0 (findings_of s) db
    let handed = insert_handoff random_uuid redact a s (scope_failure_detail a s) found
    move_on (bright_line_detail random_uuid redact a s) (scope_failure_detail a s) handed

module _ (random_uuid : ℕ → Text) (redact : Text → Text)
    (registered : Option ParentTerminationCascade) where
  abbrev pub settle_optional :
      AttemptSettlement → FlowDb → Option SettledAttempt → Result WorkflowError (FlowDb × List Text)
  settle_optional s db none = ok (db, [])
  settle_optional s db (some a) = settle_found random_uuid redact registered a s db

  -- `settleAttemptInternal`
  unfoldable pub settle_attempt :
      FlowDb → Text → AttemptSettlement → Result WorkflowError (FlowDb × List Text)
  unfolding attempt_of_task settle_found
  settle_attempt db task_id s = settle_optional s db (attempt_of_task db task_id)
