-- ===== src/Workflow/Nodes.antt =====
-- src/server/task-board/persistence/workflow.ts: the commands on one node. The rows that the source reads back for
-- its caller are left out of the results.
use nexus_seventeen.Prelude.{
  ℕ, suc, Bool, true, false, not, ◌&&◌, ◌||◌, List, [], ◌∷◌, ◌++◌, Option, none, some, Text, lit,
  any, find, tally, update_where, ltb, nat_eq, if◌then◌else◌, Result, ok, err, ◌==◌, eq_text,
  option_eq,
}
use nexus_seventeen.Contract.{WorkItemStage, eq_stage}
use nexus_seventeen.Attempts.Rows.{
  WorkNodeState, pending, ready, active, blocked, stale, completed, cancelled,
}
use nexus_seventeen.Workflow.Rows.{
  FlowDb, FlowNode, NodeAttempt, ProjectEvent, WorkflowError, workflow_node_missing,
  node_activation_conflict, suspend_conflict, is_node, moved_node, blocked_node, started_node,
  insert_event,
}
use nexus_seventeen.Workflow.Settle.{is_pending}
use nexus_seventeen.Workflow.Machine.{is_active_state}

abbrev pub is_blocked_state : WorkNodeState → Bool
is_blocked_state state = elim state [
  | blocked ↦ true
  | pending ↦ false
  | ready ↦ false
  | active ↦ false
  | stale ↦ false
  | completed ↦ false
  | cancelled ↦ false
]

abbrev pub is_ready_state : WorkNodeState → Bool
is_ready_state state = elim state [
  | ready ↦ true
  | pending ↦ false
  | blocked ↦ false
  | active ↦ false
  | stale ↦ false
  | completed ↦ false
  | cancelled ↦ false
]

-- `state IN ('pending','ready')`
abbrev pub is_unstarted : WorkNodeState → Bool
is_unstarted state = is_pending state || is_ready_state state

-- `state IN ('pending','blocked')`
abbrev pub is_held : WorkNodeState → Bool
is_held state = is_pending state || is_blocked_state state

-- `WHERE node_id=? AND state IN (…)`
abbrev pub is_node_in : Text → (WorkNodeState → Bool) → FlowNode → Bool
is_node_in node_id states n = is_node node_id n && states n.state

abbrev pub update_nodes : (FlowNode → Bool) → (FlowNode → FlowNode) → FlowDb → FlowDb
update_nodes p f db = record db { work_nodes = update_where p f db.work_nodes }

abbrev pub activated_node : Text → FlowNode → FlowNode
activated_node now n = moved_node active n.current_stage now n

abbrev pub max_attempt_of : Text → WorkItemStage → ℕ → List NodeAttempt → ℕ
max_attempt_of node_id stage n [] = n
max_attempt_of node_id stage n (a ∷ rows) =
    max_attempt_of node_id stage
      (if a.node_id == node_id && a.stage == stage && ltb n a.attempt then a.attempt else n) rows

abbrev pub with_attempt_of : Text → Text → Text → WorkItemStage → FlowDb → FlowDb
with_attempt_of uuid node_id task_id stage db = record db {
  board = record db.board { drawn = suc db.board.drawn };
  stage_attempts =
      db.stage_attempts
      ++ record {
        attempt_id = lit "attempt_" ++ uuid;
        node_id = node_id;
        task_id = task_id;
        stage = stage;
        attempt = suc (max_attempt_of node_id stage 0 db.stage_attempts);
      }
        ∷ [];
}

-- The summary of the latest `node_blocked` event of a node.
abbrev pub latest_block : Text → Option Text → List ProjectEvent → Option Text
latest_block node_id best [] = best
latest_block node_id best (e ∷ events) =
    latest_block node_id
      (if option_eq e.node_id (some node_id) && e.event_type == lit "node_blocked"
        then some e.summary
        else best)
      events

module _ (random_uuid : ℕ → Text) where
  -- `linkAttemptInternal`
  unfoldable pub link_attempt : FlowDb → Text → Text → WorkItemStage → Text → FlowDb
  unfolding update_where lit
  link_attempt db node_id task_id stage now =
      update_nodes (is_node node_id) (activated_node now)
        (with_attempt_of (random_uuid db.board.drawn) node_id task_id stage db)

  abbrev pub block_event : FlowNode → Text → Text → FlowDb → FlowDb
  block_event row summary now db =
      insert_event random_uuid row.project_id (some row.node_id) none (lit "node_blocked") summary
        now db

  abbrev pub block_row : FlowDb → Text → Text → Option FlowNode → FlowDb × Bool
  block_row db summary now none = (db, false)
  block_row db summary now (some row) =
      let changed = update_nodes (is_node_in row.node_id is_unstarted) (blocked_node now) db in
      if is_blocked_state row.state
      then (if option_eq (latest_block row.node_id none db.project_events) (some summary)
          then (db, false)
          else (block_event row summary now db, true))
      else if nat_eq (tally (is_node_in row.node_id is_unstarted) db.work_nodes) 1
      then (block_event row summary now changed, true)
      else (changed, false)

  -- `blockNodeInTransaction`
  unfoldable pub block_node : FlowDb → Text → Text → Text → FlowDb × Bool
  unfolding find tally update_where insert_event lit
  block_node db node_id summary now = block_row db summary now (
      find (is_node_in node_id (λ state. is_unstarted state || is_blocked_state state))
        db.work_nodes)

  abbrev pub ready_row : FlowDb → Text → Text → Option FlowNode → Result WorkflowError FlowDb
  ready_row db node_id now none =
      if any (is_node node_id) db.work_nodes then ok db else err workflow_node_missing
  ready_row db node_id now (some row) =
      let changed = update_nodes (is_node_in node_id is_held) (started_node now) db in
      if not (nat_eq (tally (is_node_in node_id is_held) db.work_nodes) 1)
      then err node_activation_conflict
      else if is_blocked_state row.state
      then ok (
          insert_event random_uuid row.project_id (some node_id) none (lit "dependency_unblocked")
            (lit "Work-item dependencies satisfied") now changed)
      else ok changed

  -- `readyNodeAtTemplateStartInTransaction`
  unfoldable pub ready_node : FlowDb → Text → Text → Result WorkflowError FlowDb
  unfolding find any tally update_where insert_event lit
  ready_node db node_id now =
      ready_row db node_id now (find (is_node_in node_id is_held) db.work_nodes)

  abbrev pub suspend_event : FlowNode → Text → Text → Text → FlowDb → FlowDb
  suspend_event node task_id reason now db =
      insert_event random_uuid node.project_id (some node.node_id) (some task_id)
        (lit "node_blocked") reason now db

  abbrev pub suspend_row :
      FlowDb → Text → Text → Text → Option FlowNode → Result WorkflowError (FlowDb × Bool)
  suspend_row db task_id reason now none = ok (db, true)
  suspend_row db task_id reason now (some node) =
      let changed = update_nodes (is_node_in node.node_id is_active_state) (blocked_node now) db in
      if not (is_active_state node.state)
      then ok (suspend_event node task_id reason now db, false)
      else if nat_eq (tally (is_node_in node.node_id is_active_state) db.work_nodes) 1
      then ok (suspend_event node task_id reason now changed, true)
      else err suspend_conflict

  abbrev pub attempted_node : FlowDb → Option NodeAttempt → Option FlowNode
  attempted_node db none = none
  attempted_node db (some a) = find (is_node a.node_id) db.work_nodes

  -- `suspendAttemptNodeInTransaction`
  unfoldable pub suspend_attempt_node :
      FlowDb → Text → Text → Text → Result WorkflowError (FlowDb × Bool)
  unfolding find tally update_where insert_event lit
  suspend_attempt_node db task_id reason now =
      suspend_row db task_id reason now
        (attempted_node db (find (λ a. a.task_id == task_id) db.stage_attempts))

-- `deferNodeForDesignInTransaction`
unfoldable pub defer_node : FlowDb → Text → Text → Result WorkflowError FlowDb
unfolding tally update_where
defer_node db node_id now =
    if ltb 1 (tally (is_node_in node_id is_blocked_state) db.work_nodes)
    then err node_activation_conflict
    else ok (update_nodes (is_node_in node_id is_blocked_state) (moved_node pending none now) db)

abbrev pub is_free : FlowDb → Text → FlowNode → Bool
is_free db plan_revision_id n =
    n.plan_revision_id == plan_revision_id
    && is_pending n.state
    && not (any (λ d. d.node_id == n.node_id) db.dependencies)

-- The update of `activateDependencyFreeNodesAtTemplateStart`.
unfoldable pub activate_free_nodes : FlowDb → Text → Text → FlowDb
unfolding any update_where
activate_free_nodes db plan_revision_id now =
    update_nodes (is_free db plan_revision_id) (started_node now) db
