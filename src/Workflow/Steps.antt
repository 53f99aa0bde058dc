-- ===== src/Workflow/Steps.antt =====
-- src/server/task-board/persistence/workflow.ts: the changes of the nodes, in any order.
use nexus_seventeen.Prelude.{ℕ, ◌≡◌, Bool, List, Option, some, Text, ok}
use mathlib.Core.List.{Memᴰ}
use nexus_seventeen.Contract.{WorkItemStage}
use nexus_seventeen.Transition.{ParentTerminationCascade}
use nexus_seventeen.Attempts.Rows.{ready, active, MachineVerifyEvidence}
use nexus_seventeen.Workflow.Rows.{FlowDb, FlowNode, SettledAttempt, attempt_of_task}
use nexus_seventeen.Workflow.Handoffs.{AttemptSettlement}
use nexus_seventeen.Workflow.Settle.{settle_attempt}
use nexus_seventeen.Workflow.Machine.{settle_machine_verify}
use nexus_seventeen.Workflow.Nodes.{
  link_attempt, block_node, ready_node, suspend_attempt_node, defer_node, activate_free_nodes,
}
use nexus_seventeen.Workflow.Returns.{
  return_final_approval, block_published, return_published, activate_verified, recover_node,
  PlanNode, insert_node, insert_child,
}
use nexus_seventeen.Workflow.Returned.{IsLast}
use nexus_seventeen.Workflow.Inserted.{IsUnused}
use nexus_seventeen.Workflow.Ordered.{AllDone}

module _ (random_uuid : ℕ → Text) (redact : Text → Text)
    (registered : Option ParentTerminationCascade) where
  -- The statements that change or insert nodes, each under what its callers see to: an attempt is linked to a node
  -- that is ready, a node is made ready or goes back to work when its dependencies are completed, an attempt
  -- settles while its node is active, a completed node is only taken back where none depends on it, as in the
  -- plans of one node that a pipeline has, and a node is inserted under an identifier that no node has and
  -- that no node that has begun depends on.
  pub data NodeStep : FlowDb → FlowDb → Type 0 where
    activates :
        {db db' : FlowDb} (plan_revision_id now : Text)
        → activate_free_nodes db plan_revision_id now ≡ db'
        → NodeStep db db'
    links :
        {db db' : FlowDb} (node_id task_id : Text) (stage : WorkItemStage) (now : Text)
        → ((n : FlowNode) → Memᴰ n db.work_nodes → n.node_id ≡ node_id → n.state ≡ ready)
        → link_attempt random_uuid db node_id task_id stage now ≡ db'
        → NodeStep db db'
    blocks :
        {db db' : FlowDb} (node_id summary now : Text)
        → (block_node random_uuid db node_id summary now).0 ≡ db'
        → NodeStep db db'
    readies :
        {db db' : FlowDb} (node_id now : Text)
        → AllDone db.dependencies db.work_nodes node_id
        → ready_node random_uuid db node_id now ≡ ok db'
        → NodeStep db db'
    defers :
        {db db' : FlowDb} (node_id now : Text)
        → defer_node db node_id now ≡ ok db'
        → NodeStep db db'
    suspends :
        {db db' : FlowDb} {suspended : Bool} (task_id reason now : Text)
        → suspend_attempt_node random_uuid db task_id reason now ≡ ok (db', suspended)
        → NodeStep db db'
    settles :
        {db db' : FlowDb} {ids : List Text} (task_id : Text) (s : AttemptSettlement)
        → ((a : SettledAttempt) → attempt_of_task db task_id ≡ some a → a.node.state ≡ active)
        → settle_attempt random_uuid redact registered db task_id s ≡ ok (db', ids)
        → NodeStep db db'
    verifies :
        {db db' : FlowDb} {ids : List Text} (node_id : Text) (stage : WorkItemStage)
        (is_passed : Bool) (e : MachineVerifyEvidence) (now : Text)
        → settle_machine_verify random_uuid redact registered db node_id stage is_passed e now
          ≡ ok (db', ids)
        → NodeStep db db'
    returns_final :
        {db db' : FlowDb} (node_id now : Text)
        → IsLast db.dependencies node_id
        → return_final_approval db node_id now ≡ ok db'
        → NodeStep db db'
    blocks_published :
        {db db' : FlowDb} (node_id now : Text)
        → IsLast db.dependencies node_id
        → block_published db node_id now ≡ ok db'
        → NodeStep db db'
    returns_published :
        {db db' : FlowDb} (node_id now : Text)
        → IsLast db.dependencies node_id
        → return_published db node_id now ≡ ok db'
        → NodeStep db db'
    activates_verified :
        {db db' : FlowDb} (node_id : Text) (stage : WorkItemStage) (now : Text)
        → AllDone db.dependencies db.work_nodes node_id
        → activate_verified db node_id stage now ≡ ok db'
        → NodeStep db db'
    recovers :
        {db db' : FlowDb} (node_id : Text) (version : ℕ) (stage : WorkItemStage) (now : Text)
        → AllDone db.dependencies db.work_nodes node_id
        → recover_node db node_id version stage now ≡ ok db'
        → NodeStep db db'
    inserts :
        {db db' : FlowDb} (stored : Text → Text) (plan_id project_id created_at : Text)
        (node : PlanNode)
        → IsUnused db (stored node.node_id)
        → insert_node db stored plan_id project_id created_at node ≡ db'
        → NodeStep db db'
    inserts_child :
        {db db' : FlowDb} (node_id plan_revision_id project_id objective : Text)
        (acceptance_criteria : List Text) (now : Text)
        → IsUnused db node_id
        → insert_child db node_id plan_revision_id project_id objective acceptance_criteria now
          ≡ db'
        → NodeStep db db'

  pub data NodeReach (db : FlowDb) : FlowDb → Type 0 where
    here : NodeReach db db
    next : {db' db'' : FlowDb} → NodeReach db db' → NodeStep db' db'' → NodeReach db db''
