-- ===== src/Workflow/Joined.antt =====
-- src/server/task-board/persistence/workflow.ts: the node that an attempt joins.
use nexus_seventeen.Prelude.{
  some_injective, ◌≡◌, sym, ap, subst, ◌∙◌, List, Option, none, some, Text, find, find-mem, ◌==◌,
  eq_text, text_eq_iff,
}
use nexus_seventeen.Board.{WorkItem}
use nexus_seventeen.Attempts.Rows.{active}
use nexus_seventeen.Workflow.Rows.{
  FlowDb, FlowNode, FlowPlan, NodeAttempt, SettledAttempt, with_item_row, with_plan_row,
  with_node_row, with_attempt_row, item_row, plan_row, attempt_of_task,
}
use nexus_seventeen.Workflow.Unblocked.{HasNodeKeys, IsActive}

-- The rows of an identifier are active where the one that is found is.
pub found-IsActive :
    (nodes : List FlowNode) {id : Text} {node : FlowNode}
    → HasNodeKeys nodes
    → find (λ (n : FlowNode). n.node_id == id) nodes ≡ some node
    → node.state ≡ active
    → IsActive nodes id
found-IsActive nodes {id} {node} keys found is_active x mx e =
    let (mn, t) = find-mem (λ (n : FlowNode). n.node_id == id) nodes found in
    ap (λ (n : FlowNode). n.state) (keys x node mx mn (e ∙ sym ((text_eq_iff node.node_id id).0 t)))
    ∙ is_active

-- The join gives the node that the attempt names.
module _ (db : FlowDb) where
  with_item_row-node :
      (attempt : NodeAttempt) (node : FlowNode) (item : Option WorkItem) {a : SettledAttempt}
      → with_item_row db attempt node item ≡ some a
      → (attempt ≡ a.attempt) × (node ≡ a.node)
  with_item_row-node attempt node none h = cc
  with_item_row-node attempt node (some item) h = (
    ap (λ (r : SettledAttempt). r.attempt) (some_injective h),
    ap (λ (r : SettledAttempt). r.node) (some_injective h),
  )

  with_plan_row-node :
      (attempt : NodeAttempt) (node : FlowNode) (plan : Option FlowPlan) {a : SettledAttempt}
      → with_plan_row db attempt node plan ≡ some a
      → (attempt ≡ a.attempt) × (node ≡ a.node)
  with_plan_row-node attempt node none h = cc
  with_plan_row-node attempt node (some plan) h =
      with_item_row-node attempt node (item_row db plan.work_item_id) h

  pub with_node_row-node :
      (attempt : NodeAttempt) (node : Option FlowNode) {a : SettledAttempt}
      → with_node_row db attempt node ≡ some a
      → (attempt ≡ a.attempt) × (node ≡ some a.node)
  with_node_row-node attempt none h = cc
  with_node_row-node attempt (some node) h =
      let (e, q) = with_plan_row-node attempt node (plan_row db node.plan_revision_id) h in
      (e, ap some q)

  with_attempt_row-node :
      (attempt : Option NodeAttempt) {a : SettledAttempt}
      → with_attempt_row db attempt ≡ some a
      → find (λ (n : FlowNode). n.node_id == a.attempt.node_id) db.work_nodes ≡ some a.node
  with_attempt_row-node none h = cc
  with_attempt_row-node (some attempt) {a} h =
      let (e, q) =
        with_node_row-node attempt (find (λ n. n.node_id == attempt.node_id) db.work_nodes) h in
      subst
        (λ (t : NodeAttempt).
          find (λ (n : FlowNode). n.node_id == t.node_id) db.work_nodes ≡ some a.node)
        e q

  -- The nodes of the attempt are active where the node of the join is.
  pub joined-IsActive :
      (task_id : Text) {a : SettledAttempt}
      → HasNodeKeys db.work_nodes
      → attempt_of_task db task_id ≡ some a
      → a.node.state ≡ active
      → IsActive db.work_nodes a.attempt.node_id
  unfolding attempt_of_task
  joined-IsActive task_id {a} keys found is_active =
      found-IsActive db.work_nodes keys (with_attempt_row-node _ found) is_active
