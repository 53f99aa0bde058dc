-- ===== src/Workflow/Attempted.antt =====
-- src/server/task-board/persistence/workflow.ts: the settlement of an attempt keeps the order of the nodes.
use nexus_seventeen.Prelude.{
  ℕ, ◌≡◌, refl, sym, subst, List, Option, none, some, Text, ok, ok-injective, eq_text,
}
use nexus_seventeen.Transition.{ParentTerminationCascade}
use nexus_seventeen.Attempts.Rows.{ready, active, completed}
use nexus_seventeen.Workflow.Rows.{
  FlowDb, FlowNode, NodeDependency, SettledAttempt, is_node, moved_node, blocked_node,
  attempt_of_task,
}
use nexus_seventeen.Workflow.Handoffs.{AttemptSettlement}
use nexus_seventeen.Workflow.Settle.{settle_optional, settle_attempt}
use nexus_seventeen.Workflow.Moves.{
  started, Moves, halts, retries, advances, completes, settle_found-Moves,
}
use nexus_seventeen.Workflow.Ordered.{IsOrdered}
use nexus_seventeen.Workflow.Unblocked.{
  HasNodeKeys, IsActive, update-HasNodeKeys, started-HasNodeKeys, active-IsOrdered, done-IsOrdered,
}
use nexus_seventeen.Workflow.Joined.{joined-IsActive}

module _ (a : SettledAttempt) (s : AttemptSettlement) (nodes : List FlowNode)
    (dependencies : List NodeDependency) (keys : HasNodeKeys nodes)
    (is_active : IsActive nodes a.attempt.node_id) (o : IsOrdered dependencies nodes) where
  moved-IsOrdered :
      {nodes' : List FlowNode} {ids : List Text}
      → Moves a s nodes dependencies nodes' ids
      → IsOrdered dependencies nodes'
  moved-IsOrdered (halts why) =
      active-IsOrdered dependencies nodes a.attempt.node_id is_active (blocked_node s.now)
        (λ n. refl) o
  moved-IsOrdered (retries stage fails has left) =
      active-IsOrdered dependencies nodes a.attempt.node_id is_active
        (moved_node ready (some stage) s.now) (λ n. refl) o
  moved-IsOrdered (advances stage passes scope e) =
      active-IsOrdered dependencies nodes a.attempt.node_id is_active
        (moved_node ready (some stage) s.now) (λ n. refl) o
  moved-IsOrdered (completes done ids passes scope e en ed ei) =
      subst (λ is. IsOrdered dependencies (started s.now is done.work_nodes)) ei
        (done-IsOrdered s.now a.attempt.node_id nodes dependencies keys is_active o done
          (moved_node completed none s.now) (λ n. refl) en ed)

module _ (random_uuid : ℕ → Text) (redact : Text → Text)
    (registered : Option ParentTerminationCascade) (db : FlowDb) where
  settle_optional-IsOrdered :
      (task_id : Text) (s : AttemptSettlement) (joined : Option SettledAttempt) {db' : FlowDb}
      {ids : List Text}
      → HasNodeKeys db.work_nodes
      → ((a : SettledAttempt) → attempt_of_task db task_id ≡ some a → a.node.state ≡ active)
      → IsOrdered db.dependencies db.work_nodes
      → attempt_of_task db task_id ≡ joined
      → settle_optional random_uuid redact registered s db joined ≡ ok (db', ids)
      → IsOrdered db'.dependencies db'.work_nodes
  settle_optional-IsOrdered task_id s none keys is_active o found h =
      subst (λ (answer : FlowDb × List Text). IsOrdered answer.0.dependencies answer.0.work_nodes)
        (ok-injective h) o
  settle_optional-IsOrdered task_id s (some a) {db'} keys is_active o found h =
      let (moves, same) = settle_found-Moves random_uuid redact registered a s db h in
      subst (λ ds. IsOrdered ds db'.work_nodes) (sym same)
        (moved-IsOrdered a s db.work_nodes db.dependencies keys
          (joined-IsActive db task_id keys found (is_active a found)) o moves)

  -- Where the key of the nodes is unique, the node of the attempt is active and no node has begun before all that
  -- it depends on is completed, no node has either once the attempt is settled.
  pub settle_attempt-IsOrdered :
      (task_id : Text) (s : AttemptSettlement) {db' : FlowDb} {ids : List Text}
      → HasNodeKeys db.work_nodes
      → ((a : SettledAttempt) → attempt_of_task db task_id ≡ some a → a.node.state ≡ active)
      → IsOrdered db.dependencies db.work_nodes
      → settle_attempt random_uuid redact registered db task_id s ≡ ok (db', ids)
      → IsOrdered db'.dependencies db'.work_nodes
  unfolding settle_attempt
  settle_attempt-IsOrdered task_id s keys is_active o h =
      settle_optional-IsOrdered task_id s (attempt_of_task db task_id) keys is_active o refl h

moved-HasNodeKeys :
    (a : SettledAttempt) (s : AttemptSettlement) (nodes : List FlowNode)
    (dependencies : List NodeDependency) {nodes' : List FlowNode} {ids : List Text}
    → HasNodeKeys nodes
    → Moves a s nodes dependencies nodes' ids
    → HasNodeKeys nodes'
moved-HasNodeKeys a s nodes dependencies keys (halts why) =
    update-HasNodeKeys (is_node a.attempt.node_id) (blocked_node s.now) nodes (λ n. refl) keys
moved-HasNodeKeys a s nodes dependencies keys (retries stage fails has left) =
    update-HasNodeKeys (is_node a.attempt.node_id) (moved_node ready (some stage) s.now) nodes
      (λ n. refl) keys
moved-HasNodeKeys a s nodes dependencies keys (advances stage passes scope e) =
    update-HasNodeKeys (is_node a.attempt.node_id) (moved_node ready (some stage) s.now) nodes
      (λ n. refl) keys
moved-HasNodeKeys a s nodes dependencies keys (completes done ids passes scope e en ed ei) =
    started-HasNodeKeys s.now ids done.work_nodes (
      subst HasNodeKeys (sym en) (
        update-HasNodeKeys (is_node a.attempt.node_id) (moved_node completed none s.now) nodes
          (λ n. refl) keys))

module _ (random_uuid : ℕ → Text) (redact : Text → Text)
    (registered : Option ParentTerminationCascade) (db : FlowDb) where
  optional-HasNodeKeys :
      (s : AttemptSettlement) (joined : Option SettledAttempt) {db' : FlowDb} {ids : List Text}
      → HasNodeKeys db.work_nodes
      → settle_optional random_uuid redact registered s db joined ≡ ok (db', ids)
      → HasNodeKeys db'.work_nodes
  optional-HasNodeKeys s none keys h =
      subst (λ (answer : FlowDb × List Text). HasNodeKeys answer.0.work_nodes) (ok-injective h) keys
  optional-HasNodeKeys s (some a) keys h =
      moved-HasNodeKeys a s db.work_nodes db.dependencies keys
        (settle_found-Moves random_uuid redact registered a s db h).0

  pub settle_attempt-HasNodeKeys :
      (task_id : Text) (s : AttemptSettlement) {db' : FlowDb} {ids : List Text}
      → HasNodeKeys db.work_nodes
      → settle_attempt random_uuid redact registered db task_id s ≡ ok (db', ids)
      → HasNodeKeys db'.work_nodes
  unfolding settle_attempt
  settle_attempt-HasNodeKeys task_id s keys h =
      optional-HasNodeKeys s (attempt_of_task db task_id) keys h
