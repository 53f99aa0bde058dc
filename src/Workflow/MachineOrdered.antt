-- ===== src/Workflow/MachineOrdered.antt =====
-- src/server/task-board/persistence/workflow.ts: machine verification keeps the order of the nodes.
use nexus_seventeen.Prelude.{
  none_is_not_some, ℕ, ◌≡◌, refl, sym, subst, Bool, true, false, not, ◌&&◌, ◌||◌, List, Option,
  none, some, Text, find, ok, ok-injective, Bool-cases, inl, inr, ◌==◌, eq_text,
}
use nexus_seventeen.Contract.{WorkItemStage, eq_stage}
use nexus_seventeen.Transition.{ParentTerminationCascade}
use nexus_seventeen.Attempts.Rows.{
  WorkNodeState, pending, ready, active, blocked, stale, completed, cancelled, VerifyAttempt,
  MachineVerifyEvidence,
}
use nexus_seventeen.Workflow.Rows.{FlowDb, FlowNode, NodeAttempt, SettledAttempt, is_node}
use nexus_seventeen.Workflow.Machine.{
  verified_attempt, latest_attempt, of_latest, insert_anchor, is_settled_before, is_current,
  settle_verified, settle_verified_optional, settle_machine_verify, join_row, anchored,
  is_active_state,
}
use nexus_seventeen.Workflow.Ordered.{IsOrdered}
use nexus_seventeen.Workflow.Unblocked.{HasNodeKeys}
use nexus_seventeen.Workflow.Joined.{found-IsActive, with_node_row-node}
use nexus_seventeen.Workflow.Shapes.{Shape-IsOrdered, Shape-HasNodeKeys}
use nexus_seventeen.Workflow.MachineShaped.{machine_move-Shaped}

-- Where the settlement goes through, the node of the attempt is active.
current-active :
    (stage : Bool) (state : WorkNodeState) (before : Bool)
    → (not (stage && is_active_state state) || before) ≡ false
    → state ≡ active
current-active true active b h = refl
current-active true pending b h = cc
current-active true ready b h = cc
current-active true blocked b h = cc
current-active true stale b h = cc
current-active true completed b h = cc
current-active true cancelled b h = cc
current-active false other b h = cc

module _ (random_uuid : ℕ → Text) (redact : Text → Text)
    (registered : Option ParentTerminationCascade) (a : SettledAttempt) (is_passed : Bool)
    (e : MachineVerifyEvidence) (now : Text) where
  settle_verified-IsOrdered :
      (db : FlowDb) {db' : FlowDb} {ids : List Text}
      → HasNodeKeys db.work_nodes
      → find (λ (n : FlowNode). n.node_id == a.attempt.node_id) db.work_nodes ≡ some a.node
      → IsOrdered db.dependencies db.work_nodes
      → settle_verified random_uuid redact registered a is_passed e now db ≡ ok (db', ids)
      → IsOrdered db'.dependencies db'.work_nodes
  unfolding settle_verified insert_anchor
  settle_verified-IsOrdered db {db'} {ids} keys found o h =
      let current = is_current random_uuid redact registered a is_passed e now in
      let before = is_settled_before random_uuid redact registered a is_passed e now db in
      elim (Bool-cases (not current || before)) [
        | inl t ↦
            subst
              (λ (answer : FlowDb × List Text). IsOrdered answer.0.dependencies answer.0.work_nodes)
              (ok-injective (rw t at h)) o
        | inr f ↦
            let moved =
              machine_move-Shaped random_uuid redact registered a is_passed e now _ (rw f at h) in
            let is_active =
              found-IsActive db.work_nodes keys found (current-active _ a.node.state before f) in
            subst (λ ds. IsOrdered ds db'.work_nodes) (sym moved.dependencies)
              (Shape-IsOrdered now a.attempt.node_id db.work_nodes db.dependencies keys is_active o
                moved.shape)
      ]

module _ (random_uuid : ℕ → Text) (redact : Text → Text)
    (registered : Option ParentTerminationCascade) (db : FlowDb) (keys : HasNodeKeys db.work_nodes)
    (o : IsOrdered db.dependencies db.work_nodes) where
  joined_row-node :
      (node_id : Text) (v : VerifyAttempt) {a : SettledAttempt}
      → join_row db v ≡ some a
      → find (λ (n : FlowNode). n.node_id == a.attempt.node_id) db.work_nodes ≡ some a.node
  joined_row-node node_id v {a} h =
      let (e, q) = with_node_row-node db (anchored v) (find (is_node v.node_id) db.work_nodes) h in
      subst
        (λ (t : NodeAttempt).
          find (λ (n : FlowNode). n.node_id == t.node_id) db.work_nodes ≡ some a.node)
        e q

  latest-node :
      (node_id : Text) (v : Option VerifyAttempt) {a : SettledAttempt}
      → of_latest db v ≡ some a
      → find (λ (n : FlowNode). n.node_id == a.attempt.node_id) db.work_nodes ≡ some a.node
  latest-node node_id none h = none_is_not_some h
  latest-node node_id (some v) h = joined_row-node node_id v h

  optional-IsOrdered :
      (node_id : Text) (stage : WorkItemStage) (is_passed : Bool) (e : MachineVerifyEvidence)
      (now : Text) (joined : Option SettledAttempt) {db' : FlowDb} {ids : List Text}
      → verified_attempt db node_id stage ≡ joined
      → settle_verified_optional random_uuid redact registered is_passed e now db joined
        ≡ ok (db', ids)
      → IsOrdered db'.dependencies db'.work_nodes
  unfolding verified_attempt
  optional-IsOrdered node_id stage is_passed e now none found h =
      subst (λ (answer : FlowDb × List Text). IsOrdered answer.0.dependencies answer.0.work_nodes)
        (ok-injective h) o
  optional-IsOrdered node_id stage is_passed e now (some a) found h =
      settle_verified-IsOrdered random_uuid redact registered a is_passed e now db keys
        (latest-node node_id (latest_attempt node_id stage none db.verify_attempts) found) o h

  -- Where no node has begun before all that it depends on is completed, no node has either once machine
  -- verification has settled a stage.
  pub settle_machine_verify-IsOrdered :
      (node_id : Text) (stage : WorkItemStage) (is_passed : Bool) (e : MachineVerifyEvidence)
      (now : Text) {db' : FlowDb} {ids : List Text}
      → settle_machine_verify random_uuid redact registered db node_id stage is_passed e now
        ≡ ok (db', ids)
      → IsOrdered db'.dependencies db'.work_nodes
  unfolding settle_machine_verify
  settle_machine_verify-IsOrdered node_id stage is_passed e now h =
      optional-IsOrdered node_id stage is_passed e now (verified_attempt db node_id stage) refl h

module _ (random_uuid : ℕ → Text) (redact : Text → Text)
    (registered : Option ParentTerminationCascade) (db : FlowDb) (is_passed : Bool)
    (e : MachineVerifyEvidence) (now : Text) (keys : HasNodeKeys db.work_nodes) where
  settle_verified-HasNodeKeys :
      (a : SettledAttempt) {db' : FlowDb} {ids : List Text}
      → settle_verified random_uuid redact registered a is_passed e now db ≡ ok (db', ids)
      → HasNodeKeys db'.work_nodes
  unfolding settle_verified insert_anchor
  settle_verified-HasNodeKeys a h =
      let current = is_current random_uuid redact registered a is_passed e now in
      let before = is_settled_before random_uuid redact registered a is_passed e now db in
      elim (Bool-cases (not current || before)) [
        | inl t ↦
            subst (λ (answer : FlowDb × List Text). HasNodeKeys answer.0.work_nodes)
              (ok-injective (rw t at h)) keys
        | inr f ↦
            let moved =
              machine_move-Shaped random_uuid redact registered a is_passed e now _ (rw f at h) in
            Shape-HasNodeKeys now a.attempt.node_id db.work_nodes db.dependencies keys moved.shape
      ]

  verified_optional-HasNodeKeys :
      (joined : Option SettledAttempt) {db' : FlowDb} {ids : List Text}
      → settle_verified_optional random_uuid redact registered is_passed e now db joined
        ≡ ok (db', ids)
      → HasNodeKeys db'.work_nodes
  verified_optional-HasNodeKeys none h =
      subst (λ (answer : FlowDb × List Text). HasNodeKeys answer.0.work_nodes) (ok-injective h) keys
  verified_optional-HasNodeKeys (some a) h = settle_verified-HasNodeKeys a h

  pub settle_machine_verify-HasNodeKeys :
      (node_id : Text) (stage : WorkItemStage) {db' : FlowDb} {ids : List Text}
      → settle_machine_verify random_uuid redact registered db node_id stage is_passed e now
        ≡ ok (db', ids)
      → HasNodeKeys db'.work_nodes
  unfolding settle_machine_verify
  settle_machine_verify-HasNodeKeys node_id stage h =
      verified_optional-HasNodeKeys (verified_attempt db node_id stage) h
