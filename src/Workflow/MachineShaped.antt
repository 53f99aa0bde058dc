-- ===== src/Workflow/MachineShaped.antt =====
-- src/server/task-board/persistence/workflow.ts: what machine verification makes of the nodes of a plan.
use nexus_seventeen.Prelude.{
  ℕ, ◌≡◌, refl, sym, ap, subst, ◌∙◌, Bool, true, false, not, ◌&&◌, List, Option, none, some, Text,
  contains, ltb, leb, if◌then◌else◌, ok, >>=-eq-ok, ok-injective, err_is_not_ok, Bool-cases, inl,
  inr, eq_text,
}
use nexus_seventeen.Contract.{WorkItemStage, implementation, eq_stage, is_terminal_work_item_state}
use nexus_seventeen.Board.{WorkItem}
use nexus_seventeen.Transition.{ParentTerminationCascade}
use nexus_seventeen.Attempts.Rows.{ready, completed, MachineVerifyEvidence}
use nexus_seventeen.Workflow.Rows.{
  FlowDb, FlowNode, SettledAttempt, item_row, moved_node, blocked_node, update_node, insert_event,
}
use nexus_seventeen.Workflow.Stages.{set_work_item_stage}
use nexus_seventeen.Workflow.Settle.{
  is_unfinished, next_stage, newly_ready, start_nodes, advance_to,
}
use nexus_seventeen.Workflow.Machine.{
  machine_settlement, machine_retry, machine_dead_letter, machine_fail, machine_finish_item,
  machine_finish, machine_complete, machine_done, machine_passed, machine_move,
}
use nexus_seventeen.Workflow.Kept.{
  SameGraph, same_graph, unless-SameGraph, when-SameGraph, set_work_item_stage-SameGraph,
}
use nexus_seventeen.Workflow.Moves.{started, start_nodes-started}
use nexus_seventeen.Workflow.Shapes.{Shape, changes, starts}

module _ (random_uuid : ℕ → Text) (redact : Text → Text)
    (registered : Option ParentTerminationCascade) (a : SettledAttempt) (is_passed : Bool)
    (e : MachineVerifyEvidence) (now : Text) where
  pub record Shaped (db : FlowDb) (answer : FlowDb × List Text) : Type 0 where
    pub shape : Shape now a.attempt.node_id db.work_nodes db.dependencies answer.0.work_nodes
    pub dependencies : answer.0.dependencies ≡ db.dependencies

  shaped :
      {db d : FlowDb} {answer : FlowDb × List Text} {nodes : List FlowNode} {ids : List Text}
      → Shape now a.attempt.node_id db.work_nodes db.dependencies nodes
      → d.work_nodes ≡ nodes
      → d.dependencies ≡ db.dependencies
      → ◌≡◌ {A = FlowDb × List Text} (d, ids) answer
      → Shaped db answer
  shaped {db} {d} {answer} {nodes} {ids} m en ed q = subst (Shaped db) q (record {
    shape = subst (λ n. Shape now a.attempt.node_id db.work_nodes db.dependencies n) (sym en) m;
    dependencies = ed;
  })

  machine_retry-Shaped :
      (failures : ℕ) {db : FlowDb} {answer : FlowDb × List Text}
      → machine_retry random_uuid redact registered a is_passed e now failures db ≡ ok answer
      → Shaped db answer
  unfolding machine_retry update_node insert_event
  machine_retry-Shaped failures {db} h =
      let (d, moved, told) =
        >>=-eq-ok
          (set_work_item_stage random_uuid redact registered _ a.node.plan_revision_id
            a.attempt.node_id implementation now)
          _ h in
      let same =
        set_work_item_stage-SameGraph random_uuid redact registered a.node.plan_revision_id
          a.attempt.node_id implementation now moved in
      shaped (changes (moved_node ready (some implementation) now) (λ n. refl)) same.nodes
        same.dependencies (ok-injective told)

  advance_to-Shaped :
      (next : WorkItemStage) {db : FlowDb} {answer : FlowDb × List Text}
      → advance_to random_uuid redact registered a
          (machine_settlement random_uuid redact registered a is_passed e now)
          next
          db
        ≡ ok answer
      → Shaped db answer
  unfolding advance_to update_node insert_event
  advance_to-Shaped next {db} h =
      let (d, moved, told) =
        >>=-eq-ok
          (set_work_item_stage random_uuid redact registered _ a.node.plan_revision_id
            a.attempt.node_id next now)
          _ h in
      let same =
        set_work_item_stage-SameGraph random_uuid redact registered a.node.plan_revision_id
          a.attempt.node_id next now moved in
      shaped (changes (moved_node ready (some next) now) (λ n. refl)) same.nodes same.dependencies
        (ok-injective told)

  machine_fail-Shaped :
      (failures : ℕ) {db : FlowDb} {answer : FlowDb × List Text}
      → machine_fail random_uuid redact registered a is_passed e now failures db ≡ ok answer
      → Shaped db answer
  unfolding machine_fail update_node insert_event
  machine_fail-Shaped failures {db} h =
      let (d, moved, told) =
        >>=-eq-ok
          (if leb 3 failures && not (is_terminal_work_item_state a.work_item_state) then _ else _) _
          h in
      let same =
        when-SameGraph random_uuid redact registered _
          (machine_dead_letter random_uuid redact registered a is_passed e now) moved in
      shaped (changes (blocked_node now) (λ n. refl)) same.nodes same.dependencies
        (ok-injective told)

  machine_finish_item-SameGraph :
      {db d : FlowDb} (item : Option WorkItem)
      → machine_finish_item random_uuid redact registered a is_passed e now db item ≡ ok d
      → SameGraph db d
  unfolding insert_event
  machine_finish_item-SameGraph none h = err_is_not_ok h
  machine_finish_item-SameGraph {db} {d} (some item) h =
      let (finished, moved, told) =
        >>=-eq-ok (if is_terminal_work_item_state item.state then ok db else _) _ h in
      let same =
        unless-SameGraph random_uuid redact registered (is_terminal_work_item_state item.state) _
          moved in
      record {
        nodes = ap (λ (x : FlowDb). x.work_nodes) (sym (ok-injective told)) ∙ same.nodes;
        dependencies =
            ap (λ (x : FlowDb). x.dependencies) (sym (ok-injective told)) ∙ same.dependencies;
      }

  finished-SameGraph :
      (b : Bool) {db d : FlowDb}
      → (if b
          then ok db
          else machine_finish_item random_uuid redact registered a is_passed e now db
              (item_row db a.work_item_id))
        ≡ ok d
      → SameGraph db d
  finished-SameGraph true {db} h = subst (SameGraph db) (ok-injective h) same_graph
  finished-SameGraph false {db} h = machine_finish_item-SameGraph (item_row db a.work_item_id) h

  machine_finish-SameGraph :
      {db d : FlowDb}
      → machine_finish random_uuid redact registered a is_passed e now db ≡ ok d
      → SameGraph db d
  unfolding machine_finish
  machine_finish-SameGraph {db} h =
      finished-SameGraph
        (is_unfinished random_uuid redact registered a
          (machine_settlement random_uuid redact registered a is_passed e now) db)
        h

  machine_complete-graph :
      (ids : List Text) (db : FlowDb) {answer : FlowDb × List Text}
      → machine_complete random_uuid redact registered a is_passed e now ids db ≡ ok answer
      → (d : FlowDb) × (d.work_nodes ≡ started now ids db.work_nodes)
        × (d.dependencies ≡ db.dependencies)
        × ((d, ids) ≡ answer)
  unfolding machine_complete
  machine_complete-graph ids db h =
      let settlement = machine_settlement random_uuid redact registered a is_passed e now in
      let (finished, was_finished, told) =
        >>=-eq-ok
          (machine_finish random_uuid redact registered a is_passed e now
            (start_nodes random_uuid redact registered a settlement ids db))
          (λ (finished : FlowDb). ok (finished, ids)) h in
      let (en, ed) = start_nodes-started random_uuid redact registered a settlement ids db in
      let same = machine_finish-SameGraph was_finished in
      (finished, same.nodes ∙ en, same.dependencies ∙ ed, ok-injective told)

  machine_passed-Shaped :
      (next : Option WorkItemStage) {db : FlowDb} {answer : FlowDb × List Text}
      → machine_passed random_uuid redact registered a is_passed e now next db ≡ ok answer
      → Shaped db answer
  unfolding update_node insert_event
  machine_passed-Shaped none {db} h =
      let done = machine_done random_uuid redact registered a is_passed e now db in
      let (d, en, ed, q) = machine_complete-graph (newly_ready done a.attempt.node_id) done h in
      shaped (starts done (moved_node completed none now) (λ n. refl) refl refl) en ed q
  machine_passed-Shaped (some next) h = advance_to-Shaped next h

  pub machine_move-Shaped :
      (failures : ℕ) {db : FlowDb} {answer : FlowDb × List Text}
      → machine_move random_uuid redact registered a is_passed e now failures db ≡ ok answer
      → Shaped db answer
  unfolding machine_move
  machine_move-Shaped failures {db} h = elim (Bool-cases is_passed) [
    | inl t ↦ machine_passed-Shaped (next_stage a.node.stage_template a.attempt.stage) (rw t at h)
    | inr f ↦ elim (Bool-cases (contains implementation a.node.stage_template && ltb failures 3)) [
      | inl t ↦ machine_retry-Shaped failures (rw (f, t) at h)
      | inr g ↦ machine_fail-Shaped failures (rw (f, g) at h)
    ]
  ]
