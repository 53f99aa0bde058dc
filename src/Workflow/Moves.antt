-- ===== src/Workflow/Moves.antt =====
-- src/server/task-board/persistence/workflow.ts: the moves of a node that a settled attempt can lead to.
use nexus_seventeen.Prelude.{
  absurd_bool, both_true, none_is_not_some, ℕ, ◌<◌, ◌≡◌, refl, sym, subst, ◌∙◌, Bool, true, false,
  not, ◌&&◌, List, [], ◌∷◌, Option, none, some, Text, contains, ltb, leb, ltb→lt, update_where,
  if◌then◌else◌, ok, ◌>>=◌, >>=-eq-ok, ok-injective, Bool-cases, inl, inr, ◌==◌, eq_text,
}
use nexus_seventeen.Contract.{
  WorkItemState, eq_state, WorkItemStage, implementation, eq_stage, is_terminal_work_item_state,
}
use nexus_seventeen.Transition.{ParentTerminationCascade}
use nexus_seventeen.Attempts.Rows.{ready, completed}
use nexus_seventeen.Workflow.Rows.{
  FlowDb, FlowNode, NodeDependency, SettledAttempt, item_row, moved_node, blocked_node,
  started_node, is_node, update_node, insert_event,
}
use nexus_seventeen.Workflow.Stages.{set_work_item_stage}
use nexus_seventeen.Workflow.Handoffs.{
  AttemptSettlement, has_passed, is_pipeline, findings_of, check_settlement, scope_failure_detail,
  insert_findings, insert_handoff, bright_line_detail,
}
use nexus_seventeen.Workflow.Settle.{
  max_attempts, next_stage, return_stage, newly_ready, start_nodes, park_attempt, park_request,
  retry_at, fail_node, give_up, settle_failed, advance_to, follow_first, finish_workflow,
  start_and_finish, with_completed, complete_node, settle_passed, move_on, settle_found,
}
use nexus_seventeen.Workflow.Kept.{
  SameGraph, same_graph, same_then, when-SameGraph, give_up-SameGraph,
  set_work_item_stage-SameGraph, follow_first-SameGraph, finish_workflow-SameGraph,
  insert_findings-SameGraph, insert_handoff-SameGraph,
}

-- The nodes when those of a list have been made ready, one after the other.
abbrev pub started : Text → List Text → List FlowNode → List FlowNode
started now [] nodes = nodes
started now (id ∷ ids) nodes = started now ids (update_where (is_node id) (started_node now) nodes)

-- The database with other nodes, as far as the graph is concerned.
abbrev pub with_nodes : FlowDb → List FlowNode → FlowDb
with_nodes db nodes = record db { work_nodes = nodes }

-- What a settlement makes of the nodes, and which of them it names.
pub data Moves (a : SettledAttempt) (s : AttemptSettlement) (nodes : List FlowNode)
    (dependencies : List NodeDependency) : List FlowNode → List Text → Type 0 where
  -- The node is blocked: the attempt failed, or its change left the declared scope.
  halts :
      (has_passed s ≡ true → (detail : Text) × (scope_failure_detail a s ≡ some detail))
      → Moves a s nodes dependencies
          (update_where (is_node a.attempt.node_id) (blocked_node s.now) nodes)
          []
  -- The node returns to a stage of its template, while attempts are left.
  retries :
      (stage : WorkItemStage)
      → has_passed s ≡ false
      → contains stage a.node.stage_template ≡ true
      → a.attempt.attempt < max_attempts a
      → Moves a s nodes dependencies
          (update_where (is_node a.attempt.node_id) (moved_node ready (some stage) s.now) nodes)
          (a.attempt.node_id ∷ [])
  -- The node goes on to the next stage.
  advances :
      (next : WorkItemStage)
      → has_passed s ≡ true
      → scope_failure_detail a s ≡ none
      → next_stage a.node.stage_template a.attempt.stage ≡ some next
      → Moves a s nodes dependencies
          (update_where (is_node a.attempt.node_id) (moved_node ready (some next) s.now) nodes)
          (a.attempt.node_id ∷ [])
  -- The node is complete, and the nodes that waited for it alone are ready.
  completes :
      (done : FlowDb) (ids : List Text)
      → has_passed s ≡ true
      → scope_failure_detail a s ≡ none
      → next_stage a.node.stage_template a.attempt.stage ≡ none
      → done.work_nodes
        ≡ update_where (is_node a.attempt.node_id) (moved_node completed none s.now) nodes
      → done.dependencies ≡ dependencies
      → newly_ready done a.attempt.node_id ≡ ids
      → Moves a s nodes dependencies (started s.now ids done.work_nodes) ids

not_passed : (p q b : Bool) → b ≡ true → (p && q && not b) ≡ false
not_passed true true b h = rw h refl
not_passed true false b h = refl
not_passed false q b h = refl

module _ (random_uuid : ℕ → Text) (redact : Text → Text)
    (registered : Option ParentTerminationCascade) (a : SettledAttempt)
    (s : AttemptSettlement) where
  -- A settlement that ended well moves the nodes and leaves the dependencies.
  pub record MovesTo (db : FlowDb) (answer : FlowDb × List Text) : Type 0 where
    pub moves : Moves a s db.work_nodes db.dependencies answer.0.work_nodes answer.1
    pub dependencies : answer.0.dependencies ≡ db.dependencies

  -- An answer from a database with the graph that a move made.
  answered :
      {db d : FlowDb} {answer : FlowDb × List Text} {nodes : List FlowNode} {ids : List Text}
      → Moves a s db.work_nodes db.dependencies nodes ids
      → d.work_nodes ≡ nodes
      → d.dependencies ≡ db.dependencies
      → ◌≡◌ {A = FlowDb × List Text} (d, ids) answer
      → MovesTo db answer
  answered {db} {d} {answer} {nodes} {ids} m en ed e = subst (MovesTo db) e (record {
    moves = subst (λ n. Moves a s db.work_nodes db.dependencies n ids) (sym en) m;
    dependencies = ed;
  })

  park_attempt-MovesTo :
      (detail : Text) {db : FlowDb} {answer : FlowDb × List Text}
      → (has_passed s ≡ true → (d : Text) × (scope_failure_detail a s ≡ some d))
      → park_attempt random_uuid redact registered a s detail db ≡ ok answer
      → MovesTo db answer
  unfolding park_attempt update_node insert_event
  park_attempt-MovesTo detail {db} why h =
      let (d, moved, told) =
        >>=-eq-ok
          (if not (is_terminal_work_item_state a.work_item_state)
              && not (a.work_item_state == WorkItemState.parked)
            then _
            else _)
          _ h in
      let same =
        when-SameGraph random_uuid redact registered _
          (park_request random_uuid redact registered a s detail) moved in
      answered (halts why) same.nodes same.dependencies (ok-injective told)

  bright_line-fails :
      {detail : Text}
      → bright_line_detail random_uuid redact a s ≡ some detail
      → has_passed s ≡ false
  unfolding bright_line_detail
  bright_line-fails h = elim (Bool-cases (has_passed s)) [
    | inl t ↦
        none_is_not_some (
          rw (not_passed (is_pipeline a) (a.attempt.stage == implementation) (has_passed s) t) at h)
    | inr f ↦ f
  ]

  retry_at-MovesTo :
      (stage : WorkItemStage) {db : FlowDb} {answer : FlowDb × List Text}
      → has_passed s ≡ false
      → contains stage a.node.stage_template ≡ true
      → a.attempt.attempt < max_attempts a
      → retry_at random_uuid redact registered a s stage db ≡ ok answer
      → MovesTo db answer
  unfolding retry_at update_node insert_event
  retry_at-MovesTo stage {db} fails has left h =
      let (d, moved, told) =
        >>=-eq-ok
          (set_work_item_stage random_uuid redact registered _ a.node.plan_revision_id
            a.attempt.node_id stage s.now)
          _ h in
      let same =
        set_work_item_stage-SameGraph random_uuid redact registered a.node.plan_revision_id
          a.attempt.node_id stage s.now moved in
      answered (retries stage fails has left) same.nodes same.dependencies (ok-injective told)

  -- Where the attempts are used up the work item is given up, and the graph stays.
  given_up-SameGraph :
      (b : Bool) {db d : FlowDb}
      → (if b
          then give_up random_uuid redact registered a s db (item_row db a.work_item_id)
          else ok db)
        ≡ ok d
      → SameGraph db d
  given_up-SameGraph true {db} h =
      give_up-SameGraph random_uuid redact registered a s (item_row db a.work_item_id) h
  given_up-SameGraph false {db} h = subst (SameGraph db) (ok-injective h) same_graph

  fail_node-MovesTo :
      {db : FlowDb} {answer : FlowDb × List Text}
      → has_passed s ≡ false
      → fail_node random_uuid redact registered a s db ≡ ok answer
      → MovesTo db answer
  unfolding fail_node update_node insert_event
  fail_node-MovesTo {db} fails h =
      let (d, moved, told) =
        >>=-eq-ok (if leb (max_attempts a) a.attempt.attempt then _ else _) _ h in
      let same = given_up-SameGraph (leb (max_attempts a) a.attempt.attempt) moved in
      answered (halts (λ passes. absurd_bool passes fails)) same.nodes same.dependencies
        (ok-injective told)

  settle_failed-MovesTo :
      (stage : Option WorkItemStage) {db : FlowDb} {answer : FlowDb × List Text}
      → has_passed s ≡ false
      → settle_failed random_uuid redact registered a s stage db ≡ ok answer
      → MovesTo db answer
  unfolding settle_failed
  settle_failed-MovesTo none fails h = fail_node-MovesTo fails h
  settle_failed-MovesTo (some stage) fails h =
      elim (Bool-cases
        (contains stage a.node.stage_template && ltb a.attempt.attempt (max_attempts a))) [
          | inl t ↦
              let (has, left) = both_true _ _ t in
              retry_at-MovesTo stage fails has (ltb→lt a.attempt.attempt (max_attempts a) left)
                (rw t at h)
          | inr f ↦ fail_node-MovesTo fails (rw f at h)
        ]

  advance_to-MovesTo :
      (next : WorkItemStage) {db : FlowDb} {answer : FlowDb × List Text}
      → has_passed s ≡ true
      → scope_failure_detail a s ≡ none
      → next_stage a.node.stage_template a.attempt.stage ≡ some next
      → advance_to random_uuid redact registered a s next db ≡ ok answer
      → MovesTo db answer
  unfolding advance_to update_node insert_event
  advance_to-MovesTo next {db} passes scope is_next h =
      let (d, moved, told) =
        >>=-eq-ok
          (set_work_item_stage random_uuid redact registered _ a.node.plan_revision_id
            a.attempt.node_id next s.now)
          _ h in
      let same =
        set_work_item_stage-SameGraph random_uuid redact registered a.node.plan_revision_id
          a.attempt.node_id next s.now moved in
      answered (advances next passes scope is_next) same.nodes same.dependencies (ok-injective told)

  pub start_nodes-started :
      (ids : List Text) (db : FlowDb)
      → ((start_nodes random_uuid redact registered a s ids db).work_nodes
          ≡ started s.now ids db.work_nodes)
        × ((start_nodes random_uuid redact registered a s ids db).dependencies ≡ db.dependencies)
  unfolding start_nodes update_node insert_event
  start_nodes-started [] db = (refl, refl)
  start_nodes-started (id ∷ ids) db = start_nodes-started ids _

  start_and_finish-graph :
      (ids : List Text) (db : FlowDb) {answer : FlowDb × List Text}
      → start_and_finish random_uuid redact registered a s ids db ≡ ok answer
      → (d : FlowDb) × (d.work_nodes ≡ started s.now ids db.work_nodes)
        × (d.dependencies ≡ db.dependencies)
        × ((d, ids) ≡ answer)
  unfolding start_and_finish
  start_and_finish-graph ids db h =
      let (followed, was_followed, rest) =
        >>=-eq-ok
          (follow_first random_uuid redact registered a s ids
            (start_nodes random_uuid redact registered a s ids db))
          (λ (followed : FlowDb).
            finish_workflow random_uuid redact registered a s followed >>= λ finished.
            ok (finished, ids))
          h in
      let (finished, was_finished, told) =
        >>=-eq-ok (finish_workflow random_uuid redact registered a s followed)
          (λ (finished : FlowDb). ok (finished, ids)) rest in
      let (en, ed) = start_nodes-started ids db in
      let same =
        same_then (follow_first-SameGraph random_uuid redact registered a s ids was_followed)
          (finish_workflow-SameGraph random_uuid redact registered a s was_finished) in
      (finished, same.nodes ∙ en, same.dependencies ∙ ed, ok-injective told)

  complete_node-MovesTo :
      {db : FlowDb} {answer : FlowDb × List Text}
      → has_passed s ≡ true
      → scope_failure_detail a s ≡ none
      → next_stage a.node.stage_template a.attempt.stage ≡ none
      → complete_node random_uuid redact registered a s db ≡ ok answer
      → MovesTo db answer
  unfolding complete_node update_node insert_event
  complete_node-MovesTo {db} {answer} passes scope is_last h =
      let done = with_completed random_uuid redact registered a s db in
      let ids = newly_ready done a.attempt.node_id in
      let (d, en, ed, e) = start_and_finish-graph ids done h in
      answered (completes done ids passes scope is_last refl refl refl) en ed e

  settle_passed-MovesTo :
      (next : Option WorkItemStage) {db : FlowDb} {answer : FlowDb × List Text}
      → has_passed s ≡ true
      → scope_failure_detail a s ≡ none
      → next_stage a.node.stage_template a.attempt.stage ≡ next
      → settle_passed random_uuid redact registered a s next db ≡ ok answer
      → MovesTo db answer
  unfolding settle_passed
  settle_passed-MovesTo none passes scope e h = complete_node-MovesTo passes scope e h
  settle_passed-MovesTo (some next) passes scope e h = advance_to-MovesTo next passes scope e h

  move_on-MovesTo :
      (bright scope : Option Text) {db : FlowDb} {answer : FlowDb × List Text}
      → bright_line_detail random_uuid redact a s ≡ bright
      → scope_failure_detail a s ≡ scope
      → move_on random_uuid redact registered a s bright scope db ≡ ok answer
      → MovesTo db answer
  unfolding move_on
  move_on-MovesTo (some detail) scope is_bright is_scope h =
      park_attempt-MovesTo detail (λ passes. absurd_bool passes (bright_line-fails is_bright)) h
  move_on-MovesTo none (some detail) is_bright is_scope h =
      park_attempt-MovesTo detail (λ passes. (detail, is_scope)) h
  move_on-MovesTo none none is_bright is_scope h = elim (Bool-cases (has_passed s)) [
    | inl t ↦
        settle_passed-MovesTo (next_stage a.node.stage_template a.attempt.stage) t is_scope refl
          (rw t at h)
    | inr f ↦ settle_failed-MovesTo (return_stage a s) f (rw f at h)
  ]

  -- A settlement that succeeds makes exactly one of the moves: it blocks the node where the run failed or its
  -- change broke the scope, returns it to a stage of the template while attempts are left, sends it on to the
  -- next stage, or completes it and starts the nodes that waited for nothing else; only a passed run within the
  -- scope sends it on or completes it.
  pub settle_found-Moves :
      (db : FlowDb) {db' : FlowDb} {ids : List Text}
      → settle_found random_uuid redact registered a s db ≡ ok (db', ids)
      → Moves a s db.work_nodes db.dependencies db'.work_nodes ids
        × (db'.dependencies ≡ db.dependencies)
  unfolding settle_found
  settle_found-Moves db {db'} {ids} h =
      let found = insert_findings random_uuid redact a s 0 (findings_of s) db in
      let handed = insert_handoff random_uuid redact a s (scope_failure_detail a s) found in
      let (checked, passed_checks, rest) =
        >>=-eq-ok (check_settlement db a s)
          (λ (u : Unit {0}).
            move_on random_uuid redact registered a s (bright_line_detail random_uuid redact a s)
              (scope_failure_detail a s) handed)
          h in
      let same =
        same_then (insert_findings-SameGraph random_uuid redact registered a s 0 (findings_of s) db)
          (insert_handoff-SameGraph random_uuid redact registered a s (scope_failure_detail a s)
            found) in
      let to =
        move_on-MovesTo (bright_line_detail random_uuid redact a s) (scope_failure_detail a s) refl
          refl rest in
      (
        subst (λ ns. Moves a s ns db.dependencies db'.work_nodes ids) same.nodes
            (subst (λ ds. Moves a s handed.work_nodes ds db'.work_nodes ids) same.dependencies
              to.moves),
        to.dependencies ∙ same.dependencies,
      )
