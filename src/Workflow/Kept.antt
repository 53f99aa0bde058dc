-- ===== src/Workflow/Kept.antt =====
-- src/server/task-board/persistence/workflow.ts: what leaves the nodes and their dependencies alone.
use nexus_seventeen.Prelude.{
  ℕ, suc, ◌≡◌, refl, sym, ap, ◌∙◌, Bool, true, false, List, [], ◌∷◌, Option, none, some, Text,
  if◌then◌else◌, ok, >>=-eq-ok, ok-injective, err_is_not_ok, eq_text,
}
use nexus_seventeen.Contract.{WorkItemStage, is_terminal_work_item_state}
use nexus_seventeen.Board.{WorkItem}
use nexus_seventeen.Transition.{Request, ParentTerminationCascade, transition_work_item}
use nexus_seventeen.Workflow.Rows.{
  FlowDb, FlowNode, FlowPlan, SettledAttempt, from_board, plan_row, item_row, insert_event,
}
use nexus_seventeen.Workflow.Stages.{transition, set_work_item_stage, stage_of_item, stage_of_plan}
use nexus_seventeen.Workflow.Handoffs.{
  AttemptSettlement, ReviewFindingDraft, insert_findings, insert_handoff,
}
use nexus_seventeen.Workflow.Settle.{
  give_up, follow_first, stage_of_node, finish_workflow, finish_item, finish_plan, is_unfinished,
}

pub record SameGraph (db db' : FlowDb) : Type 0 where
  pub nodes : db'.work_nodes ≡ db.work_nodes
  pub dependencies : db'.dependencies ≡ db.dependencies

pub same_graph : {db : FlowDb} → SameGraph db db
same_graph = record { nodes = refl; dependencies = refl }

pub same_then : {db db' db'' : FlowDb} → SameGraph db db' → SameGraph db' db'' → SameGraph db db''
same_then p q = record { nodes = q.nodes ∙ p.nodes; dependencies = q.dependencies ∙ p.dependencies }

abbrev equal_graph : {db db' : FlowDb} → db ≡ db' → SameGraph db db'
equal_graph e = record {
  nodes = ap (λ (d : FlowDb). d.work_nodes) (sym e);
  dependencies = ap (λ (d : FlowDb). d.dependencies) (sym e);
}

-- A database whose board alone differs.
abbrev new_board : {db db' d : FlowDb} → SameGraph db d → d ≡ db' → SameGraph db db'
new_board p e = same_then p (equal_graph e)

module _ (random_uuid : ℕ → Text) (redact : Text → Text)
    (registered : Option ParentTerminationCascade) where
  pub transition-SameGraph :
      {db db' : FlowDb} (request : Request)
      → transition random_uuid redact registered db request ≡ ok db'
      → SameGraph db db'
  transition-SameGraph {db} request h =
      let (answer, moved, told) =
        >>=-eq-ok (from_board (transition_work_item random_uuid redact registered db.board request))
          _ h in
      new_board (record { nodes = refl; dependencies = refl }) (ok-injective told)

  -- A transition that is made only where a test fails.
  pub unless-SameGraph :
      {db db' : FlowDb} (b : Bool) (request : Request)
      → (if b then ok db else transition random_uuid redact registered db request) ≡ ok db'
      → SameGraph db db'
  unless-SameGraph true request h = equal_graph (ok-injective h)
  unless-SameGraph false request h = transition-SameGraph request h

  pub when-SameGraph :
      {db db' : FlowDb} (b : Bool) (request : Request)
      → (if b then transition random_uuid redact registered db request else ok db) ≡ ok db'
      → SameGraph db db'
  when-SameGraph true request h = transition-SameGraph request h
  when-SameGraph false request h = equal_graph (ok-injective h)

  stage_of_item-SameGraph :
      {db db' : FlowDb} (node_id : Text) (stage : WorkItemStage) (now : Text)
      (item : Option WorkItem)
      → stage_of_item random_uuid redact registered db node_id stage now item ≡ ok db'
      → SameGraph db db'
  stage_of_item-SameGraph node_id stage now none h = err_is_not_ok h
  stage_of_item-SameGraph node_id stage now (some item) h =
      unless-SameGraph (is_terminal_work_item_state item.state) _ h

  stage_of_plan-SameGraph :
      {db db' : FlowDb} (node_id : Text) (stage : WorkItemStage) (now : Text)
      (plan : Option FlowPlan)
      → stage_of_plan random_uuid redact registered db node_id stage now plan ≡ ok db'
      → SameGraph db db'
  stage_of_plan-SameGraph node_id stage now none h = err_is_not_ok h
  stage_of_plan-SameGraph {db} node_id stage now (some plan) h =
      stage_of_item-SameGraph node_id stage now (item_row db plan.work_item_id) h

  pub set_work_item_stage-SameGraph :
      {db db' : FlowDb} (plan_revision_id node_id : Text) (stage : WorkItemStage) (now : Text)
      → set_work_item_stage random_uuid redact registered db plan_revision_id node_id stage now
        ≡ ok db'
      → SameGraph db db'
  unfolding set_work_item_stage
  set_work_item_stage-SameGraph {db} plan_revision_id node_id stage now h =
      stage_of_plan-SameGraph node_id stage now (plan_row db plan_revision_id) h

  module _ (a : SettledAttempt) (s : AttemptSettlement) where
    pub give_up-SameGraph :
        {db db' : FlowDb} (item : Option WorkItem)
        → give_up random_uuid redact registered a s db item ≡ ok db'
        → SameGraph db db'
    give_up-SameGraph none h = err_is_not_ok h
    give_up-SameGraph (some item) h = unless-SameGraph (is_terminal_work_item_state item.state) _ h

    follow_stage-SameGraph :
        {db db' : FlowDb} (id : Text) (stage : Option WorkItemStage)
        → (elim stage [
          | none ↦ ok db
          | some stage ↦
              set_work_item_stage random_uuid redact registered db a.node.plan_revision_id id stage
                s.now
        ])
          ≡ ok db'
        → SameGraph db db'
    follow_stage-SameGraph id none h = equal_graph (ok-injective h)
    follow_stage-SameGraph id (some stage) h =
        set_work_item_stage-SameGraph a.node.plan_revision_id id stage s.now h

    stage_of_node-SameGraph :
        {db db' : FlowDb} (id : Text) (node : Option FlowNode)
        → stage_of_node random_uuid redact registered a s id db node ≡ ok db'
        → SameGraph db db'
    stage_of_node-SameGraph id none h = equal_graph (ok-injective h)
    stage_of_node-SameGraph id (some node) h = follow_stage-SameGraph id node.current_stage h

    pub follow_first-SameGraph :
        {db db' : FlowDb} (ids : List Text)
        → follow_first random_uuid redact registered a s ids db ≡ ok db'
        → SameGraph db db'
    unfolding follow_first
    follow_first-SameGraph [] h = equal_graph (ok-injective h)
    follow_first-SameGraph {db} (id ∷ ids) h = stage_of_node-SameGraph id _ h

    finish_item-SameGraph :
        {db db' : FlowDb} (plan : FlowPlan) (item : Option WorkItem)
        → finish_item random_uuid redact registered a s db plan item ≡ ok db'
        → SameGraph db db'
    unfolding insert_event
    finish_item-SameGraph plan none h = err_is_not_ok h
    finish_item-SameGraph {db} plan (some item) h =
        let (finished, moved, told) =
          >>=-eq-ok (if is_terminal_work_item_state item.state then ok db else _) _ h in
        same_then (unless-SameGraph (is_terminal_work_item_state item.state) _ moved)
          (new_board (record { nodes = refl; dependencies = refl }) (ok-injective told))

    finish_plan-SameGraph :
        {db db' : FlowDb} (plan : Option FlowPlan)
        → finish_plan random_uuid redact registered a s db plan ≡ ok db'
        → SameGraph db db'
    finish_plan-SameGraph none h = err_is_not_ok h
    finish_plan-SameGraph {db} (some plan) h =
        finish_item-SameGraph plan (item_row db plan.work_item_id) h

    unfinished-SameGraph :
        {db db' : FlowDb} (b : Bool)
        → (if b
            then ok db
            else finish_plan random_uuid redact registered a s db
                (plan_row db a.node.plan_revision_id))
          ≡ ok db'
        → SameGraph db db'
    unfinished-SameGraph true h = equal_graph (ok-injective h)
    unfinished-SameGraph {db} false h =
        finish_plan-SameGraph (plan_row db a.node.plan_revision_id) h

    pub finish_workflow-SameGraph :
        {db db' : FlowDb}
        → finish_workflow random_uuid redact registered a s db ≡ ok db'
        → SameGraph db db'
    unfolding finish_workflow
    finish_workflow-SameGraph {db} h =
        unfinished-SameGraph (is_unfinished random_uuid redact registered a s db) h

  module _ (a : SettledAttempt) (s : AttemptSettlement) where
    pub insert_findings-SameGraph :
        (index : ℕ) (findings : List ReviewFindingDraft) (db : FlowDb)
        → SameGraph db (insert_findings random_uuid redact a s index findings db)
    unfolding insert_findings
    insert_findings-SameGraph index [] db = same_graph
    insert_findings-SameGraph index (f ∷ findings) db =
        same_then (record { nodes = refl; dependencies = refl })
          (insert_findings-SameGraph (suc index) findings _)

    pub insert_handoff-SameGraph :
        (scope_failure : Option Text) (db : FlowDb)
        → SameGraph db (insert_handoff random_uuid redact a s scope_failure db)
    unfolding insert_handoff
    insert_handoff-SameGraph scope_failure db = record { nodes = refl; dependencies = refl }
