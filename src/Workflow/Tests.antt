-- ===== src/Workflow/Tests.antt =====
-- A settlement of two nodes, one of which waits for the other, and the theorems at it.
use nexus_seventeen.Prelude.{
  some_injective, ℕ, ◌≡◌, refl, true, false, sym, ap, subst, ◌∙◌, List, [], ◌∷◌, Option, none, some,
  Text, text_eq, text_eq_iff, Result, ok, err,
}
use mathlib.Core.List.{Memᴰ}
use nexus_seventeen.Contract.{implementing, WorkItemStage, stage_eq, state_eq}
use nexus_seventeen.Board.{WorkItem}
use nexus_seventeen.Transition.{admit, touch_work_item}
use nexus_seventeen.Workflow.Machine.{settle_machine_verify}
use nexus_seventeen.Workflow.Nodes.{link_attempt}
use nexus_seventeen.Attempts.Rows.{
  AttemptState, MachineVerifyEvidence, WorkNodeState, pending, active,
}
use nexus_seventeen.Workflow.Rows.{
  FlowDb, FlowNode, NodeDependency, NodeAttempt, SettledAttempt, WorkflowError, attempt_of_task,
}
use nexus_seventeen.Workflow.Handoffs.{AttemptSettlement, run_completed}
use nexus_seventeen.Workflow.Settle.{settle_found, settle_attempt}
use nexus_seventeen.Workflow.Moves.{Moves, settle_found-Moves}
use nexus_seventeen.Workflow.Ordered.{IsOrdered, AllDone, is_begun}
use nexus_seventeen.Workflow.Unblocked.{HasNodeKeys}
use nexus_seventeen.Workflow.Attempted.{settle_attempt-IsOrdered}

abbrev unchanged : Text → Text
unchanged t = t

abbrev drawn_id : ℕ → Text
drawn_id n = n ∷ []

abbrev node : Text → WorkNodeState → Option WorkItemStage → FlowNode
node id state stage = record {
  node_id = id;
  project_id = 8 ∷ [];
  plan_revision_id = 5 ∷ [];
  title = [];
  objective = [];
  acceptance_criteria = [];
  stage_template = WorkItemStage.implementation ∷ [];
  current_stage = stage;
  state = state;
  version = 1;
  updated_at = [];
}

abbrev first_node : FlowNode
first_node = node (1 ∷ []) active (some WorkItemStage.implementation)

abbrev second_node : FlowNode
second_node = node (2 ∷ []) pending none

abbrev item : WorkItem
item = record {
  work_item_id = 3 ∷ [];
  parent_work_item_id = none;
  state = implementing;
  current_stage = some WorkItemStage.implementation;
  cancelled_reason = none;
  ended_at = none;
  version = 4;
  updated_at = [];
  phase = none;
  child_ordinal = none;
}

abbrev an_attempt : NodeAttempt
an_attempt = record {
  attempt_id = 7 ∷ [];
  node_id = 1 ∷ [];
  task_id = 6 ∷ [];
  stage = WorkItemStage.implementation;
  attempt = 1;
}

abbrev db : FlowDb
db = record {
  board = record {
    has_open_transaction = true;
    work_items = item ∷ [];
    work_item_transitions = [];
    park_records = [];
    drawn = 0;
  };
  branches = [];
  work_nodes = first_node ∷ second_node ∷ [];
  dependencies = record { node_id = 2 ∷ []; dependency_node_id = 1 ∷ [] } ∷ [];
  stage_attempts = an_attempt ∷ [];
  plan_revisions = record { plan_revision_id = 5 ∷ []; work_item_id = 3 ∷ []; objective = [] } ∷ [];
  stage_handoffs = [];
  review_findings = [];
  artifacts = [];
  questions = [];
  planning_tasks = [];
  project_events = [];
  verify_attempts = [];
  tasks = [];
  task_events = [];
}

abbrev settlement : AttemptSettlement
settlement = record {
  outcome = run_completed;
  result = [];
  draft = none;
  review_findings = none;
  scope_check = none;
  now = 9 ∷ [];
}

abbrev joined : SettledAttempt
joined = record {
  attempt = an_attempt;
  node = first_node;
  work_item_id = 3 ∷ [];
  work_item_state = implementing;
  pipeline_branch = none;
}

abbrev settled_db : Result WorkflowError (FlowDb × List Text) → FlowDb
settled_db (ok answer) = answer.0
settled_db (err e) = db

abbrev after : FlowDb
unfolding settle_attempt text_eq
after = settled_db (settle_attempt drawn_id unchanged none db (6 ∷ []) settlement)

joined_row : attempt_of_task db (6 ∷ []) ≡ some joined
unfolding attempt_of_task text_eq
joined_row = refl

it_settles :
    settle_attempt drawn_id unchanged none db (6 ∷ []) settlement ≡ ok (after, (2 ∷ []) ∷ [])
unfolding settle_attempt text_eq stage_eq state_eq admit touch_work_item
it_settles = refl

false_is_not_true {ℓ} : {A : Type ℓ} → false ≡ true → A
false_is_not_true h = cc

one_is_not_two : {A : Type 0} → ◌≡◌ {A = Text} (1 ∷ []) (2 ∷ []) → A
unfolding text_eq
one_is_not_two h = false_is_not_true ((text_eq_iff (1 ∷ []) (2 ∷ [])).1 h)

node_keys : HasNodeKeys db.work_nodes
node_keys x y (Memᴰ.head p) (Memᴰ.head q) e = p ∙ sym q
node_keys x y (Memᴰ.head p) (Memᴰ.tail (Memᴰ.head q)) e =
    one_is_not_two
      (sym (ap (λ (n : FlowNode). n.node_id) p) ∙ e ∙ ap (λ (n : FlowNode). n.node_id) q)
node_keys x y (Memᴰ.tail (Memᴰ.head p)) (Memᴰ.head q) e =
    one_is_not_two
      (sym (ap (λ (n : FlowNode). n.node_id) q) ∙ sym e ∙ ap (λ (n : FlowNode). n.node_id) p)
node_keys x y (Memᴰ.tail (Memᴰ.head p)) (Memᴰ.tail (Memᴰ.head q)) e = p ∙ sym q
node_keys x y (Memᴰ.head p) (Memᴰ.tail (Memᴰ.tail m)) e = elim m [ ]
node_keys x y (Memᴰ.tail (Memᴰ.head p)) (Memᴰ.tail (Memᴰ.tail m)) e = elim m [ ]
node_keys x y (Memᴰ.tail (Memᴰ.tail m)) my e = elim m [ ]

first_stands_alone :
    (d : NodeDependency) → Memᴰ d db.dependencies → {A : Type 0} → d.node_id ≡ 1 ∷ [] → A
first_stands_alone d (Memᴰ.head p) e =
    one_is_not_two (sym e ∙ ap (λ (c : NodeDependency). c.node_id) p)
first_stands_alone d (Memᴰ.tail m) e = elim m [ ]

begun_after :
    (n : FlowNode)
    → Memᴰ n db.work_nodes
    → is_begun n.state ≡ true
    → AllDone db.dependencies db.work_nodes n.node_id
begun_after n (Memᴰ.head p) b d md ed =
    first_stands_alone d md (ed ∙ ap (λ (m : FlowNode). m.node_id) p)
begun_after n (Memᴰ.tail (Memᴰ.head p)) b d md ed =
    false_is_not_true (subst (λ (m : FlowNode). is_begun m.state ≡ true) p b)
begun_after n (Memᴰ.tail (Memᴰ.tail m)) b d md ed = elim m [ ]

ordered : IsOrdered db.dependencies db.work_nodes
ordered = record { begun = begun_after }

joined_is_active :
    (a : SettledAttempt) → attempt_of_task db (6 ∷ []) ≡ some a → a.node.state ≡ active
joined_is_active a h =
    sym (ap (λ (r : SettledAttempt). r.node.state) (some_injective (sym joined_row ∙ h)))

it_settles_found :
    settle_found drawn_id unchanged none joined settlement db ≡ ok (after, (2 ∷ []) ∷ [])
unfolding settle_attempt settle_found text_eq stage_eq state_eq admit touch_work_item
it_settles_found = refl

settle_found-Moves_example :
    Moves joined settlement db.work_nodes db.dependencies after.work_nodes ((2 ∷ []) ∷ [])
    × (after.dependencies ≡ db.dependencies)
settle_found-Moves_example =
    settle_found-Moves drawn_id unchanged none joined settlement db it_settles_found

-- The first node at its testing stage, which a machine verifies.
abbrev testing_node : FlowNode
testing_node = record first_node {
  stage_template = WorkItemStage.testing ∷ [];
  current_stage = some WorkItemStage.testing;
}

abbrev verifying_db : FlowDb
verifying_db = record db {
  work_nodes = testing_node ∷ second_node ∷ [];
  verify_attempts =
      record {
        verify_attempt_id = 4 ∷ [];
        node_id = 1 ∷ [];
        stage = WorkItemStage.testing;
        attempt = 1;
        verify_run_id = none;
        workspace_path = none;
        state = AttemptState.green;
        check_results = none;
        detail = none;
        created_at = [];
        ended_at = none;
      }
      ∷ [];
}

abbrev verified : MachineVerifyEvidence
verified = record { summary = []; evidence = []; acceptance_criteria = []; blockers = [] }

abbrev verified_db : FlowDb
unfolding settle_machine_verify text_eq
verified_db = settled_db (
    settle_machine_verify drawn_id unchanged none verifying_db (1 ∷ []) WorkItemStage.testing true
      verified (9 ∷ []))

it_verifies :
    settle_machine_verify drawn_id unchanged none verifying_db
      (1 ∷ [])
      WorkItemStage.testing
      true
      verified
      (9 ∷ [])
    ≡ ok (verified_db, (2 ∷ []) ∷ [])
unfolding settle_machine_verify text_eq stage_eq
it_verifies = refl

abbrev completed_node : FlowNode
completed_node = record first_node {
  state = WorkNodeState.completed;
  current_stage = none;
  version = 2;
  updated_at = 9 ∷ [];
}

abbrev ready_node : FlowNode
ready_node = record second_node {
  state = WorkNodeState.ready;
  current_stage = some WorkItemStage.implementation;
  version = 2;
  updated_at = 9 ∷ [];
}

-- The first attempt settles, and an attempt is linked to the node that it made ready.
abbrev linked_db : FlowDb
linked_db = link_attempt drawn_id after (2 ∷ []) (6 ∷ 6 ∷ []) WorkItemStage.implementation (9 ∷ [])

settle_attempt-IsOrdered_example : IsOrdered after.dependencies after.work_nodes
settle_attempt-IsOrdered_example =
    settle_attempt-IsOrdered drawn_id unchanged none db (6 ∷ []) settlement {db' = after} node_keys
      joined_is_active ordered it_settles
