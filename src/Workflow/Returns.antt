-- ===== src/Workflow/Returns.antt =====
-- The statements that put a node back to work or insert one: src/server/task-board/persistence/workflow.ts, and
-- collaborators/verify-attempts.ts and collaborators/board-runtime.ts of src/server/task-board. The rest of what
-- their functions do leaves the nodes alone, and is left out.
use nexus_seventeen.Prelude.{
  ℕ, Bool, not, ◌&&◌, ◌||◌, List, [], ◌∷◌, ◌++◌, map, none, some, Text, take, tally, update_where,
  nat_eq, if◌then◌else◌, Result, ok, err, eq_text, eq_nat, option_eq,
}
use nexus_seventeen.Contract.{WorkItemStage, implementation, testing, verification, eq_stage}
use nexus_seventeen.Attempts.Rows.{pending, ready, active, is_activatable}
use nexus_seventeen.Workflow.Rows.{
  FlowDb, FlowNode, WorkflowError, final_approval_node_not_completed,
  interface_publication_node_not_completed, machine_verify_activation_conflict,
  work_node_version_conflict, moved_node, blocked_node,
}
use nexus_seventeen.Workflow.Handoffs.{is_given}
use nexus_seventeen.Workflow.Settle.{is_completed}
use nexus_seventeen.Workflow.Machine.{is_active_state}
use nexus_seventeen.Workflow.Nodes.{is_node_in, update_nodes, activated_node, is_blocked_state}

-- An `UPDATE` that has to change one row.
abbrev pub update_one :
    WorkflowError → (FlowNode → Bool) → (FlowNode → FlowNode) → FlowDb → Result WorkflowError FlowDb
update_one error p f db =
    if nat_eq (tally p db.work_nodes) 1 then ok (update_nodes p f db) else err error

abbrev pub returned_node : Text → FlowNode → FlowNode
returned_node now n = moved_node ready (some implementation) now n

-- Of `returnFinalApprovalToImplementationInTransaction`.
unfoldable pub return_final_approval : FlowDb → Text → Text → Result WorkflowError FlowDb
unfolding tally update_where
return_final_approval db node_id now =
    update_one final_approval_node_not_completed (is_node_in node_id is_completed)
      (returned_node now) db

-- `state='completed' AND current_stage IS NULL`
abbrev pub is_published : Text → FlowNode → Bool
is_published node_id n = is_node_in node_id is_completed n && not (is_given n.current_stage)

-- Where the published interface fails for the last time.
unfoldable pub block_published : FlowDb → Text → Text → Result WorkflowError FlowDb
unfolding tally update_where
block_published db node_id now =
    update_one interface_publication_node_not_completed (is_published node_id) (blocked_node now) db

-- Where attempts are left.
unfoldable pub return_published : FlowDb → Text → Text → Result WorkflowError FlowDb
unfolding tally update_where
return_published db node_id now =
    update_one interface_publication_node_not_completed (is_published node_id) (returned_node now)
      db

abbrev pub is_verifiable : Text → WorkItemStage → FlowNode → Bool
is_verifiable node_id stage n =
    is_node_in node_id is_activatable n && option_eq n.current_stage (some stage)

-- Of `createStartingAttemptInTransaction`, on the nodes of a workflow.
unfoldable pub activate_verified :
    FlowDb → Text → WorkItemStage → Text → Result WorkflowError FlowDb
unfolding is_activatable tally update_where
activate_verified db node_id stage now =
    update_one machine_verify_activation_conflict (is_verifiable node_id stage) (activated_node now)
      db

abbrev pub is_recoverable : Text → ℕ → WorkItemStage → FlowNode → Bool
is_recoverable node_id version stage n =
    is_node_in node_id (λ state. is_active_state state || is_blocked_state state) n
    && nat_eq n.version version
    && option_eq n.current_stage (some stage)

-- The recovery of the task of a node.
unfoldable pub recover_node : FlowDb → Text → ℕ → WorkItemStage → Text → Result WorkflowError FlowDb
unfolding tally update_where
recover_node db node_id version stage now =
    update_one work_node_version_conflict (is_recoverable node_id version stage)
      (moved_node active (some stage) now) db

-- A node of a proposed plan, as the checks of `proposeInTransaction` leave it.
pub record PlanNode : Type 0 where
  pub node_id : Text
  pub title : Text
  pub objective : Text
  pub acceptance_criteria : List Text
  pub stages : List WorkItemStage
  pub dependency_node_ids : List Text

-- The body of the loop of `proposeInTransaction` over the nodes, where `stored` gives the identifier that a node is
-- stored under.
unfoldable pub insert_node : FlowDb → (Text → Text) → Text → Text → Text → PlanNode → FlowDb
insert_node db stored plan_id project_id created_at node = record db {
  work_nodes =
      db.work_nodes
      ++ record {
        node_id = stored node.node_id;
        project_id = project_id;
        plan_revision_id = plan_id;
        title = node.title;
        objective = node.objective;
        acceptance_criteria = node.acceptance_criteria;
        stage_template = node.stages;
        current_stage = none;
        state = pending;
        version = 1;
        updated_at = created_at;
      }
        ∷ [];
  dependencies =
      db.dependencies
      ++ map
          (λ dependency. record {
            node_id = stored node.node_id;
            dependency_node_id = stored dependency;
          })
          node.dependency_node_ids;
}

abbrev child_pipeline_stage_template : List WorkItemStage
child_pipeline_stage_template = implementation ∷ testing ∷ verification ∷ []

abbrev pub child_node : Text → Text → Text → Text → List Text → Text → FlowNode
child_node node_id plan_revision_id project_id objective acceptance_criteria now = record {
  node_id = node_id;
  project_id = project_id;
  plan_revision_id = plan_revision_id;
  title = take 256 objective;
  objective = objective;
  acceptance_criteria = acceptance_criteria;
  stage_template = child_pipeline_stage_template;
  current_stage = none;
  state = pending;
  version = 1;
  updated_at = now;
}

-- The node of a materialised child of a plan.
unfoldable pub insert_child : FlowDb → Text → Text → Text → Text → List Text → Text → FlowDb
insert_child db node_id plan_revision_id project_id objective acceptance_criteria now = record db {
  work_nodes =
      db.work_nodes
      ++ child_node node_id plan_revision_id project_id objective acceptance_criteria now ∷ [];
}
