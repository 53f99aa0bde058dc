-- ===== src/Plan.antt =====
-- src/shared/task-board-contract/validate/plans.ts: `validateWorkflowPlanChildren`, the policy on
-- the children that a workflow plan declares. `Children` has the data and the checks on keys and
-- dependencies, `Visit` the depth-first search for cycles, `Phases` the phased declaration.
mod Children
mod Visit
mod Phases
mod Tests
pub mod Steps
pub mod Fuel
pub mod Ranked
pub mod Acyclic
pub mod Accepted
pub mod Phased
unfoldable pub use Children.{
  check_keys, check_known, check_dependencies, check_scopes, check_against, check_pair,
  requires_disjoint_scopes, dependencies, dependencies_of, shares_checkout, has_phase,
}
pub use Children.*
unfoldable pub use Visit.{visit, visit_each, leave, visit_roots, check_acyclic}
pub use Visit.*
unfoldable pub use Phases.{
  check_phases, select_roles, check_roles, covers_published_interface, check_declared,
  validate_workflow_plan_children,
}
pub use Phases.*
