-- ===== src/Contract.antt =====
-- src/shared/task-board-contract/index.ts: the vocabulary of states and stages, the work-item
-- transition policy and the declared-scope rules, shared by board, workers and web.
mod States
mod Stages
mod Scope
mod Tests
pub mod ScopeLaws
unfoldable pub use States.{
  state_eq, is_terminal_work_item_state, work_item_transitions, is_work_item_transition_allowed,
}
pub use States.*
unfoldable pub use Stages.{stage_eq, pipeline_template_shape, review_finding_blocks}
pub use Stages.*
unfoldable pub use Scope.{
  strip_slashes, normalize_declared_scope, covers_path, declared_scopes_overlap,
  check_declared_scope_paths,
}
pub use Scope.*
