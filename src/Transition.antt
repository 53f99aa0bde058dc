-- ===== src/Transition.antt =====
-- src/server/task-board/persistence/work-item-transitions.ts: moves a work item between states
-- inside the caller's transaction. `Requests` has the checks on a request, `Writes` the statements
-- that change rows, and this file composes them as `transitionWorkItemInTransaction` does.
mod Requests
mod Writes
mod Tests
pub mod Lookup
pub mod Totality
pub mod Rules
pub mod Replay
pub mod Log
pub mod ParkTable
pub mod Parks
pub mod Safety
pub mod Parents
unfoldable pub use Requests.{assert_park_metadata, admit}
pub use Requests.*
unfoldable pub use Writes.{
  touch_work_item, asks_nothing, touched, moved, write_move, write_park, update_row,
  insert_transition, max_sequence, open_park_record, resolve_park_record, bounded_park_reason,
  text_leb,
}
pub use Writes.*
use nexus_seventeen.Prelude.{
  ℕ, ◌+◌, Bool, true, false, not, ◌&&◌, ◌||◌, List, Option, none, some, Text, lit, any, option_eq,
  if◌then◌else◌, Result, ok, err, ◌>>=◌, ◌>>◌, throw_if, or_throw, ◌==◌, ◌++◌, [], ◌∷◌, find,
  eq_text,
}
use nexus_seventeen.Contract.{
  WorkItemState, designing, implementing, merged, coordinating, final_approval, parked, queued,
  eq_state, is_work_item_transition_allowed, ActorType, system, child_failed,
}
use nexus_seventeen.Board.{
  WorkItem, Store, BoardError, parent_termination_cascade_missing, work_item_illegal_transition,
  work_item_transaction_required, work_item_not_found, corrupt_initial_transition_state,
}

-- What the registered cascade is told about a parent that ended.
pub record CascadeInput : Type 0 where
  pub parent_work_item_id : Text
  pub state : WorkItemState
  pub actor_type : ActorType
  pub actor_id : Text
  pub now : Text

-- A callback that another component registers for the database.
abbrev pub ParentTerminationCascade : Type 0
ParentTerminationCascade = CascadeInput → Store → Result BoardError Store

unfoldable pub has_children : Store → Text → Bool
unfolding any
has_children store work_item_id =
    any (λ w. option_eq w.parent_work_item_id (some work_item_id)) store.work_items

unfoldable pub requires_child : WorkItemState → WorkItemState → Bool
requires_child from to = from == queued && (to == designing || to == implementing)

unfoldable pub requires_decomposed_parent : WorkItemState → WorkItemState → Bool
requires_decomposed_parent from to =
    from == coordinating && to == merged
    || from == final_approval && to == coordinating
    || from == parked && to == coordinating

-- The two throws of `WORK_ITEM_ILLEGAL_TRANSITION`.
unfoldable pub check_move : Store → Request → WorkItem → Result BoardError (Unit {0})
unfolding requires_child requires_decomposed_parent
check_move store request row = do
  throw_if (not (is_work_item_transition_allowed row.state request.to))
      (work_item_illegal_transition row.state request.to)
  throw_if
      (requires_child row.state request.to && not (is_some row.parent_work_item_id)
        || requires_decomposed_parent row.state request.to
          && not (has_children store request.work_item_id))
      (work_item_illegal_transition row.state request.to)

-- `request.to === "abandoned" || request.to === "dead_letter"`
unfoldable pub is_failed_end : WorkItemState → Bool
is_failed_end to = to == WorkItemState.abandoned || to == WorkItemState.dead_letter

-- `none` where no cascade has to run.
unfoldable pub termination_cascade :
    Option ParentTerminationCascade
    → Store
    → Request
    → Result BoardError (Option ParentTerminationCascade)
termination_cascade registered store request =
    if is_failed_end request.to && has_children store request.work_item_id
    then (or_throw registered parent_termination_cascade_missing >>= λ cascade. ok (some cascade))
    else ok none

unfoldable pub run_cascade :
    Option ParentTerminationCascade → Request → Store → Result BoardError Store
run_cascade none request store = ok store
run_cascade (some cascade) request store =
    cascade
      (record {
        parent_work_item_id = request.work_item_id;
        state = request.to;
        actor_type = request.actor_type;
        actor_id = request.actor_id;
        now = request.now;
      })
      store

module _ (random_uuid : ℕ → Text) (redact_recognized_credentials : Text → Text) where
  -- Every move but one into a failed end; the recursive call of the source is such a move.
  unfoldable pub change_row :
      Store → Request → WorkItem → Result BoardError (Store × WorkItemState × ℕ)
  change_row store request row = do
    check_move store request row
    next ← write_move random_uuid redact_recognized_credentials store request row
    ok (next, row.state, row.version + 1)

  unfoldable pub move_work_item : Store → Request → Result BoardError (Store × WorkItemState × ℕ)
  unfolding change_row
  move_work_item store request = do
    row ← admit store request
    if request.to == row.state
        then touch_work_item store request row
        else change_row store request row

  -- The request of the source's recursive call.
  unfoldable pub child_failure : Request → Text → Request
  child_failure request parent_id = record {
    work_item_id = parent_id;
    to = parked;
    actor_type = system;
    actor_id = lit "system:child-state";
    now = request.now;
    ended_at = none;
    cancelled_reason = none;
    current_stage = some none;
    park = some (record {
      category = child_failed;
      reason =
          lit "Child "
          ++ request.work_item_id
          ++ (if request.to == WorkItemState.dead_letter
              then lit " was dead-lettered"
              else lit " was abandoned");
    });
    touch = false;
  }

  -- `parent?.state === "coordinating" || parent?.state === "final_approval"`
  unfoldable pub park_parent_row :
      Store → Request → Text → Option WorkItem → Result BoardError Store
  park_parent_row store request parent_id none = ok store
  park_parent_row store request parent_id (some parent) =
      if parent.state == coordinating || parent.state == final_approval
      then (move_work_item store (child_failure request parent_id) >>= λ answer. ok answer.0)
      else ok store

  unfoldable pub park_named_parent : Store → Request → Option Text → Result BoardError Store
  unfolding find park_parent_row
  park_named_parent store request none = ok store
  park_named_parent store request (some parent_id) =
      park_parent_row store request parent_id
        (find (λ w. w.work_item_id == parent_id) store.work_items)

  unfoldable pub park_parent_of : Store → Request → Option WorkItem → Result BoardError Store
  unfolding park_named_parent
  park_parent_of store request none = ok store
  park_parent_of store request (some child) =
      park_named_parent store request child.parent_work_item_id

  -- The row is read again, and its parent is parked if it still coordinates.
  unfoldable pub park_parent : Store → Request → Result BoardError Store
  unfolding find park_parent_of
  park_parent store request =
      park_parent_of store request
        (find (λ w. w.work_item_id == request.work_item_id) store.work_items)

  -- What a move into a failed end entails for the children and the parent.
  unfoldable pub end_failed :
      Option ParentTerminationCascade → Request → Store → Result BoardError Store
  unfolding run_cascade
  end_failed cascade request store =
      if is_failed_end request.to
      then (run_cascade cascade request store >>= λ cascaded. park_parent cascaded request)
      else ok store

  module _ (registered : Option ParentTerminationCascade) where
    unfoldable pub transition_row :
        Store → Request → WorkItem → Result BoardError (Store × WorkItemState × ℕ)
    unfolding termination_cascade end_failed
    transition_row store request row = do
      check_move store request row
      cascade ← termination_cascade registered store request
      written ← write_move random_uuid redact_recognized_credentials store request row
      ended ← end_failed cascade request written
      ok (ended, row.state, row.version + 1)

    -- `transitionWorkItemInTransaction`
    unfoldable pub transition_work_item :
        Store → Request → Result BoardError (Store × WorkItemState × ℕ)
    unfolding transition_row
    transition_work_item store request = do
      row ← admit store request
      if request.to == row.state
          then touch_work_item store request row
          else transition_row store request row

-- `recordInitialWorkItemTransitionInTransaction`
unfoldable pub record_initial_work_item_transition :
    Store → Text → ActorType → Text → Text → Result BoardError Store
unfolding find
record_initial_work_item_transition store work_item_id actor_type actor_id now = do
  throw_if (not store.has_open_transaction) work_item_transaction_required
  row ← or_throw (find (λ w. w.work_item_id == work_item_id) store.work_items) work_item_not_found
  throw_if (not (row.state == queued)) corrupt_initial_transition_state
  ok (record store {
    work_item_transitions =
        store.work_item_transitions
        ++ record {
          work_item_id = work_item_id;
          sequence = 1;
          from_state = none;
          to_state = queued;
          actor_type = actor_type;
          actor_id = actor_id;
          created_at = now;
        }
          ∷ [];
  })
