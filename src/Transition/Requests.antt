-- ===== src/Transition/Requests.antt =====
-- src/server/task-board/persistence/work-item-transitions.ts: the request, and the checks that
-- precede every write.
use nexus_seventeen.Prelude.{
  Bool, true, false, not, ◌&&◌, Option, none, some, Text, is_nil, find, Result, ok, err, ◌>>=◌,
  ◌>>◌, throw_if, or_throw, ◌==◌, eq_text,
}
use nexus_seventeen.Contract.{
  WorkItemState, parked, eq_state, is_terminal_work_item_state, WorkItemStage, ActorType,
  ParkCategory,
}
use nexus_seventeen.Board.{
  WorkItem, Store, BoardError, work_item_transaction_required, work_item_not_found,
  park_record_invalid, park_record_required, terminal_requires_ended_at,
  non_terminal_forbids_ended_at, cancelled_reason_only_for_abandoned,
}

pub record Park : Type 0 where
  pub category : ParkCategory
  pub reason : Text

-- An optional field that may also be `null` is an option of an option: `none` is `undefined`.
pub record Request : Type 0 where
  pub work_item_id : Text
  pub to : WorkItemState
  pub actor_type : ActorType
  pub actor_id : Text
  pub now : Text
  pub ended_at : Option Text
  pub cancelled_reason : Option (Option Text)
  pub current_stage : Option (Option WorkItemStage)
  pub park : Option Park
  pub touch : Bool

abbrev pub is_some {ℓ} : {A : Type ℓ} → Option A → Bool
is_some none = false
is_some (some a) = true

-- The type of `park` leaves an empty reason as the one invalid value.
assert_parked : Option Park → Result BoardError (Unit {0})
unfolding is_nil
assert_parked none = err park_record_required
assert_parked (some park) = throw_if (is_nil park.reason) park_record_invalid

unfoldable pub assert_park_metadata : Request → Result BoardError (Unit {0})
unfolding assert_parked
assert_park_metadata request = elim (request.to == parked) [
  | true ↦ assert_parked request.park
  | false ↦ throw_if (is_some request.park) park_record_invalid
]

-- The checks up to `const fromState = row.state`; the result is the row that they read.
unfoldable pub admit : Store → Request → Result BoardError WorkItem
unfolding assert_park_metadata find
admit store request = do
  throw_if (not store.has_open_transaction) work_item_transaction_required
  row ←
      or_throw (find (λ w. w.work_item_id == request.work_item_id) store.work_items)
        work_item_not_found
  assert_park_metadata request
  let terminal = is_terminal_work_item_state request.to
  throw_if (terminal && not (is_some request.ended_at)) terminal_requires_ended_at
  throw_if (not terminal && is_some request.ended_at) non_terminal_forbids_ended_at
  throw_if (not (request.to == WorkItemState.abandoned) && is_some request.cancelled_reason)
      cancelled_reason_only_for_abandoned
  ok row
