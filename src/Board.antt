-- ===== src/Board.antt =====
-- The rows of the board's database that the modelled code reads and writes
-- (src/server/task-board/persistence), and the errors that it raises.
use nexus_seventeen.Prelude.{ℕ, Bool, List, Option, Text}
use nexus_seventeen.Contract.{WorkItemState, WorkItemStage, ActorType, ParkCategory, ParkResolution}

pub data Phase : Type 0 where
  expand migrate contract : Phase

-- A row of `work_items`; the columns that no modelled statement names are left out.
pub record WorkItem : Type 0 where
  pub work_item_id : Text
  pub parent_work_item_id : Option Text
  pub state : WorkItemState
  pub current_stage : Option WorkItemStage
  pub cancelled_reason : Option Text
  pub ended_at : Option Text
  pub version : ℕ
  pub updated_at : Text
  pub phase : Option Phase
  pub child_ordinal : Option ℕ

-- A row of `work_item_transitions`.
pub record TransitionRow : Type 0 where
  pub work_item_id : Text
  pub sequence : ℕ
  pub from_state : Option WorkItemState
  pub to_state : WorkItemState
  pub actor_type : ActorType
  pub actor_id : Text
  pub created_at : Text

-- A row of `park_records`.
pub record ParkRecord : Type 0 where
  pub park_record_id : Text
  pub work_item_id : Text
  pub category : ParkCategory
  pub reason : Text
  pub parked_at : Text
  pub resolved_at : Option Text
  pub resolution : Option ParkResolution

-- Each table lists its rows in the order of their row numbers; an `INSERT` appends. `drawn` counts
-- the calls of `randomUUID`.
pub record Store : Type 0 where
  pub has_open_transaction : Bool
  pub work_items : List WorkItem
  pub work_item_transitions : List TransitionRow
  pub park_records : List ParkRecord
  pub drawn : ℕ

-- The `TaskBoardError`s and plain `Error`s of the modelled code.
pub data BoardError : Type 0 where
  work_item_transaction_required work_item_not_found park_record_invalid park_record_required
        terminal_requires_ended_at non_terminal_forbids_ended_at cancelled_reason_only_for_abandoned
        work_item_version_conflict parent_termination_cascade_missing
        corrupt_initial_transition_state :
      BoardError
  work_item_illegal_transition : WorkItemState → WorkItemState → BoardError
