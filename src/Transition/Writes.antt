-- ===== src/Transition/Writes.antt =====
-- src/server/task-board/persistence/work-item-transitions.ts: the statements that change rows.
use nexus_seventeen.Prelude.{
  ℕ, ◌+◌, ◌-◌, Bool, true, false, not, ◌&&◌, ◌||◌, List, [], ◌∷◌, ◌++◌, Option, none, some, Text,
  length, leb, tally, update_where, nat_eq, option_eq, if◌then◌else◌, Result, ok, err, ◌>>=◌, ◌==◌,
  eq_text,
}
use nexus_seventeen.Contract.{
  WorkItemState, parked, eq_state, WorkItemStage, eq_stage, system, ParkResolution, resumed,
  auto_abandoned,
}
use nexus_seventeen.Redact.{redact_for_persistence}
use nexus_seventeen.Board.{
  WorkItem, TransitionRow, ParkRecord, Store, BoardError, work_item_version_conflict,
}
use nexus_seventeen.Transition.Requests.{Request, Park, is_some}

-- `CASE WHEN ? = 1 THEN ? ELSE column END`
abbrev pub set_if_given {ℓ} : {A : Type ℓ} → Option A → A → A
set_if_given none old = old
set_if_given (some new) old = new

-- `request.field !== undefined && request.field !== row.field`
unfoldable pub stage_changed : Option (Option WorkItemStage) → Option WorkItemStage → Bool
stage_changed none current = false
stage_changed (some stage) current = not (option_eq stage current)

unfoldable pub reason_changed : Option (Option Text) → Option Text → Bool
reason_changed none current = false
reason_changed (some reason) current = not (option_eq reason current)

-- `UPDATE work_items SET … WHERE work_item_id = ? AND version = ?`, which must change one row.
unfoldable pub update_row : Store → Text → ℕ → (WorkItem → WorkItem) → Result BoardError Store
unfolding tally update_where
update_row store work_item_id version change =
    let selected = λ (w : WorkItem). w.work_item_id == work_item_id && nat_eq w.version version in
    if nat_eq (tally selected store.work_items) 1
    then ok (record store { work_items = update_where selected change store.work_items })
    else err work_item_version_conflict

unfoldable pub touched : Request → WorkItem → WorkItem → WorkItem
touched request row w = record w {
  current_stage = set_if_given request.current_stage w.current_stage;
  cancelled_reason = set_if_given request.cancelled_reason w.cancelled_reason;
  version = row.version + 1;
  updated_at = request.now;
}

-- `!stageChanged && !reasonChanged && request.touch !== true`
unfoldable pub asks_nothing : Request → WorkItem → Bool
unfolding stage_changed reason_changed
asks_nothing request row =
    not (stage_changed request.current_stage row.current_stage)
    && not (reason_changed request.cancelled_reason row.cancelled_reason)
    && not request.touch

-- The branch `request.to === fromState`.
unfoldable pub touch_work_item :
    Store → Request → WorkItem → Result BoardError (Store × WorkItemState × ℕ)
unfolding asks_nothing update_row touched
touch_work_item store request row =
    if asks_nothing request row
    then ok (store, row.state, row.version)
    else (update_row store request.work_item_id row.version (touched request row) >>= λ updated.
        ok (updated, row.state, row.version + 1))

abbrev or_null {ℓ} : {A : Type ℓ} → Option (Option A) → Option A
or_null none = none
or_null (some value) = value

unfoldable pub moved : Request → WorkItem → WorkItem → WorkItem
moved request row w = record w {
  state = request.to;
  ended_at = request.ended_at;
  cancelled_reason =
      if request.to == WorkItemState.abandoned then or_null request.cancelled_reason else none;
  current_stage = set_if_given request.current_stage w.current_stage;
  version = row.version + 1;
  updated_at = request.now;
}

-- `COALESCE(MAX(sequence), 0)` over the rows of one work item.
unfoldable pub max_sequence : Text → List TransitionRow → ℕ
max_sequence work_item_id [] = 0
max_sequence work_item_id (t ∷ ts) =
    let rest = max_sequence work_item_id ts in
    if t.work_item_id == work_item_id && not (leb t.sequence rest) then t.sequence else rest

unfoldable pub insert_transition : Request → WorkItemState → Store → Store
unfolding max_sequence
insert_transition request from_state store = record store {
  work_item_transitions =
      store.work_item_transitions
      ++ record {
        work_item_id = request.work_item_id;
        sequence = 1 + max_sequence request.work_item_id store.work_item_transitions;
        from_state = some from_state;
        to_state = request.to;
        actor_type = request.actor_type;
        actor_id = request.actor_id;
        created_at = request.now;
      }
        ∷ [];
}

abbrev pub park_reason_max_length : ℕ
park_reason_max_length = 2000

-- The marker is U+2026, one code unit.
abbrev park_reason_truncation_marker : Text
park_reason_truncation_marker = 0x2026 ∷ []

unfoldable pub resolution_for_park_exit : Request → ParkResolution
resolution_for_park_exit request =
    if request.to == WorkItemState.abandoned
    then elim request.actor_type [ system ↦ auto_abandoned | _ ↦ ParkResolution.abandoned ]
    else if request.to == WorkItemState.dead_letter
    then ParkResolution.dead_letter
    else resumed

-- SQLite's order on texts. A timestamp is ASCII, where code units and bytes agree.
unfoldable pub text_leb : Text → Text → Bool
text_leb [] bs = true
text_leb (a ∷ as') [] = false
text_leb (a ∷ as') (b ∷ bs) = not (leb b a) || (nat_eq a b && text_leb as' bs)

-- `ORDER BY parked_at DESC, rowid DESC LIMIT 1` among the open rows of a work item: a later row
-- wins a tie.
unfoldable pub later : Option ParkRecord → ParkRecord → Option ParkRecord
unfolding text_leb
later none p = some p
later (some best) p = if text_leb best.parked_at p.parked_at then some p else some best

unfoldable pub latest_open : Text → Option ParkRecord → List ParkRecord → Option ParkRecord
unfolding later
latest_open work_item_id best [] = best
latest_open work_item_id best (p ∷ ps) =
    latest_open work_item_id
      (if p.work_item_id == work_item_id && not (is_some p.resolved_at) then later best p else best)
      ps

unfoldable pub resolved : Request → ParkRecord → ParkRecord
unfolding resolution_for_park_exit
resolved request p = record p {
  resolved_at = some request.now;
  resolution = some (resolution_for_park_exit request);
}

-- An `UPDATE` whose subquery is NULL selects no row.
unfoldable pub resolve_park_record : Request → Store → Store
unfolding latest_open resolved update_where
resolve_park_record request store =
    elim (latest_open request.work_item_id none store.park_records) [
      | none ↦ store
      | some open_record ↦ record store {
        park_records =
            update_where (λ p. p.park_record_id == open_record.park_record_id) (resolved request)
              store.park_records;
      }
    ]

unfoldable pub bounded_park_reason : (Text → Text) → Text → Text
bounded_park_reason redact_recognized_credentials reason =
    let redacted = redact_for_persistence redact_recognized_credentials reason none in
    let content_length = park_reason_max_length - length park_reason_truncation_marker in
    if leb (length redacted) park_reason_max_length
    then redacted
    else redact_for_persistence redact_recognized_credentials redacted (some content_length)
      ++ park_reason_truncation_marker

module _ (random_uuid : ℕ → Text) (redact_recognized_credentials : Text → Text) where
  unfoldable pub open_park_record : Request → Park → Store → Store
  unfolding bounded_park_reason
  open_park_record request park store = record store {
    park_records =
        store.park_records
        ++ record {
          park_record_id = random_uuid store.drawn;
          work_item_id = request.work_item_id;
          category = park.category;
          reason = bounded_park_reason redact_recognized_credentials park.reason;
          parked_at = request.now;
          resolved_at = none;
          resolution = none;
        }
          ∷ [];
    drawn = store.drawn + 1;
  }

  -- `if (request.to === "parked") … else if (fromState === "parked") …`. A parked request has its
  -- metadata, by `assertParkMetadata`.
  unfoldable pub write_park : Request → WorkItemState → Store → Store
  unfolding open_park_record resolve_park_record
  write_park request from_state store =
      if request.to == parked
      then elim request.park [ none ↦ store | some park ↦ open_park_record request park store ]
      else if from_state == parked
      then resolve_park_record request store
      else store

  -- The update of the row, the entry of the log and the park record, in the code's order.
  unfoldable pub write_move : Store → Request → WorkItem → Result BoardError Store
  unfolding update_row moved insert_transition write_park
  write_move store request row = do
    updated ← update_row store request.work_item_id row.version (moved request row)
    ok (write_park request row.state (insert_transition request row.state updated))
