-- ===== src/Transition/Log.antt =====
-- The audit log accounts for the state of every work item.
use nexus_seventeen.Prelude.{
  ℕ, ◌+◌, ◌≡◌, refl, sym, ap, ◌∙◌, subst, ◌⊎◌, inl, inr, true, false, Option, none, some, arith,
  Text, text_eq_iff, nat_eq_iff, if◌then◌else◌, ok, >>=-eq-ok, ok-injective, ◌==◌, eq_text,
  Bool-cases, beq_refl,
}
use nexus_seventeen.Contract.{WorkItemState, eq_state}
use nexus_seventeen.Board.{WorkItem, Store}
use nexus_seventeen.Transition.{
  Request, ParentTerminationCascade, transition_work_item, admit, touch_work_item, asks_nothing,
  touched, moved, update_row, insert_transition, write_move, write_park,
}
use nexus_seventeen.Transition.Lookup.{row_of, admit-row_of, row_of-update_row, update_row-rest}
use nexus_seventeen.Transition.Rules.{Keeps, Answer, CascadeKeeps, transition_work_item-keeps}
use nexus_seventeen.Transition.Replay.{
  Progress, advance, replay, replay-append, advance_skip, max_sequence-replay,
}

abbrev pub IsReplayed : Option WorkItem → Option Progress → Type 0
IsReplayed none progress = Unit
IsReplayed (some w) progress = (entries : ℕ) × (progress ≡ some (entries, some w.state))

-- For every key that names a work item, the log replays to that item's state.
abbrev pub LogAgrees : Store → Type 0
LogAgrees store =
    (id : Text)
    → IsReplayed (row_of store id) (replay id (some (0, none)) store.work_item_transitions)

IsReplayed-state :
    (w v : WorkItem) (progress : Option Progress)
    → w.state ≡ v.state
    → IsReplayed (some w) progress
    → IsReplayed (some v) progress
IsReplayed-state w v progress e (n, h) = (n, rw (← e) h)

-- A row that keeps its state keeps the agreement.
update-LogAgrees :
    (store : Store) (row : WorkItem) (id : Text) (change : WorkItem → WorkItem) {next : Store}
    → row_of store id ≡ some row
    → ((w : WorkItem) → (change w).work_item_id ≡ w.work_item_id)
    → row.state ≡ (change row).state
    → update_row store id row.version change ≡ ok next
    → LogAgrees store
    → LogAgrees next
update-LogAgrees store row id change {next} read keeps same h agrees other =
    rw
      (
        row_of-update_row store id change row h read keeps other,
        update_row-rest store id change row h,
      )
      (elim (Bool-cases (id == other)) [
        | inl e ↦
            rw (e, ← (text_eq_iff id other).0 e)
              (IsReplayed-state row (change row) _ same (rw read at (agrees id)))
        | inr e ↦ rw e (agrees other)
      ])

module _ (random_uuid : ℕ → Text) (redact : Text → Text) where
  -- A successful write is an update of the row, an entry of the log and a park record.
  pub write_move-eq-ok :
      (store : Store) (request : Request) (row : WorkItem) {next : Store}
      → write_move random_uuid redact store request row ≡ ok next
      → (updated : Store) × (update_row store request.work_item_id row.version (moved request row)
          ≡ ok updated)
        × (next
            ≡ write_park random_uuid redact request row.state
                (insert_transition request row.state updated))
  unfolding write_move
  write_move-eq-ok store request row h =
      let (updated, u, e) =
        >>=-eq-ok (update_row store request.work_item_id row.version (moved request row)) _ h in
      (updated, u, sym (ok-injective e))

  -- The park record touches neither the items nor the log.
  pub write_park-work_items :
      (request : Request) (from_state : WorkItemState) (store : Store)
      → (write_park random_uuid redact request from_state store).work_items ≡ store.work_items
  unfolding write_park
  write_park-work_items request from_state store = ground arith

  pub write_park-work_item_transitions :
      (request : Request) (from_state : WorkItemState) (store : Store)
      → (write_park random_uuid redact request from_state store).work_item_transitions
        ≡ store.work_item_transitions
  unfolding write_park
  write_park-work_item_transitions request from_state store = ground arith

-- The new entry continues the replay of its own item and is skipped by every other.
advance_new :
    (store : Store) (request : Request) (row : WorkItem) (entries : ℕ)
    → replay request.work_item_id (some (0, none)) store.work_item_transitions
      ≡ some (entries, some row.state)
    → replay request.work_item_id
        (some (0, none))
        (insert_transition request row.state store).work_item_transitions
      ≡ some (entries + 1, some request.to)
unfolding insert_transition advance
advance_new store request row entries h =
    rw
      (
        replay-append request.work_item_id (some (0, none)) store.work_item_transitions _,
        h,
        max_sequence-replay request.work_item_id store.work_item_transitions h,
        beq_refl request.work_item_id,
        beq_refl row.state,
      )
      (ground (arith, nat_eq_iff (1 + entries) (entries + 1)))

advance_other :
    (store : Store) (request : Request) (from_state : WorkItemState) (other : Text)
    → (request.work_item_id == other) ≡ false
    → replay other
        (some (0, none))
        (insert_transition request from_state store).work_item_transitions
      ≡ replay other (some (0, none)) store.work_item_transitions
unfolding insert_transition
advance_other store request from_state other ne =
    replay-append other (some (0, none)) store.work_item_transitions _ ∙ advance_skip other _ _ ne

module _ (random_uuid : ℕ → Text) (redact : Text → Text) (store : Store) (request : Request)
    (row : WorkItem) {next : Store} (admitted : admit store request ≡ ok row)
    (wrote : write_move random_uuid redact store request row ≡ ok next) where
  -- After a write, a read of the key sees the moved row, and any other read is as before.
  pub row_of-write_move :
      (other : Text)
      → row_of next other ≡ (
          if request.work_item_id == other
          then some (moved request row row)
          else row_of store other)
  unfolding row_of moved
  row_of-write_move other =
      let (updated, u, e) = write_move-eq-ok random_uuid redact store request row wrote in
      rw
        (
          e,
          write_park-work_items random_uuid redact request row.state
              (insert_transition request row.state updated),
        )
        (unfold insert_transition in
          row_of-update_row store request.work_item_id (moved request row) row u
            (admit-row_of store request admitted) (λ w. refl) other)

  write_move-work_item_transitions :
      next.work_item_transitions ≡ (insert_transition request row.state store).work_item_transitions
  unfolding insert_transition
  write_move-work_item_transitions =
      let (updated, u, e) = write_move-eq-ok random_uuid redact store request row wrote in
      rw (
        e,
        write_park-work_item_transitions random_uuid redact request row.state
            (insert_transition request row.state updated),
        update_row-rest store request.work_item_id (moved request row) row u,
      )

  pub write-LogAgrees : LogAgrees store → LogAgrees next
  unfolding moved
  write-LogAgrees agrees other =
      rw (row_of-write_move other, write_move-work_item_transitions)
        (elim (Bool-cases (request.work_item_id == other)) [
          | inl same ↦
              let (entries, h) : IsReplayed (some row) _ =
                rw (admit-row_of store request admitted) at (agrees request.work_item_id) in
              rw (same, ← (text_eq_iff request.work_item_id other).0 same)
                (entries + 1, advance_new store request row entries h)
          | inr ne ↦ rw (ne, advance_other store request row.state other ne) (agrees other)
        ])

-- A successful touch asked nothing, or updated the row without its state.
pub touch_work_item-eq-ok :
    (store : Store) (request : Request) (row : WorkItem) {answer : Answer}
    → touch_work_item store request row ≡ ok answer
    → ((asks_nothing request row ≡ true) × (answer ≡ (store, row.state, row.version)))
      ⊎ ((asks_nothing request row ≡ false)
          × (update_row store request.work_item_id row.version (touched request row) ≡ ok answer.0)
          × (answer ≡ (answer.0, row.state, row.version + 1)))
unfolding touch_work_item
touch_work_item-eq-ok store request row {answer} h = elim (Bool-cases (asks_nothing request row)) [
  | inl idle ↦ inl (idle, sym (ok-injective (rw idle at h)))
  | inr busy ↦
      let (updated, u, e) =
        >>=-eq-ok (update_row store request.work_item_id row.version (touched request row)) _
          (rw busy at h) in
      let given : (updated, row.state, row.version + 1) ≡ answer = ok-injective e in
      inr (
        busy,
        subst
            (λ (s : Store).
              update_row store request.work_item_id row.version (touched request row) ≡ ok s)
            (ap (λ (a : Answer). a.0) given) u,
        ground (arith, given),
      )
]

touch-LogAgrees :
    (store : Store) (request : Request) (row : WorkItem) {answer : Answer}
    → admit store request ≡ ok row
    → touch_work_item store request row ≡ ok answer
    → LogAgrees store
    → LogAgrees answer.0
unfolding touched
touch-LogAgrees store request row {answer} a h agrees =
    elim (touch_work_item-eq-ok store request row h) [
      | inl idle ↦ subst LogAgrees (sym (ap (λ (r : Answer). r.0) idle.1)) agrees
      | inr busy ↦
          update-LogAgrees store row request.work_item_id (touched request row)
            (admit-row_of store request a) (λ w. refl) refl busy.1 agrees
    ]

pub Keeps-LogAgrees :
    (random_uuid : ℕ → Text) (redact : Text → Text) → Keeps random_uuid redact LogAgrees
Keeps-LogAgrees random_uuid redact = record {
  touch = λ store request row a same h agrees. touch-LogAgrees store request row a h agrees;
  write = λ store request row a ne c h agrees.
      write-LogAgrees random_uuid redact store request row a h agrees;
}

-- After every successful transition, whatever a well-behaved cascade writes, the log of every work
-- item replays from its first entry to the state that the item is in.
pub transition_work_item-LogAgrees :
    (random_uuid : ℕ → Text) (redact : Text → Text) (registered : Option ParentTerminationCascade)
    (store : Store) (request : Request) {answer : Answer}
    → CascadeKeeps LogAgrees registered
    → transition_work_item random_uuid redact registered store request ≡ ok answer
    → LogAgrees store
    → LogAgrees answer.0
transition_work_item-LogAgrees random_uuid redact =
    transition_work_item-keeps random_uuid redact (Keeps-LogAgrees random_uuid redact)
