-- ===== src/Transition/Parks.antt =====
-- A work item is parked exactly while it has one open park record.
use nexus_seventeen.Prelude.{
  ℕ, ◌+◌, ◌≡◌, refl, sym, ap, subst, ◌⊎◌, inl, inr, true, false, ◌&&◌, Option, none, some, arith,
  Text, text_eq_iff, if◌then◌else◌, ok, ◌==◌, eq_text, Bool-cases, Option-cases, beq_refl,
}
use nexus_seventeen.Contract.{WorkItemState, parked, eq_state, state_eq_iff}
use nexus_seventeen.Board.{WorkItem, ParkRecord, Store}
use nexus_seventeen.Transition.{
  Request, ParentTerminationCascade, transition_work_item, admit, touch_work_item, touched, moved,
  insert_transition, write_move, write_park, open_park_record, resolve_park_record,
}
use nexus_seventeen.Transition.Writes.{latest_open, resolved}
use nexus_seventeen.Transition.Requests.{Park}
use nexus_seventeen.Transition.Lookup.{row_of, admit-row_of, row_of-update_row, update_row-rest}
use nexus_seventeen.Transition.Rules.{Keeps, Answer, CascadeKeeps, transition_work_item-keeps}
use nexus_seventeen.Transition.Log.{write_move-eq-ok, row_of-write_move, touch_work_item-eq-ok}
use nexus_seventeen.Transition.ParkTable.{
  open_for, opens, Distinct, tally-append, latest_open-Chosen, latest_open-none, resolve-opens,
  resolve-Distinct, Drawn, Drawn-append, Drawn-resolve, Distinct-append,
}

abbrev pub IsCounted : Option WorkItem → ℕ → Type 0
IsCounted none n = Unit
IsCounted (some w) n = n ≡ (if w.state == parked then 1 else 0)

-- Every work item has one open record if it is parked and none otherwise; the identifiers of the
-- records are distinct, and were drawn.
pub record ParksAgree (random_uuid : ℕ → Text) (store : Store) : Type 0 where
  pub counted : (id : Text) → IsCounted (row_of store id) (opens id store.park_records)
  pub distinct : Distinct store.park_records
  pub drawn : Drawn random_uuid store.drawn store.park_records

IsCounted-state :
    (w v : WorkItem) (n : ℕ) → w.state ≡ v.state → IsCounted (some w) n → IsCounted (some v) n
IsCounted-state w v n e h = rw (← e) h

module _ (random_uuid : ℕ → Text) (redact : Text → Text)
    (no_collision : (m n : ℕ) → random_uuid m ≡ random_uuid n → m ≡ n) where
  touch-ParksAgree :
      (store : Store) (request : Request) (row : WorkItem) {answer : Answer}
      → admit store request ≡ ok row
      → touch_work_item store request row ≡ ok answer
      → ParksAgree random_uuid store
      → ParksAgree random_uuid answer.0
  unfolding touched
  touch-ParksAgree store request row {answer} a h agrees =
      elim (touch_work_item-eq-ok store request row h) [
        | inl idle ↦ subst (ParksAgree random_uuid) (sym (ap (λ (r : Answer). r.0) idle.1)) agrees
        | inr busy ↦
            let rest =
              update_row-rest store request.work_item_id (touched request row) row busy.1 in
            record {
              counted = λ other.
                  rw
                    (
                      row_of-update_row store request.work_item_id (touched request row) row busy.1
                          (admit-row_of store request a) (λ w. refl) other,
                      rest,
                    )
                    (elim (Bool-cases (request.work_item_id == other)) [
                      | inl same ↦
                          rw (same, ← (text_eq_iff request.work_item_id other).0 same)
                            (IsCounted-state row (touched request row row) _ refl (
                              rw (admit-row_of store request a) at
                                (agrees.counted request.work_item_id)))
                      | inr ne ↦ rw ne (agrees.counted other)
                    ]);
              distinct = rw rest agrees.distinct;
              drawn = rw rest agrees.drawn;
            }
      ]

  write_park-parks :
      (request : Request) (from_state : WorkItemState) (s t : Store)
      → s.park_records ≡ t.park_records
      → s.drawn ≡ t.drawn
      → ((write_park random_uuid redact request from_state s).park_records
          ≡ (write_park random_uuid redact request from_state t).park_records)
        × ((write_park random_uuid redact request from_state s).drawn
            ≡ (write_park random_uuid redact request from_state t).drawn)
  unfolding write_park
  write_park-parks request from_state s t e e' = ground arith

  -- What is known of a move when its park record is written.
  record Parking (store : Store) (request : Request) (from_state : WorkItemState) : Type 0 where
    changed : (request.to == from_state) ≡ false
    given : (request.to == parked) ≡ true → (park : Park) × (request.park ≡ some park)
    open_before : (from_state == parked) ≡ true → opens request.work_item_id store.park_records ≡ 1
    distinct : Distinct store.park_records
    drawn : Drawn random_uuid store.drawn store.park_records

  record Parked (store : Store) (request : Request) (from_state : WorkItemState) (next : Store)
      : Type 0 where
    counted :
        (other : Text)
        → opens other next.park_records
            + (if request.work_item_id == other && from_state == parked then 1 else 0)
          ≡ opens other store.park_records
            + (if request.work_item_id == other && request.to == parked then 1 else 0)
    distinct : Distinct next.park_records
    drawn : Drawn random_uuid next.drawn next.park_records

  open-Parked :
      (store : Store) (request : Request) (from_state : WorkItemState) (park : Park)
      → Parking store request from_state
      → (request.to == parked) ≡ true
      → (from_state == parked) ≡ false
      → Parked store request from_state (open_park_record random_uuid redact request park store)
  unfolding open_park_record
  open-Parked store request from_state park k to_parked from_other = record {
    counted = λ other.
        rw (to_parked, from_other, tally-append (open_for other) store.park_records _)
          (ground (arith, Bool-cases (request.work_item_id == other)));
    distinct =
        Distinct-append random_uuid no_collision store.drawn store.park_records _ k.drawn k.distinct
          refl;
    drawn = Drawn-append random_uuid store.drawn store.park_records _ k.drawn refl;
  }

  resolve-Parked :
      (store : Store) (request : Request) (from_state : WorkItemState)
      → Parking store request from_state
      → (request.to == parked) ≡ false
      → (from_state == parked) ≡ true
      → Parked store request from_state (resolve_park_record request store)
  unfolding resolve_park_record
  resolve-Parked store request from_state k to_other from_parked =
      go (Option-cases (latest_open request.work_item_id none store.park_records))
    where
      go :
          ((latest_open request.work_item_id none store.park_records ≡ none)
            ⊎ ((q : ParkRecord) × (latest_open request.work_item_id none store.park_records
                  ≡ some q)))
          → Parked store request from_state (resolve_park_record request store)
      go (inl e) = absurd (
          omega (
            arith,
            k.open_before from_parked,
            latest_open-none request.work_item_id none store.park_records e,
          ))
      go (inr (q, e)) = elim (latest_open-Chosen request.work_item_id none store.park_records e) [
        | inl absent ↦ cc
        | inr (m, o) ↦
            rw (e, resolve_park_record)
              (record {
                counted = λ other.
                    rw (to_other, from_parked)
                      (ground (
                        arith,
                        resolve-opens (resolved request) (λ p. refl) q request.work_item_id other
                            store.park_records m k.distinct o,
                        Bool-cases (request.work_item_id == other),
                      ));
                distinct =
                    resolve-Distinct (resolved request) (λ p. refl) q (λ p. refl) store.park_records
                      k.distinct;
                drawn =
                    Drawn-resolve random_uuid (resolved request) q store.drawn store.park_records
                      (λ p. refl) k.drawn;
              })
      ]

  admit-park :
      (store : Store) (request : Request) {row : WorkItem}
      → admit store request ≡ ok row
      → (request.to == parked) ≡ true
      → (park : Park) × (request.park ≡ some park)
  unfolding admit
  admit-park store request {row} a to_parked = elim (Option-cases request.park) [
    | inl absent ↦ absurd (ground (arith, a, to_parked, absent))
    | inr present ↦ present
  ]

  write_park-Parked :
      (store : Store) (request : Request) (from_state : WorkItemState)
      → Parking store request from_state
      → Parked store request from_state (write_park random_uuid redact request from_state store)
  unfolding write_park
  write_park-Parked store request from_state k = elim (Bool-cases (request.to == parked)) [
    | inl to_parked ↦
        let (park, given) = k.given to_parked in
        let from_other : (from_state == parked) ≡ false = ground (
          arith,
          to_parked,
          k.changed,
          state_eq_iff request.to parked,
          state_eq_iff from_state parked,
          state_eq_iff request.to from_state,
        ) in
        simp (to_parked, given) (open-Parked store request from_state park k to_parked from_other)
    | inr to_other ↦ elim (Bool-cases (from_state == parked)) [
      | inl from_parked ↦
          rw (to_other, from_parked)
            (resolve-Parked store request from_state k to_other from_parked)
      | inr from_other ↦
          rw (to_other, from_other)
            (record {
              counted = λ other. rw (to_other, from_other) refl;
              distinct = k.distinct;
              drawn = k.drawn;
            })
    ]
  ]

  write-ParksAgree :
      (store : Store) (request : Request) (row : WorkItem) {next : Store}
      → admit store request ≡ ok row
      → (request.to == row.state) ≡ false
      → write_move random_uuid redact store request row ≡ ok next
      → ParksAgree random_uuid store
      → ParksAgree random_uuid next
  unfolding moved insert_transition
  write-ParksAgree store request row {next} a ne h agrees = record {
    counted = λ other.
        rw (row_of-write_move random_uuid redact store request row a h other, same_records)
          (elim (Bool-cases (request.work_item_id == other)) [
            | inl same ↦ rw (same, ← (text_eq_iff request.work_item_id other).0 same) here
            | inr differs ↦ rw differs (
                subst (IsCounted (row_of store other)) (elsewhere other differs)
                  (agrees.counted other))
          ]);
    distinct = rw same_records parked_after.distinct;
    drawn = rw (same_records, same_drawn) parked_after.drawn;
  }
    where
      before : IsCounted (some row) (opens request.work_item_id store.park_records)
      before = rw (admit-row_of store request a) at (agrees.counted request.work_item_id)

      parked_after :
          Parked store request row.state (write_park random_uuid redact request row.state store)
      parked_after = write_park-Parked store request row.state (record {
        changed = ne;
        given = admit-park store request a;
        open_before = λ was. rw was at before;
        distinct = agrees.distinct;
        drawn = agrees.drawn;
      })

      here : IsCounted (some (moved request row row)) (
          opens request.work_item_id
            (write_park random_uuid redact request row.state store).park_records)
      here = ground (
        arith,
        before,
        parked_after.counted request.work_item_id,
        beq_refl request.work_item_id,
        Bool-cases (row.state == parked),
        Bool-cases (request.to == parked),
      )

      elsewhere :
          (other : Text)
          → (request.work_item_id == other) ≡ false
          → opens other store.park_records
            ≡ opens other (write_park random_uuid redact request row.state store).park_records
      elsewhere other differs = ground (arith, differs, parked_after.counted other)

      same :
          (next.park_records ≡ (write_park random_uuid redact request row.state store).park_records)
          × (next.drawn ≡ (write_park random_uuid redact request row.state store).drawn)
      same =
          let (updated, u, e) = write_move-eq-ok random_uuid redact store request row h in
          let rest = update_row-rest store request.work_item_id (moved request row) row u in
          rw e (
            write_park-parks request row.state (insert_transition request row.state updated) store
              (ap (λ (s : Store). s.park_records) rest) (ap (λ (s : Store). s.drawn) rest))

      same_records :
          next.park_records ≡ (write_park random_uuid redact request row.state store).park_records
      same_records = same.0

      same_drawn : next.drawn ≡ (write_park random_uuid redact request row.state store).drawn
      same_drawn = same.1

  pub Keeps-ParksAgree : Keeps random_uuid redact (ParksAgree random_uuid)
  Keeps-ParksAgree = record {
    touch = λ store request row a same h agrees. touch-ParksAgree store request row a h agrees;
    write = λ store request row a ne c h agrees. write-ParksAgree store request row a ne h agrees;
  }

  -- Every successful transition keeps it that each work item has exactly one open park record
  -- while it is parked and none while it is not, with distinct record identifiers, given that
  -- `randomUUID` never repeats and the registered cascade keeps it too.
  pub transition_work_item-ParksAgree :
      (registered : Option ParentTerminationCascade) (store : Store) (request : Request)
      {answer : Answer}
      → CascadeKeeps (ParksAgree random_uuid) registered
      → transition_work_item random_uuid redact registered store request ≡ ok answer
      → ParksAgree random_uuid store
      → ParksAgree random_uuid answer.0
  transition_work_item-ParksAgree = transition_work_item-keeps random_uuid redact Keeps-ParksAgree
