-- ===== src/Transition/Totality.antt =====
-- A legal request always succeeds: the version check of the update cannot fail within the
-- transaction that read the row, since the key of `work_items` is primary.
use nexus_seventeen.Prelude.{
  ℕ, ◌+◌, ◌≡◌, refl, sym, inl, inr, Bool, true, false, List, [], ◌∷◌, Option, some, arith, Text,
  text_eq_iff, nat_eq_iff, find, tally, update_where, ok, ◌==◌, eq_text, Bool-cases,
}
use nexus_seventeen.Contract.{eq_state}
use nexus_seventeen.Board.{WorkItem, Store}
use nexus_seventeen.Transition.{
  Request, ParentTerminationCascade, transition_work_item, transition_row, admit, check_move,
  write_move, update_row, moved, termination_cascade, end_failed, is_failed_end, insert_transition,
  write_park,
}
use nexus_seventeen.Transition.Lookup.{named, selects, row_of, admit-row_of, row_of-named}

-- The primary key: one row has the requested identifier.
abbrev pub HasKey : Store → Text → Type 0
HasKey store id = tally (named id) store.work_items ≡ 1

tally-none :
    (p q : WorkItem → Bool) (ws : List WorkItem)
    → ((w : WorkItem) → q w ≡ true → p w ≡ true)
    → tally p ws ≡ 0
    → tally q ws ≡ 0
unfolding tally
tally-none p q [] only h = refl
tally-none p q (w ∷ ws) only h = elim (Bool-cases (q w)) [
  | inl e ↦ ground (arith, only w e)
  | inr e ↦ rw e (tally-none p q ws only (ground arith))
]

tally-found :
    (p q : WorkItem → Bool) (ws : List WorkItem) {row : WorkItem}
    → ((w : WorkItem) → q w ≡ true → p w ≡ true)
    → find p ws ≡ some row
    → q row ≡ true
    → tally p ws ≡ 1
    → tally q ws ≡ 1
unfolding tally find
tally-found p q [] only f hit h = cc
tally-found p q (w ∷ ws) {row} only f hit h = elim (Bool-cases (p w)) [
  | inl e ↦
      let first : w ≡ row = ground (arith, e) in
      let here : q w ≡ true = rw (sym first) at hit in
      rw here (ground (arith, tally-none p q ws only (ground (arith, e))))
  | inr e ↦ elim (Bool-cases (q w)) [
    | inl e' ↦ ground (arith, only w e')
    | inr e' ↦ rw e' (tally-found p q ws only (ground (arith, e)) hit (ground (arith, e)))
  ]
]

module _ (random_uuid : ℕ → Text) (redact : Text → Text) (store : Store) (request : Request)
    (row : WorkItem) where
  abbrev pub written : Store
  written = write_park random_uuid redact request row.state (
      insert_transition request row.state (record store {
        work_items =
            update_where (selects request.work_item_id row.version) (moved request row)
              store.work_items;
      }))

  write_move-total :
      row_of store request.work_item_id ≡ some row
      → HasKey store request.work_item_id
      → write_move random_uuid redact store request row ≡ ok written
  unfolding write_move update_row row_of
  write_move-total read key = rw one
    where
      named_row : row.work_item_id ≡ request.work_item_id
      named_row = row_of-named store request.work_item_id read

      one : tally (selects request.work_item_id row.version) store.work_items ≡ 1
      one =
          tally-found (named request.work_item_id) (selects request.work_item_id row.version)
            store.work_items (λ w h. ground arith) read
            (ground (
              arith,
              named_row,
              text_eq_iff row.work_item_id request.work_item_id,
              nat_eq_iff row.version row.version,
            ))
            key

  -- An admissible, legal move to a state that is no failed end succeeds, with the next version.
  pub transition_work_item-total :
      (registered : Option ParentTerminationCascade)
      → admit store request ≡ ok row
      → (request.to == row.state) ≡ false
      → check_move store request row ≡ ok tt
      → is_failed_end request.to ≡ false
      → HasKey store request.work_item_id
      → transition_work_item random_uuid redact registered store request
        ≡ ok (written, row.state, row.version + 1)
  unfolding transition_work_item transition_row termination_cascade end_failed
  transition_work_item-total registered a ne c other key =
      rw (a, ne, c, other, write_move-total (admit-row_of store request a) key)
