-- ===== src/Transition/Lookup.antt =====
-- What `SELECT … WHERE work_item_id = ?` reads after `updateRow` of Transition/Writes.
use nexus_seventeen.Prelude.{
  ℕ, ◌≡◌, refl, sym, subst, Bool, true, false, ◌&&◌, List, [], ◌∷◌, Option, some, arith, Text,
  text_eq_iff, nat_eq, nat_eq_iff, find, update_where, if◌then◌else◌, ok, ◌==◌, eq_text, Bool-cases,
  inl, inr,
}
use nexus_seventeen.Board.{WorkItem, Store}
use nexus_seventeen.Transition.Requests.{Request, admit, assert_park_metadata}
use nexus_seventeen.Transition.Writes.{update_row}

abbrev pub named : Text → WorkItem → Bool
named id w = w.work_item_id == id

-- The row that a read by primary key sees.
unfoldable pub row_of : Store → Text → Option WorkItem
row_of store id = find (named id) store.work_items

pub find-holds {ℓ} :
    {A : Type ℓ} (p : A → Bool) (xs : List A) {x : A} → find p xs ≡ some x → p x ≡ true
unfolding find
find-holds p [] h = cc
find-holds p (y ∷ ys) {x} h = ground (arith, find-holds p ys {x = x})

pub row_of-named :
    (store : Store) (id : Text) {w : WorkItem} → row_of store id ≡ some w → w.work_item_id ≡ id
unfolding row_of
row_of-named store id {w} h =
    (text_eq_iff w.work_item_id id).0 (find-holds (named id) store.work_items h)

-- An `UPDATE` of rows with one key, by a change that keeps the key.
module _ (selected : WorkItem → Bool) (f : WorkItem → WorkItem) (id : Text)
    (keeps : (w : WorkItem) → (f w).work_item_id ≡ w.work_item_id)
    (only : (w : WorkItem) → selected w ≡ true → w.work_item_id ≡ id) where
  find-update_where_ne :
      (other : Text) (ws : List WorkItem)
      → (id == other) ≡ false
      → find (named other) (update_where selected f ws) ≡ find (named other) ws
  unfolding find update_where
  find-update_where_ne other [] ne = refl
  find-update_where_ne other (w ∷ ws) ne = elim (Bool-cases (selected w)) [
    | inl chosen ↦ rw (chosen, keeps w, only w chosen, ne) (find-update_where_ne other ws ne)
    | inr passed ↦ rw (passed, find-update_where_ne other ws ne)
  ]

  find-update_where_self :
      (row : WorkItem) (ws : List WorkItem)
      → selected row ≡ true
      → find (named id) ws ≡ some row
      → find (named id) (update_where selected f ws) ≡ some (f row)
  unfolding find update_where
  find-update_where_self row [] hit h = cc
  find-update_where_self row (w ∷ ws) hit h = elim (Bool-cases (named id w)) [
    | inl same ↦
        let first : w ≡ row = ground (arith, same) in
        subst (λ v. find (named id) (update_where selected f (v ∷ ws)) ≡ some (f row)) (sym first)
          (rw (hit, keeps row, only row hit, (text_eq_iff id id).1 refl))
    | inr other_key ↦
        let later : find (named id) ws ≡ some row = ground (arith, other_key) in
        elim (Bool-cases (selected w)) [
          | inl chosen ↦ ground (arith, only w chosen, text_eq_iff w.work_item_id id)
          | inr passed ↦ rw (passed, other_key) (find-update_where_self row ws hit later)
        ]
  ]

-- The row that the checks read is the one of the requested key.
pub admit-row_of :
    (store : Store) (request : Request) {row : WorkItem}
    → admit store request ≡ ok row
    → row_of store request.work_item_id ≡ some row
unfolding admit row_of assert_park_metadata
admit-row_of store request {row} h = ground arith

abbrev pub selects : Text → ℕ → WorkItem → Bool
selects id version w = w.work_item_id == id && nat_eq w.version version

pub selects-named :
    (id : Text) (version : ℕ) (w : WorkItem) → selects id version w ≡ true → w.work_item_id ≡ id
selects-named id version w h = ground (arith, text_eq_iff w.work_item_id id)

module _ (store : Store) (id : Text) (change : WorkItem → WorkItem) (row : WorkItem) {next : Store}
    (updated : update_row store id row.version change ≡ ok next) where
  update_row-items : next.work_items ≡ update_where (selects id row.version) change store.work_items
  unfolding update_row
  update_row-items = ground arith

  -- Only the table of work items changes.
  pub update_row-rest : next ≡ record store { work_items = next.work_items }
  unfolding update_row
  update_row-rest = ground arith

  -- After the update, a read of the key sees the changed row, and any other read is as before.
  pub row_of-update_row :
      row_of store id ≡ some row
      → ((w : WorkItem) → (change w).work_item_id ≡ w.work_item_id)
      → (other : Text)
      → row_of next other ≡ (if id == other then some (change row) else row_of store other)
  unfolding row_of
  row_of-update_row read keeps other = elim (Bool-cases (id == other)) [
    | inl same ↦
        rw (same, ← (text_eq_iff id other).0 same, update_row-items)
          (find-update_where_self (selects id row.version) change id keeps
            (selects-named id row.version) row store.work_items hit read)
    | inr ne ↦
        rw (ne, update_row-items)
          (find-update_where_ne (selects id row.version) change id keeps
            (selects-named id row.version) other store.work_items ne)
  ]
    where
      hit : selects id row.version row ≡ true
      hit = ground (
        arith,
        row_of-named store id {w = row} read,
        text_eq_iff row.work_item_id id,
        nat_eq_iff row.version row.version,
      )
