-- ===== src/Transition/Parents.antt =====
-- What the failed end of a child entails for its parent, and the bound of the stored park reason.
use nexus_seventeen.Prelude.{
  ℕ, ◌≤◌, ◌≡◌, ◌≢◌, refl, sym, ap, ◌∙◌, subst, inl, inr, true, false, ◌||◌, [], ◌∷◌, Option, none,
  some, arith, Text, length, length-append, text_eq_iff, ok, >>=-eq-ok, ok-injective, ◌==◌, eq_text,
  beq_refl,
}
use nexus_seventeen.Contract.{parked, coordinating, final_approval, eq_state, state_eq_iff}
use nexus_seventeen.Redact.{redact_for_persistence, length-redact_for_persistence}
use nexus_seventeen.Board.{WorkItem, Store}
use nexus_seventeen.Transition.{
  Request, CascadeInput, ParentTerminationCascade, run_cascade, transition_work_item, moved,
  move_work_item, park_parent, child_failure, is_failed_end, termination_cascade, end_failed,
}
use nexus_seventeen.Transition.Writes.{bounded_park_reason}
use nexus_seventeen.Transition.Lookup.{row_of, admit-row_of}
use nexus_seventeen.Transition.Rules.{
  Answer, Transitioned, move_work_item-eq-ok, transition_work_item-eq-ok,
}
use nexus_seventeen.Transition.Log.{row_of-write_move}

-- The reason that a park record keeps has at most 2000 code units, the truncation marker included,
-- whatever the credential patterns do.
pub length-bounded_park_reason :
    (redact : Text → Text) (reason : Text) → length (bounded_park_reason redact reason) ≤ 2000
unfolding bounded_park_reason
length-bounded_park_reason redact reason =
    let scrubbed = redact_for_persistence redact reason none in
    ground (
      arith,
      length-append (redact_for_persistence redact scrubbed (some 1999)) (0x2026 ∷ []),
      length-redact_for_persistence redact scrubbed 1999,
    )

-- A registered cascade leaves the rows of two items as they are, where it is told that the first has ended.
abbrev pub CascadeLeaves : Text → Text → Option ParentTerminationCascade → Type 0
CascadeLeaves work_item_id parent_id none = Unit
CascadeLeaves work_item_id parent_id (some cascade) =
    (input : CascadeInput) (store next : Store)
    → input.parent_work_item_id ≡ work_item_id
    → cascade input store ≡ ok next
    → (row_of next work_item_id ≡ row_of store work_item_id)
      × (row_of next parent_id ≡ row_of store parent_id)

run_cascade-leaves :
    (cascade : Option ParentTerminationCascade) (request : Request) (parent_id : Text)
    (store : Store) {next : Store}
    → CascadeLeaves request.work_item_id parent_id cascade
    → run_cascade cascade request store ≡ ok next
    → (row_of next request.work_item_id ≡ row_of store request.work_item_id)
      × (row_of next parent_id ≡ row_of store parent_id)
unfolding run_cascade
run_cascade-leaves none request parent_id store {next} leaves h =
    let same : store ≡ next = ok-injective h in
    (ap (λ s. row_of s request.work_item_id) (sym same), ap (λ s. row_of s parent_id) (sym same))
run_cascade-leaves (some cascade) request parent_id store {next} leaves h =
    leaves _ store next refl h

-- The cascade that runs is the registered one, or none.
termination_cascade-CascadeLeaves :
    (registered cascade : Option ParentTerminationCascade) (store : Store) (request : Request)
    (parent_id : Text)
    → CascadeLeaves request.work_item_id parent_id registered
    → termination_cascade registered store request ≡ ok cascade
    → CascadeLeaves request.work_item_id parent_id cascade
unfolding termination_cascade
termination_cascade-CascadeLeaves registered none store request parent_id k h = tt
termination_cascade-CascadeLeaves none (some cascade) store request parent_id k h = ground arith
termination_cascade-CascadeLeaves (some r) (some cascade) store request parent_id k h =
    let same : some r ≡ some cascade = ground arith in
    subst (CascadeLeaves request.work_item_id parent_id) same k

module _ (random_uuid : ℕ → Text) (redact : Text → Text) (request : Request) where
  -- The recursive call parks a parent that waits for its children.
  parks :
      (store : Store) (parent_id : Text) (parent : WorkItem) {answer : Answer}
      → row_of store parent_id ≡ some parent
      → (parent.state == parked) ≡ false
      → move_work_item random_uuid redact store (child_failure random_uuid redact request parent_id)
        ≡ ok answer
      → (after : WorkItem) × (row_of answer.0 parent_id ≡ some after) × (after.state ≡ parked)
  unfolding child_failure moved
  parks store parent_id parent read waits h =
      let failure = child_failure random_uuid redact request parent_id in
      let (row, r) = move_work_item-eq-ok random_uuid redact store failure h in
      elim r [
        | inl t ↦
            let given : some row ≡ some parent =
              sym (admit-row_of store failure t.admitted) ∙ read in
            let same : row ≡ parent = cc in
            let stays : (row.state == parked) ≡ true =
              ground
                (arith, t.same, state_eq_iff parked row.state, state_eq_iff row.state parked) in
            ground (arith, stays, same, waits)
        | inr m ↦ (
          moved failure row row,
          row_of-write_move random_uuid redact store failure row m.admitted m.wrote parent_id
              ∙ rw (beq_refl parent_id),
          refl,
        )
      ]

  park_parent-parks :
      (store : Store) (child parent : WorkItem) (parent_id : Text) {final : Store}
      → row_of store request.work_item_id ≡ some child
      → child.parent_work_item_id ≡ some parent_id
      → row_of store parent_id ≡ some parent
      → (parent.state == coordinating || parent.state == final_approval) ≡ true
      → park_parent random_uuid redact store request ≡ ok final
      → (after : WorkItem) × (row_of final parent_id ≡ some after) × (after.state ≡ parked)
  unfolding park_parent row_of
  park_parent-parks store child parent parent_id read of_parent read_parent waits h =
      let h1 = rw (read, of_parent, read_parent, waits) at h in
      let (answer, m, e) =
        >>=-eq-ok
          (move_work_item random_uuid redact store
            (child_failure random_uuid redact request parent_id))
          _ h1 in
      let unparked : (parent.state == parked) ≡ false = ground (
        arith,
        waits,
        state_eq_iff parent.state coordinating,
        state_eq_iff parent.state final_approval,
        state_eq_iff parent.state parked,
      ) in
      let (after, at_, p) = parks store parent_id parent read_parent unparked m in
      (after, subst (λ (s : Store). row_of s parent_id ≡ some after) (ok-injective e) at_, p)

  end_failed-parks :
      (cascade : Option ParentTerminationCascade) (store : Store) (child parent : WorkItem)
      (parent_id : Text) {final : Store}
      → CascadeLeaves request.work_item_id parent_id cascade
      → is_failed_end request.to ≡ true
      → row_of store request.work_item_id ≡ some child
      → child.parent_work_item_id ≡ some parent_id
      → row_of store parent_id ≡ some parent
      → (parent.state == coordinating || parent.state == final_approval) ≡ true
      → end_failed random_uuid redact cascade request store ≡ ok final
      → (after : WorkItem) × (row_of final parent_id ≡ some after) × (after.state ≡ parked)
  unfolding end_failed
  end_failed-parks cascade store child parent parent_id leaves failed read of_parent read_parent
        waits h =
      let (cascaded, c, parks_it) =
        >>=-eq-ok (run_cascade cascade request store) _ (rw failed at h) in
      let (same, same_parent) = run_cascade-leaves cascade request parent_id store leaves c in
      park_parent-parks cascaded child parent parent_id (same ∙ read) of_parent
        (same_parent ∙ read_parent) waits parks_it

  -- A transition that goes through and moves a child, which is not its own parent, to abandoned or dead_letter from
  -- another state leaves its parent parked, where the parent coordinates or waits for the final approval,
  -- whether the child has children of its own or not. A cascade that runs for these leaves the rows of the
  -- child and of the parent as they are.
  pub transition_work_item-parks_parent :
      (registered : Option ParentTerminationCascade) (store : Store) (child parent : WorkItem)
      (parent_id : Text) {answer : Answer}
      → CascadeLeaves request.work_item_id parent_id registered
      → row_of store request.work_item_id ≡ some child
      → child.parent_work_item_id ≡ some parent_id
      → request.work_item_id ≢ parent_id
      → row_of store parent_id ≡ some parent
      → (parent.state == coordinating || parent.state == final_approval) ≡ true
      → is_failed_end request.to ≡ true
      → (request.to == child.state) ≡ false
      → transition_work_item random_uuid redact registered store request ≡ ok answer
      → (after : WorkItem) × (row_of answer.0 parent_id ≡ some after) × (after.state ≡ parked)
  unfolding moved
  transition_work_item-parks_parent registered store child parent parent_id {answer} leaves read
        of_parent apart read_parent waits failed moves h =
      let (row, r) = transition_work_item-eq-ok random_uuid redact registered store request h in
      elim r [
        | inl t ↦
            let given : some row ≡ some child =
              sym (admit-row_of store request t.admitted) ∙ read in
            let same : row ≡ child = cc in ground (arith, t.same, same, moves)
        | inr t ↦ from_transitioned row t
      ]
    where
      from_transitioned :
          (row : WorkItem)
          → Transitioned random_uuid redact registered store request answer row
          → (after : WorkItem) × (row_of answer.0 parent_id ≡ some after) × (after.state ≡ parked)
      from_transitioned row t =
          let given : some row ≡ some child =
            sym (admit-row_of store request t.move.admitted) ∙ read in
          let same : row ≡ child = cc in
          let apart_test : (request.work_item_id == parent_id) ≡ false =
            ground (arith, text_eq_iff request.work_item_id parent_id, apart) in
          let written_child =
            row_of-write_move random_uuid redact store request row t.move.admitted t.move.wrote
              request.work_item_id in
          let written_parent =
            row_of-write_move random_uuid redact store request row t.move.admitted t.move.wrote
              parent_id in
          let (after, at_, p) =
            end_failed-parks t.cascade t.written (moved request row row) parent parent_id
              (termination_cascade-CascadeLeaves registered t.cascade store request parent_id leaves
                t.found)
              failed (rw (beq_refl request.work_item_id) at written_child) (rw same of_parent)
              (rw (apart_test, read_parent) at written_parent) waits t.ended in
          (after, subst (λ (a : Answer). row_of a.0 parent_id ≡ some after) t.told at_, p)
