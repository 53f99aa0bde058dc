-- ===== src/Transition/Safety.antt =====
-- Which moves a transition can make, and what it leaves alone.
use nexus_seventeen.Prelude.{
  ℕ, ◌≡◌, ◌≢◌, sym, ap, ◌⊎◌, inl, inr, true, false, Option, some, arith, Text, ok, err, eq_text,
}
use nexus_seventeen.Contract.{
  WorkItemState, eq_state, state_eq_iff, is_work_item_transition_allowed,
  is_terminal_work_item_state,
}
use nexus_seventeen.Board.{WorkItem, Store, work_item_illegal_transition}
use nexus_seventeen.Transition.{
  Request, ParentTerminationCascade, transition_work_item, transition_row, admit, check_move,
  requires_child, requires_decomposed_parent, has_children, is_some,
}
use nexus_seventeen.Transition.Lookup.{row_of, admit-row_of}
use nexus_seventeen.Transition.Rules.{Answer, transition_work_item-eq-ok}
use nexus_seventeen.Transition.Log.{touch_work_item-eq-ok}

-- A terminal state has no exit in the table.
pub terminal-no_exit :
    (from to : WorkItemState)
    → is_terminal_work_item_state from ≡ true
    → is_work_item_transition_allowed from to ≡ false
unfolding is_terminal_work_item_state is_work_item_transition_allowed
terminal-no_exit from to h = ground arith

check_move-eq-ok :
    (store : Store) (request : Request) (row : WorkItem)
    → check_move store request row ≡ ok tt
    → (is_work_item_transition_allowed row.state request.to ≡ true)
      × (requires_child row.state request.to ≡ true → is_some row.parent_work_item_id ≡ true)
      × (requires_decomposed_parent row.state request.to ≡ true
          → has_children store request.work_item_id ≡ true)
unfolding check_move
check_move-eq-ok store request row h = ground arith

-- A successful transition answers the state that the row had, and it either stays there or follows
-- the table, starts work directly only on a child, and coordinates only a parent that has children.
pub transition_work_item_legal :
    (random_uuid : ℕ → Text) (redact : Text → Text) (registered : Option ParentTerminationCascade)
    (store : Store) (request : Request) {answer : Answer}
    → transition_work_item random_uuid redact registered store request ≡ ok answer
    → (row : WorkItem) × (row_of store request.work_item_id ≡ some row)
      × (answer.1 ≡ row.state)
      × ((request.to ≡ row.state)
          ⊎ ((is_work_item_transition_allowed row.state request.to ≡ true)
              × (requires_child row.state request.to ≡ true
                  → is_some row.parent_work_item_id ≡ true)
              × (requires_decomposed_parent row.state request.to ≡ true
                  → has_children store request.work_item_id ≡ true)))
transition_work_item_legal random_uuid redact registered store request {answer} h =
    let (row, r) = transition_work_item-eq-ok random_uuid redact registered store request h in
    elim r [
      | inl t ↦ (
        row,
        admit-row_of store request t.admitted,
        elim (touch_work_item-eq-ok store request row t.touched) [
          | inl idle ↦ ap (λ (a : Answer). a.1) idle.1
          | inr busy ↦ ap (λ (a : Answer). a.1) busy.2
        ],
        inl ((state_eq_iff request.to row.state).0 t.same),
      )
      | inr t ↦ (
        row,
        admit-row_of store request t.move.admitted,
        sym (ap (λ (a : Answer). a.1) t.told),
        inr (check_move-eq-ok store request row t.move.checked),
      )
    ]

-- A work item that is merged, abandoned or dead-lettered never moves again: every admissible
-- request for another state is refused as an illegal transition, and nothing is written.
pub transition_work_item-terminal :
    (random_uuid : ℕ → Text) (redact : Text → Text) (registered : Option ParentTerminationCascade)
    (store : Store) (request : Request) (row : WorkItem)
    → admit store request ≡ ok row
    → is_terminal_work_item_state row.state ≡ true
    → request.to ≢ row.state
    → transition_work_item random_uuid redact registered store request
      ≡ err (work_item_illegal_transition row.state request.to)
unfolding transition_work_item transition_row check_move
transition_work_item-terminal random_uuid redact registered store request row a ended ne =
    ground
      (arith, a, terminal-no_exit row.state request.to ended, state_eq_iff request.to row.state)
