-- ===== src/Execution/Resume.antt =====
-- Where a parked work item goes on, by the log that the transitions write.
use nexus_seventeen.Prelude.{
  ℕ, ◌+◌, ◌≤◌, ◌≡◌, refl, ap, subst, ◌∙◌, inl, inr, Bool, true, false, ◌&&◌, ◌||◌, List, [], ◌∷◌,
  ◌++◌, Option, none, some, arith, Text, ltb, ok, if◌then◌else◌, ◌==◌, eq_text, Bool-cases,
  ok-injective, beq_refl,
}
use nexus_seventeen.Contract.{
  WorkItemState, implementing, fixing, parked, eq_state, state_eq_iff, state_eq, WorkItemStage,
  eq_stage, stage_eq, is_work_item_transition_allowed, is_terminal_work_item_state,
}
use nexus_seventeen.Board.{WorkItem, Store, TransitionRow}
use nexus_seventeen.Transition.{
  Request, ParentTerminationCascade, transition_work_item, insert_transition, max_sequence,
  end_failed, is_failed_end, write_move,
}
use nexus_seventeen.Transition.Rules.{Answer, transition_work_item-eq-ok}
use nexus_seventeen.Transition.Log.{
  write_move-eq-ok, touch_work_item-eq-ok, write_park-work_item_transitions,
}
use nexus_seventeen.Execution.{
  ReviewFinding, StageAttempt, work_item_state_for_stage, work_item_state_owns_workflow_execution,
  work_item_state_for_node_stage, latest_park, newer, is_from_fixing, parked_from_fixing,
  loop_active,
}

owns_for_stage :
    (s : Option WorkItemStage) (f : Bool)
    → (work_item_state_owns_workflow_execution (work_item_state_for_stage s f) ≡ true)
      × (is_work_item_transition_allowed parked (work_item_state_for_stage s f) ≡ true)
unfolding work_item_state_for_stage work_item_state_owns_workflow_execution
    is_work_item_transition_allowed state_eq is_terminal_work_item_state
owns_for_stage s f = ground arith

-- Every stage executes in a state that owns the execution, and that a parked item may resume to.
pub work_item_state_for_node_stage-owns :
    (findings : List ReviewFinding) (attempts : List StageAttempt)
    (transitions : List TransitionRow) (work_item_id : Text) (node_id : Option Text)
    (stage : Option WorkItemStage) (current_state : Option WorkItemState)
    → (work_item_state_owns_workflow_execution (
          work_item_state_for_node_stage findings attempts transitions work_item_id node_id stage
            current_state)
        ≡ true)
      × (is_work_item_transition_allowed parked (
            work_item_state_for_node_stage findings attempts transitions work_item_id node_id stage
              current_state)
          ≡ true)
unfolding work_item_state_for_node_stage
work_item_state_for_node_stage-owns findings attempts transitions work_item_id node_id stage
      current_state =
    owns_for_stage stage _

abbrev Below : ℕ → Option TransitionRow → Type 0
Below n none = Unit
Below n (some t) = t.sequence ≤ n

Below-weaken : (m n : ℕ) (best : Option TransitionRow) → m ≤ n → Below m best → Below n best
Below-weaken m n none le h = tt
Below-weaken m n (some t) le h = omega arith

newer-Below :
    (n : ℕ) (best : Option TransitionRow) (t : TransitionRow)
    → Below n best
    → t.sequence ≤ n
    → Below n (newer best t)
newer-Below n none t h le = le
newer-Below n (some b) t h le = elim (Bool-cases (ltb b.sequence t.sequence)) [
  | inl e ↦ rw e le
  | inr e ↦ rw e h
]

latest_park-Below :
    (id : Text) (n : ℕ) (best : Option TransitionRow) (ts : List TransitionRow)
    → Below n best
    → max_sequence id ts ≤ n
    → Below n (latest_park id best ts)
unfolding latest_park max_sequence
latest_park-Below id n best [] h le = h
latest_park-Below id n best (t ∷ ts) h le =
    elim (Bool-cases (t.work_item_id == id && t.to_state == parked)) [
      | inl e ↦ rw e (
          latest_park-Below id n (newer best t) ts (newer-Below n best t h (ground (arith, e)))
            (ground (arith, e)))
      | inr e ↦ rw e (latest_park-Below id n best ts h (ground arith))
    ]

latest_park-append :
    (id : Text) (best : Option TransitionRow) (ts : List TransitionRow) (t : TransitionRow)
    → latest_park id best (ts ++ t ∷ []) ≡ (
        if t.work_item_id == id && t.to_state == parked
        then newer (latest_park id best ts) t
        else latest_park id best ts)
unfolding latest_park
latest_park-append id best [] t = refl
latest_park-append id best (u ∷ ts) t =
    latest_park-append id
      (if u.work_item_id == id && u.to_state == parked then newer best u else best) ts t

newer-new :
    (n : ℕ) (best : Option TransitionRow) (t : TransitionRow)
    → Below n best
    → t.sequence ≡ 1 + n
    → newer best t ≡ some t
newer-new n none t h e = refl
newer-new n (some b) t h e = ground arith

abbrev entry : Request → WorkItemState → Store → TransitionRow
entry request from_state store = record {
  work_item_id = request.work_item_id;
  sequence = 1 + max_sequence request.work_item_id store.work_item_transitions;
  from_state = some from_state;
  to_state = request.to;
  actor_type = request.actor_type;
  actor_id = request.actor_id;
  created_at = request.now;
}

-- The entry that a park appends is the latest park of its item.
insert_transition-latest_park :
    (request : Request) (from_state : WorkItemState) (store : Store)
    → request.to ≡ parked
    → latest_park request.work_item_id none
        (insert_transition request from_state store).work_item_transitions
      ≡ some (entry request from_state store)
unfolding insert_transition
insert_transition-latest_park request from_state store to =
    rw
      (
        latest_park-append request.work_item_id none store.work_item_transitions
            (entry request from_state store),
        beq_refl request.work_item_id,
        (state_eq_iff request.to parked).1 to,
      )
      (newer-new (max_sequence request.work_item_id store.work_item_transitions)
        (latest_park request.work_item_id none store.work_item_transitions)
        (entry request from_state store)
        (latest_park-Below request.work_item_id _ none store.work_item_transitions tt (omega arith))
        refl)

end_failed-parked :
    (random_uuid : ℕ → Text) (redact : Text → Text) (cascade : Option ParentTerminationCascade)
    (request : Request) (store : Store) {final : Store}
    → request.to ≡ parked
    → end_failed random_uuid redact cascade request store ≡ ok final
    → store ≡ final
unfolding end_failed is_failed_end state_eq is_terminal_work_item_state
end_failed-parked random_uuid redact cascade request store to h =
    ok-injective (rw (end_failed, to) at h)

from_fixing_of : Text → Store → Bool
from_fixing_of id store = is_from_fixing (latest_park id none store.work_item_transitions)

module _ (random_uuid : ℕ → Text) (redact : Text → Text)
    (registered : Option ParentTerminationCascade) (store : Store) (request : Request)
    {answer : Answer} (to : request.to ≡ parked) (from : (answer.1 == parked) ≡ false)
    (h : transition_work_item random_uuid redact registered store request ≡ ok answer) where
  -- Of a write, the log records the state that the row had.
  wrote_from :
      (row : WorkItem) (written : Store)
      → write_move random_uuid redact store request row ≡ ok written
      → from_fixing_of request.work_item_id written ≡ (row.state == fixing)
  unfolding from_fixing_of
  wrote_from row written w =
      let (updated, u, e) = write_move-eq-ok random_uuid redact store request row w in
      ap (λ ts. is_from_fixing (latest_park request.work_item_id none ts))
        (ap (λ (s : Store). s.work_item_transitions) e
          ∙ write_park-work_item_transitions random_uuid redact request row.state
              (insert_transition request row.state updated))
      ∙ ap is_from_fixing (insert_transition-latest_park request row.state updated to)

  logged : from_fixing_of request.work_item_id answer.0 ≡ (answer.1 == fixing)
  logged =
      let (row, r) = transition_work_item-eq-ok random_uuid redact registered store request h in
      elim r [
        | inl t ↦
            let stays : answer.1 ≡ row.state =
              elim (touch_work_item-eq-ok store request row t.touched) [
                | inl idle ↦ ap (λ (a : Answer). a.1) idle.1
                | inr busy ↦ ap (λ (a : Answer). a.1) busy.2
              ] in
            ground (
              arith,
              stays,
              to,
              t.same,
              from,
              state_eq_iff request.to row.state,
              state_eq_iff answer.1 parked,
            )
        | inr t ↦
            subst (λ (a : Answer). from_fixing_of request.work_item_id a.0 ≡ (a.1 == fixing)) t.told
              (subst (λ s. from_fixing_of request.work_item_id s ≡ (row.state == fixing))
                (end_failed-parked random_uuid redact t.cascade request t.written to t.ended)
                (wrote_from row t.written t.move.wrote))
      ]

  -- A work item that was parked by a successful transition goes on with its implementation stage by
  -- fixing if it was fixing before or if the node's review loop is active, and else by implementing.
  pub transition_work_item-resumes :
      (findings : List ReviewFinding) (attempts : List StageAttempt) (node_id : Option Text)
      → work_item_state_for_node_stage findings attempts answer.0.work_item_transitions
          request.work_item_id node_id
          (some WorkItemStage.implementation)
          (some parked)
        ≡ (if answer.1 == fixing
              || loop_active findings attempts node_id (some WorkItemStage.implementation)
            then fixing
            else implementing)
  unfolding work_item_state_for_node_stage work_item_state_for_stage parked_from_fixing
      from_fixing_of state_eq stage_eq
  transition_work_item-resumes findings attempts node_id = rw logged refl
