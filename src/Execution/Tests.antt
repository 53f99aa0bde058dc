-- ===== src/Execution/Tests.antt =====
-- Concrete resumptions for src/server/task-board/persistence/work-item-transitions.ts: an item is
-- parked while it fixes.
use nexus_seventeen.Prelude.{
  ℕ, ◌≡◌, refl, true, false, [], ◌∷◌, none, some, Text, text_eq, Result, ok, err, if◌then◌else◌,
  ◌||◌, ◌==◌,
}
use nexus_seventeen.Contract.{
  WorkItemState, queued, implementing, fixing, parked, system, open_question, eq_state, state_eq,
  is_terminal_work_item_state, is_work_item_transition_allowed, WorkItemStage,
}
use nexus_seventeen.Board.{Store, BoardError}
use nexus_seventeen.Transition.{
  Request, transition_work_item, admit, check_move, write_move, is_failed_end,
}
use nexus_seventeen.Execution.{work_item_state_for_node_stage, loop_active}
use nexus_seventeen.Execution.Resume.{transition_work_item-resumes}

abbrev item_id : Text
item_id = 3 ∷ []

abbrev store : Store
store = record {
  has_open_transaction = true;
  work_items =
      record {
        work_item_id = item_id;
        parent_work_item_id = none;
        state = fixing;
        current_stage = some WorkItemStage.implementation;
        cancelled_reason = none;
        ended_at = none;
        version = 9;
        updated_at = [];
        phase = none;
        child_ordinal = none;
      }
      ∷ [];
  work_item_transitions = [];
  park_records = [];
  drawn = 0;
}

abbrev ask : Request
ask = record {
  work_item_id = item_id;
  to = parked;
  actor_type = system;
  actor_id = [];
  now = [];
  ended_at = none;
  cancelled_reason = none;
  current_stage = none;
  park = some (record { category = open_question; reason = b'q' ∷ [] });
  touch = false;
}

abbrev uuid : ℕ → Text
uuid n = n ∷ []

abbrev plain : Text → Text
plain text = text

abbrev or_store : Result BoardError (Store × WorkItemState × ℕ) → Store × WorkItemState × ℕ
or_store (ok answer) = answer
or_store (err e) = (store, queued, 0)

unfoldable outcome : Store × WorkItemState × ℕ
unfolding transition_work_item
outcome = or_store (transition_work_item uuid plain none store ask)

outcome_lem : transition_work_item uuid plain none store ask ≡ ok outcome
unfolding outcome transition_work_item admit text_eq state_eq is_terminal_work_item_state check_move
    is_work_item_transition_allowed is_failed_end write_move
outcome_lem = refl

outcome_moved : (outcome.1 == parked) ≡ false
unfolding outcome transition_work_item admit text_eq state_eq is_terminal_work_item_state check_move
    is_work_item_transition_allowed is_failed_end write_move
outcome_moved = refl

transition_work_item-resumes_example :
    work_item_state_for_node_stage [] [] outcome.0.work_item_transitions item_id
      (some (5 ∷ []))
      (some WorkItemStage.implementation)
      (some parked)
    ≡ (if outcome.1 == fixing
          || loop_active [] [] (some (5 ∷ [])) (some WorkItemStage.implementation)
        then fixing
        else implementing)
transition_work_item-resumes_example =
    transition_work_item-resumes uuid plain none store ask {answer = outcome} refl outcome_moved
      outcome_lem [] [] (some (5 ∷ []))
