-- ===== src/Execution.antt =====
-- src/server/task-board/persistence/work-item-transitions.ts: the state in which a work item executes
-- a stage of its workflow, and whether a state owns the execution.
pub mod Resume
mod Tests
use nexus_seventeen.Prelude.{
  ℕ, Bool, true, false, not, ◌&&◌, ◌||◌, List, [], ◌∷◌, Option, none, some, Text, nat_eq, ltb, leb,
  option_eq, if◌then◌else◌, ◌==◌, eq_text, eq_nat,
}
use nexus_seventeen.Contract.{
  WorkItemState, planning, implementing, verifying, reviewing, fixing, coordinating, parked,
  eq_state, is_terminal_work_item_state, WorkItemStage, eq_stage,
}
use nexus_seventeen.Board.{TransitionRow}

-- The columns of `review_findings` and `stage_attempts` that the query reads.
pub record ReviewFinding : Type 0 where
  pub node_id : Text
  pub round : ℕ
  pub blocking : Bool

pub record StageAttempt : Type 0 where
  pub node_id : Text
  pub attempt : ℕ
  pub stage : WorkItemStage

-- `options.fixLoop === true` is the second argument.
unfoldable pub work_item_state_for_stage : Option WorkItemStage → Bool → WorkItemState
work_item_state_for_stage (some WorkItemStage.implementation) fix_loop =
    if fix_loop then fixing else implementing
work_item_state_for_stage (some WorkItemStage.deployment) fix_loop = implementing
work_item_state_for_stage (some WorkItemStage.testing) fix_loop = verifying
work_item_state_for_stage (some WorkItemStage.verification) fix_loop = reviewing
work_item_state_for_stage stage fix_loop = planning

unfoldable pub work_item_state_owns_workflow_execution : WorkItemState → Bool
work_item_state_owns_workflow_execution state =
    not (state == coordinating) && not (state == parked) && not (is_terminal_work_item_state state)

abbrev greater : ℕ → Option ℕ → Option ℕ
greater n none = some n
greater n (some m) = some (if leb n m then m else n)

-- `MAX` over the rows of the node; NULL over none.
unfoldable pub blocking_round : Text → List ReviewFinding → Option ℕ
blocking_round node_id [] = none
blocking_round node_id (f ∷ rest) =
    let best = blocking_round node_id rest in
    if f.node_id == node_id && f.blocking then greater f.round best else best

unfoldable pub verification_attempt : Text → List StageAttempt → Option ℕ
verification_attempt node_id [] = none
verification_attempt node_id (a ∷ rest) =
    let best = verification_attempt node_id rest in
    if a.node_id == node_id && a.stage == WorkItemStage.verification
    then greater a.attempt best
    else best

abbrev same_round : Option ℕ → Option ℕ → Bool
same_round (some round) (some attempt) = nat_eq round attempt
same_round round attempt = false

abbrev is_implementation : Option WorkItemStage → Bool
is_implementation stage = option_eq stage (some WorkItemStage.implementation)

unfoldable pub loop_active :
    List ReviewFinding → List StageAttempt → Option Text → Option WorkItemStage → Bool
unfolding blocking_round verification_attempt
loop_active findings attempts none stage = false
loop_active findings attempts (some node_id) stage =
    is_implementation stage
    && same_round (blocking_round node_id findings) (verification_attempt node_id attempts)

-- `WHERE work_item_id=? AND to_state='parked' ORDER BY sequence DESC LIMIT 1`; the sequence is
-- unique within a work item.
abbrev pub newer : Option TransitionRow → TransitionRow → Option TransitionRow
newer none t = some t
newer (some best) t = if ltb best.sequence t.sequence then some t else some best

unfoldable pub latest_park : Text → Option TransitionRow → List TransitionRow → Option TransitionRow
latest_park work_item_id best [] = best
latest_park work_item_id best (t ∷ ts) =
    latest_park work_item_id
      (if t.work_item_id == work_item_id && t.to_state == parked then newer best t else best) ts

abbrev pub is_from_fixing : Option TransitionRow → Bool
is_from_fixing none = false
is_from_fixing (some t) = option_eq t.from_state (some fixing)

unfoldable pub parked_from_fixing :
    List TransitionRow → Text → Option WorkItemStage → Option WorkItemState → Bool
unfolding latest_park
parked_from_fixing transitions work_item_id stage current_state =
    is_implementation stage
    && option_eq current_state (some parked)
    && is_from_fixing (latest_park work_item_id none transitions)

unfoldable pub work_item_state_for_node_stage :
    List ReviewFinding
    → List StageAttempt
    → List TransitionRow
    → Text
    → Option Text
    → Option WorkItemStage
    → Option WorkItemState
    → WorkItemState
unfolding work_item_state_for_stage loop_active parked_from_fixing
work_item_state_for_node_stage findings attempts transitions work_item_id node_id stage
      current_state =
    work_item_state_for_stage stage (
      is_implementation stage
      && (option_eq current_state (some fixing)
          || parked_from_fixing transitions work_item_id stage current_state
          || loop_active findings attempts node_id stage))
