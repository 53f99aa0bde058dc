-- ===== src/Readiness.antt =====
-- src/server/task-board/collaborators/decomposition-readiness.ts: which child of a decomposed work
-- item keeps another one from starting.
mod Urgency
pub mod ContractChild
pub mod Predecessors
mod Tests
use nexus_seventeen.Prelude.{
  ℕ, Bool, true, false, not, ◌&&◌, ◌||◌, List, [], ◌∷◌, ◌++◌, Option, none, some, option_eq, Text,
  nat_eq, ltb, any, keep, find, if◌then◌else◌, ◌==◌, eq_text,
}
use nexus_seventeen.Contract.{WorkItemState, merged, eq_state, is_terminal_work_item_state}
use nexus_seventeen.Board.{Phase, expand, migrate, contract, WorkItem}
use nexus_seventeen.Transition.{text_leb}

-- The columns of `work_item_dependencies` and `gate_actions` that the queries read.
pub record Dependency : Type 0 where
  pub work_item_id : Text
  pub depends_on_work_item_id : Text

pub record GateAction : Type 0 where
  pub work_item_id : Text
  pub is_deploy_attest : Bool

pub record Family : Type 0 where
  pub work_items : List WorkItem
  pub work_item_dependencies : List Dependency
  pub gate_actions : List GateAction

pub record DecompositionReadinessBlocker : Type 0 where
  pub work_item_id : Text
  pub phase : Option Phase
  pub state : WorkItemState
  pub deploy_attested : Bool

-- `isFailedTerminalWorkItemState`
unfoldable pub is_failed_terminal_work_item_state : WorkItemState → Bool
is_failed_terminal_work_item_state state =
    not (state == merged) && is_terminal_work_item_state state

unfoldable pub is_attested : Family → Text → Bool
unfolding any
is_attested family work_item_id =
    any (λ a. a.work_item_id == work_item_id && a.is_deploy_attest) family.gate_actions

-- `phase IS NOT NULL`, `phase='contract'` and `phase<>'contract'`, of which the last is not true of NULL.
abbrev pub has_some_phase : Option Phase → Bool
has_some_phase none = false
has_some_phase (some p) = true

abbrev pub is_contract : Option Phase → Bool
is_contract (some contract) = true
is_contract phase = false

abbrev pub is_other_phase : Option Phase → Bool
is_other_phase phase = has_some_phase phase && not (is_contract phase)

-- The child of a parent that the contract query selects.
unfoldable pub is_unready : Family → Text → WorkItem → Bool
unfolding is_attested
is_unready family parent_id s =
    option_eq s.parent_work_item_id (some parent_id)
    && is_other_phase s.phase
    && (not (s.state == merged) || not (is_attested family s.work_item_id))

-- The `CASE` of the `ORDER BY`.
unfoldable pub urgency : WorkItem → ℕ
unfolding is_failed_terminal_work_item_state
urgency s =
    if is_failed_terminal_work_item_state s.state
    then 0
    else (if not (s.state == merged) then 1 else 2)

abbrev ordinal_ltb : Option ℕ → Option ℕ → Bool
ordinal_ltb none none = false
ordinal_ltb none (some n) = true
ordinal_ltb (some m) none = false
ordinal_ltb (some m) (some n) = ltb m n

-- `child_ordinal,work_item_id`, where NULL is first and identifiers are ASCII.
unfoldable pub is_earlier : WorkItem → WorkItem → Bool
unfolding text_leb
is_earlier a b =
    ordinal_ltb a.child_ordinal b.child_ordinal
    || not (ordinal_ltb b.child_ordinal a.child_ordinal)
      && not (text_leb b.work_item_id a.work_item_id)

unfoldable pub is_more_urgent : WorkItem → WorkItem → Bool
unfolding urgency is_earlier
is_more_urgent a b = ltb (urgency a) (urgency b) || nat_eq (urgency a) (urgency b) && is_earlier a b

-- `ORDER BY … LIMIT 1`
abbrev pub first_of : (WorkItem → WorkItem → Bool) → Option WorkItem → WorkItem → Option WorkItem
first_of before none s = some s
first_of before (some best) s = if before best s then some best else some s

unfoldable pub first_by : (WorkItem → WorkItem → Bool) → List WorkItem → Option WorkItem
first_by before [] = none
first_by before (s ∷ rest) = first_of before (first_by before rest) s

-- The join of the dependencies with the work items that are not merged.
unfoldable pub open_predecessors : Family → Text → List Dependency → List WorkItem
unfolding keep
open_predecessors family work_item_id [] = []
open_predecessors family work_item_id (d ∷ rest) =
    let others = open_predecessors family work_item_id rest in
    if d.work_item_id == work_item_id
    then keep (λ w. w.work_item_id == d.depends_on_work_item_id && not (w.state == merged))
        family.work_items
      ++ others
    else others

abbrev blocker_of : Bool → WorkItem → DecompositionReadinessBlocker
blocker_of attested s = record {
  work_item_id = s.work_item_id;
  phase = s.phase;
  state = s.state;
  deploy_attested = attested;
}

abbrev pub sibling_blocker : Family → Option WorkItem → Option DecompositionReadinessBlocker
sibling_blocker family none = none
sibling_blocker family (some s) = some (blocker_of (is_attested family s.work_item_id) s)

abbrev pub predecessor_blocker : Option WorkItem → Option DecompositionReadinessBlocker
predecessor_blocker none = none
predecessor_blocker (some s) = some (blocker_of false s)

unfoldable pub parent_is_phased : Family → Text → Bool
unfolding any
parent_is_phased family parent_id =
    any (λ s. option_eq s.parent_work_item_id (some parent_id) && has_some_phase s.phase)
      family.work_items

unfoldable pub blocker_below : Family → WorkItem → Text → Option DecompositionReadinessBlocker
unfolding first_by is_more_urgent is_unready is_earlier open_predecessors keep
blocker_below family owner parent_id =
    if is_contract owner.phase
    then sibling_blocker family
        (first_by is_more_urgent (keep (is_unready family parent_id) family.work_items))
    else predecessor_blocker (
        first_by is_earlier
          (open_predecessors family owner.work_item_id family.work_item_dependencies))

unfoldable pub blocker_of_owner : Family → Option WorkItem → Option DecompositionReadinessBlocker
unfolding blocker_below parent_is_phased
blocker_of_owner family none = none
blocker_of_owner family (some owner) = elim owner.parent_work_item_id [
  | none ↦ none
  | some parent_id ↦ elim (parent_is_phased family parent_id) [
    | false ↦ none
    | true ↦ blocker_below family owner parent_id
  ]
]

-- `decompositionReadinessBlocker`
unfoldable pub decomposition_readiness_blocker :
    Family → Text → Option DecompositionReadinessBlocker
unfolding blocker_of_owner find
decomposition_readiness_blocker family work_item_id =
    blocker_of_owner family (find (λ w. w.work_item_id == work_item_id) family.work_items)
