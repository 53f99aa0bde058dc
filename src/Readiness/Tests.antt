-- ===== src/Readiness/Tests.antt =====
-- Concrete families for src/server/task-board/collaborators/decomposition-readiness.ts: an Expand
-- child that was abandoned, a Migrate child behind it, and the Contract child.
use nexus_seventeen.Prelude.{
  ℕ, ◌≡◌, ◌↔◌, refl, true, false, [], ◌∷◌, none, some, Text, find, text_eq, ◌==◌, eq_text,
}
use mathlib.Core.List.{Memᴰ}
use nexus_seventeen.Contract.{WorkItemState, merged, queued, state_eq, is_terminal_work_item_state}
use nexus_seventeen.Board.{Phase, expand, migrate, contract, WorkItem}
use nexus_seventeen.Readiness.{
  Family, DecompositionReadinessBlocker, decomposition_readiness_blocker, is_attested,
  is_other_phase, is_failed_terminal_work_item_state, parent_is_phased,
}
use nexus_seventeen.Readiness.ContractChild.{contract-blocker_iff, contract-blocker_failed}
use nexus_seventeen.Readiness.Predecessors.{PredecessorsMerged, predecessor-blocker_iff}

abbrev parent_id : Text
parent_id = 1 ∷ []

abbrev child : ℕ → Phase → WorkItemState → WorkItem
child id phase state = record {
  work_item_id = id ∷ [];
  parent_work_item_id = some parent_id;
  state = state;
  current_stage = none;
  cancelled_reason = none;
  ended_at = none;
  version = 1;
  updated_at = [];
  phase = some phase;
  child_ordinal = some id;
}

abbrev expanding : WorkItem
expanding = child 2 expand WorkItemState.abandoned

abbrev migrating : WorkItem
migrating = child 3 migrate queued

abbrev contracting : WorkItem
contracting = child 4 contract queued

abbrev family : Family
family = record {
  work_items = migrating ∷ expanding ∷ contracting ∷ [];
  work_item_dependencies =
      record { work_item_id = 3 ∷ []; depends_on_work_item_id = 2 ∷ [] }
      ∷ record { work_item_id = 4 ∷ []; depends_on_work_item_id = 3 ∷ [] }
      ∷ [];
  gate_actions = [];
}

contract_read : find (λ w. w.work_item_id == 4 ∷ []) family.work_items ≡ some contracting
unfolding find text_eq
contract_read = refl

migrate_read : find (λ w. w.work_item_id == 3 ∷ []) family.work_items ≡ some migrating
unfolding find text_eq
migrate_read = refl

family_phased : parent_is_phased family parent_id ≡ true
unfolding parent_is_phased text_eq
family_phased = refl

abbrev blocking : DecompositionReadinessBlocker
blocking = record {
  work_item_id = 2 ∷ [];
  phase = some expand;
  state = WorkItemState.abandoned;
  deploy_attested = false;
}

contract_blocked : decomposition_readiness_blocker family (4 ∷ []) ≡ some blocking
unfolding decomposition_readiness_blocker text_eq state_eq is_terminal_work_item_state
contract_blocked = refl

expand_failed : is_failed_terminal_work_item_state WorkItemState.abandoned ≡ true
unfolding is_failed_terminal_work_item_state state_eq is_terminal_work_item_state
expand_failed = refl

contract-blocker_iff_example : (decomposition_readiness_blocker family (4 ∷ []) ≡ none) ↔ (
    (s : WorkItem)
    → Memᴰ s family.work_items
    → s.parent_work_item_id ≡ some parent_id
    → is_other_phase s.phase ≡ true
    → (s.state ≡ merged) × (is_attested family s.work_item_id ≡ true))
contract-blocker_iff_example =
    contract-blocker_iff family (4 ∷ []) parent_id contracting contract_read refl refl

contract-blocker_failed_example : is_failed_terminal_work_item_state blocking.state ≡ true
contract-blocker_failed_example =
    contract-blocker_failed family (4 ∷ []) parent_id contracting contract_read refl refl blocking
      expanding contract_blocked (Memᴰ.tail (Memᴰ.head refl)) refl refl expand_failed

predecessor-blocker_iff_example :
    (decomposition_readiness_blocker family (3 ∷ []) ≡ none)
    ↔ PredecessorsMerged family (3 ∷ []) family.work_item_dependencies
predecessor-blocker_iff_example =
    predecessor-blocker_iff family (3 ∷ []) parent_id migrating migrate_read refl family_phased refl
