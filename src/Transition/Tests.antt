-- ===== src/Transition/Tests.antt =====
-- Concrete runs of src/server/task-board/persistence/work-item-transitions.ts: a coordinating parent
-- with one child that implements, where a person abandons the child or sends it to review.
use nexus_seventeen.Prelude.{
  ℕ, ◌≡◌, ◌≢◌, refl, subst, ◌⊎◌, ◌||◌, inl, inr, true, false, [], ◌∷◌, Option, none, some, Text,
  lit, text_eq, text_eq_iff, find, tally, ok, ok-injective, ap, sym, Result, err, ◌==◌, eq_text,
  Bool-cases,
}
use nexus_seventeen.Contract.{
  WorkItemState, coordinating, implementing, final_approval, reviewing, merged, queued, parked,
  human, system, eq_state, state_eq, is_work_item_transition_allowed, is_terminal_work_item_state,
}
use nexus_seventeen.Board.{WorkItem, Store, TransitionRow, BoardError, work_item_illegal_transition}
use nexus_seventeen.Transition.{
  Request, ParentTerminationCascade, transition_work_item, admit, check_move, is_failed_end,
  has_children, requires_child, requires_decomposed_parent, is_some, write_move, park_parent,
  move_work_item, child_failure,
}
use nexus_seventeen.Transition.Lookup.{row_of}
use nexus_seventeen.Transition.Replay.{replay}
use nexus_seventeen.Transition.Totality.{HasKey, transition_work_item-total, written}
use nexus_seventeen.Transition.Log.{LogAgrees, IsReplayed, transition_work_item-LogAgrees}
use nexus_seventeen.Transition.Parks.{ParksAgree, IsCounted, transition_work_item-ParksAgree}
use nexus_seventeen.Transition.Safety.{transition_work_item_legal, transition_work_item-terminal}
use nexus_seventeen.Transition.Parents.{CascadeLeaves, transition_work_item-parks_parent}

abbrev parent_id : Text
parent_id = 1 ∷ []

abbrev child_id : Text
child_id = 2 ∷ []

abbrev item : Text → Option Text → WorkItemState → WorkItem
item id parent state = record {
  work_item_id = id;
  parent_work_item_id = parent;
  state = state;
  current_stage = none;
  cancelled_reason = none;
  ended_at = none;
  version = 4;
  updated_at = [];
  phase = none;
  child_ordinal = none;
}

abbrev entry : Text → WorkItemState → TransitionRow
entry id state = record {
  work_item_id = id;
  sequence = 1;
  from_state = none;
  to_state = state;
  actor_type = system;
  actor_id = [];
  created_at = [];
}

abbrev parent_item : WorkItem
parent_item = item parent_id none coordinating

abbrev child_item : WorkItem
child_item = item child_id (some parent_id) implementing

abbrev family : Store
family = record {
  has_open_transaction = true;
  work_items = parent_item ∷ child_item ∷ [];
  work_item_transitions = entry parent_id coordinating ∷ entry child_id implementing ∷ [];
  park_records = [];
  drawn = 0;
}

abbrev abandon : Request
abandon = record {
  work_item_id = child_id;
  to = WorkItemState.abandoned;
  actor_type = human;
  actor_id = 104 ∷ [];
  now = 116 ∷ [];
  ended_at = some (116 ∷ []);
  cancelled_reason = some (some (114 ∷ []));
  current_stage = some none;
  park = none;
  touch = false;
}

abbrev review : Request
review = record {
  work_item_id = child_id;
  to = reviewing;
  actor_type = system;
  actor_id = 104 ∷ [];
  now = 116 ∷ [];
  ended_at = none;
  cancelled_reason = none;
  current_stage = none;
  park = none;
  touch = false;
}

abbrev uuid : ℕ → Text
uuid n = n ∷ []

abbrev plain : Text → Text
plain text = text

uuid-injective : (m n : ℕ) → uuid m ≡ uuid n → m ≡ n
uuid-injective m n h = cc

abbrev or_store : Result BoardError (Store × WorkItemState × ℕ) → Store × WorkItemState × ℕ
or_store (ok answer) = answer
or_store (err e) = (family, queued, 0)

-- What the board answers to the abandonment: both rows have moved.
unfoldable outcome : Store × WorkItemState × ℕ
unfolding transition_work_item
outcome = or_store (transition_work_item uuid plain none family abandon)

outcome_lem : transition_work_item uuid plain none family abandon ≡ ok outcome
unfolding outcome transition_work_item admit text_eq state_eq is_terminal_work_item_state check_move
    is_work_item_transition_allowed is_failed_end has_children write_move park_parent move_work_item
    child_failure lit
outcome_lem = refl

family-LogAgrees : LogAgrees family
unfolding row_of replay find text_eq
family-LogAgrees id = elim (Bool-cases (parent_id == id)) [
  | inl e ↦
      subst
        (λ k. IsReplayed (row_of family k) (replay k (some (0, none)) family.work_item_transitions))
        ((text_eq_iff parent_id id).0 e) (1, refl)
  | inr e ↦ elim (Bool-cases (child_id == id)) [
    | inl f ↦
        subst
          (λ k.
            IsReplayed (row_of family k) (replay k (some (0, none)) family.work_item_transitions))
          ((text_eq_iff child_id id).0 f) (1, refl)
    | inr f ↦ simp (e, f) tt
  ]
]

family-ParksAgree : ParksAgree uuid family
unfolding row_of find text_eq state_eq tally
family-ParksAgree = record { counted = none_open; distinct = tt; drawn = tt }
  where
    none_open : (id : Text) → IsCounted (row_of family id) 0
    none_open id = elim (Bool-cases (parent_id == id)) [
      | inl e ↦ subst (λ k. IsCounted (row_of family k) 0) ((text_eq_iff parent_id id).0 e) refl
      | inr e ↦ elim (Bool-cases (child_id == id)) [
        | inl f ↦ subst (λ k. IsCounted (row_of family k) 0) ((text_eq_iff child_id id).0 f) refl
        | inr f ↦ simp (e, f) tt
      ]
    ]

transition_work_item-LogAgrees_example : LogAgrees outcome.0
transition_work_item-LogAgrees_example =
    transition_work_item-LogAgrees uuid plain none family abandon {answer = outcome} tt outcome_lem
      family-LogAgrees

transition_work_item-ParksAgree_example : ParksAgree uuid outcome.0
transition_work_item-ParksAgree_example =
    transition_work_item-ParksAgree uuid plain uuid-injective none family abandon {answer = outcome}
      tt outcome_lem family-ParksAgree

transition_work_item_legal_example :
    (row : WorkItem) × (row_of family child_id ≡ some row)
    × (outcome.1 ≡ row.state)
    × ((WorkItemState.abandoned ≡ row.state)
        ⊎ ((is_work_item_transition_allowed row.state WorkItemState.abandoned ≡ true)
            × (requires_child row.state WorkItemState.abandoned ≡ true
                → is_some row.parent_work_item_id ≡ true)
            × (requires_decomposed_parent row.state WorkItemState.abandoned ≡ true
                → has_children family child_id ≡ true)))
transition_work_item_legal_example =
    transition_work_item_legal uuid plain none family abandon {answer = outcome} outcome_lem

parent_id-apart : child_id ≢ parent_id
parent_id-apart h = cc

-- The child has a child as well, for which a cascade runs.
abbrev dynasty : Store
dynasty = record family {
  work_items = parent_item ∷ child_item ∷ item (3 ∷ []) (some child_id) queued ∷ [];
}

abbrev idle : Option ParentTerminationCascade
idle = some (λ input store. ok store)

child_read : row_of dynasty child_id ≡ some child_item
unfolding row_of find text_eq
child_read = refl

parent_read : row_of dynasty parent_id ≡ some parent_item
unfolding row_of find text_eq
parent_read = refl

parent_waits : (coordinating == coordinating || coordinating == final_approval) ≡ true
unfolding state_eq
parent_waits = refl

abandon_fails : is_failed_end WorkItemState.abandoned ≡ true
unfolding is_failed_end state_eq is_terminal_work_item_state
abandon_fails = refl

abandon_moves : (WorkItemState.abandoned == implementing) ≡ false
unfolding state_eq
abandon_moves = refl

idle-CascadeLeaves : CascadeLeaves child_id parent_id idle
idle-CascadeLeaves input store next same h =
    let kept : store ≡ next = ok-injective h in
    (ap (λ s. row_of s child_id) (sym kept), ap (λ s. row_of s parent_id) (sym kept))

unfoldable dynasty_outcome : Store × WorkItemState × ℕ
unfolding transition_work_item
dynasty_outcome = or_store (transition_work_item uuid plain idle dynasty abandon)

dynasty_outcome_lem : transition_work_item uuid plain idle dynasty abandon ≡ ok dynasty_outcome
unfolding dynasty_outcome transition_work_item admit text_eq state_eq is_terminal_work_item_state
    check_move is_work_item_transition_allowed is_failed_end has_children write_move park_parent
    move_work_item child_failure lit
dynasty_outcome_lem = refl

transition_work_item-parks_parent_example :
    (after : WorkItem) × (row_of dynasty_outcome.0 parent_id ≡ some after) × (after.state ≡ parked)
transition_work_item-parks_parent_example =
    transition_work_item-parks_parent uuid plain abandon idle dynasty child_item parent_item
      parent_id {answer = dynasty_outcome} idle-CascadeLeaves child_read refl parent_id-apart
      parent_read parent_waits abandon_fails abandon_moves dynasty_outcome_lem

review_admitted : admit family review ≡ ok child_item
unfolding admit find text_eq state_eq is_terminal_work_item_state
review_admitted = refl

review_moves : (reviewing == implementing) ≡ false
unfolding state_eq
review_moves = refl

review_legal : check_move family review child_item ≡ ok tt
unfolding check_move is_work_item_transition_allowed state_eq requires_child
    requires_decomposed_parent
review_legal = refl

review_goes_on : is_failed_end reviewing ≡ false
unfolding is_failed_end state_eq is_terminal_work_item_state
review_goes_on = refl

child_keyed : HasKey family child_id
unfolding tally text_eq
child_keyed = refl

transition_work_item-total_example :
    transition_work_item uuid plain none family review
    ≡ ok (written uuid plain family review child_item, implementing, 5)
transition_work_item-total_example =
    transition_work_item-total uuid plain family review child_item none review_admitted review_moves
      review_legal review_goes_on child_keyed

abbrev merged_item : WorkItem
merged_item = item child_id (some parent_id) merged

abbrev finished : Store
finished = record family { work_items = merged_item ∷ [] }

finished_admits : admit finished review ≡ ok merged_item
unfolding admit find text_eq state_eq is_terminal_work_item_state
finished_admits = refl

merged_ends : is_terminal_work_item_state merged ≡ true
unfolding is_terminal_work_item_state state_eq
merged_ends = refl

reviewing-apart : reviewing ≢ merged
reviewing-apart h = cc

transition_work_item-terminal_example :
    transition_work_item uuid plain none finished review
    ≡ err (work_item_illegal_transition merged reviewing)
transition_work_item-terminal_example =
    transition_work_item-terminal uuid plain none finished review merged_item finished_admits
      merged_ends reviewing-apart
