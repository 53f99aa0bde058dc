-- ===== src/Contract/States.antt =====
-- src/shared/task-board-contract/index.ts: work-item states and their transition table.
use nexus_seventeen.Prelude.{ℕ, ◌≡◌, ◌↔◌, Bool, true, List, [], ◌∷◌, arith, nat_eq, Eq, contains}

pub data WorkItemState : Type 0 where
  queued planning plan_approval coordinating designing implementing verifying reviewing fixing
        final_approval merged parked abandoned dead_letter :
      WorkItemState

abbrev ordinal : WorkItemState → ℕ
ordinal queued = 0
ordinal planning = 1
ordinal plan_approval = 2
ordinal coordinating = 3
ordinal designing = 4
ordinal implementing = 5
ordinal verifying = 6
ordinal reviewing = 7
ordinal fixing = 8
ordinal final_approval = 9
ordinal merged = 10
ordinal parked = 11
ordinal abandoned = 12
ordinal dead_letter = 13

unfoldable pub state_eq : WorkItemState → WorkItemState → Bool
state_eq a b = nat_eq (ordinal a) (ordinal b)

state_eq→eq : (a b : WorkItemState) → state_eq a b ≡ true → a ≡ b
unfolding state_eq
state_eq→eq a b h = ground arith

state_eq_self : (a : WorkItemState) → state_eq a a ≡ true
unfolding state_eq
state_eq_self a = ground arith

pub state_eq_iff : (a b : WorkItemState) → (state_eq a b ≡ true) ↔ (a ≡ b)
state_eq_iff a b = (state_eq→eq a b, λ e. rw e (state_eq_self b))

instance abbrev pub eq_state : Eq WorkItemState
eq_state = record { is_same = state_eq; same_iff = state_eq_iff }

abbrev pub work_item_terminal_states : List WorkItemState
work_item_terminal_states = merged ∷ abandoned ∷ dead_letter ∷ []

unfoldable pub is_terminal_work_item_state : WorkItemState → Bool
unfolding contains state_eq
is_terminal_work_item_state state = contains state work_item_terminal_states

unfoldable pub work_item_transitions : WorkItemState → List WorkItemState
work_item_transitions queued =
    planning ∷ designing ∷ implementing ∷ parked ∷ abandoned ∷ dead_letter ∷ []
work_item_transitions planning =
    plan_approval ∷ implementing ∷ verifying ∷ reviewing ∷ parked ∷ abandoned ∷ dead_letter ∷ []
work_item_transitions plan_approval =
    coordinating ∷ designing ∷ implementing ∷ verifying ∷ reviewing ∷ planning ∷ parked ∷ abandoned
    ∷ dead_letter ∷ []
work_item_transitions coordinating = final_approval ∷ merged ∷ parked ∷ abandoned ∷ dead_letter ∷ []
work_item_transitions designing = implementing ∷ parked ∷ abandoned ∷ dead_letter ∷ []
work_item_transitions implementing =
    verifying ∷ reviewing ∷ planning ∷ merged ∷ parked ∷ abandoned ∷ dead_letter ∷ []
work_item_transitions verifying =
    reviewing ∷ fixing ∷ final_approval ∷ implementing ∷ planning ∷ parked ∷ abandoned ∷ dead_letter
    ∷ []
work_item_transitions reviewing =
    fixing ∷ planning ∷ implementing ∷ verifying ∷ final_approval ∷ merged ∷ parked ∷ abandoned
    ∷ dead_letter ∷ []
work_item_transitions fixing = verifying ∷ parked ∷ abandoned ∷ dead_letter ∷ []
work_item_transitions final_approval =
    coordinating ∷ merged ∷ fixing ∷ implementing ∷ parked ∷ abandoned ∷ dead_letter ∷ []
work_item_transitions merged = []
work_item_transitions parked =
    coordinating ∷ planning ∷ implementing ∷ verifying ∷ reviewing ∷ fixing ∷ abandoned
    ∷ dead_letter ∷ []
work_item_transitions abandoned = []
work_item_transitions dead_letter = []

unfoldable pub is_work_item_transition_allowed : WorkItemState → WorkItemState → Bool
unfolding contains state_eq work_item_transitions
is_work_item_transition_allowed from to = contains to (work_item_transitions from)
