-- ===== src/Transition/Replay.antt =====
-- An independent reading of the audit log `work_item_transitions`: replaying the entries of one
-- work item, which must be numbered from 1 and each start where the one before it ended.
use nexus_seventeen.Prelude.{
  ℕ, ◌+◌, ◌<◌, ◌≡◌, refl, ◌⊎◌, false, ◌&&◌, List, [], ◌∷◌, ◌++◌, Option, none, some, arith, Text,
  nat_eq, option_eq, if◌then◌else◌, ◌==◌, eq_text,
}
use nexus_seventeen.Contract.{WorkItemState, eq_state}
use nexus_seventeen.Board.{TransitionRow}
use nexus_seventeen.Transition.Writes.{max_sequence}

-- How many entries were read, and the state that the last one led to.
abbrev pub Progress : Type 0
Progress = ℕ × Option WorkItemState

unfoldable pub advance : Text → TransitionRow → Option Progress → Option Progress
advance id t none = none
advance id t (some (read, current)) =
    if t.work_item_id == id
    then (if nat_eq t.sequence (read + 1) && option_eq t.from_state current
        then some (read + 1, some t.to_state)
        else none)
    else some (read, current)

unfoldable pub replay : Text → Option Progress → List TransitionRow → Option Progress
unfolding advance
replay id progress [] = progress
replay id progress (t ∷ ts) = replay id (advance id t progress) ts

pub replay-append :
    (id : Text) (progress : Option Progress) (ts : List TransitionRow) (t : TransitionRow)
    → replay id progress (ts ++ t ∷ []) ≡ advance id t (replay id progress ts)
unfolding replay
replay-append id progress [] t = refl
replay-append id progress (u ∷ ts) t = replay-append id (advance id u progress) ts t

replay-none : (id : Text) (ts : List TransitionRow) → replay id none ts ≡ none
unfolding replay
replay-none id [] = refl
replay-none id (t ∷ ts) = replay-none id ts

-- A log that replays to the end numbers its entries without a gap.
replay-max_sequence :
    (id : Text) (ts : List TransitionRow) (read : ℕ) (current : Option WorkItemState) {total : ℕ}
    {last : Option WorkItemState}
    → replay id (some (read, current)) ts ≡ some (total, last)
    → ((total ≡ read) × (max_sequence id ts ≡ 0)) ⊎ ((read < total) × (max_sequence id ts ≡ total))
unfolding replay max_sequence
replay-max_sequence id [] read current h = ground arith
replay-max_sequence id (t ∷ ts) read current {total} {last} h = ground (
  arith,
  replay-none id ts,
  replay-max_sequence id ts read current {total = total} {last = last},
  replay-max_sequence id ts (read + 1) (some t.to_state) {total = total} {last = last},
)

pub max_sequence-replay :
    (id : Text) (ts : List TransitionRow) {total : ℕ} {last : Option WorkItemState}
    → replay id (some (0, none)) ts ≡ some (total, last)
    → max_sequence id ts ≡ total
max_sequence-replay id ts h = omega (arith, replay-max_sequence id ts 0 none h)

pub advance_skip :
    (id : Text) (t : TransitionRow) (progress : Option Progress)
    → (t.work_item_id == id) ≡ false
    → advance id t progress ≡ progress
unfolding advance
advance_skip id t none ne = refl
advance_skip id t (some p) ne = rw ne
