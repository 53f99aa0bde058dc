-- ===== src/Plan/Tests.antt =====
-- Concrete plans for `validateWorkflowPlanChildren` of
-- src/shared/task-board-contract/validate/plans.ts: two unphased children in turn, and a phased split.
use nexus_seventeen.Prelude.{
  ℕ, ◌≡◌, ◌≢◌, ◌↔◌, ◌⊎◌, refl, true, false, List, [], ◌∷◌, Option, none, some, Text, duplicate_free,
  All, ok, err, eq_text,
}
use nexus_seventeen.Board.{Phase, expand, migrate, contract}
use nexus_seventeen.Contract.{declared_scopes_overlap}
use nexus_seventeen.Plan.{
  DeclaredChild, validate_workflow_plan_children, check_acyclic, visit_out_of_fuel, is_phased, keys,
  dependencies,
}
use nexus_seventeen.Plan.Fuel.{DependenciesKnown, check_acyclic-in_fuel}
use nexus_seventeen.Plan.Ranked.{IsRanking}
use nexus_seventeen.Plan.Acyclic.{check_acyclic_iff}
use nexus_seventeen.Plan.Accepted.{
  AllPairs, ScopesApart, validate-keys, validate-acyclic, validate-scopes,
}
use nexus_seventeen.Plan.Phased.{IsPhasedSplit, validate-phases}

abbrev declared : Text → Text → Text → Option Phase → List Text → DeclaredChild
declared key project scope phase depends_on = record {
  key = key;
  objective = [];
  project_id = project;
  repository_id = none;
  declared_scope = scope ∷ [];
  acceptance_criteria = [];
  phase = phase;
  depends_on = some depends_on;
  split_by = none;
}

abbrev first : Text
first = 1 ∷ []

abbrev second : Text
second = 2 ∷ []

abbrev third : Text
third = 3 ∷ []

abbrev docs : Text
docs = b'd' ∷ b'o' ∷ b'c' ∷ b's' ∷ []

-- The second child starts after the first; both are in project 7.
abbrev earlier : DeclaredChild
earlier = declared first (7 ∷ []) docs none []

abbrev later : DeclaredChild
later = declared second (7 ∷ []) (b'w' ∷ []) none (first ∷ [])

-- Project 7 expands and contracts its interface around the migration of project 8.
abbrev expanding : DeclaredChild
expanding = declared first (7 ∷ []) docs (some expand) []

abbrev migrating : DeclaredChild
migrating = declared second (8 ∷ []) docs (some migrate) (first ∷ [])

abbrev contracting : DeclaredChild
contracting = declared third (7 ∷ []) docs (some contract) (second ∷ [])

two_accepted : validate_workflow_plan_children none (some (earlier ∷ later ∷ [])) none none ≡ ok tt
unfolding validate_workflow_plan_children declared_scopes_overlap
two_accepted = refl

phased_accepted :
    validate_workflow_plan_children none
      (some (expanding ∷ migrating ∷ contracting ∷ []))
      (some (7 ∷ []))
      none
    ≡ ok tt
unfolding validate_workflow_plan_children
phased_accepted = refl

two_known : DependenciesKnown (earlier ∷ later ∷ [])
two_known = (validate-keys none none earlier (later ∷ []) none two_accepted).2

validate-keys_example :
    (duplicate_free (keys (earlier ∷ later ∷ [])) ≡ true)
    × All (λ child. duplicate_free (dependencies child) ≡ true) (earlier ∷ later ∷ [])
    × DependenciesKnown (earlier ∷ later ∷ [])
validate-keys_example = validate-keys none none earlier (later ∷ []) none two_accepted

validate-acyclic_example : (rank : (Text → ℕ)) × IsRanking (earlier ∷ later ∷ []) rank
validate-acyclic_example = validate-acyclic none none earlier (later ∷ []) none two_accepted

validate-scopes_example : AllPairs ScopesApart (earlier ∷ later ∷ [])
validate-scopes_example = validate-scopes none none earlier (later ∷ []) none two_accepted

validate-phases_example :
    All (λ child. is_phased child ≡ false) (expanding ∷ migrating ∷ contracting ∷ [])
    ⊎ (All (λ child. is_phased child ≡ true) (expanding ∷ migrating ∷ contracting ∷ [])
        × IsPhasedSplit (some (7 ∷ [])) (expanding ∷ migrating ∷ contracting ∷ []))
validate-phases_example =
    validate-phases none (some (7 ∷ [])) expanding (migrating ∷ contracting ∷ []) none
      phased_accepted

check_acyclic-in_fuel_example : check_acyclic (earlier ∷ later ∷ []) ≢ err visit_out_of_fuel
check_acyclic-in_fuel_example = check_acyclic-in_fuel (earlier ∷ later ∷ []) two_known

check_acyclic_iff_example :
    (check_acyclic (earlier ∷ later ∷ []) ≡ ok tt)
    ↔ ((rank : (Text → ℕ)) × IsRanking (earlier ∷ later ∷ []) rank)
check_acyclic_iff_example = check_acyclic_iff (earlier ∷ later ∷ []) two_known
