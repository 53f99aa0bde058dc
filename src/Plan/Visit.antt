-- ===== src/Plan/Visit.antt =====
-- src/shared/task-board-contract/validate/plans.ts: the depth-first search for a dependency cycle.
use nexus_seventeen.Prelude.{
  ℕ, zero, suc, true, false, not, List, [], ◌∷◌, Text, contains, keep, length, Result, ok, err,
  ◌>>=◌, ◌==◌, eq_text,
}
use nexus_seventeen.Plan.Children.{
  DeclaredChild, PlanError, dependency_cycle, visit_out_of_fuel, dependencies_of, keys,
}

-- The sets `visiting` and `visited`.
pub record Search : Type 0 where
  pub visiting : List Text
  pub visited : List Text

-- `for (const dependency of …) visit(dependency);`
unfoldable pub visit_each :
    (Text → Search → Result PlanError Search) → List Text → Search → Result PlanError Search
visit_each step [] search = ok search
visit_each step (key ∷ rest) search = step key search >>= visit_each step rest

-- `visiting.delete(key); visited.add(key);`
unfoldable pub leave : Text → Search → Search
unfolding keep
leave key search = record {
  visiting = keep (λ k. not (k == key)) search.visiting;
  visited = key ∷ search.visited;
}

unfoldable pub visit : ℕ → List DeclaredChild → Text → Search → Result PlanError Search
unfolding contains visit_each dependencies_of leave
visit zero children key search = err visit_out_of_fuel
visit (suc fuel) children key search = elim (contains key search.visiting) [
  | true ↦ err dependency_cycle
  | false ↦ elim (contains key search.visited) [
    | true ↦ ok search
    | false ↦
        visit_each (visit fuel children) (dependencies_of children key)
          (record search { visiting = key ∷ search.visiting })
        >>= λ entered. ok (leave key entered)
  ]
]

unfoldable pub visit_roots : ℕ → List DeclaredChild → List Text → Search → Result PlanError Search
unfolding visit visit_each
visit_roots fuel children roots search = visit_each (visit fuel children) roots search

abbrev pub nothing_visited : Search
nothing_visited = record { visiting = []; visited = [] }

-- A nested visit has one more child in `visiting`, so one more than their number is fuel enough.
unfoldable pub check_acyclic : List DeclaredChild → Result PlanError (Unit {0})
unfolding visit_roots
check_acyclic children =
    visit_roots (suc (length children)) children (keys children) nothing_visited >>= λ search. ok tt
