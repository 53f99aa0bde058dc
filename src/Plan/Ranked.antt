-- ===== src/Plan/Ranked.antt =====
-- A declaration whose dependencies come earlier in some ranking has no cycle: the search accepts it.
use nexus_seventeen.Prelude.{
  ℕ, zero, suc, ◌<◌, ◌≡◌, ◌≢◌, ◌⊎◌, refl, sym, subst, ◌∙◌, inl, inr, true, List, [], ◌∷◌, arith,
  Text, contains, contains-mem, length, All, All-mem, All-of_mem, Result, ok, err, ◌>>=◌,
  >>=-avoids, eq_text, Bool-cases,
}
use nexus_seventeen.Plan.{
  DeclaredChild, PlanError, dependency_cycle, visit_out_of_fuel, dependencies_of, keys, Search,
  visit, visit_each, visit_roots, check_acyclic, nothing_visited,
}
use nexus_seventeen.Plan.Steps.{visit_each-avoids, visit-visiting, enter}
use nexus_seventeen.Plan.Fuel.{DependenciesKnown, check_acyclic-in_fuel}

-- Each key's dependencies have a smaller rank than the key.
abbrev pub IsRanking : List DeclaredChild → (Text → ℕ) → Type 0
IsRanking children rank = (key : Text) → All (λ d. rank d < rank key) (dependencies_of children key)

abbrev Above : (Text → ℕ) → Text → Search → Type 0
Above rank key s = All (λ v. rank key < rank v) s.visiting

Above-absent :
    (rank : Text → ℕ) (key : Text) (s : Search)
    → Above rank key s
    → contains key s.visiting ≡ true
    → rank key < rank key
Above-absent rank key s above h =
    All-mem (λ v. rank key < rank v) s.visiting above (contains-mem key s.visiting h)

enter-Above :
    (rank : Text → ℕ) (key d : Text) (s : Search)
    → Above rank key s
    → rank d < rank key
    → Above rank d (enter key s)
enter-Above rank key d s above less = (
  less,
  All-of_mem _ s.visiting
      (λ v m. omega (arith, less, All-mem (λ v. rank key < rank v) s.visiting above m)),
)

-- A ranked key that ranks below all of the stack is visited without a cycle.
pub visit-no_cycle :
    (fuel : ℕ) (children : List DeclaredChild) (rank : Text → ℕ)
    → IsRanking children rank
    → (key : Text) (s : Search) → Above rank key s
    → visit fuel children key s ≢ err dependency_cycle
unfolding visit
visit-no_cycle zero children rank ranked key s above = λ h. cc
visit-no_cycle (suc fuel) children rank ranked key s above =
    elim (Bool-cases (contains key s.visiting)) [
      | inl e ↦ λ h. omega (arith, Above-absent rank key s above e)
      | inr e ↦ elim (Bool-cases (contains key s.visited)) [
        | inl e' ↦ rw (visit, e, e') (λ h. cc)
        | inr e' ↦
            rw (visit, e, e')
              (>>=-avoids
                (visit_each (visit fuel children) (dependencies_of children key) (enter key s)) _
                (visit_each-avoids (visit fuel children) (λ t. t.visiting ≡ key ∷ s.visiting)
                  (λ d. rank d < rank key) dependency_cycle
                  (λ d t less same. visit-no_cycle fuel children rank ranked d t (
                    subst (λ v. All (λ w. rank d < rank w) v) (sym same)
                      (enter-Above rank key d s above less)))
                  (λ d t t' told same. visit-visiting fuel children d t t' told ∙ same)
                  (dependencies_of children key) (enter key s) (ranked key) refl)
                (λ a told h. cc))
      ]
    ]

pub check_acyclic-no_cycle :
    (children : List DeclaredChild) (rank : Text → ℕ)
    → IsRanking children rank
    → check_acyclic children ≢ err dependency_cycle
unfolding check_acyclic visit_roots
check_acyclic-no_cycle children rank ranked =
    >>=-avoids (visit_roots (suc (length children)) children (keys children) nothing_visited) _
      (visit_each-avoids (visit (suc (length children)) children) (λ t. t.visiting ≡ []) (λ d. Unit)
        dependency_cycle
        (λ d t _ same.
          visit-no_cycle (suc (length children)) children rank ranked d t
            (subst (λ v. All (λ w. rank d < rank w) v) (sym same) tt))
        (λ d t t' told same. visit-visiting (suc (length children)) children d t t' told ∙ same)
        (keys children) nothing_visited (All-of_mem _ (keys children) (λ key m. tt)) refl)
      (λ a told h. cc)

-- The search throws only for a cycle or for want of fuel.
abbrev Expected : {A : Type 0} → Result PlanError A → Type 0
Expected (ok a) = Unit
Expected (err e) = (e ≡ dependency_cycle) ⊎ (e ≡ visit_out_of_fuel)

>>=-Expected :
    {A B : Type 0} (m : Result PlanError A) (f : A → Result PlanError B)
    → Expected m
    → ((a : A) → Expected (f a))
    → Expected (m >>= f)
>>=-Expected (ok a) f h later = later a
>>=-Expected (err e) f h later = h

visit_each-Expected :
    (step : Text → Search → Result PlanError Search)
    → ((key : Text) (s : Search) → Expected (step key s))
    → (roots : List Text) (s : Search) → Expected (visit_each step roots s)
unfolding visit_each
visit_each-Expected step one [] s = tt
visit_each-Expected step one (key ∷ rest) s =
    >>=-Expected (step key s) _ (one key s) (visit_each-Expected step one rest)

visit-Expected :
    (fuel : ℕ) (children : List DeclaredChild) (key : Text) (s : Search)
    → Expected (visit fuel children key s)
unfolding visit
visit-Expected zero children key s = inr refl
visit-Expected (suc fuel) children key s = elim (Bool-cases (contains key s.visiting)) [
  | inl e ↦ rw (visit, e) (inl refl)
  | inr e ↦ elim (Bool-cases (contains key s.visited)) [
    | inl e' ↦ rw (visit, e, e') tt
    | inr e' ↦
        rw (visit, e, e')
          (>>=-Expected
            (visit_each (visit fuel children) (dependencies_of children key) (enter key s)) _
            (visit_each-Expected (visit fuel children) (visit-Expected fuel children)
              (dependencies_of children key) (enter key s))
            (λ a. tt))
  ]
]

Expected-ok :
    (m : Result PlanError (Unit {0}))
    → Expected m
    → m ≢ err dependency_cycle
    → m ≢ err visit_out_of_fuel
    → m ≡ ok tt
Expected-ok (ok s) h a b = refl
Expected-ok (err e) (inl q) a b = elim (a (rw q refl)) [ ]
Expected-ok (err e) (inr q) a b = elim (b (rw q refl)) [ ]

-- A ranked declaration whose dependencies are known passes the search.
pub check_acyclic-accepts :
    (children : List DeclaredChild) (rank : Text → ℕ)
    → DependenciesKnown children
    → IsRanking children rank
    → check_acyclic children ≡ ok tt
unfolding check_acyclic visit_roots
check_acyclic-accepts children rank known ranked =
    Expected-ok (check_acyclic children)
      (>>=-Expected (visit_roots (suc (length children)) children (keys children) nothing_visited) _
        (visit_each-Expected (visit (suc (length children)) children)
          (visit-Expected (suc (length children)) children) (keys children) nothing_visited)
        (λ a. tt))
      (check_acyclic-no_cycle children rank ranked) (check_acyclic-in_fuel children known)
