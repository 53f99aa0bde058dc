-- ===== src/Plan/Accepted.antt =====
-- What `validateWorkflowPlanChildren` guarantees of a declaration that it accepts: the keys, the
-- dependencies and the scopes.
use nexus_seventeen.Prelude.{
  ℕ, ◌≡◌, refl, inl, inr, Bool, true, false, not, ◌&&◌, List, [], ◌∷◌, Option, none, some, arith,
  Text, text_eq_iff, contains, contains-mem, duplicate_free, keep, any, is_nil, length, nat_eq, ltb,
  All, All-of_mem, All-mem, if◌then◌else◌, Result, ok, err, ◌>>=◌, throw_if, throw_if-eq-ok,
  throw_if-passes, err_is_not_ok, >>=-eq-ok, eq_text, Bool-cases,
}
use nexus_seventeen.Contract.{ScopeError, declared_scopes_overlap}
use nexus_seventeen.Plan.{
  DeclaredChild, ChangeShape, feature, blast_radius, PlanError, duplicate_key, duplicate_dependency,
  phase_required, phases_of_feature, split_by_required, children_of_child, children_of_sweep,
  children_required, scopes_overlap, check_keys, check_dependencies, check_acyclic, check_scopes,
  check_against, check_pair, check_phases, check_declared, validate_workflow_plan_children,
  requires_disjoint_scopes, shares_checkout, dependencies, scope_error, is_given, mechanical_sweep,
  keys, is_phased, has_shape,
}
use nexus_seventeen.Plan.Fuel.{DependenciesKnown, check_dependencies-All}
use nexus_seventeen.Plan.Ranked.{IsRanking}
use nexus_seventeen.Plan.Acyclic.{check_acyclic-IsRanking}

-- The checks that an accepted declaration has passed.
pub record Passed (change_shape : Option ChangeShape) (parent_project_id : Option Text)
    (children : List DeclaredChild) : Type 0 where
  pub all_phased :
      ltb 0 (length (keep is_phased children))
        && not (nat_eq (length (keep is_phased children)) (length children))
      ≡ false
  pub no_feature_phases :
      has_shape feature change_shape && ltb 0 (length (keep is_phased children)) ≡ false
  pub keys_pass : check_keys [] children ≡ ok tt
  pub dependencies_pass : check_dependencies (keys children) children ≡ ok tt
  pub acyclic_pass : check_acyclic children ≡ ok tt
  pub scopes_pass : check_scopes children ≡ ok tt
  pub phases_pass :
      (if nat_eq (length (keep is_phased children)) 0
        then ok tt
        else check_phases parent_project_id children)
      ≡ ok tt

module _ (change_shape : Option ChangeShape) (parent_project_id : Option Text) where
  check_declared-Passed :
      (children : List DeclaredChild)
      → check_declared change_shape parent_project_id children ≡ ok tt
      → Passed change_shape parent_project_id children
  unfolding check_declared
  check_declared-Passed children h =
      let (a1, e1, h1) =
        >>=-eq-ok
          (throw_if
            (has_shape blast_radius change_shape
              && any (λ child. elim child.split_by [ none ↦ true | some s ↦ false ]) children)
            split_by_required)
          _ h in
      let (a2, e2, h2) =
        >>=-eq-ok
          (throw_if
            (ltb 0 (length (keep is_phased children))
              && not (nat_eq (length (keep is_phased children)) (length children)))
            phase_required)
          _ h1 in
      let (a3, e3, h3) =
        >>=-eq-ok
          (throw_if (has_shape feature change_shape && ltb 0 (length (keep is_phased children)))
            phases_of_feature)
          _ h2 in
      let (a4, e4, h4) = >>=-eq-ok (check_keys [] children) _ h3 in
      let (a5, e5, h5) = >>=-eq-ok (check_dependencies (keys children) children) _ h4 in
      let (a6, e6, h6) = >>=-eq-ok (check_acyclic children) _ h5 in
      let (a7, e7, h7) = >>=-eq-ok (check_scopes children) _ h6 in
      record {
        all_phased = throw_if-eq-ok _ _ e2;
        no_feature_phases = throw_if-eq-ok _ _ e3;
        keys_pass = e4;
        dependencies_pass = e5;
        acyclic_pass = e6;
        scopes_pass = e7;
        phases_pass = h7;
      }

  pub validate-Passed :
      (c : DeclaredChild) (cs : List DeclaredChild) (parent_work_item_id : Option Text)
      → validate_workflow_plan_children change_shape
          (some (c ∷ cs))
          parent_project_id
          parent_work_item_id
        ≡ ok tt
      → Passed change_shape parent_project_id (c ∷ cs)
  unfolding validate_workflow_plan_children is_nil
  validate-Passed c cs parent_work_item_id h =
      let (e1, h1) = throw_if-passes (is_given parent_work_item_id && true) children_of_child _ h in
      let (e2, h2) =
        throw_if-passes (has_shape mechanical_sweep change_shape && true) children_of_sweep _ h1 in
      let (e3, h3) =
        throw_if-passes (has_shape blast_radius change_shape && false) children_required _ h2 in
      check_declared-Passed (c ∷ cs) h3

-- Every two children, the first before the second.
abbrev pub AllPairs : (DeclaredChild → DeclaredChild → Type 0) → List DeclaredChild → Type 0
AllPairs R [] = Unit
AllPairs R (a ∷ rest) = All (R a) rest × AllPairs R rest

-- Unphased children, and Migrate children, of one checkout have scopes that do not overlap.
abbrev pub ScopesApart : DeclaredChild → DeclaredChild → Type 0
ScopesApart a b =
    requires_disjoint_scopes a b ≡ true
    → shares_checkout a b ≡ true
    → declared_scopes_overlap a.declared_scope b.declared_scope ≡ ok false

scope_error-ok :
    (r : Result ScopeError Bool) (e : PlanError)
    → (scope_error r >>= λ overlap. throw_if overlap e) ≡ ok tt
    → r ≡ ok false
scope_error-ok (ok true) e h = err_is_not_ok h
scope_error-ok (ok false) e h = refl
scope_error-ok (err d) e h = err_is_not_ok h

check_pair-ScopesApart : (a b : DeclaredChild) → check_pair a b ≡ ok tt → ScopesApart a b
unfolding check_pair
check_pair-ScopesApart a b h disjoint same =
    scope_error-ok (declared_scopes_overlap a.declared_scope b.declared_scope)
      (scopes_overlap a.project_id) (rw (check_pair, disjoint, same) at h)

check_against-All :
    (a : DeclaredChild) (rest : List DeclaredChild)
    → check_against a rest ≡ ok tt
    → All (ScopesApart a) rest
unfolding check_against
check_against-All a [] h = tt
check_against-All a (b ∷ rest) h =
    let (x, e, h') = >>=-eq-ok (check_pair a b) _ h in
    (check_pair-ScopesApart a b e, check_against-All a rest h')

check_scopes-AllPairs :
    (children : List DeclaredChild) → check_scopes children ≡ ok tt → AllPairs ScopesApart children
unfolding check_scopes
check_scopes-AllPairs [] h = tt
check_scopes-AllPairs (a ∷ rest) h =
    let (x, e, h') = >>=-eq-ok (check_against a rest) _ h in
    (check_against-All a rest e, check_scopes-AllPairs rest h')

check_keys_unique :
    (seen : List Text) (children : List DeclaredChild)
    → check_keys seen children ≡ ok tt
    → (duplicate_free (keys children) ≡ true)
      × All (λ key. contains key seen ≡ false) (keys children)
      × All (λ child. duplicate_free (dependencies child) ≡ true) children
unfolding check_keys duplicate_free contains
check_keys_unique seen [] h = (refl, tt, tt)
check_keys_unique seen (c ∷ rest) h =
    let (e1, h1) = throw_if-passes (contains c.key seen) duplicate_key _ h in
    let (e2, h2) =
      throw_if-passes (not (duplicate_free (dependencies c))) (duplicate_dependency c.key) _ h1 in
    let (unique, fresh, lists) = check_keys_unique (c.key ∷ seen) rest h2 in
    let alone : contains c.key (keys rest) ≡ false =
      elim (Bool-cases (contains c.key (keys rest))) [
        | inl q ↦
            let again : contains c.key (c.key ∷ seen) ≡ false =
              All-mem _ (keys rest) fresh (contains-mem c.key (keys rest) q) in
            ground (arith, again, text_eq_iff c.key c.key)
        | inr q ↦ q
      ] in
    (
      ground (arith, alone, unique),
      (
        e1,
        All-of_mem _ (keys rest)
            (λ k m. let later = All-mem _ (keys rest) fresh m in ground (arith, later)),
      ),
      (ground arith, lists),
    )

module _ (change_shape : Option ChangeShape) (parent_project_id : Option Text) (c : DeclaredChild)
    (cs : List DeclaredChild) (parent_work_item_id : Option Text)
    (accepted : validate_workflow_plan_children change_shape
        (some (c ∷ cs))
        parent_project_id
        parent_work_item_id
      ≡ ok tt) where
  passed : Passed change_shape parent_project_id (c ∷ cs)
  passed = validate-Passed change_shape parent_project_id c cs parent_work_item_id accepted

  -- The children of an accepted plan have distinct keys, every child lists each dependency once, and
  -- every dependency is the key of a child.
  pub validate-keys :
      (duplicate_free (keys (c ∷ cs)) ≡ true)
      × All (λ child. duplicate_free (dependencies child) ≡ true) (c ∷ cs)
      × DependenciesKnown (c ∷ cs)
  validate-keys =
      let (unique, fresh, lists) = check_keys_unique [] (c ∷ cs) passed.keys_pass in
      (unique, lists, check_dependencies-All (keys (c ∷ cs)) (c ∷ cs) passed.dependencies_pass)

  -- The keys of an accepted plan have a ranking in which every dependency comes before the child
  -- that names it, so the children can be done in some order.
  pub validate-acyclic : (rank : (Text → ℕ)) × IsRanking (c ∷ cs) rank
  validate-acyclic = check_acyclic-IsRanking (c ∷ cs) passed.acyclic_pass

  -- In an accepted plan, two children that are both without a phase or both Migrate, and that share
  -- a checkout, have scopes that do not overlap.
  pub validate-scopes : AllPairs ScopesApart (c ∷ cs)
  validate-scopes = check_scopes-AllPairs (c ∷ cs) passed.scopes_pass
