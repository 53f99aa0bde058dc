-- ===== src/Plan/Phased.antt =====
-- What `validateWorkflowPlanChildren` guarantees of a phased declaration that it accepts.
use nexus_seventeen.Prelude.{
  ◌<◌, ◌≤◌, ◌≡◌, ◌⊎◌, refl, inl, inr, Bool, true, false, not, ◌||◌, List, [], ◌∷◌, Option, some,
  arith, Text, text_eq_iff, contains, keep, any, any-of_false, length, nat_eq, All, All-of_mem,
  All-mem, Result, ok, err, ◌>>=◌, ◌>>◌, throw_if, throw_if-eq-ok, throw_if-passes, err_is_not_ok,
  ◌==◌, eq_text, Bool-cases,
}
use nexus_seventeen.Board.{expand, migrate, contract}
use nexus_seventeen.Plan.{
  DeclaredChild, ChangeShape, PlanError, expand_must_cover_interface, contract_must_cover_interface,
  provider_must_be_parent, migrate_in_provider_repository, migrate_must_depend_on_expand,
  contract_must_depend_on_migrates, check_phases, select_roles, check_roles,
  covers_published_interface, provider_of, validate_workflow_plan_children, shares_checkout,
  dependencies, has_phase, is_phased,
}
use nexus_seventeen.Plan.Accepted.{validate-Passed}

-- One Expand and one Contract child, both in the provider's project and both covering the published
-- interface, around one or more Migrate children: each in another checkout than the Expand child's
-- and after it, and before the Contract child.
pub record IsPhasedSplit (parent_project_id : Option Text) (children : List DeclaredChild)
    : Type 0 where
  pub expand_child : DeclaredChild
  pub contract_child : DeclaredChild
  pub only_expand : keep (has_phase (some expand)) children ≡ expand_child ∷ []
  pub only_contract : keep (has_phase (some contract)) children ≡ contract_child ∷ []
  pub some_migrate : 0 < length (keep (has_phase (some migrate)) children)
  pub expand_covers : covers_published_interface expand_child ≡ ok true
  pub contract_covers : covers_published_interface contract_child ≡ ok true
  pub expand_project : expand_child.project_id ≡ provider_of parent_project_id expand_child
  pub contract_project : contract_child.project_id ≡ provider_of parent_project_id expand_child
  pub migrates_between :
      All
        (λ m.
          (shares_checkout m expand_child ≡ false)
          × (contains expand_child.key (dependencies m) ≡ true)
          × (contains m.key (dependencies contract_child) ≡ true))
        (keep (has_phase (some migrate)) children)

covers_true :
    (r : Result PlanError Bool) (e : PlanError) (m : Result PlanError (Unit {0}))
    → (r >>= λ covers. throw_if (not covers) e >> m) ≡ ok tt
    → (r ≡ ok true) × (m ≡ ok tt)
covers_true (ok true) e m h = (refl, h)
covers_true (ok false) e m h = err_is_not_ok h
covers_true (err d) e m h = err_is_not_ok h

module _ (parent_project_id : Option Text) where
  pub select_roles-IsPhasedSplit :
      (children es ms cs : List DeclaredChild)
      → keep (has_phase (some expand)) children ≡ es
      → keep (has_phase (some migrate)) children ≡ ms
      → keep (has_phase (some contract)) children ≡ cs
      → select_roles parent_project_id es ms cs ≡ ok tt
      → IsPhasedSplit parent_project_id children
  unfolding select_roles check_roles
  select_roles-IsPhasedSplit children [] ms cs pe pm pc h = err_is_not_ok h
  select_roles-IsPhasedSplit children (e ∷ e' ∷ es) ms cs pe pm pc h = err_is_not_ok h
  select_roles-IsPhasedSplit children (e ∷ []) [] cs pe pm pc h = err_is_not_ok h
  select_roles-IsPhasedSplit children (e ∷ []) (m ∷ ms) [] pe pm pc h = err_is_not_ok h
  select_roles-IsPhasedSplit children (e ∷ []) (m ∷ ms) (c ∷ c' ∷ cs) pe pm pc h = err_is_not_ok h
  select_roles-IsPhasedSplit children (e ∷ []) (m ∷ ms) (c ∷ []) pe pm pc h =
      let (cover_e, h1) =
        covers_true (covers_published_interface e) expand_must_cover_interface _ h in
      let (cover_c, h2) =
        covers_true (covers_published_interface c) contract_must_cover_interface _ h1 in
      let (same, h3) =
        throw_if-passes
          (not (e.project_id == provider_of parent_project_id e)
            || not (c.project_id == provider_of parent_project_id e))
          provider_must_be_parent _ h2 in
      let (apart, h4) =
        throw_if-passes (any (λ child. shares_checkout child e) (m ∷ ms))
          migrate_in_provider_repository _ h3 in
      let (after, h5) =
        throw_if-passes (any (λ child. not (contains e.key (dependencies child))) (m ∷ ms))
          migrate_must_depend_on_expand _ h4 in
      let before =
        throw_if-eq-ok (any (λ child. not (contains child.key (dependencies c))) (m ∷ ms))
          contract_must_depend_on_migrates h5 in
      record {
        expand_child = e;
        contract_child = c;
        only_expand = pe;
        only_contract = pc;
        some_migrate = rw pm (omega arith);
        expand_covers = cover_e;
        contract_covers = cover_c;
        expand_project = ground (arith, text_eq_iff e.project_id (provider_of parent_project_id e));
        contract_project =
            ground (arith, text_eq_iff c.project_id (provider_of parent_project_id e));
        migrates_between = rw pm (
            All-of_mem _ (m ∷ ms) (λ x l.
              let a : shares_checkout x e ≡ false =
                All-mem _ (m ∷ ms) (any-of_false (λ child. shares_checkout child e) (m ∷ ms) apart)
                  l in
              let b : not (contains e.key (dependencies x)) ≡ false =
                All-mem _ (m ∷ ms)
                  (any-of_false (λ child. not (contains e.key (dependencies child))) (m ∷ ms) after)
                  l in
              let d : not (contains x.key (dependencies c)) ≡ false =
                All-mem _ (m ∷ ms)
                  (any-of_false (λ child. not (contains child.key (dependencies c))) (m ∷ ms)
                    before)
                  l in
              (a, ground (arith, b), ground (arith, d))));
      }

keep-length-all :
    (p : DeclaredChild → Bool) (xs : List DeclaredChild) → length (keep p xs) ≤ length xs
unfolding keep
keep-length-all p [] = omega arith
keep-length-all p (x ∷ xs) = ground (arith, keep-length-all p xs)

full-keep :
    (p : DeclaredChild → Bool) (xs : List DeclaredChild)
    → length (keep p xs) ≡ length xs
    → All (λ x. p x ≡ true) xs
unfolding keep
full-keep p [] h = tt
full-keep p (x ∷ xs) h = elim (Bool-cases (p x)) [
  | inl e ↦ (e, full-keep p xs (ground (arith, e)))
  | inr e ↦ ground (arith, e, keep-length-all p xs)
]

empty-keep :
    (p : DeclaredChild → Bool) (xs : List DeclaredChild)
    → length (keep p xs) ≡ 0
    → All (λ x. p x ≡ false) xs
unfolding keep
empty-keep p [] h = tt
empty-keep p (x ∷ xs) h = elim (Bool-cases (p x)) [
  | inl e ↦ ground (arith, e)
  | inr e ↦ (e, empty-keep p xs (ground (arith, e)))
]

-- In an accepted plan either no child has a phase, or every child has one and the children are an
-- Expand, one or more Migrates and a Contract that depend on each other in this order.
pub validate-phases :
    (change_shape : Option ChangeShape) (parent_project_id : Option Text) (c : DeclaredChild)
    (cs : List DeclaredChild) (parent_work_item_id : Option Text)
    → validate_workflow_plan_children change_shape
        (some (c ∷ cs))
        parent_project_id
        parent_work_item_id
      ≡ ok tt
    → All (λ child. is_phased child ≡ false) (c ∷ cs)
      ⊎ (All (λ child. is_phased child ≡ true) (c ∷ cs) × IsPhasedSplit parent_project_id (c ∷ cs))
unfolding check_phases
validate-phases change_shape parent_project_id c cs parent_work_item_id accepted =
    let passed = validate-Passed change_shape parent_project_id c cs parent_work_item_id accepted in
    elim (Bool-cases (nat_eq (length (keep is_phased (c ∷ cs))) 0)) [
      | inl e ↦ inl (empty-keep is_phased (c ∷ cs) (ground (arith, e)))
      | inr e ↦
          let checked : check_phases parent_project_id (c ∷ cs) ≡ ok tt =
            rw e at passed.phases_pass in
          let all_phased = passed.all_phased in
          inr (
            full-keep is_phased (c ∷ cs) (ground (arith, e, all_phased)),
            select_roles-IsPhasedSplit parent_project_id (c ∷ cs) _ _ _ refl refl refl checked,
          )
    ]
