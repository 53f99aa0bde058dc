-- ===== src/Plan/Phases.antt =====
-- src/shared/task-board-contract/validate/plans.ts: the phased declaration, and the whole policy.
use nexus_seventeen.Prelude.{
  Bool, true, false, not, ◌&&◌, ◌||◌, List, [], ◌∷◌, Option, none, some, Text, lit, any, keep,
  is_nil, contains, length, nat_eq, ltb, if◌then◌else◌, Result, ok, err, ◌>>=◌, ◌>>◌, throw_if,
  ◌==◌, eq_text,
}
use nexus_seventeen.Board.{expand, migrate, contract}
use nexus_seventeen.Contract.{ScopeError, normalize_declared_scope, covers_path}
use nexus_seventeen.Plan.Children.{
  DeclaredChild, ChangeShape, mechanical_sweep, feature, blast_radius, PlanError, children_of_child,
  children_of_sweep, children_required, split_by_required, phase_required, phases_of_feature,
  invalid_phased_declaration, expand_must_cover_interface, contract_must_cover_interface,
  provider_must_be_parent, migrate_in_provider_repository, migrate_must_depend_on_expand,
  contract_must_depend_on_migrates, invalid_scope, dependencies, keys, check_keys,
  check_dependencies, check_scopes, shares_checkout, has_phase,
}
use nexus_seventeen.Plan.Visit.{check_acyclic}

abbrev pub published_interface_path : Text
unfolding lit
published_interface_path = lit "docs/interface.md"

abbrev pub scope_list_error : Result ScopeError (List Text) → Result PlanError (List Text)
scope_list_error (ok scope) = ok scope
scope_list_error (err e) = err (invalid_scope e)

unfoldable pub covers_published_interface : DeclaredChild → Result PlanError Bool
unfolding normalize_declared_scope covers_path any lit
covers_published_interface child =
    scope_list_error (normalize_declared_scope child.declared_scope) >>= λ scope.
    ok (any (λ prefix. covers_path prefix published_interface_path) scope)

-- `parentProjectId ?? expand.projectId`
abbrev pub provider_of : Option Text → DeclaredChild → Text
provider_of none e = e.project_id
provider_of (some id) e = id

-- What is checked once the one Expand and the one Contract child are known.
unfoldable pub check_roles :
    Option Text → DeclaredChild → List DeclaredChild → DeclaredChild → Result PlanError (Unit {0})
unfolding covers_published_interface any contains dependencies shares_checkout
check_roles parent_project_id expand_child migrates contract_child = do
  expand_covers ← covers_published_interface expand_child
  throw_if (not expand_covers) expand_must_cover_interface
  contract_covers ← covers_published_interface contract_child
  throw_if (not contract_covers) contract_must_cover_interface
  let provider_project_id = provider_of parent_project_id expand_child
  throw_if
      (not (expand_child.project_id == provider_project_id)
        || not (contract_child.project_id == provider_project_id))
      provider_must_be_parent
  throw_if (any (λ child. shares_checkout child expand_child) migrates)
      migrate_in_provider_repository
  throw_if (any (λ child. not (contains expand_child.key (dependencies child))) migrates)
      migrate_must_depend_on_expand
  throw_if (any (λ child. not (contains child.key (dependencies contract_child))) migrates)
      contract_must_depend_on_migrates

-- `expands.length !== 1 || migrates.length < 1 || contracts.length !== 1`
unfoldable pub select_roles :
    Option Text
    → List DeclaredChild
    → List DeclaredChild
    → List DeclaredChild
    → Result PlanError (Unit {0})
unfolding check_roles
select_roles parent_project_id (e ∷ []) (m ∷ ms) (c ∷ []) =
    check_roles parent_project_id e (m ∷ ms) c
select_roles parent_project_id expands migrates contracts = err invalid_phased_declaration

unfoldable pub check_phases : Option Text → List DeclaredChild → Result PlanError (Unit {0})
unfolding select_roles keep has_phase
check_phases parent_project_id children =
    select_roles parent_project_id (keep (has_phase (some expand)) children)
      (keep (has_phase (some migrate)) children) (keep (has_phase (some contract)) children)

abbrev pub is_phased : DeclaredChild → Bool
is_phased child = elim child.phase [ none ↦ false | some p ↦ true ]

abbrev pub has_shape : ChangeShape → Option ChangeShape → Bool
has_shape mechanical_sweep shape = elim shape [ some mechanical_sweep ↦ true | _ ↦ false ]
has_shape feature shape = elim shape [ some feature ↦ true | _ ↦ false ]
has_shape blast_radius shape = elim shape [ some blast_radius ↦ true | _ ↦ false ]

-- From `if (!hasChildren) return;` on.
unfoldable pub check_declared :
    Option ChangeShape → Option Text → List DeclaredChild → Result PlanError (Unit {0})
unfolding keep any check_keys check_dependencies check_acyclic check_scopes check_phases
check_declared change_shape parent_project_id children = do
  throw_if
      (has_shape blast_radius change_shape
        && any (λ child. elim child.split_by [ none ↦ true | some s ↦ false ]) children)
      split_by_required
  let phased = length (keep is_phased children)
  throw_if (ltb 0 phased && not (nat_eq phased (length children))) phase_required
  throw_if (has_shape feature change_shape && ltb 0 phased) phases_of_feature
  check_keys [] children
  check_dependencies (keys children) children
  check_acyclic children
  check_scopes children
  if nat_eq phased 0 then ok tt else check_phases parent_project_id children

abbrev pub or_empty : Option (List DeclaredChild) → List DeclaredChild
or_empty none = []
or_empty (some children) = children

abbrev pub is_given : Option Text → Bool
is_given none = false
is_given (some id) = true

-- `parentWorkItemId` is `none` for `undefined` and for `null`.
unfoldable pub validate_workflow_plan_children :
    Option ChangeShape
    → Option (List DeclaredChild)
    → Option Text
    → Option Text
    → Result PlanError (Unit {0})
unfolding check_declared is_nil
validate_workflow_plan_children change_shape declared parent_project_id parent_work_item_id = do
  let children = or_empty declared
  let has_children = not (is_nil children)
  throw_if (is_given parent_work_item_id && has_children) children_of_child
  throw_if (has_shape mechanical_sweep change_shape && has_children) children_of_sweep
  throw_if (has_shape blast_radius change_shape && not has_children) children_required
  if has_children then check_declared change_shape parent_project_id children else ok tt
