-- ===== src/Plan/Children.antt =====
-- src/shared/task-board-contract/validate/plans.ts and ../index.ts: declared children, their keys,
-- dependencies and scopes.
use nexus_seventeen.Prelude.{
  Bool, true, false, not, ◌&&◌, ◌||◌, List, [], ◌∷◌, map, Option, none, some, Text, find, contains,
  duplicate_free, option_eq, if◌then◌else◌, Result, ok, err, ◌>>=◌, ◌>>◌, throw_if, ◌==◌, eq_text,
}
use nexus_seventeen.Board.{Phase, expand, migrate, contract}
use nexus_seventeen.Contract.{ScopeError, declared_scopes_overlap}

pub data SplitBy : Type 0 where
  consumer phase : SplitBy

pub data ChangeShape : Type 0 where
  mechanical_sweep feature blast_radius : ChangeShape

pub record DeclaredChild : Type 0 where
  pub key : Text
  pub objective : Text
  pub project_id : Text
  pub repository_id : Option Text
  pub declared_scope : List Text
  pub acceptance_criteria : List Text
  pub phase : Option Phase
  pub depends_on : Option (List Text)
  pub split_by : Option SplitBy

-- The messages of `ContractValidationError`, and the bound of the modelled search
-- (`visit_out_of_fuel`).
pub data PlanError : Type 0 where
  children_of_child children_of_sweep children_required split_by_required phase_required
        phases_of_feature duplicate_key dependency_cycle invalid_phased_declaration
        expand_must_cover_interface contract_must_cover_interface provider_must_be_parent
        migrate_in_provider_repository migrate_must_depend_on_expand
        contract_must_depend_on_migrates visit_out_of_fuel :
      PlanError
  duplicate_dependency unknown_dependency : Text → PlanError
  scopes_overlap : Text → PlanError
  invalid_scope : ScopeError → PlanError

-- `child.dependsOn ?? []`
unfoldable pub dependencies : DeclaredChild → List Text
dependencies child = elim child.depends_on [ none ↦ [] | some keys ↦ keys ]

-- `childrenByKey.get(key)?.dependsOn ?? []`, where the map holds the children under their keys.
unfoldable pub dependencies_of : List DeclaredChild → Text → List Text
unfolding dependencies find
dependencies_of children key = elim (find (λ child. child.key == key) children) [
  | none ↦ []
  | some child ↦ dependencies child
]

-- The loop that fills the map; `seen` has the keys that it holds.
unfoldable pub check_keys : List Text → List DeclaredChild → Result PlanError (Unit {0})
unfolding contains duplicate_free dependencies
check_keys seen [] = ok tt
check_keys seen (child ∷ rest) = do
  throw_if (contains child.key seen) duplicate_key
  throw_if (not (duplicate_free (dependencies child))) (duplicate_dependency child.key)
  check_keys (child.key ∷ seen) rest

abbrev pub keys : List DeclaredChild → List Text
keys children = map (λ child. child.key) children

-- The inner loop over one child's dependencies.
unfoldable pub check_known : List Text → Text → List Text → Result PlanError (Unit {0})
unfolding contains
check_known known key [] = ok tt
check_known known key (dependency ∷ rest) = do
  throw_if (not (contains dependency known)) (unknown_dependency key)
  check_known known key rest

unfoldable pub check_dependencies : List Text → List DeclaredChild → Result PlanError (Unit {0})
unfolding check_known dependencies
check_dependencies known [] = ok tt
check_dependencies known (child ∷ rest) = do
  check_known known child.key (dependencies child)
  check_dependencies known rest

unfoldable pub shares_checkout : DeclaredChild → DeclaredChild → Bool
shares_checkout a b = a.project_id == b.project_id && option_eq a.repository_id b.repository_id

-- `child.phase === phase`, `none` for `undefined`.
unfoldable pub has_phase : Option Phase → DeclaredChild → Bool
has_phase none child = elim child.phase [ none ↦ true | some p ↦ false ]
has_phase (some expand) child = elim child.phase [ some expand ↦ true | _ ↦ false ]
has_phase (some migrate) child = elim child.phase [ some migrate ↦ true | _ ↦ false ]
has_phase (some contract) child = elim child.phase [ some contract ↦ true | _ ↦ false ]

unfoldable pub requires_disjoint_scopes : DeclaredChild → DeclaredChild → Bool
unfolding has_phase
requires_disjoint_scopes a b =
    has_phase none a && has_phase none b || has_phase (some migrate) a && has_phase (some migrate) b

abbrev pub scope_error : Result ScopeError Bool → Result PlanError Bool
scope_error (ok overlap) = ok overlap
scope_error (err e) = err (invalid_scope e)

-- One pair; `&&` does not normalise the scopes of a pair that need not be disjoint.
unfoldable pub check_pair : DeclaredChild → DeclaredChild → Result PlanError (Unit {0})
unfolding requires_disjoint_scopes shares_checkout
check_pair a b =
    if requires_disjoint_scopes a b && shares_checkout a b
    then (scope_error (declared_scopes_overlap a.declared_scope b.declared_scope) >>= λ overlap.
        throw_if overlap (scopes_overlap a.project_id))
    else ok tt

unfoldable pub check_against : DeclaredChild → List DeclaredChild → Result PlanError (Unit {0})
unfolding check_pair
check_against a [] = ok tt
check_against a (b ∷ rest) = do check_pair a b; check_against a rest

-- The two loops over pairs `left < right`.
unfoldable pub check_scopes : List DeclaredChild → Result PlanError (Unit {0})
unfolding check_against
check_scopes [] = ok tt
check_scopes (a ∷ rest) = do check_against a rest; check_scopes rest
