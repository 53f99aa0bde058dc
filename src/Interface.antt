-- ===== src/Interface.antt =====
-- src/server/task-board/collaborators/decomposition-readiness.ts, from `migrateInterfaceProvider` on,
-- and the repository expressions of src/server/task-board/persistence/repository-path.ts: which
-- published interface a Migrate child works against.
pub mod Provider
mod Tests
use nexus_seventeen.Prelude.{
  ℕ, Bool, true, false, not, ◌&&◌, ◌||◌, List, [], ◌∷◌, ◌++◌, Option, none, some, option_eq, Text,
  lit, any, keep, find, if◌then◌else◌, Result, ok, err, ◌==◌, eq_text,
}
use nexus_seventeen.Contract.{WorkItemState, merged, eq_state}
use nexus_seventeen.Board.{Phase, expand, migrate, contract, WorkItem}
use nexus_seventeen.Transition.{text_leb}
use nexus_seventeen.Readiness.{Dependency, is_earlier}

pub record Repository : Type 0 where
  pub repository_id : Text
  pub project_id : Text
  pub name : Text
  pub path : Text
  pub is_primary : Bool

pub record Project : Type 0 where
  pub project_id : Text
  pub name : Text
  pub repo_path : Text

-- A work item with the two columns that say where it works.
pub record PlacedItem : Type 0 where
  pub item : WorkItem
  pub resolved_project_id : Option Text
  pub repository_id : Option Text

-- A row of `gate_actions`.
pub record MergeAction : Type 0 where
  pub work_item_id : Text
  pub is_final_approve : Bool
  pub merge_sha : Option Text
  pub created_at : Text

pub record Database : Type 0 where
  pub work_items : List PlacedItem
  pub work_item_dependencies : List Dependency
  pub gate_actions : List MergeAction
  pub repositories : List Repository
  pub projects : List Project

-- `COALESCE`, and a scalar subquery that is NULL where no row is found.
abbrev or_else : Option Text → Option Text → Option Text
or_else none second = second
or_else (some first) second = some first

abbrev column {ℓ} : {A : Type ℓ} → (A → Text) → Option A → Option Text
column field none = none
column field (some row) = some (field row)

unfoldable pub selected_repository : Database → PlacedItem → Option Repository
unfolding find
selected_repository db w =
    find (λ r. option_eq (some r.repository_id) w.repository_id) db.repositories

unfoldable pub primary_repository : Database → Option Text → Option Repository
unfolding find
primary_repository db project_id =
    find (λ r. option_eq (some r.project_id) project_id && r.is_primary) db.repositories

unfoldable pub project_of : Database → Option Text → Option Project
unfolding find
project_of db project_id = find (λ p. option_eq (some p.project_id) project_id) db.projects

abbrev project_path : Database → Option Project → Option Text
project_path db none = none
project_path db (some project) =
    or_else (column (λ (r : Repository). r.path) (primary_repository db (some project.project_id)))
      (some project.repo_path)

-- `WORK_ITEM_REPOSITORY_PATH_SQL`
unfoldable pub work_item_repository_path : Database → PlacedItem → Option Text
unfolding selected_repository primary_repository project_of
work_item_repository_path db w =
    or_else (column (λ (r : Repository). r.path) (selected_repository db w))
      (project_path db (project_of db w.resolved_project_id))

-- `WORK_ITEM_REPOSITORY_NAME_SQL`
unfoldable pub work_item_repository_name : Database → PlacedItem → Option Text
unfolding selected_repository primary_repository project_of
work_item_repository_name db w =
    or_else (column (λ (r : Repository). r.name) (selected_repository db w)) (
      or_else (column (λ (r : Repository). r.name) (primary_repository db w.resolved_project_id))
        (column (λ (p : Project). p.name) (project_of db w.resolved_project_id)))

-- `ORDER BY action.created_at DESC,action.rowid DESC LIMIT 1` among the merges of a work item.
abbrev newer_merge : Option MergeAction → MergeAction → Option MergeAction
newer_merge none a = some a
newer_merge (some best) a = if text_leb best.created_at a.created_at then some a else some best

abbrev has_sha : Option Text → Bool
has_sha none = false
has_sha (some sha) = true

unfoldable pub latest_merge : Text → Option MergeAction → List MergeAction → Option MergeAction
unfolding text_leb
latest_merge work_item_id best [] = best
latest_merge work_item_id best (a ∷ rest) =
    latest_merge work_item_id
      (if a.work_item_id == work_item_id && a.is_final_approve && has_sha a.merge_sha
        then newer_merge best a
        else best)
      rest

abbrev sha_of : Option MergeAction → Option Text
sha_of none = none
sha_of (some a) = a.merge_sha

unfoldable pub merge_sha_of : Database → PlacedItem → Option Text
unfolding latest_merge
merge_sha_of db w = sha_of (latest_merge w.item.work_item_id none db.gate_actions)

abbrev is_migrate : Option Phase → Bool
is_migrate (some migrate) = true
is_migrate phase = false

abbrev pub is_expand : Option Phase → Bool
is_expand (some expand) = true
is_expand phase = false

abbrev pub is_provider : Dependency → PlacedItem → Bool
is_provider d w = w.item.work_item_id == d.depends_on_work_item_id && is_expand w.item.phase

abbrev pub is_migrate_owner : Text → PlacedItem → Bool
is_migrate_owner work_item_id w = w.item.work_item_id == work_item_id && is_migrate w.item.phase

-- The join of a Migrate child's dependencies with the Expand children that they name.
unfoldable pub providers : Database → Text → List Dependency → List PlacedItem
unfolding keep any
providers db work_item_id [] = []
providers db work_item_id (d ∷ rest) =
    let others = providers db work_item_id rest in
    if d.work_item_id == work_item_id && any (is_migrate_owner work_item_id) db.work_items
    then keep (is_provider d) db.work_items ++ others
    else others

abbrev first_of : Option PlacedItem → PlacedItem → Option PlacedItem
first_of none w = some w
first_of (some best) w = if is_earlier best.item w.item then some best else some w

unfoldable pub first_provider : List PlacedItem → Option PlacedItem
unfolding is_earlier
first_provider [] = none
first_provider (w ∷ rest) = first_of (first_provider rest) w

-- The columns that the source reads as texts may be NULL.
pub record MigrateInterfaceProvider : Type 0 where
  pub work_item_id : Text
  pub project_id : Option Text
  pub repo_name : Option Text
  pub repo_path : Option Text
  pub sha : Text

abbrev provider_at : Database → PlacedItem → Option Text → Option MigrateInterfaceProvider
provider_at db w none = none
provider_at db w (some sha) = some (record {
  work_item_id = w.item.work_item_id;
  project_id = w.resolved_project_id;
  repo_name = work_item_repository_name db w;
  repo_path = work_item_repository_path db w;
  sha = sha;
})

unfoldable pub merged_provider : Database → Option PlacedItem → Option MigrateInterfaceProvider
unfolding merge_sha_of work_item_repository_name work_item_repository_path
merged_provider db none = none
merged_provider db (some w) =
    if w.item.state == merged then provider_at db w (merge_sha_of db w) else none

-- `migrateInterfaceProvider`
unfoldable pub migrate_interface_provider : Database → Text → Option MigrateInterfaceProvider
unfolding merged_provider first_provider providers
migrate_interface_provider db work_item_id =
    merged_provider db (first_provider (providers db work_item_id db.work_item_dependencies))

pub data ContentFailure : Type 0 where
  invalid_utf8 prohibited_characters : ContentFailure

pub data FailureReason : Type 0 where
  absent not_file too_large invalid_markdown empty read_error : FailureReason

pub data PublishedInterfaceReadResult : Type 0 where
  present : Text → PublishedInterfaceReadResult
  blocked_markdown : ContentFailure → PublishedInterfaceReadResult
  blocked_by : FailureReason → PublishedInterfaceReadResult

pub record CrossRepoContext : Type 0 where
  pub provider_project_id : Option Text
  pub provider_work_item_id : Text
  pub provider_repo_name : Option Text
  pub interface_path : Text
  pub sha : Text
  pub markdown : Text

pub data MigrateInterfaceReadiness : Type 0 where
  ready : CrossRepoContext → MigrateInterfaceReadiness
  blocked : FailureReason → Text → Text → MigrateInterfaceReadiness

abbrev pub published_interface_path : Text
unfolding lit
published_interface_path = lit "docs/interface.md"

abbrev abandon_advice : Text
unfolding lit
abandon_advice = lit "; cancel the parent to abandon the decomposition"

-- `publishedInterfaceReasonSummary`, of the reasons that a reader gives.
unfoldable pub published_interface_reason_summary : FailureReason → Text → Text
unfolding lit
published_interface_reason_summary absent sha =
    lit "blocked: provider published no docs/interface.md at " ++ sha ++ abandon_advice
published_interface_reason_summary too_large sha =
    lit "blocked: provider docs/interface.md exceeds 64 KiB at " ++ sha ++ abandon_advice
published_interface_reason_summary not_file sha =
    lit "blocked: provider docs/interface.md is not a file at " ++ sha ++ abandon_advice
published_interface_reason_summary invalid_markdown sha =
    lit "blocked: provider docs/interface.md contains prohibited characters at "
    ++ sha
    ++ abandon_advice
published_interface_reason_summary empty sha =
    lit "blocked: provider docs/interface.md is empty at " ++ sha ++ abandon_advice
published_interface_reason_summary read_error sha =
    lit "blocked: provider repository unreadable at " ++ sha ++ 32 ∷ 0x2014 ∷ lit " retrying"

unfoldable pub markdown_summary : ContentFailure → Text → Text
unfolding published_interface_reason_summary lit
markdown_summary invalid_utf8 sha =
    lit "blocked: provider docs/interface.md contains invalid UTF-8 at " ++ sha ++ abandon_advice
markdown_summary prohibited_characters sha = published_interface_reason_summary invalid_markdown sha

-- The reader of a file of a commit; a throw is `err`.
abbrev pub PublishedInterfaceReader : Type 0
PublishedInterfaceReader =
    Option Text → Text → Text → Result (Unit {0}) PublishedInterfaceReadResult

unfoldable pub readiness_of :
    MigrateInterfaceProvider
    → Result (Unit {0}) PublishedInterfaceReadResult
    → MigrateInterfaceReadiness
unfolding published_interface_reason_summary markdown_summary lit
readiness_of provider (err thrown) =
    blocked read_error provider.sha (published_interface_reason_summary read_error provider.sha)
readiness_of provider (ok (blocked_by reason)) =
    blocked reason provider.sha (published_interface_reason_summary reason provider.sha)
readiness_of provider (ok (blocked_markdown detail)) =
    blocked invalid_markdown provider.sha (markdown_summary detail provider.sha)
readiness_of provider (ok (present markdown)) = ready (record {
  provider_project_id = provider.project_id;
  provider_work_item_id = provider.work_item_id;
  provider_repo_name = provider.repo_name;
  interface_path = published_interface_path;
  sha = provider.sha;
  markdown = markdown;
})

unfoldable pub readiness_at :
    PublishedInterfaceReader → Option MigrateInterfaceProvider → Option MigrateInterfaceReadiness
unfolding readiness_of lit
readiness_at read none = none
readiness_at read (some provider) =
    some (readiness_of provider (read provider.repo_path provider.sha published_interface_path))

-- `migrateInterfaceReadiness`
unfoldable pub migrate_interface_readiness :
    PublishedInterfaceReader → Database → Text → Option MigrateInterfaceReadiness
unfolding readiness_at migrate_interface_provider
migrate_interface_readiness read db work_item_id =
    readiness_at read (migrate_interface_provider db work_item_id)
