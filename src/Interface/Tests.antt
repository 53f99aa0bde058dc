-- ===== src/Interface/Tests.antt =====
-- A concrete family for the published interface of
-- src/server/task-board/collaborators/decomposition-readiness.ts.
use nexus_seventeen.Prelude.{ℕ, ◌≡◌, refl, true, [], ◌∷◌, none, some, text_eq, ok}
use nexus_seventeen.Contract.{WorkItemState, merged, queued, state_eq}
use nexus_seventeen.Board.{Phase, expand, migrate}
use nexus_seventeen.Interface.{
  PlacedItem, Database, present, CrossRepoContext, ready, published_interface_path,
  PublishedInterfaceReader, migrate_interface_readiness,
}
use nexus_seventeen.Interface.Provider.{IsProvided, migrate_interface_readiness-IsProvided}

abbrev placed : ℕ → Phase → WorkItemState → PlacedItem
placed id phase state = record {
  item = record {
    work_item_id = id ∷ [];
    parent_work_item_id = some (1 ∷ []);
    state = state;
    current_stage = none;
    cancelled_reason = none;
    ended_at = none;
    version = 1;
    updated_at = [];
    phase = some phase;
    child_ordinal = some id;
  };
  resolved_project_id = some (7 ∷ []);
  repository_id = none;
}

abbrev db : Database
db = record {
  work_items = placed 2 expand merged ∷ placed 3 migrate queued ∷ [];
  work_item_dependencies = record { work_item_id = 3 ∷ []; depends_on_work_item_id = 2 ∷ [] } ∷ [];
  gate_actions =
      record {
        work_item_id = 2 ∷ [];
        is_final_approve = true;
        merge_sha = some (9 ∷ []);
        created_at = [];
      }
      ∷ [];
  repositories = [];
  projects = record { project_id = 7 ∷ []; name = b'n' ∷ []; repo_path = b'p' ∷ [] } ∷ [];
}

abbrev read : PublishedInterfaceReader
read path sha file = ok (present (b'#' ∷ sha))

abbrev context : CrossRepoContext
context = record {
  provider_project_id = some (7 ∷ []);
  provider_work_item_id = 2 ∷ [];
  provider_repo_name = some (b'n' ∷ []);
  interface_path = published_interface_path;
  sha = 9 ∷ [];
  markdown = b'#' ∷ 9 ∷ [];
}

migrate_is_ready : migrate_interface_readiness read db (3 ∷ []) ≡ some (ready context)
unfolding migrate_interface_readiness text_eq state_eq
migrate_is_ready = refl

migrate_interface_readiness-IsProvided_example : IsProvided read db (3 ∷ []) context
migrate_interface_readiness-IsProvided_example =
    migrate_interface_readiness-IsProvided read db (3 ∷ []) context migrate_is_ready
