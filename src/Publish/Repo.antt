-- ===== src/Publish/Repo.antt =====
-- src/server/docs-publish/publish.ts and src/server/docs-publish/banner.ts: the reconciliation of a
-- repository's Markdown files with a collection of documents.
use nexus_seventeen.Prelude.{
  ℕ, suc, Bool, false, ◌&&◌, ◌||◌, List, [], ◌∷◌, ◌++◌, map, Option, none, some, option_eq, Text,
  lit, all, length, take, drop, trim, leb, nat_eq, starts_with, if◌then◌else◌, Result, ok, err,
  ◌==◌, eq_text,
}
use nexus_seventeen.Merge.{GitFailure, Committer, git_arguments, GitTextRunner}
use nexus_seventeen.Publish.Sources.{
  DocSource, EnumerateError, invalid_sha, git_failed, enumerate_docs,
}

-- The part of a document's text that names its source.
abbrev pub mirror_head : Text
unfolding lit
mirror_head = lit "> **Read-only mirror.** Source: `"

abbrev pub blob_mark : Text
unfolding lit
blob_mark = lit " @ blob "

abbrev pub edit_note : Text
unfolding lit
edit_note =
    lit ". Edit in the repository "
    ++ 0x2014 ∷ lit " this page is republished on merge. Comments are welcome here."
    ++ 10 ∷ 10 ∷ []

-- `withSourceBanner`
unfoldable pub with_source_banner : DocSource → Text → Text
unfolding lit
with_source_banner source repo_name =
    mirror_head
    ++ ((repo_name ++ b'/' ∷ source.path ++ b'`' ∷ [])
        ++ (blob_mark ++ (take 12 source.blob_sha ++ (edit_note ++ source.markdown))))

abbrev pub is_hex : ℕ → Bool
is_hex c = leb b'0' c && leb c b'9' || leb b'a' c && leb c b'f'

abbrev is_dot : Text → Bool
is_dot [] = false
is_dot (c ∷ rest) = nat_eq c b'.'

abbrev pub prefix_of : Text → Option Text
unfolding all
prefix_of text =
    if nat_eq (length (take 12 text)) 12 && all is_hex (take 12 text) && is_dot (drop 12 text)
    then some (take 12 text)
    else none

-- ` @ blob ([0-9a-f]{12})\.` at the start of a text.
unfoldable pub blob_at : Text → Option Text
unfolding all starts_with lit
blob_at text = if starts_with text blob_mark then prefix_of (drop 8 text) else none

-- The first place where it stands.
unfoldable pub find_blob : Text → Option Text
unfolding blob_at
find_blob [] = none
find_blob (c ∷ text) = elim (blob_at (c ∷ text)) [
  | some prefix ↦ some prefix
  | none ↦ find_blob text
]

-- `sourceBlobPrefix`
unfoldable pub source_blob_prefix : Text → Option Text
unfolding find_blob starts_with lit
source_blob_prefix text =
    if starts_with text mirror_head then find_blob (drop (length mirror_head) text) else none

-- `Map.set`: the place of a key is that of its first value.
unfoldable pub map_set {ℓ} : {V : Type ℓ} → List (Text × V) → Text → V → List (Text × V)
map_set [] key value = (key, value) ∷ []
map_set ((k, v) ∷ m) key value = if k == key then (k, value) ∷ m else (k, v) ∷ map_set m key value

unfoldable pub map_get {ℓ} : {V : Type ℓ} → List (Text × V) → Text → Option V
map_get [] key = none
map_get ((k, v) ∷ m) key = if k == key then some v else map_get m key

-- `new Map(pairs)`
unfoldable pub map_of {ℓ} : {V : Type ℓ} → List (Text × V) → List (Text × V) → List (Text × V)
unfolding map_set
map_of m [] = m
map_of m ((key, value) ∷ pairs) = map_of (map_set m key value) pairs

pub record SinkDocument : Type 0 where
  pub id : Text
  pub title : Text
  pub text : Text

pub record DesiredDocument : Type 0 where
  pub blob_prefix : Text
  pub text : Text

pub record DocsPublishRepo : Type 0 where
  pub name : Text
  pub path : Text
  pub ref : Text
  pub exclude : List Text

-- An implementation of `DocsSink` over a state `S`, with errors `E` and collections `C`.
pub record DocsSink (S E C : Type 0) : Type 0 where
  pub ensure_collection : Text → S → Result E C × S
  pub list_documents : C → S → Result E (List SinkDocument) × S
  pub create_document : C → Text → Text → S → Result E (Unit {0}) × S
  pub update_document : Text → Text → Text → S → Result E (Unit {0}) × S
  pub archive_document : Text → S → Result E (Unit {0}) × S

-- An entry of `failures`, as data.
pub data PublishFailure (E : Type 0) : Type 0 where
  enumerate_failed : EnumerateError → PublishFailure E
  prepare_failed : E → PublishFailure E
  create_failed : Text → E → PublishFailure E
  update_failed : Text → E → PublishFailure E
  archive_failed : Text → E → PublishFailure E

pub record PublishReport (E : Type 0) : Type 0 where
  pub created : ℕ
  pub updated : ℕ
  pub archived : ℕ
  pub unchanged : ℕ
  pub failures : List (PublishFailure E)

abbrev pub new_report : {E : Type 0} → PublishReport E
new_report = record { created = 0; updated = 0; archived = 0; unchanged = 0; failures = [] }

abbrev pub with_failure : {E : Type 0} → PublishFailure E → PublishReport E → PublishReport E
with_failure failure r = record r { failures = r.failures ++ failure ∷ [] }

abbrev is_full_sha : Text → Bool
unfolding all
is_full_sha sha =
    all (λ c. is_hex c || leb b'A' c && leb c b'F') sha
    && (nat_eq (length sha) 40 || nat_eq (length sha) 64)

abbrev pub desired_of : Text → DocSource → Text × DesiredDocument
desired_of repo_name source = (
  source.title,
  record { blob_prefix = take 12 source.blob_sha; text = with_source_banner source repo_name },
)

abbrev pub desired_map : Text → List DocSource → List (Text × DesiredDocument)
desired_map repo_name sources = map_of [] (map (desired_of repo_name) sources)

abbrev pub existing_map : List SinkDocument → List (Text × SinkDocument)
existing_map documents = map_of [] (map (λ d. (d.title, d)) documents)

module _ {S E C : Type 0} (sink : DocsSink S E C) where
  abbrev pub after_create : Text → PublishReport E → Result E (Unit {0}) × S → PublishReport E × S
  after_create title r (ok done, s) = (record r { created = suc r.created }, s)
  after_create title r (err e, s) = (with_failure (create_failed title e) r, s)

  abbrev pub after_update : Text → PublishReport E → Result E (Unit {0}) × S → PublishReport E × S
  after_update title r (ok done, s) = (record r { updated = suc r.updated }, s)
  after_update title r (err e, s) = (with_failure (update_failed title e) r, s)

  abbrev pub after_archive : Text → PublishReport E → Result E (Unit {0}) × S → PublishReport E × S
  after_archive title r (ok done, s) = (record r { archived = suc r.archived }, s)
  after_archive title r (err e, s) = (with_failure (archive_failed title e) r, s)

  -- The body of the loop over `desired`, by the existing document of the title.
  unfoldable pub publish_document :
      C → Text → DesiredDocument → Option SinkDocument → PublishReport E → S → PublishReport E × S
  unfolding source_blob_prefix
  publish_document collection title desired none r s =
      after_create title r (sink.create_document collection title desired.text s)
  publish_document collection title desired (some document) r s =
      if option_eq (source_blob_prefix document.text) (some desired.blob_prefix)
      then (record r { unchanged = suc r.unchanged }, s)
      else after_update title r (sink.update_document document.id title desired.text s)

  unfoldable pub publish_desired :
      C
      → List (Text × SinkDocument)
      → List (Text × DesiredDocument)
      → PublishReport E
      → S
      → PublishReport E × S
  unfolding publish_document map_get
  publish_desired collection existing [] r s = (r, s)
  publish_desired collection existing ((title, desired) ∷ rest) r s =
      let (r', s') = publish_document collection title desired (map_get existing title) r s in
      publish_desired collection existing rest r' s'

  abbrev pub archive_unless :
      Option DesiredDocument → SinkDocument → PublishReport E → S → PublishReport E × S
  archive_unless (some desired) document r s = (r, s)
  archive_unless none document r s =
      after_archive document.title r (sink.archive_document document.id s)

  -- The loop over the documents of the collection.
  unfoldable pub archive_stale :
      List (Text × DesiredDocument) → List SinkDocument → PublishReport E → S → PublishReport E × S
  unfolding map_get
  archive_stale desired [] r s = (r, s)
  archive_stale desired (document ∷ documents) r s =
      let (r', s') = archive_unless (map_get desired document.title) document r s in
      archive_stale desired documents r' s'

  -- Both loops, on the state that `collectionState` gives.
  unfoldable pub reconcile :
      C → List SinkDocument → List (Text × DesiredDocument) → S → PublishReport E × S
  unfolding publish_desired archive_stale map_of
  reconcile collection documents desired s =
      let (r, s') = publish_desired collection (existing_map documents) desired new_report s in
      archive_stale desired documents r s'

  abbrev pub on_documents :
      Text → List DocSource → C → Result E (List SinkDocument) × S → PublishReport E × S
  unfolding reconcile with_source_banner map_of
  on_documents repo_name sources collection (err e, s) =
      (with_failure (prepare_failed e) new_report, s)
  on_documents repo_name sources collection (ok documents, s) =
      reconcile collection documents (desired_map repo_name sources) s

  abbrev pub on_collection : Text → List DocSource → Result E C × S → PublishReport E × S
  unfolding reconcile with_source_banner map_of
  on_collection repo_name sources (err e, s) = (with_failure (prepare_failed e) new_report, s)
  on_collection repo_name sources (ok collection, s) =
      on_documents repo_name sources collection (sink.list_documents collection s)

  module _ {R : Type 0} (committer : Committer) (git : GitTextRunner R)
      (entry : DocsPublishRepo) where
    abbrev pub on_sources : S → Result EnumerateError (List DocSource) × R → PublishReport E × R × S
    unfolding reconcile with_source_banner map_of
    on_sources s (err e, repo) = (with_failure (enumerate_failed e) new_report, repo, s)
    on_sources s (ok sources, repo) =
        let (r, s') = on_collection entry.name sources (sink.ensure_collection entry.name s) in
        (r, repo, s')

    -- `git rev-parse` and the check of what it prints, before `enumerateDocs`.
    abbrev pub enumerate_at :
        Result GitFailure Text × R → Result EnumerateError (List DocSource) × R
    unfolding trim all enumerate_docs
    enumerate_at (err failure, repo) = (err (git_failed failure), repo)
    enumerate_at (ok output, repo) =
        if is_full_sha (trim output)
        then enumerate_docs committer git entry.path (trim output) entry.exclude repo
        else (err (invalid_sha entry.ref), repo)

    -- `publishRepo`
    unfoldable pub publish_repo : R → S → PublishReport E × R × S
    unfolding trim all enumerate_docs reconcile with_source_banner map_of lit
    publish_repo repo s = on_sources s (
        enumerate_at
          (git (git_arguments committer entry.path (lit "rev-parse" ∷ entry.ref ∷ [])) repo))
