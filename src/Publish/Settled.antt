-- ===== src/Publish/Settled.antt =====
-- src/server/docs-publish/publish.ts: a collection that mirrors its repository is left alone.
use nexus_seventeen.Prelude.{
  ℕ, suc, ◌+◌, ◌≡◌, refl, ap, ◌∙◌, true, List, [], ◌∷◌, map, some, option_eq_iff, Text, length, All,
  arith, ◌==◌, eq_text, Bool-cases, inl, inr,
}
use nexus_seventeen.Merge.{is_git_object_id}
use nexus_seventeen.Publish.Sources.{DocSource}
use nexus_seventeen.Publish.Repo.{
  SinkDocument, DesiredDocument, DocsSink, PublishReport, new_report, map_set, map_get, map_of,
  source_blob_prefix, publish_document, publish_desired, archive_stale, reconcile, existing_map,
  desired_of, desired_map,
}
use nexus_seventeen.Publish.Banner.{has_plain_place, source_blob_prefix-with_source_banner}

module _ {V : Type 0} (P : V → Type 0) where
  abbrev pub Values : List (Text × V) → Type 0
  Values m = All (λ (e : Text × V). P e.1) m

  map_set-Values :
      (m : List (Text × V)) (key : Text) (value : V)
      → Values m
      → P value
      → Values (map_set m key value)
  unfolding map_set
  map_set-Values [] key value h p = (p, tt)
  map_set-Values ((k, v) ∷ m) key value h p = elim (Bool-cases (k == key)) [
    | inl t ↦ rw t (p, h.1)
    | inr f ↦ rw f (h.0, map_set-Values m key value h.1 p)
  ]

  map_of-Values : (m pairs : List (Text × V)) → Values m → Values pairs → Values (map_of m pairs)
  unfolding map_of
  map_of-Values m [] h p = h
  map_of-Values m ((key, value) ∷ pairs) h p =
      map_of-Values (map_set m key value) pairs (map_set-Values m key value h p.0) p.1

-- The text of a desired document names the blob that it is made from.
abbrev pub NamesBlob : DesiredDocument → Type 0
NamesBlob x = source_blob_prefix x.text ≡ some x.blob_prefix

-- A source whose banner can be read back.
abbrev pub IsPlain : Text → DocSource → Type 0
IsPlain repo_name source =
    (is_git_object_id source.blob_sha ≡ true) × (has_plain_place repo_name source ≡ true)

desired-NamesBlob :
    (repo_name : Text) (sources : List DocSource)
    → All (IsPlain repo_name) sources
    → Values NamesBlob (map (desired_of repo_name) sources)
desired-NamesBlob repo_name [] h = tt
desired-NamesBlob repo_name (source ∷ sources) h = (
  source_blob_prefix-with_source_banner source repo_name h.0.0 h.0.1,
  desired-NamesBlob repo_name sources h.1,
)

-- The collection holds every desired text under its title, and no document under another title.
pub record Mirrors (documents : List SinkDocument) (desired : List (Text × DesiredDocument))
    : Type 0 where
  pub present :
      All
        (λ (e : Text × DesiredDocument).
          (d : SinkDocument) × (map_get (existing_map documents) e.0 ≡ some d)
          × (d.text ≡ e.1.text))
        desired
  pub wanted :
      All
        (λ (d : SinkDocument). (x : DesiredDocument) × (map_get desired d.title ≡ some x))
        documents

module _ {S E C : Type 0} (sink : DocsSink S E C) (collection : C) where
  publish_document-unchanged :
      (title : Text) (x : DesiredDocument) (d : SinkDocument) (r : PublishReport E) (s : S)
      → NamesBlob x
      → d.text ≡ x.text
      → publish_document sink collection title x (some d) r s
        ≡ (record r { unchanged = suc r.unchanged }, s)
  unfolding publish_document
  publish_document-unchanged title x d r s names same =
      let found : source_blob_prefix d.text ≡ some x.blob_prefix =
        ap source_blob_prefix same ∙ names in
      let test = (option_eq_iff (source_blob_prefix d.text) (some x.blob_prefix)).1 found in
      rw test refl

  publish_desired-unchanged :
      (documents : List SinkDocument) (desired : List (Text × DesiredDocument))
      (r : PublishReport E) (s : S)
      → Values NamesBlob desired
      → All
          (λ (e : Text × DesiredDocument).
            (d : SinkDocument) × (map_get (existing_map documents) e.0 ≡ some d)
            × (d.text ≡ e.1.text))
          desired
      → publish_desired sink collection (existing_map documents) desired r s
        ≡ (record r { unchanged = r.unchanged + length desired }, s)
  unfolding publish_desired
  publish_desired-unchanged documents [] r s names present = ground arith
  publish_desired-unchanged documents ((title, x) ∷ rest) r s names present =
      let (d, found, same) = present.0 in
      let one = publish_document-unchanged title x d r s names.0 same in
      let ih =
        publish_desired-unchanged documents rest (record r { unchanged = suc r.unchanged }) s
          names.1 present.1 in
      let count : ◌≡◌ {A = ℕ} (suc r.unchanged + length rest) (r.unchanged + suc (length rest)) =
        omega arith in
      rw (found, one) (ih ∙ ap (λ n. (record r { unchanged = n }, s)) count)

  archive_stale-none :
      (desired : List (Text × DesiredDocument)) (documents : List SinkDocument)
      (r : PublishReport E) (s : S)
      → All
          (λ (d : SinkDocument). (x : DesiredDocument) × (map_get desired d.title ≡ some x))
          documents
      → archive_stale sink desired documents r s ≡ (r, s)
  unfolding archive_stale
  archive_stale-none desired [] r s h = refl
  archive_stale-none desired (d ∷ documents) r s h =
      let (x, found) = h.0 in rw found (archive_stale-none desired documents r s h.1)

  -- Where the collection mirrors the files that a repository publishes, whose blobs are object ids and whose paths,
  -- like the repository's name, hold no `@`, another publication calls the sink for no document, and reports
  -- every one of them unchanged and no failure.
  pub reconcile-Mirrors :
      (repo_name : Text) (sources : List DocSource) (documents : List SinkDocument) (s : S)
      → All (IsPlain repo_name) sources
      → Mirrors documents (desired_map repo_name sources)
      → reconcile sink collection documents (desired_map repo_name sources) s
        ≡ (record new_report { unchanged = length (desired_map repo_name sources) }, s)
  unfolding reconcile
  reconcile-Mirrors repo_name sources documents s plain mirrors =
      let names : Values NamesBlob (desired_map repo_name sources) =
        map_of-Values NamesBlob [] (map (desired_of repo_name) sources) tt
          (desired-NamesBlob repo_name sources plain) in
      let zero_more : ◌≡◌ {A = ℕ} (0 + length (desired_map repo_name sources))
          (length (desired_map repo_name sources)) =
        omega arith in
      rw
        (publish_desired-unchanged documents (desired_map repo_name sources) new_report s names
          mirrors.present)
        (archive_stale-none (desired_map repo_name sources) documents _ s mirrors.wanted
          ∙ ap (λ n. (record new_report { unchanged = n }, s)) zero_more)
