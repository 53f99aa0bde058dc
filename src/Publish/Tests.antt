-- ===== src/Publish/Tests.antt =====
-- Concrete runs of src/server/docs-publish against a collection kept in memory.
use nexus_seventeen.Prelude.{
  ℕ, zero, suc, ◌+◌, ◌≡◌, refl, not, List, [], ◌∷◌, ◌++◌, map, some, Text, text_eq, lit, keep, all,
  take, length, tally, ok, err, ◌==◌, eq_text, if◌then◌else◌,
}
use nexus_seventeen.Merge.{Committer, GitTextRunner, is_git_object_id}
use nexus_seventeen.Publish.Sources.{
  DocSource, parse_git_tree_entry, exclude_prefix, exclude_invalid,
}
use nexus_seventeen.Publish.Repo.{
  SinkDocument, DocsSink, DocsPublishRepo, new_report, map_get, map_of, source_blob_prefix,
  with_source_banner, reconcile, publish_repo, desired_map, existing_map,
}
use nexus_seventeen.Publish.Calls.{is_unchanged, needed, perform_all, with_log}
use nexus_seventeen.Publish.Accounted.{reconcile-runs}
use nexus_seventeen.Publish.Banner.{source_blob_prefix-with_source_banner}
use nexus_seventeen.Publish.Settled.{Mirrors, reconcile-Mirrors}

-- The documents of the one collection; an archived document is gone.
abbrev memory : DocsSink (List SinkDocument) (Unit {0}) (Unit {0})
memory = record {
  ensure_collection = λ name s. (ok tt, s);
  list_documents = λ collection s. (ok s, s);
  create_document = λ collection title text s.
      (ok tt, s ++ record { id = title; title = title; text = text } ∷ []);
  update_document = λ id title text s. (
    ok tt,
    map
        (λ (d : SinkDocument).
          if d.id == id then record { id = id; title = title; text = text } else d)
        s,
  );
  archive_document = λ id s. (ok tt, keep (λ d. not (d.id == id)) s);
}

-- Nothing can be written.
abbrev broken : DocsSink (List SinkDocument) (Unit {0}) (Unit {0})
broken = record memory {
  create_document = λ collection title text s. (err tt, s);
  update_document = λ id title text s. (err tt, s);
  archive_document = λ id s. (err tt, s);
}

abbrev sha : Text
unfolding lit
sha = lit "0123456789abcdef0123456789abcdef01234567"

abbrev readme : DocSource
unfolding lit
readme = record {
  path = lit "README.md";
  title = lit "README.md";
  markdown = lit "# Hi";
  blob_sha = sha;
}

-- A path that looks like the banner's mark of another blob.
abbrev lookalike : DocSource
unfolding lit
lookalike = record readme { path = lit "docs/x @ blob 000000000000.md" }

abbrev name : Text
unfolding lit
name = lit "nexus"

abbrev stale : SinkDocument
unfolding lit
stale = record { id = lit "old"; title = lit "docs/old.md"; text = lit "x" }

-- The banner of such a path does not give its own blob back, so its page is written at each publication.
lookalike_misreads :
    source_blob_prefix (with_source_banner lookalike name)
    ≡ some (0x30 ∷ 0x30 ∷ 0x30 ∷ 0x30 ∷ 0x30 ∷ 0x30 ∷ 0x30 ∷ 0x30 ∷ 0x30 ∷ 0x30 ∷ 0x30 ∷ 0x30 ∷ [])
unfolding source_blob_prefix with_source_banner lit
lookalike_misreads = refl

tree_line :
    parse_git_tree_entry (lit "100644 blob " ++ sha ++ 9 ∷ lit "docs/a b.md")
    ≡ some (record { mode = lit "100644"; kind = lit "blob"; sha = sha; path = lit "docs/a b.md" })
unfolding parse_git_tree_entry lit
tree_line = refl

parent_is_refused : exclude_prefix (lit "docs/../**") ≡ err (exclude_invalid (lit "docs/../**"))
unfolding exclude_prefix lit text_eq
parent_is_refused = refl

folder_is_excluded : exclude_prefix (lit "docs/old/**") ≡ ok (lit "docs/old")
unfolding exclude_prefix lit text_eq
folder_is_excluded = refl

-- Nothing can be written, so that both calls are named among the failures.
reconcile-runs_example :
    reconcile broken tt (stale ∷ []) (desired_map name (readme ∷ [])) (stale ∷ []) ≡ (
      with_log
          (tally (is_unchanged (existing_map (stale ∷ []))) (desired_map name (readme ∷ [])))
          (perform_all broken tt
            (needed (stale ∷ []) (desired_map name (readme ∷ [])))
            (stale ∷ [])).0
          new_report,
      (perform_all broken tt (needed (stale ∷ []) (desired_map name (readme ∷ []))) (stale ∷ [])).1,
    )
reconcile-runs_example =
    reconcile-runs broken tt (stale ∷ []) (desired_map name (readme ∷ [])) (stale ∷ [])

source_blob_prefix-with_source_banner_example :
    source_blob_prefix (with_source_banner readme name) ≡ some (take 12 sha)
unfolding is_git_object_id all lit
source_blob_prefix-with_source_banner_example =
    source_blob_prefix-with_source_banner readme name refl refl

-- What one publication leaves.
abbrev published : List SinkDocument
published = (reconcile memory tt (stale ∷ []) (desired_map name (readme ∷ [])) (stale ∷ [])).1

published_text :
    published
    ≡ record { id = readme.path; title = readme.path; text = with_source_banner readme name } ∷ []
unfolding reconcile lit text_eq map_of keep
published_text = refl

published-Mirrors : Mirrors published (desired_map name (readme ∷ []))
unfolding reconcile lit text_eq map_of map_get keep
published-Mirrors = record {
  present = (
    (
      record { id = readme.path; title = readme.path; text = with_source_banner readme name },
      refl,
      refl,
    ),
    tt,
  );
  wanted =
      ((record { blob_prefix = take 12 sha; text = with_source_banner readme name }, refl), tt);
}

reconcile-Mirrors_example :
    reconcile memory tt published (desired_map name (readme ∷ [])) published
    ≡ (record new_report { unchanged = length (desired_map name (readme ∷ [])) }, published)
unfolding is_git_object_id all lit
reconcile-Mirrors_example =
    reconcile-Mirrors memory tt name (readme ∷ []) published published ((refl, refl), tt)
      published-Mirrors

abbrev entry : DocsPublishRepo
unfolding lit
entry = record {
  name = lit "nexus";
  path = lit "/r";
  ref = lit "main";
  exclude = lit "docs/old/**" ∷ [];
}

abbrev committer : Committer
committer = record { name = []; email = [] }

-- A repository with one file that is published, one that is excluded and one that is no document.
abbrev answer : ℕ → Text
unfolding lit
answer zero = sha ++ 10 ∷ []
answer (suc zero) =
    lit "100644 blob "
    ++ sha
    ++ 9 ∷ lit "README.md"
    ++ 0 ∷ lit "100644 blob "
    ++ sha
    ++ 9 ∷ lit "docs/old/b.md"
    ++ 0 ∷ lit "100755 blob "
    ++ sha
    ++ 9 ∷ lit "docs/run.sh"
    ++ 0 ∷ []
answer (suc (suc n)) = lit "# Hi"

abbrev git : GitTextRunner ℕ
git arguments n = (ok (answer n), n + 1)

one_is_created :
    publish_repo memory committer git entry 0 (stale ∷ [])
    ≡ (record new_report { created = 1; archived = 1 }, 3, published)
unfolding publish_repo reconcile lit text_eq map_of keep is_git_object_id
one_is_created = refl
