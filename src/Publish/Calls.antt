-- ===== src/Publish/Calls.antt =====
-- src/server/docs-publish/publish.ts: the calls that a publication needs, and the sum of their answers.
use nexus_seventeen.Prelude.{
  ℕ, ◌+◌, ◌≡◌, refl, ap, Bool, true, false, List, [], ◌∷◌, ◌++◌, Option, none, some, option_eq,
  Text, tally, if◌then◌else◌, Result, ok, err, eq_text,
}
use nexus_seventeen.Publish.Repo.{
  SinkDocument, DesiredDocument, DocsSink, PublishReport, PublishFailure, create_failed,
  update_failed, archive_failed, map_get, source_blob_prefix, existing_map, map_of,
}

-- A call that writes a document.
pub data Call : Type 0 where
  creates : Text → Text → Call
  updates : Text → Text → Text → Call
  archives : Text → Text → Call

-- The document names the blob of the desired one.
abbrev pub is_current : SinkDocument → DesiredDocument → Bool
unfolding source_blob_prefix
is_current d x = option_eq (source_blob_prefix d.text) (some x.blob_prefix)

abbrev pub has_current : Option SinkDocument → DesiredDocument → Bool
has_current none x = false
has_current (some d) x = is_current d x

abbrev pub is_unchanged : List (Text × SinkDocument) → Text × DesiredDocument → Bool
unfolding map_get
is_unchanged existing (title, x) = has_current (map_get existing title) x

abbrev pub needed_for : Text → DesiredDocument → Option SinkDocument → List Call
needed_for title x none = creates title x.text ∷ []
needed_for title x (some d) = if is_current d x then [] else updates d.id title x.text ∷ []

abbrev pub writes : List (Text × SinkDocument) → List (Text × DesiredDocument) → List Call
unfolding map_get
writes existing [] = []
writes existing ((title, x) ∷ desired) =
    needed_for title x (map_get existing title) ++ writes existing desired

abbrev pub unless_desired : SinkDocument → Option DesiredDocument → List Call
unless_desired d none = archives d.id d.title ∷ []
unless_desired d (some x) = []

abbrev pub removals : List (Text × DesiredDocument) → List SinkDocument → List Call
unfolding map_get
removals desired [] = []
removals desired (d ∷ documents) =
    unless_desired d (map_get desired d.title) ++ removals desired documents

-- A desired title without a document is created, one whose document names another blob is updated, and a document
-- whose title is not desired is archived.
abbrev pub needed : List SinkDocument → List (Text × DesiredDocument) → List Call
unfolding map_of
needed documents desired = writes (existing_map documents) desired ++ removals desired documents

abbrev pub Logged : Type 0 → Type 0
Logged E = Call × Result E (Unit {0})

module _ {S E C : Type 0} (sink : DocsSink S E C) (collection : C) where
  abbrev pub perform : Call → S → Result E (Unit {0}) × S
  perform (creates title text) s = sink.create_document collection title text s
  perform (updates id title text) s = sink.update_document id title text s
  perform (archives id title) s = sink.archive_document id s

  -- Every call, in order, with its answer.
  abbrev pub perform_all : List Call → S → List (Logged E) × S
  perform_all [] s = ([], s)
  perform_all (c ∷ calls) s =
      let answer = perform c s in
      let rest = perform_all calls answer.1 in ((c, answer.0) ∷ rest.0, rest.1)

  pub perform_all-append :
      (xs ys : List Call) (s : S)
      → perform_all (xs ++ ys) s ≡ (
        (perform_all xs s).0 ++ (perform_all ys (perform_all xs s).1).0,
        (perform_all ys (perform_all xs s).1).1,
      )
  perform_all-append [] ys s = refl
  perform_all-append (x ∷ xs) ys s =
      ap (λ (p : List (Logged E) × S). ((x, (perform x s).0) ∷ p.0, p.1))
        (perform_all-append xs ys (perform x s).1)

module _ {E : Type 0} where
  abbrev pub has_created : Logged E → Bool
  has_created (creates title text, ok done) = true
  has_created (creates title text, err e) = false
  has_created (updates id title text, r) = false
  has_created (archives id title, r) = false

  abbrev pub has_updated : Logged E → Bool
  has_updated (creates title text, r) = false
  has_updated (updates id title text, ok done) = true
  has_updated (updates id title text, err e) = false
  has_updated (archives id title, r) = false

  abbrev pub has_archived : Logged E → Bool
  has_archived (creates title text, r) = false
  has_archived (updates id title text, r) = false
  has_archived (archives id title, ok done) = true
  has_archived (archives id title, err e) = false

  abbrev pub failure_of : Call → E → PublishFailure E
  failure_of (creates title text) e = create_failed title e
  failure_of (updates id title text) e = update_failed title e
  failure_of (archives id title) e = archive_failed title e

  -- The failed calls, in order, each with the title of its document and its error.
  abbrev pub failures_of : List (Logged E) → List (PublishFailure E)
  failures_of [] = []
  failures_of ((c, ok done) ∷ log) = failures_of log
  failures_of ((c, err e) ∷ log) = failure_of c e ∷ failures_of log

  abbrev pub with_log : ℕ → List (Logged E) → PublishReport E → PublishReport E
  unfolding tally
  with_log unchanged log r = record {
    created = r.created + tally has_created log;
    updated = r.updated + tally has_updated log;
    archived = r.archived + tally has_archived log;
    unchanged = r.unchanged + unchanged;
    failures = r.failures ++ failures_of log;
  }
