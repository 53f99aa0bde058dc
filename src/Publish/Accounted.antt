-- ===== src/Publish/Accounted.antt =====
-- src/server/docs-publish/publish.ts: a report is the sum of the answers to the calls that are needed.
use nexus_seventeen.Prelude.{
  ℕ, suc, ◌+◌, ◌≡◌, refl, ap, ◌∙◌, sym, Bool, Bool-cases, inl, inr, List, [], ◌∷◌, ◌++◌, Option,
  none, some, Text, tally, if◌then◌else◌, Result, ok, err, arith, eq_text,
}
use nexus_seventeen.Publish.Repo.{
  SinkDocument, DesiredDocument, DocsSink, PublishReport, new_report, map_get, after_create,
  after_update, after_archive, archive_unless, publish_document, publish_desired, archive_stale,
  reconcile, existing_map,
}
use nexus_seventeen.Publish.Calls.{
  Call, creates, updates, archives, is_current, has_current, is_unchanged, needed_for, writes,
  unless_desired, removals, needed, Logged, perform_all, perform_all-append, has_created,
  has_updated, has_archived, failures_of, with_log,
}

tally-append {ℓ} :
    {A : Type ℓ} (p : A → Bool) (xs ys : List A) → tally p (xs ++ ys) ≡ tally p xs + tally p ys
unfolding tally
tally-append p [] ys = omega arith
tally-append p (x ∷ xs) ys = ground (arith, tally-append p xs ys)

tally-head {ℓ} :
    {A : Type ℓ} (p : A → Bool) (x : A) (xs : List A)
    → tally p (x ∷ xs) ≡ (if p x then 1 else 0) + tally p xs
unfolding tally
tally-head p x xs = ground arith

append_assoc {ℓ} : {A : Type ℓ} (xs ys zs : List A) → (xs ++ ys) ++ zs ≡ xs ++ (ys ++ zs)
append_assoc [] ys zs = refl
append_assoc (x ∷ xs) ys zs = rw (append_assoc xs ys zs)

append_nil {ℓ} : {A : Type ℓ} (xs : List A) → xs ++ [] ≡ xs
append_nil [] = refl
append_nil (x ∷ xs) = rw (append_nil xs)

module _ {E : Type 0} where
  -- Two reports with the same entries.
  report-eq :
      {r q : PublishReport E}
      → r.created ≡ q.created
      → r.updated ≡ q.updated
      → r.archived ≡ q.archived
      → r.unchanged ≡ q.unchanged
      → r.failures ≡ q.failures
      → r ≡ q
  report-eq e1 e2 e3 e4 e5 = cc

  failures_of-append :
      (xs ys : List (Logged E)) → failures_of (xs ++ ys) ≡ failures_of xs ++ failures_of ys
  failures_of-append [] ys = refl
  failures_of-append ((c, ok done) ∷ xs) ys = failures_of-append xs ys
  failures_of-append ((c, err e) ∷ xs) ys = rw (failures_of-append xs ys)

  with_log-append :
      (m n : ℕ) (xs ys : List (Logged E)) (r : PublishReport E)
      → with_log n ys (with_log m xs r) ≡ with_log (m + n) (xs ++ ys) r
  unfolding tally
  with_log-append m n xs ys r =
      let created : (r.created + tally has_created xs) + tally has_created ys
          ≡ r.created + tally has_created (xs ++ ys) =
        omega (arith, tally-append has_created xs ys) in
      let updated : (r.updated + tally has_updated xs) + tally has_updated ys
          ≡ r.updated + tally has_updated (xs ++ ys) =
        omega (arith, tally-append has_updated xs ys) in
      let archived : (r.archived + tally has_archived xs) + tally has_archived ys
          ≡ r.archived + tally has_archived (xs ++ ys) =
        omega (arith, tally-append has_archived xs ys) in
      let unchanged : (r.unchanged + m) + n ≡ r.unchanged + (m + n) = omega arith in
      report-eq created updated archived unchanged (
        append_assoc r.failures (failures_of xs) (failures_of ys)
        ∙ ap (λ f. r.failures ++ f) (sym (failures_of-append xs ys)))

  with_log-nil : (r : PublishReport E) → with_log 0 [] r ≡ r
  unfolding tally
  with_log-nil r =
      report-eq (omega arith) (omega arith) (omega arith) (omega arith) (append_nil r.failures)

  with_log-one : (r : PublishReport E) → record r { unchanged = suc r.unchanged } ≡ with_log 1 [] r
  unfolding tally
  with_log-one r =
      let more : suc r.unchanged ≡ r.unchanged + 1 = omega arith in
      report-eq (omega arith) (omega arith) (omega arith) more (sym (append_nil r.failures))

module _ {S E C : Type 0} (sink : DocsSink S E C) (collection : C) where
  -- What calls and unchanged documents make of a report and a state.
  abbrev Run : ℕ → List Call → PublishReport E → S → PublishReport E × S
  Run unchanged calls r s =
      let done = perform_all sink collection calls s in (with_log unchanged done.0 r, done.1)

  Run-append :
      (m n : ℕ) (xs ys : List Call) (r : PublishReport E) (s : S)
      → Run n ys (Run m xs r s).0 (Run m xs r s).1 ≡ Run (m + n) (xs ++ ys) r s
  Run-append m n xs ys r s = rw (perform_all-append sink collection xs ys s) (
      ap
        (λ (q : PublishReport E).
          (q, (perform_all sink collection ys (perform_all sink collection xs s).1).1))
        (with_log-append m n (perform_all sink collection xs s).0
          (perform_all sink collection ys (perform_all sink collection xs s).1).0 r))

  Run-nil : (r : PublishReport E) (s : S) → Run 0 [] r s ≡ (r, s)
  Run-nil r s = ap (λ (q : PublishReport E). (q, s)) (with_log-nil r)

  after_create-Run :
      (title text : Text) (r : PublishReport E) (m : Result E (Unit {0}) × S)
      → after_create sink title r m ≡ (with_log 0 ((creates title text, m.0) ∷ []) r, m.1)
  unfolding tally
  after_create-Run title text r (ok done, s) =
      ap (λ (q : PublishReport E). (q, s))
        (report-eq (omega arith) (omega arith) (omega arith) (omega arith)
          (sym (append_nil r.failures)))
  after_create-Run title text r (err e, s) =
      ap (λ (q : PublishReport E). (q, s))
        (report-eq (omega arith) (omega arith) (omega arith) (omega arith) refl)

  after_update-Run :
      (id title text : Text) (r : PublishReport E) (m : Result E (Unit {0}) × S)
      → after_update sink title r m ≡ (with_log 0 ((updates id title text, m.0) ∷ []) r, m.1)
  unfolding tally
  after_update-Run id title text r (ok done, s) =
      ap (λ (q : PublishReport E). (q, s))
        (report-eq (omega arith) (omega arith) (omega arith) (omega arith)
          (sym (append_nil r.failures)))
  after_update-Run id title text r (err e, s) =
      ap (λ (q : PublishReport E). (q, s))
        (report-eq (omega arith) (omega arith) (omega arith) (omega arith) refl)

  after_archive-Run :
      (id title : Text) (r : PublishReport E) (m : Result E (Unit {0}) × S)
      → after_archive sink title r m ≡ (with_log 0 ((archives id title, m.0) ∷ []) r, m.1)
  unfolding tally
  after_archive-Run id title r (ok done, s) =
      ap (λ (q : PublishReport E). (q, s))
        (report-eq (omega arith) (omega arith) (omega arith) (omega arith)
          (sym (append_nil r.failures)))
  after_archive-Run id title r (err e, s) =
      ap (λ (q : PublishReport E). (q, s))
        (report-eq (omega arith) (omega arith) (omega arith) (omega arith) refl)

  publish_document-Run :
      (title : Text) (x : DesiredDocument) (found : Option SinkDocument) (r : PublishReport E)
      (s : S)
      → publish_document sink collection title x found r s
        ≡ Run (if has_current found x then 1 else 0) (needed_for title x found) r s
  unfolding publish_document
  publish_document-Run title x none r s =
      after_create-Run title x.text r (sink.create_document collection title x.text s)
  publish_document-Run title x (some d) r s = elim (Bool-cases (is_current d x)) [
    | inl t ↦ rw (t, publish_document) (ap (λ (q : PublishReport E). (q, s)) (with_log-one r))
    | inr f ↦
        rw (f, publish_document)
          (after_update-Run d.id title x.text r (sink.update_document d.id title x.text s))
  ]

  publish_desired-Run :
      (existing : List (Text × SinkDocument)) (desired : List (Text × DesiredDocument))
      (r : PublishReport E) (s : S)
      → publish_desired sink collection existing desired r s
        ≡ Run (tally (is_unchanged existing) desired) (writes existing desired) r s
  unfolding publish_desired
  publish_desired-Run existing [] r s = unfold tally in sym (Run-nil r s)
  publish_desired-Run existing ((title, x) ∷ desired) r s =
      let found = map_get existing title in
      let one : ℕ = if has_current found x then 1 else 0 in
      ap (λ (p : PublishReport E × S). publish_desired sink collection existing desired p.0 p.1)
        (publish_document-Run title x found r s)
      ∙ publish_desired-Run existing desired (Run one (needed_for title x found) r s).0
          (Run one (needed_for title x found) r s).1
      ∙ Run-append one (tally (is_unchanged existing) desired) (needed_for title x found)
          (writes existing desired) r s
      ∙ ap (λ n. Run n (writes existing ((title, x) ∷ desired)) r s)
          (sym (tally-head (is_unchanged existing) (title, x) desired))

  archive_unless-Run :
      (found : Option DesiredDocument) (d : SinkDocument) (r : PublishReport E) (s : S)
      → archive_unless sink found d r s ≡ Run 0 (unless_desired d found) r s
  archive_unless-Run none d r s = after_archive-Run d.id d.title r (sink.archive_document d.id s)
  archive_unless-Run (some x) d r s = sym (Run-nil r s)

  archive_stale-Run :
      (desired : List (Text × DesiredDocument)) (documents : List SinkDocument)
      (r : PublishReport E) (s : S)
      → archive_stale sink desired documents r s ≡ Run 0 (removals desired documents) r s
  unfolding archive_stale
  archive_stale-Run desired [] r s = sym (Run-nil r s)
  archive_stale-Run desired (d ∷ documents) r s =
      let found = map_get desired d.title in
      ap (λ (p : PublishReport E × S). archive_stale sink desired documents p.0 p.1)
        (archive_unless-Run found d r s)
      ∙ archive_stale-Run desired documents (Run 0 (unless_desired d found) r s).0
          (Run 0 (unless_desired d found) r s).1
      ∙ Run-append 0 0 (unless_desired d found) (removals desired documents) r s

  -- A publication makes exactly the calls that are needed, in order, whatever the sink answers: it creates the
  -- desired titles without a document, updates those whose document names another blob, and archives the
  -- documents whose titles are not desired. Its report counts the successful calls of each kind and the
  -- documents that name their blob, and names the failed calls in order, with title and error.
  pub reconcile-runs :
      (documents : List SinkDocument) (desired : List (Text × DesiredDocument)) (s : S)
      → reconcile sink collection documents desired s ≡ (
        with_log
            (tally (is_unchanged (existing_map documents)) desired)
            (perform_all sink collection (needed documents desired) s).0
            new_report,
        (perform_all sink collection (needed documents desired) s).1,
      )
  unfolding reconcile
  reconcile-runs documents desired s =
      let existing = existing_map documents in
      let n = tally (is_unchanged existing) desired in
      ap (λ (p : PublishReport E × S). archive_stale sink desired documents p.0 p.1)
        (publish_desired-Run existing desired new_report s)
      ∙ archive_stale-Run desired documents (Run n (writes existing desired) new_report s).0
          (Run n (writes existing desired) new_report s).1
      ∙ Run-append n 0 (writes existing desired) (removals desired documents) new_report s
      ∙ ap (λ k. Run k (needed documents desired) new_report s) (omega arith)
