-- ===== src/Attempts/Starts.antt =====
-- src/server/task-board/collaborators/verify-attempts.ts: the second of two failed starts is the last.
use nexus_seventeen.Prelude.{
  suc, ◌≤◌, ◌≡◌, inl, inr, refl, sym, ap, update_where, find, find-mem, some_injective, ◌∙◌, subst,
  Bool, true, false, Bool-cases, List, [], ◌∷◌, Option, none, some, Text, text_eq_iff, tally,
  if◌then◌else◌, ok, ltb, ◌==◌, eq_text, arith,
}
use mathlib.Core.List.{Memᴰ}
use nexus_seventeen.Contract.{eq_stage}
use nexus_seventeen.Attempts.Rows.{
  AttemptState, failed, failed_to_start, PlanRow, VerifiedItem, with_item, with_plan, with_node,
  with_attempt, plan_of, item_of, VerifyAttempt, WorkNode, VerifyDb, AttemptContext,
  MachineVerifyEvidence, is_startable, context, node_of,
}
use nexus_seventeen.Attempts.Checks.{clean_to}
use nexus_seventeen.Attempts.Failures.{start_failure_count}
use nexus_seventeen.Attempts.Details.{KeepsMarker, start_failure_count-start_detail}
use nexus_seventeen.Attempts.Writes.{
  SettleInTransaction, selects, update_attempt, start_error, on_start_error, fail_start,
  start_detail, start_settlement,
}
use nexus_seventeen.Attempts.Settled.{settlements_of, update_where-mem}

-- A row of the identifier is changed, or was in another state.
changed :
    {id : Text} (f : VerifyAttempt → VerifyAttempt) (x : VerifyAttempt)
    → (if selects id is_startable x then f x else x).verify_attempt_id ≡ id
    → (f x).state ≡ failed
    → is_startable (if selects id is_startable x then f x else x).state ≡ false
unfolding is_startable
changed {id} f x named ends = elim (Bool-cases (selects id is_startable x)) [
  | inl t ↦ rw t (ap is_startable ends)
  | inr n ↦
      let same : x.verify_attempt_id ≡ id = rw n at named in
      let equal = (text_eq_iff x.verify_attempt_id id).1 same in rw n (ground (arith, n, equal))
]

module _ (redact : Text → Text) (settle : SettleInTransaction) (db : VerifyDb) (id : Text)
    (c : AttemptContext) where
  -- A start that fails again is the last.
  start_error-ends :
      (path : Option Text) (error now : Text) (nodes : List WorkNode)
      → context db id ≡ some c
      → is_startable c.attempt.state ≡ true
      → 1 ≤ start_failure_count c.attempt.detail
      → ((evidence : MachineVerifyEvidence)
          → settle c.attempt.node_id c.attempt.stage false evidence db.work_nodes ≡ ok nodes)
      → (db' : VerifyDb) × (start_error redact settle id path error now db ≡ ok db')
        × ((a : VerifyAttempt)
            → Memᴰ a db'.verify_attempts
            → a.verify_attempt_id ≡ c.attempt.verify_attempt_id
            → is_startable a.state ≡ false)
        × (settlements_of c.attempt.verify_attempt_id db'.settlements
            ≡ suc (settlements_of c.attempt.verify_attempt_id db.settlements))
  unfolding start_error tally
  start_error-ends path error now nodes found startable failed_before settles =
      let safe = clean_to redact 4000 error in
      let detail = start_detail redact settle (suc (start_failure_count c.attempt.detail)) safe in
      let s = start_settlement redact settle c detail safe in
      let f : VerifyAttempt → VerifyAttempt = λ a. record a {
        state = failed;
        workspace_path = path;
        detail = some detail;
        ended_at = some now;
      } in
      let db' = record (update_attempt c.attempt.verify_attempt_id is_startable f db) {
        work_nodes = nodes;
        settlements = s ∷ db.settlements;
      } in
      let last : ltb (suc (start_failure_count c.attempt.detail)) 2 ≡ false =
        ground (arith, failed_before) in
      let told : settle c.attempt.node_id c.attempt.stage false s.evidence db.work_nodes
          ≡ ok nodes =
        settles s.evidence in
      let failing : fail_start redact settle c path safe now db ≡ ok db' =
        unfold fail_start in rw (last, told) refl in
      let handled : on_start_error redact settle (some c) path error now db ≡ ok db' =
        rw startable failing in
      let named : (c.attempt.verify_attempt_id == c.attempt.verify_attempt_id) ≡ true =
        (text_eq_iff c.attempt.verify_attempt_id c.attempt.verify_attempt_id).1 refl in
      (
        db',
        subst (λ o. on_start_error redact settle o path error now db ≡ ok db') (sym found) handled,
        (λ a m same.
            let (x, mx, e) =
              update_where-mem (selects c.attempt.verify_attempt_id is_startable) f
                db.verify_attempts m in
            subst (λ v. is_startable v.state ≡ false) (sym e)
              (changed f x (ap (λ (v : VerifyAttempt). v.verify_attempt_id) (sym e) ∙ same) refl)),
        rw named refl,
      )

-- The row that is found by its identifier is the one that an update changes.
find-updated :
    (id : Text) (guard : AttemptState → Bool) (f : VerifyAttempt → VerifyAttempt)
    (rows : List VerifyAttempt) {a : VerifyAttempt}
    → ((x : VerifyAttempt) → (f x).verify_attempt_id ≡ x.verify_attempt_id)
    → find (λ (x : VerifyAttempt). x.verify_attempt_id == id) rows ≡ some a
    → guard a.state ≡ true
    → find
        (λ (x : VerifyAttempt). x.verify_attempt_id == id)
        (update_where (selects id guard) f rows)
      ≡ some (f a)
unfolding find update_where
find-updated id guard f [] {a} keeps h open_ = cc
find-updated id guard f (x ∷ rows) {a} keeps h open_ =
    elim (Bool-cases (x.verify_attempt_id == id)) [
      | inl t ↦
          let first : x ≡ a = some_injective (rw t at h) in
          let is_open_ : guard x.state ≡ true = rw first open_ in
          let still : ((f x).verify_attempt_id == id) ≡ true = ap (λ k. k == id) (keeps x) ∙ t in
          rw (t, is_open_) (rw still (ap (λ (v : VerifyAttempt). some (f v)) first))
      | inr n ↦ rw n (rw n (find-updated id guard f rows keeps (rw n at h) open_))
    ]

module _ (db : VerifyDb) (rows : List VerifyAttempt) (a b : VerifyAttempt)
    (same_node : b.node_id ≡ a.node_id) where
  -- The context of a row that has changed, but for its node.
  abbrev Moved : Option AttemptContext → AttemptContext → Type 0
  Moved after c = (c.attempt ≡ a) × (after ≡ some (record c { attempt = b }))

  with_item-Moved :
      (node : WorkNode) (plan : PlanRow) (item : Option VerifiedItem) {c : AttemptContext}
      → with_item a node plan item ≡ some c
      → Moved (with_item b node plan item) c
  with_item-Moved node plan none h = cc
  with_item-Moved node plan (some item) h =
      let same = some_injective h in
      (
        ap (λ (c : AttemptContext). c.attempt) (sym same),
        ap (λ (c : AttemptContext). some (record c { attempt = b })) same,
      )

  with_plan-Moved :
      (node : WorkNode) (plan : Option PlanRow) {c : AttemptContext}
      → with_plan db a node plan ≡ some c
      → Moved (with_plan (record db { verify_attempts = rows }) b node plan) c
  unfolding item_of
  with_plan-Moved node none h = cc
  with_plan-Moved node (some plan) h = with_item-Moved node plan (item_of db plan.work_item_id) h

  with_node-Moved :
      (node : Option WorkNode) {c : AttemptContext}
      → with_node db a node ≡ some c
      → Moved (with_node (record db { verify_attempts = rows }) b node) c
  unfolding plan_of
  with_node-Moved none h = cc
  with_node-Moved (some node) h = with_plan-Moved node (plan_of db node.plan_revision_id) h

  with_attempt-Moved :
      {c : AttemptContext}
      → with_attempt db (some a) ≡ some c
      → Moved (with_attempt (record db { verify_attempts = rows }) (some b)) c
  unfolding node_of
  with_attempt-Moved {c} h =
      subst (λ k. Moved (with_node (record db { verify_attempts = rows }) b (node_of db k)) c)
        (sym same_node) (with_node-Moved (node_of db a.node_id) h)

module _ (db : VerifyDb) (id : Text) (f : VerifyAttempt → VerifyAttempt)
    (same_id : (x : VerifyAttempt) → (f x).verify_attempt_id ≡ x.verify_attempt_id)
    (same_node : (x : VerifyAttempt) → (f x).node_id ≡ x.node_id) where
  found-context :
      (found : Option VerifyAttempt) {c : AttemptContext}
      → find (λ (x : VerifyAttempt). x.verify_attempt_id == id) db.verify_attempts ≡ found
      → with_attempt db found ≡ some c
      → is_startable c.attempt.state ≡ true
      → context (update_attempt c.attempt.verify_attempt_id is_startable f db) id
        ≡ some (record c { attempt = f c.attempt })
  unfolding context
  found-context none at_ h startable = cc
  found-context (some a) {c} at_ h startable =
      let key = c.attempt.verify_attempt_id in
      let rows = update_where (selects key is_startable) f db.verify_attempts in
      let (is_a, moved) = with_attempt-Moved db rows a (f a) (same_node a) h in
      let named : a.verify_attempt_id ≡ id =
        (text_eq_iff a.verify_attempt_id id).0
          (find-mem (λ (x : VerifyAttempt). x.verify_attempt_id == id) db.verify_attempts at_).1 in
      let same : id ≡ key = sym (ap (λ (x : VerifyAttempt). x.verify_attempt_id) is_a ∙ named) in
      let updated =
        subst
          (λ k.
            find (λ (x : VerifyAttempt). x.verify_attempt_id == id)
              (update_where (selects k is_startable) f db.verify_attempts)
            ≡ some (f a))
          same
          (find-updated id is_startable f db.verify_attempts same_id at_ (rw (← is_a) startable)) in
      ap (λ o. with_attempt (record db { verify_attempts = rows }) o) updated
      ∙ moved
      ∙ ap (λ (x : VerifyAttempt). some (record c { attempt = f x })) (sym is_a)

  context-updated :
      {c : AttemptContext}
      → context db id ≡ some c
      → is_startable c.attempt.state ≡ true
      → context (update_attempt c.attempt.verify_attempt_id is_startable f db) id
        ≡ some (record c { attempt = f c.attempt })
  unfolding context
  context-updated h startable =
      found-context (find (λ (x : VerifyAttempt). x.verify_attempt_id == id) db.verify_attempts)
        refl h startable

-- The databases behind two failed starts.
pub record TwoStarts (redact : Text → Text) (settle : SettleInTransaction) (db : VerifyDb)
    (id : Text) (c : AttemptContext) (path path' : Option Text) (error error' now now' : Text)
    : Type 0 where
  pub once : VerifyDb
  pub first : start_error redact settle id path error now db ≡ ok once
  pub retries : AttemptContext
  pub found : context once id ≡ some retries
  pub may_start : retries.attempt.state ≡ failed_to_start
  pub untold :
      settlements_of c.attempt.verify_attempt_id once.settlements
      ≡ settlements_of c.attempt.verify_attempt_id db.settlements
  pub twice : VerifyDb
  pub second : start_error redact settle id path' error' now' once ≡ ok twice
  pub ended :
      (a : VerifyAttempt)
      → Memᴰ a twice.verify_attempts
      → a.verify_attempt_id ≡ c.attempt.verify_attempt_id
      → is_startable a.state ≡ false
  pub told :
      settlements_of c.attempt.verify_attempt_id twice.settlements
      ≡ suc (settlements_of c.attempt.verify_attempt_id db.settlements)

module _ (redact : Text → Text) (settle : SettleInTransaction) (db : VerifyDb) (id : Text)
    (c : AttemptContext) where
  -- Two starts of an attempt that may still start fail one after the other, where none has failed before and the
  -- credential patterns leave the marker at the start of a text alone: after the first the attempt may start again and the workflow
  -- is told nothing, after the second it may not, and the workflow is told once, unless its settlement throws.
  pub start_error-start_error :
      (path path' : Option Text) (error error' now now' : Text) (nodes : List WorkNode)
      → KeepsMarker redact 1
      → context db id ≡ some c
      → is_startable c.attempt.state ≡ true
      → start_failure_count c.attempt.detail ≡ 0
      → ((evidence : MachineVerifyEvidence)
          → settle c.attempt.node_id c.attempt.stage false evidence db.work_nodes ≡ ok nodes)
      → TwoStarts redact settle db id c path path' error error' now now'
  unfolding start_error is_startable
  start_error-start_error path path' error error' now now' nodes keeps found startable none_failed
        settles =
      let safe = clean_to redact 4000 error in
      let detail = start_detail redact settle 1 safe in
      let f : VerifyAttempt → VerifyAttempt =
        λ a. record a { state = failed_to_start; workspace_path = path; detail = some detail } in
      let once = update_attempt c.attempt.verify_attempt_id is_startable f db in
      let c' : AttemptContext = record c { attempt = f c.attempt } in
      let failing : fail_start redact settle c path safe now db ≡ ok once =
        unfold fail_start in rw none_failed refl in
      let handled : on_start_error redact settle (some c) path error now db ≡ ok once =
        rw startable failing in
      let again : context once id ≡ some c' =
        context-updated db id f (λ x. refl) (λ x. refl) found startable in
      let counted : 1 ≤ start_failure_count c'.attempt.detail =
        omega (arith, start_failure_count-start_detail redact settle 1 safe (omega arith) keeps) in
      let (twice, second, ended, told) =
        start_error-ends redact settle once id c' path' error' now' nodes again refl counted
          settles in
      record {
        once = once;
        first =
            subst (λ o. on_start_error redact settle o path error now db ≡ ok once) (sym found)
              handled;
        retries = c';
        found = again;
        may_start = refl;
        untold = refl;
        twice = twice;
        second = second;
        ended = ended;
        told = told;
      }
