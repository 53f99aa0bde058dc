-- ===== src/Attempts/Once.antt =====
-- src/server/task-board/collaborators/verify-attempts.ts: what holds of the attempts over any order of
-- creations, starts, failed starts, verdicts, retirements and cleanups.
use nexus_seventeen.Prelude.{
  suc, ◌≡◌, inl, inr, refl, sym, subst, Bool, true, false, ◌&&◌, Bool-cases, List, ◌∷◌, Option,
  none, some, Text, text_eq_iff, tally, tally-le, update_where, find, find-mem, Result, ok, err,
  ok-injective, nat_eq, nat_eq_iff, ltb, ◌==◌, eq_text, arith, err_is_not_ok,
}
use mathlib.Core.List.{Memᴰ}
use nexus_seventeen.Contract.{eq_stage}
use nexus_seventeen.Attempts.Rows.{
  AttemptState, failed, VerifyAttempt, WorkNode, PlanRow, VerifiedItem, Settlement, VerifyDb,
  AttemptContext, is_startable, is_running, is_retired, is_open, node_is_of, context, with_attempt,
  with_node, with_plan, with_item, node_of, plan_of, item_of,
}
use nexus_seventeen.Attempts.Checks.{CheckOutcome}
use nexus_seventeen.Attempts.Failures.{start_failure_count}
use nexus_seventeen.Attempts.Writes.{
  VerifyError, SettleInTransaction, selects, update_attempt, run_settlement, settled_by,
  record_running, start_error, on_start_error, fail_start, finalize, retire_open_attempts,
  clear_resources, final_settlement, finalized, start_detail, start_settlement,
}
use nexus_seventeen.Attempts.Steps.{
  IsFinal, is_green, is_failed, is_died, Step, create, run, fail, finish, retire, clear, Reach,
  here, next,
}
use nexus_seventeen.Attempts.Settled.{
  is_settled, IsSettledOnce, update_where-IsSettledOnce, settled-IsSettledOnce, tally-mem,
  update_where-none,
}
use nexus_seventeen.Attempts.Created.{SettledOnce, create-SettledOnce}

-- The two parts of a `WHERE` clause on an attempt.
selects-parts :
    (id : Text) (guard : AttemptState → Bool) (a : VerifyAttempt)
    → selects id guard a ≡ true
    → (a.verify_attempt_id ≡ id) × (guard a.state ≡ true)
selects-parts id guard a h =
    ((text_eq_iff a.verify_attempt_id id).0 (ground (arith, h)), ground (arith, h))

parts-selects :
    (id : Text) (guard : AttemptState → Bool) (a : VerifyAttempt)
    → a.verify_attempt_id ≡ id
    → guard a.state ≡ true
    → selects id guard a ≡ true
parts-selects id guard a e h = ground (arith, h, (text_eq_iff a.verify_attempt_id id).1 e)

startable_unsettled : (s : AttemptState) → is_startable s ≡ true → is_settled s ≡ false
unfolding is_startable
startable_unsettled s h = ground arith

running_unsettled : (s : AttemptState) → is_running s ≡ true → is_settled s ≡ false
unfolding is_running
running_unsettled s h = ground arith

open_unsettled : (s : AttemptState) → is_open s ≡ true → is_settled s ≡ false
unfolding is_open is_startable is_running
open_unsettled s h = ground arith

final_settled : {s : AttemptState} → IsFinal s → is_settled s ≡ true
final_settled is_green = refl
final_settled is_failed = refl
final_settled is_died = refl

run-SettledOnce :
    (db : VerifyDb) (id verify_run_id path : Text)
    → SettledOnce db
    → SettledOnce (record_running id verify_run_id path db).0
unfolding record_running
run-SettledOnce db id verify_run_id path once =
    update_where-IsSettledOnce (selects id is_startable) _ (λ a h. refl) db.verify_attempts
      db.settlements
      (λ a h. sym (startable_unsettled a.state (selects-parts id is_startable a h).1)) once

clear-SettledOnce :
    (db : VerifyDb) (id : Text) (terminated removed : Bool)
    → SettledOnce db
    → SettledOnce (clear_resources id terminated removed db)
unfolding clear_resources
clear-SettledOnce db id terminated removed once =
    update_where-IsSettledOnce (selects id is_retired) _ (λ a h. refl) db.verify_attempts
      db.settlements (λ a h. refl) once

with_item-attempt :
    (a : VerifyAttempt) (node : WorkNode) (plan : PlanRow) (item : Option VerifiedItem)
    (c : AttemptContext)
    → with_item a node plan item ≡ some c
    → c.attempt ≡ a
with_item-attempt a node plan none c h = cc
with_item-attempt a node plan (some item) c h = sym (some-field h)
  where
    some-field : {x y : AttemptContext} → some x ≡ some y → x.attempt ≡ y.attempt
    some-field e = cc

with_plan-attempt :
    (db : VerifyDb) (a : VerifyAttempt) (node : WorkNode) (plan : Option PlanRow)
    (c : AttemptContext)
    → with_plan db a node plan ≡ some c
    → c.attempt ≡ a
with_plan-attempt db a node none c h = cc
with_plan-attempt db a node (some plan) c h =
    with_item-attempt a node plan (item_of db plan.work_item_id) c h

with_node-attempt :
    (db : VerifyDb) (a : VerifyAttempt) (node : Option WorkNode) (c : AttemptContext)
    → with_node db a node ≡ some c
    → c.attempt ≡ a
with_node-attempt db a none c h = cc
with_node-attempt db a (some node) c h =
    with_plan-attempt db a node (plan_of db node.plan_revision_id) c h

with_attempt-mem :
    (db : VerifyDb) (id : Text) (found : Option VerifyAttempt) (c : AttemptContext)
    → find (λ a. a.verify_attempt_id == id) db.verify_attempts ≡ found
    → with_attempt db found ≡ some c
    → Memᴰ c.attempt db.verify_attempts
with_attempt-mem db id none c e h = cc
with_attempt-mem db id (some a) c e h =
    subst (λ v. Memᴰ v db.verify_attempts) (sym (with_node-attempt db a (node_of db a.node_id) c h))
      (find-mem (λ a. a.verify_attempt_id == id) db.verify_attempts e).0

-- A context is that of a row.
context-mem :
    (db : VerifyDb) (id : Text) (c : AttemptContext)
    → context db id ≡ some c
    → Memᴰ c.attempt db.verify_attempts
unfolding context
context-mem db id c h =
    with_attempt-mem db id (find (λ a. a.verify_attempt_id == id) db.verify_attempts) c refl h

module _ (redact : Text → Text) (settle : SettleInTransaction) where
  retire-SettledOnce :
      (db : VerifyDb) (work_item_id reason now : Text)
      → SettledOnce db
      → SettledOnce (retire_open_attempts redact settle work_item_id reason now db).0
  unfolding retire_open_attempts
  retire-SettledOnce db work_item_id reason now once =
      update_where-IsSettledOnce (λ a. is_open a.state && node_is_of db work_item_id a.node_id) _
        (λ a h. refl) db.verify_attempts db.settlements
        (λ a h. sym (open_unsettled a.state (ground (arith, h)))) once

  -- A settlement with the change of its row.
  settled-SettledOnce :
      (db db' : VerifyDb) (s : Settlement) (guard : AttemptState → Bool)
      (f : VerifyAttempt → VerifyAttempt) (x : VerifyAttempt)
      → ((a : VerifyAttempt) → (f a).verify_attempt_id ≡ a.verify_attempt_id)
      → ((a : VerifyAttempt) → guard a.state ≡ true → is_settled a.state ≡ false)
      → ((a : VerifyAttempt) → is_settled (f a).state ≡ true)
      → Memᴰ x db.verify_attempts
      → selects s.verify_attempt_id guard x ≡ true
      → run_settlement redact settle s (update_attempt s.verify_attempt_id guard f db) ≡ ok db'
      → SettledOnce db
      → SettledOnce db'
  settled-SettledOnce db db' s guard f x keeps unsettled settled mx px h once =
      ended db db' s guard f (settle s.node_id s.stage s.passed s.evidence db.work_nodes) h (
        settled-IsSettledOnce (selects s.verify_attempt_id guard) f (λ a q. keeps a)
          db.verify_attempts db.settlements s
          (λ a q.
            let parts = selects-parts s.verify_attempt_id guard a q in
            (parts.0, unsettled a parts.1, settled a))
          x mx px once)
    where
      ended :
          (db db' : VerifyDb) (s : Settlement) (guard : AttemptState → Bool)
          (f : VerifyAttempt → VerifyAttempt) (r : Result VerifyError (List WorkNode))
          → settled_by s (update_attempt s.verify_attempt_id guard f db) r ≡ ok db'
          → IsSettledOnce
              (update_where (selects s.verify_attempt_id guard) f db.verify_attempts)
              (s ∷ db.settlements)
          → SettledOnce db'
      ended db db' s guard f (err e) h new = err_is_not_ok h
      ended db db' s guard f (ok nodes) h new = subst (λ d. SettledOnce d) (ok-injective h) new

  finish-SettledOnce :
      (db db' : VerifyDb) (current : AttemptContext) (state : AttemptState) (checks : CheckOutcome)
      (detail : Text) (passed : Bool) (stored now : Text)
      → IsFinal state
      → finalize redact settle current state checks detail passed stored now db ≡ ok db'
      → SettledOnce db
      → SettledOnce db'
  unfolding finalize
  finish-SettledOnce db db' current state checks detail passed stored now final h once =
      let id = current.attempt.verify_attempt_id in
      elim (Bool-cases (nat_eq (tally (selects id is_running) db.verify_attempts) 1)) [
        | inl t ↦
            let (x, mx, px) =
              tally-mem (selects id is_running) db.verify_attempts ((nat_eq_iff _ 1).0 t) in
            settled-SettledOnce db db' (final_settlement redact settle current checks detail passed)
              is_running (finalized redact settle state checks stored now) x (λ a. refl)
              (λ a q. running_unsettled a.state q) (λ a. final_settled final) mx px (rw t at h) once
        | inr f ↦
            let few =
              tally-le (λ a. a.verify_attempt_id == id) (selects id is_running) db.verify_attempts
                (λ a q. ground (arith, q)) in
            let zero_rows : tally (selects id is_running) db.verify_attempts ≡ 0 =
              ground (arith, few, once.single id, f) in
            let same =
              update_where-none (selects id is_running)
                (finalized redact settle state checks stored now) db.verify_attempts zero_rows in
            let unchanged : update_attempt id is_running
                  (finalized redact settle state checks stored now) db
                ≡ db' =
              ok-injective (rw f at h) in
            subst (λ d. SettledOnce d) unchanged
              (subst (λ rs. IsSettledOnce rs db.settlements) (sym same) once)
      ]

  fail_start-SettledOnce :
      (db db' : VerifyDb) (c : AttemptContext) (path : Option Text) (safe_error now : Text)
      → Memᴰ c.attempt db.verify_attempts
      → is_startable c.attempt.state ≡ true
      → fail_start redact settle c path safe_error now db ≡ ok db'
      → SettledOnce db
      → SettledOnce db'
  unfolding fail_start
  fail_start-SettledOnce db db' c path safe_error now m startable h once =
      let id = c.attempt.verify_attempt_id in
      let detail =
        start_detail redact settle (suc (start_failure_count c.attempt.detail)) safe_error in
      elim (Bool-cases (ltb (suc (start_failure_count c.attempt.detail)) 2)) [
        | inl t ↦
            subst (λ d. SettledOnce d) (ok-injective (rw t at h))
              (update_where-IsSettledOnce (selects id is_startable) _ (λ a q. refl)
                db.verify_attempts db.settlements
                (λ a q. sym (startable_unsettled a.state (selects-parts id is_startable a q).1))
                once)
        | inr f ↦
            settled-SettledOnce db db' (start_settlement redact settle c detail safe_error)
              is_startable
              (λ a. record a {
                state = failed;
                workspace_path = path;
                detail = some detail;
                ended_at = some now;
              })
              c.attempt (λ a. refl) (λ a q. startable_unsettled a.state q) (λ a. refl) m
              (parts-selects id is_startable c.attempt refl startable) (rw f at h) once
      ]

  on_start_error-SettledOnce :
      (db db' : VerifyDb) (id : Text) (found : Option AttemptContext) (path : Option Text)
      (error now : Text)
      → context db id ≡ found
      → on_start_error redact settle found path error now db ≡ ok db'
      → SettledOnce db
      → SettledOnce db'
  on_start_error-SettledOnce db db' id none path error now e h once =
      subst (λ d. SettledOnce d) (ok-injective h) once
  on_start_error-SettledOnce db db' id (some c) path error now e h once =
      elim (Bool-cases (is_startable c.attempt.state)) [
        | inl t ↦
            fail_start-SettledOnce db db' c path _ now (context-mem db id c e) t (rw t at h) once
        | inr f ↦ subst (λ d. SettledOnce d) (ok-injective (rw f at h)) once
      ]

  start_error-SettledOnce :
      (db db' : VerifyDb) (id : Text) (path : Option Text) (error now : Text)
      → start_error redact settle id path error now db ≡ ok db'
      → SettledOnce db
      → SettledOnce db'
  unfolding start_error
  start_error-SettledOnce db db' id path error now h once =
      on_start_error-SettledOnce db db' id (context db id) path error now refl h once

  Step-SettledOnce :
      {db db' : VerifyDb} → Step redact settle db db' → SettledOnce db → SettledOnce db'
  Step-SettledOnce {db} {db'} (create node_id stage id now r fresh h) once =
      create-SettledOnce db db' node_id stage id now r fresh h once
  Step-SettledOnce {db} (run id verify_run_id path h) once =
      subst (λ d. SettledOnce d) h (run-SettledOnce db id verify_run_id path once)
  Step-SettledOnce {db} {db'} (fail id path error now h) once =
      start_error-SettledOnce db db' id path error now h once
  Step-SettledOnce {db} {db'} (finish current state checks detail passed stored now final h) once =
      finish-SettledOnce db db' current state checks detail passed stored now final h once
  Step-SettledOnce {db} (retire work_item_id reason now h) once =
      subst (λ d. SettledOnce d) h (retire-SettledOnce db work_item_id reason now once)
  Step-SettledOnce {db} (clear id terminated removed h) once =
      subst (λ d. SettledOnce d) h (clear-SettledOnce db id terminated removed once)

  -- Over any order of the transactions, from a database where it holds: an attempt that ended in a verdict
  -- (green, failed or died) has been settled with the workflow exactly once, and an attempt that is open
  -- or was retired has not been settled.
  pub Reach-SettledOnce :
      {db db' : VerifyDb} → Reach redact settle db db' → SettledOnce db → SettledOnce db'
  Reach-SettledOnce here once = once
  Reach-SettledOnce (next r s) once = Step-SettledOnce s (Reach-SettledOnce r once)
