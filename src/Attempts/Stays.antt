-- ===== src/Attempts/Stays.antt =====
-- src/server/task-board/collaborators/verify-attempts.ts: an attempt that ended in a verdict is not changed.
use nexus_seventeen.Prelude.{
  suc, ◌≡◌, inl, inr, sym, subst, Bool, true, false, ◌&&◌, Bool-cases, List, [], ◌∷◌, ◌++◌, Option,
  none, some, Text, tally, Result, ok, err, ok-injective, nat_eq, ltb, eq_text, arith,
  err_is_not_ok,
}
use mathlib.Core.List.{Memᴰ}
use nexus_seventeen.Contract.{WorkItemStage, eq_stage}
use nexus_seventeen.Attempts.Rows.{
  AttemptState, VerifyAttempt, WorkNode, Settlement, VerifyDb, AttemptContext, is_startable,
  is_running, is_retired, is_open, node_is_of, context, node_of,
}
use nexus_seventeen.Attempts.Checks.{CheckOutcome}
use nexus_seventeen.Attempts.Failures.{start_failure_count}
use nexus_seventeen.Attempts.Writes.{
  StartingResult, VerifyError, SettleInTransaction, selects, update_attempt, settled_by,
  create_starting_attempt, record_running, start_error, on_start_error, fail_start, finalize,
  retire_open_attempts, clear_resources,
}
use nexus_seventeen.Attempts.Steps.{
  Step, create, run, fail, finish, retire, clear, Reach, here, next,
}
use nexus_seventeen.Attempts.Settled.{is_settled, mem-update_where}
use nexus_seventeen.Attempts.Created.{for_node-Creates}

append-left : {A : Type 0} (xs ys : List A) {x : A} → Memᴰ x xs → Memᴰ x (xs ++ ys)
append-left [] ys m = elim m [ ]
append-left (z ∷ xs) ys (Memᴰ.head e) = Memᴰ.head e
append-left (z ∷ xs) ys (Memᴰ.tail m) = Memᴰ.tail (append-left xs ys m)

not_startable : (s : AttemptState) → is_settled s ≡ true → is_startable s ≡ false
unfolding is_startable
not_startable s h = ground arith

not_running : (s : AttemptState) → is_settled s ≡ true → is_running s ≡ false
unfolding is_running
not_running s h = ground arith

not_retired : (s : AttemptState) → is_settled s ≡ true → is_retired s ≡ false
unfolding is_retired
not_retired s h = ground arith

not_open : (s : AttemptState) → is_settled s ≡ true → is_open s ≡ false
unfolding is_open is_startable is_running
not_open s h = ground arith

-- An `UPDATE` of rows in other states.
unselected :
    (db : VerifyDb) (id : Text) (guard : AttemptState → Bool) (f : VerifyAttempt → VerifyAttempt)
    (a : VerifyAttempt)
    → guard a.state ≡ false
    → Memᴰ a db.verify_attempts
    → Memᴰ a (update_attempt id guard f db).verify_attempts
unselected db id guard f a out m =
    mem-update_where (selects id guard) f db.verify_attempts m (ground (arith, out))

module _ (redact : Text → Text) (settle : SettleInTransaction) (a : VerifyAttempt)
    (settled : is_settled a.state ≡ true) where
  abbrev In : VerifyDb → Type 0
  In db = Memᴰ a db.verify_attempts

  settled_by-In :
      (s : Settlement) (db db' : VerifyDb) (r : Result VerifyError (List WorkNode))
      → settled_by s db r ≡ ok db'
      → In db
      → In db'
  settled_by-In s db db' (err e) h m = err_is_not_ok h
  settled_by-In s db db' (ok nodes) h m = subst (λ d. In d) (ok-injective h) m

  fail_start-In :
      (db db' : VerifyDb) (c : AttemptContext) (path : Option Text) (safe_error now : Text)
      → fail_start redact settle c path safe_error now db ≡ ok db'
      → In db
      → In db'
  unfolding fail_start
  fail_start-In db db' c path safe_error now h m =
      let out = not_startable a.state settled in
      let id = c.attempt.verify_attempt_id in
      elim (Bool-cases (ltb (suc (start_failure_count c.attempt.detail)) 2)) [
        | inl t ↦
            subst (λ d. In d) (ok-injective (rw t at h)) (unselected db id is_startable _ a out m)
        | inr f ↦
            settled_by-In _ (update_attempt id is_startable _ db) db' _ (rw f at h)
              (unselected db id is_startable _ a out m)
      ]

  on_start_error-In :
      (db db' : VerifyDb) (found : Option AttemptContext) (path : Option Text) (error now : Text)
      → on_start_error redact settle found path error now db ≡ ok db'
      → In db
      → In db'
  on_start_error-In db db' none path error now h m = subst (λ d. In d) (ok-injective h) m
  on_start_error-In db db' (some c) path error now h m =
      elim (Bool-cases (is_startable c.attempt.state)) [
        | inl t ↦ fail_start-In db db' c path _ now (rw t at h) m
        | inr f ↦ subst (λ d. In d) (ok-injective (rw f at h)) m
      ]

  finalize-In :
      (db db' : VerifyDb) (current : AttemptContext) (state : AttemptState) (checks : CheckOutcome)
      (detail : Text) (passed : Bool) (stored now : Text)
      → finalize redact settle current state checks detail passed stored now db ≡ ok db'
      → In db
      → In db'
  unfolding finalize
  finalize-In db db' current state checks detail passed stored now h m =
      let id = current.attempt.verify_attempt_id in
      let out = not_running a.state settled in
      elim (Bool-cases (nat_eq (tally (selects id is_running) db.verify_attempts) 1)) [
        | inl t ↦
            settled_by-In _ (update_attempt id is_running _ db) db' _ (rw t at h)
              (unselected db id is_running _ a out m)
        | inr f ↦
            subst (λ d. In d) (ok-injective (rw f at h)) (unselected db id is_running _ a out m)
      ]

  create-In :
      (db db' : VerifyDb) (node_id : Text) (stage : WorkItemStage) (id now : Text)
      (r : StartingResult)
      → create_starting_attempt db node_id stage id now ≡ ok (db', r)
      → In db
      → In db'
  unfolding create_starting_attempt
  create-In db db' node_id stage id now r h m =
      let (settlements, rows) = for_node-Creates db db' id (node_of db node_id) stage now r h in
      elim rows [
        | inl same ↦ subst (λ rs. Memᴰ a rs) (sym same) m
        | inr (n, named, starts, appended) ↦
            subst (λ rs. Memᴰ a rs) (sym appended) (append-left db.verify_attempts (n ∷ []) m)
      ]

  Step-In : {db db' : VerifyDb} → Step redact settle db db' → In db → In db'
  unfolding record_running start_error retire_open_attempts clear_resources
  Step-In {db} {db'} (create node_id stage id now r fresh h) m =
      create-In db db' node_id stage id now r h m
  Step-In {db} (run id verify_run_id path h) m =
      subst (λ d. In d) h (unselected db id is_startable _ a (not_startable a.state settled) m)
  Step-In {db} {db'} (fail id path error now h) m =
      on_start_error-In db db' (context db id) path error now h m
  Step-In {db} {db'} (finish current state checks detail passed stored now final h) m =
      finalize-In db db' current state checks detail passed stored now h m
  Step-In {db} (retire work_item_id reason now h) m =
      subst (λ d. In d) h
        (mem-update_where (λ v. is_open v.state && node_is_of db work_item_id v.node_id) _
          db.verify_attempts m (ground (arith, not_open a.state settled)))
  Step-In {db} (clear id terminated removed h) m =
      subst (λ d. In d) h (unselected db id is_retired _ a (not_retired a.state settled) m)

  -- An attempt that ended in a verdict keeps its whole row, over any order of the transactions.
  pub Reach-verdict_stays :
      {db db' : VerifyDb}
      → Reach redact settle db db'
      → Memᴰ a db.verify_attempts
      → Memᴰ a db'.verify_attempts
  Reach-verdict_stays here m = m
  Reach-verdict_stays (next r s) m = Step-In s (Reach-verdict_stays r m)
