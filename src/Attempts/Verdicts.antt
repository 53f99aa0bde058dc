-- ===== src/Attempts/Verdicts.antt =====
-- src/server/task-board/collaborators/verify-attempts.ts: what a green verdict takes.
use nexus_seventeen.Prelude.{
  some_injective, ℕ, suc, ◌≡◌, ◌⊎◌, inl, inr, refl, sym, ap, ◌∙◌, subst, Bool, true, false, not,
  ◌&&◌, ◌||◌, Bool-cases, List, [], ◌∷◌, ◌++◌, map, Option, none, some, Text, trim, length, All,
  is_nil, nat_eq, Result, ok, err, arith,
}
use nexus_seventeen.Merge.{is_git_object_id}
use nexus_seventeen.Attempts.Rows.{
  AttemptState, green, failed, died, CheckResult, CriterionResult, PlanCriterionCheck,
  AttemptContext,
}
use nexus_seventeen.Attempts.Checks.{
  CheckTurn, CheckOutcome, CriterionCheckExecution, no_outcome, execution_of, failure_of,
  with_failure_of, with_result, run_checks_from, run_checks, clean, rest_of, clean_result,
  clean_failure, redacted_check_outcome, criterion_results, evidence,
}
use nexus_seventeen.Attempts.Poll.{
  RunState, PollWorld, Verdict, poll, on_green, on_status, on_identity, checks_verdict, tip_verdict,
  unless_closed, failure_verdict, run_running, run_failed, run_died, run_green,
}

-- A passed result for each check, in order.
abbrev Covers : List PlanCriterionCheck → List CheckResult → Type 0
Covers [] rs = Unit
Covers (c ∷ cs) [] = ⊥
Covers (c ∷ cs) (r ∷ rs) = (r.passed ≡ true) × Covers cs rs

append_nil : (xs : List CheckResult) → xs ++ [] ≡ xs
append_nil [] = refl
append_nil (x ∷ xs) = rw (append_nil xs)

append_assoc : (xs ys zs : List CheckResult) → (xs ++ ys) ++ zs ≡ xs ++ (ys ++ zs)
append_assoc [] ys zs = refl
append_assoc (x ∷ xs) ys zs = rw (append_assoc xs ys zs)

append_not_nil : (xs : List Text) (x : Text) → xs ++ x ∷ [] ≡ [] → ⊥
append_not_nil [] x h = cc
append_not_nil (y ∷ ys) x h = cc

module _ (redact : Text → Text) (turn : ℕ → CheckTurn)
    (unstopped : (i : ℕ) → ((turn i).stopped_before || (turn i).stopped_after) ≡ false) where
  abbrev execution : ℕ → CriterionCheckExecution
  execution i = execution_of redact (turn i).execution

  -- Failures are only added.
  failures_kept :
      (i : ℕ) (checks : List PlanCriterionCheck) (o : CheckOutcome)
      → (run_checks_from redact turn i checks o).failures ≡ []
      → o.failures ≡ []
  unfolding run_checks_from
  failures_kept i [] o h = h
  failures_kept i (check ∷ checks) o h =
      before_failure (failure_of redact check (execution i)) o.failures (
        failures_kept (suc i) checks (with_result redact check (execution i) o)
          (rw (run_checks_from, unstopped i) at h))
    where
      before_failure :
          (f : Option Text) (failures : List Text)
          → with_failure_of redact f failures ≡ []
          → failures ≡ []
      before_failure none failures h = h
      before_failure (some f) [] h = cc
      before_failure (some f) (x ∷ failures) h = cc

  run_checks_from-Covers :
      (i : ℕ) (checks : List PlanCriterionCheck) (o : CheckOutcome)
      → (run_checks_from redact turn i checks o).failures ≡ []
      → (rs : List CheckResult) × ((run_checks_from redact turn i checks o).results
          ≡ o.results ++ rs)
        × Covers checks rs
  unfolding run_checks_from
  run_checks_from-Covers i [] o h = ([], sym (append_nil o.results), tt)
  run_checks_from-Covers i (check ∷ checks) o h =
      let more = with_result redact check (execution i) o in
      let rest_fails = rw (run_checks_from, unstopped i) at h in
      let (rs, results, covers) = run_checks_from-Covers (suc i) checks more rest_fails in
      let passes : (execution i).passed ≡ true =
        passing (execution i) check o.failures (failures_kept (suc i) checks more rest_fails) in
      (
        result_of check (execution i) ∷ rs,
        rw (run_checks_from, unstopped i)
            (results ∙ append_assoc o.results (result_of check (execution i) ∷ []) rs),
        (passes, covers),
      )
    where
      result_of : PlanCriterionCheck → CriterionCheckExecution → CheckResult
      result_of check e = record {
        criterion = clean redact check.criterion;
        check = clean redact check.check;
        passed = e.passed;
      }

      passing :
          (e : CriterionCheckExecution) (check : PlanCriterionCheck) (failures : List Text)
          → with_failure_of redact (failure_of redact check e) failures ≡ []
          → e.passed ≡ true
      passing e check failures h = elim (Bool-cases e.passed) [
        | inl t ↦ t
        | inr f ↦ absurd (append_not_nil failures _ (rw f at h))
      ]

module _ (redact : Text → Text) where
  criterion_results-passed :
      (checks : List PlanCriterionCheck) (rs : List CheckResult) (details : List (Option Text))
      → Covers checks rs
      → All
          (λ (r : CriterionResult). r.passed ≡ true)
          (criterion_results redact checks (map (clean_result redact) rs) details)
  unfolding criterion_results
  criterion_results-passed [] rs details h = tt
  criterion_results-passed (c ∷ cs) [] details h = elim h [ ]
  criterion_results-passed (c ∷ cs) (r ∷ rs) details h =
      (h.0, criterion_results-passed cs rs (rest_of redact details) h.1)

nil_of_is_nil : (xs : List Text) → is_nil xs ≡ true → xs ≡ []
unfolding is_nil
nil_of_is_nil [] h = refl
nil_of_is_nil (x ∷ xs) h = cc

-- A loop over the checks breaks only where the board shuts down or the attempt is no longer running.
abbrev pub Explained : PollWorld → Type 0
Explained world =
    (i : ℕ)
    → ((world.turn i).stopped_before || (world.turn i).stopped_after) ≡ true
    → (world.closed_after_checks ≡ true) ⊎ (world.running_after_checks ≡ false)

-- What stands behind a green verdict.
pub record IsEarned (redact : Text → Text) (current : AttemptContext) (world : PollWorld)
    (v : Verdict) : Type 0 where
  pub passed : v.passed ≡ true
  pub criteria :
      All
        (λ (r : CriterionResult). r.passed ≡ true)
        (evidence redact current.criterion_checks v.checks v.detail v.passed).acceptance_criteria
  pub run : world.status ≡ ok run_green
  pub tip : (output : Text) × (world.head ≡ ok output) × (is_git_object_id (trim output) ≡ true)

module _ (redact : Text → Text) (current : AttemptContext) (world : PollWorld) (v : Verdict)
    (is_so : v.state ≡ green) where
  not_green :
      (state : AttemptState) (detail : Text)
      → (state ≡ green → ⊥)
      → failure_verdict state detail ≡ v
      → ⊥
  not_green state detail other h = other (ap (λ (w : Verdict). w.state) h ∙ is_so)

  tip_verdict-green :
      (checks : CheckOutcome) (head : Result Text Text)
      → tip_verdict redact checks head ≡ v
      → (v.passed ≡ true)
        × (v.checks ≡ checks)
        × ((output : Text) × (head ≡ ok output) × (is_git_object_id (trim output) ≡ true))
  tip_verdict-green checks (err error) h = absurd (not_green died _ (λ e. cc) h)
  tip_verdict-green checks (ok output) h =
      elim (Bool-cases (is_git_object_id (trim output) && nat_eq (length (trim output)) 40)) [
        | inl t ↦
            let made = rw t at h in
            (
              ap (λ (w : Verdict). w.passed) (sym made),
              ap (λ (w : Verdict). w.checks) (sym made),
              (output, refl, ground (arith, t)),
            )
        | inr f ↦ absurd (not_green died _ (λ e. cc) (rw f at h))
      ]

  checks_verdict-green :
      (checks : CheckOutcome)
      → checks_verdict redact checks world.head ≡ v
      → (checks.failures ≡ [])
        × (v.passed ≡ true)
        × (v.checks ≡ checks)
        × ((output : Text) × (world.head ≡ ok output) × (is_git_object_id (trim output) ≡ true))
  checks_verdict-green checks h = elim (Bool-cases (is_nil checks.failures)) [
    | inl t ↦
        let (passed, same, tip) = tip_verdict-green checks world.head (rw t at h) in
        (nil_of_is_nil checks.failures t, passed, same, tip)
    | inr f ↦
        let wrong : failed ≡ v.state = ap (λ (w : Verdict). w.state) (rw f at h) in
        absurd (let clash : failed ≡ green = wrong ∙ is_so in cc)
  ]

  unless_closed-not_green :
      (closed : Bool) (state : AttemptState) (detail : Text)
      → (state ≡ green → ⊥)
      → unless_closed redact closed (failure_verdict state detail) ≡ some v
      → ⊥
  unless_closed-not_green true state detail other h = cc
  unless_closed-not_green false state detail other h =
      not_green state detail other (some_injective h)

  green_criteria :
      {checks : CheckOutcome}
      → v.checks ≡ checks
      → Covers current.criterion_checks checks.results
      → All
          (λ (r : CriterionResult). r.passed ≡ true)
          (evidence redact current.criterion_checks v.checks v.detail v.passed).acceptance_criteria
  unfolding evidence redacted_check_outcome
  green_criteria {checks} same covers = rw same (
      criterion_results-passed redact current.criterion_checks checks.results
        (map (clean_failure redact) checks.failure_details_by_index) covers)

  module _ (explained : Explained world) where
    unstopped :
        world.closed_after_checks ≡ false
        → world.running_after_checks ≡ true
        → (i : ℕ) → ((world.turn i).stopped_before || (world.turn i).stopped_after) ≡ false
    unstopped c r i =
        elim (Bool-cases ((world.turn i).stopped_before || (world.turn i).stopped_after)) [
          | inl t ↦ elim (explained i t) [ inl x ↦ cc | inr y ↦ cc ]
          | inr f ↦ f
        ]

    run_checks-Covers :
        (path : Option Text) (checks : List PlanCriterionCheck)
        → ((i : ℕ) → ((world.turn i).stopped_before || (world.turn i).stopped_after) ≡ false)
        → (path ≡ none → ⊥)
        → (run_checks redact world.turn path checks).failures ≡ []
        → Covers checks (run_checks redact world.turn path checks).results
    unfolding run_checks
    run_checks-Covers none checks free given h = absurd (given refl)
    run_checks-Covers (some path) checks free given h =
        let (rs, results, covers) =
          run_checks_from-Covers redact world.turn free 0 checks no_outcome h in
        subst (λ xs. Covers checks xs) (sym results) covers

    on_green-IsEarned :
        (current.attempt.workspace_path ≡ none → ⊥)
        → world.status ≡ ok run_green
        → on_green redact current world ≡ some v
        → IsEarned redact current world v
    unfolding on_green
    on_green-IsEarned given run h =
        elim (Bool-cases (world.closed_after_checks || not world.running_after_checks)) [
          | inl t ↦ let no : ◌≡◌ {A = Option Verdict} none (some v) = rw (on_green, t) at h in cc
          | inr f ↦
              let checks =
                run_checks redact world.turn current.attempt.workspace_path
                  current.criterion_checks in
              let (clean_run, passed, same, tip) =
                checks_verdict-green checks (some_injective (rw (on_green, f) at h)) in
              let covers =
                run_checks-Covers current.attempt.workspace_path current.criterion_checks
                  (unstopped (ground (arith, f)) (ground (arith, f))) given clean_run in
              record {
                passed = passed;
                criteria = green_criteria same covers;
                run = run;
                tip = tip;
              }
        ]

    on_status-IsEarned :
        (current.attempt.workspace_path ≡ none → ⊥)
        → (status : Result Text RunState) → world.status ≡ status
        → on_status redact current world status ≡ some v
        → IsEarned redact current world v
    on_status-IsEarned given (err error) e h =
        absurd (unless_closed-not_green world.closed_after_tail died _ (λ q. cc) h)
    on_status-IsEarned given (ok run_running) e h = cc
    on_status-IsEarned given (ok run_failed) e h =
        absurd (unless_closed-not_green world.closed_after_tail failed _ (λ q. cc) h)
    on_status-IsEarned given (ok run_died) e h =
        absurd (unless_closed-not_green world.closed_after_tail died _ (λ q. cc) h)
    on_status-IsEarned given (ok run_green) e h = on_green-IsEarned given e h

    on_identity-IsEarned :
        (id path : Option Text)
        → current.attempt.workspace_path ≡ path
        → on_identity redact current world id path ≡ some v
        → IsEarned redact current world v
    unfolding on_green
    on_identity-IsEarned none path e h = absurd (not_green died _ (λ q. cc) (some_injective h))
    on_identity-IsEarned (some id) none e h = absurd (not_green died _ (λ q. cc) (some_injective h))
    on_identity-IsEarned (some id) (some path) e h = elim (Bool-cases world.closed_after_status) [
      | inl t ↦ let no : ◌≡◌ {A = Option Verdict} none (some v) = rw t at h in cc
      | inr f ↦
          on_status-IsEarned
            (λ missing. let no : ◌≡◌ {A = Option Text} none (some path) = sym missing ∙ e in cc)
            world.status refl (rw f at h)
    ]

    -- A poll gives a green verdict only where the verifying process reported green, every criterion of the
    -- plan is noted as passed, and git named the tip that was verified; the loop over the checks is taken
    -- to break only where the board shuts down or the attempt has stopped running.
    pub poll-IsEarned : poll redact current world ≡ some v → IsEarned redact current world v
    unfolding poll
    poll-IsEarned h =
        on_identity-IsEarned current.attempt.verify_run_id current.attempt.workspace_path refl h
