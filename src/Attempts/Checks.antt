-- ===== src/Attempts/Checks.antt =====
-- src/server/task-board/collaborators/verify-attempts.ts: `#runChecks`, the redaction of its outcome, and
-- the evidence that `#finalize` hands to the workflow.
use nexus_seventeen.Prelude.{
  ℕ, suc, Bool, true, false, ◌||◌, List, [], ◌∷◌, ◌++◌, map, Option, none, some, Text, lit,
  if◌then◌else◌, Result, ok, err,
}
use nexus_seventeen.Redact.{redact_for_persistence}
use nexus_seventeen.Attempts.Rows.{
  CheckResult, PlanCriterionCheck, CriterionResult, MachineVerifyEvidence,
}

pub record CriterionCheckExecution : Type 0 where
  pub passed : Bool
  pub detail : Text

-- What happens around the execution of a check: whether the loop breaks before it and behind it, which
-- shutdown and retirement decide, and what the execution gives or throws.
pub record CheckTurn : Type 0 where
  pub stopped_before : Bool
  pub execution : Result Text CriterionCheckExecution
  pub stopped_after : Bool

pub record CheckOutcome : Type 0 where
  pub results : List CheckResult
  pub failures : List Text
  pub failure_details_by_index : List (Option Text)

abbrev pub no_outcome : CheckOutcome
no_outcome = record { results = []; failures = []; failure_details_by_index = [] }

module _ (redact_recognized_credentials : Text → Text) where
  abbrev pub clean : Text → Text
  clean text = redact_for_persistence redact_recognized_credentials text none

  abbrev pub clean_to : ℕ → Text → Text
  clean_to limit text = redact_for_persistence redact_recognized_credentials text (some limit)

  -- `errorDetail`, whose result stands for the caught error.
  abbrev pub execution_of : Result Text CriterionCheckExecution → CriterionCheckExecution
  execution_of (ok execution) = execution
  execution_of (err error) = record { passed = false; detail = clean_to 4000 error }

  abbrev pub failure_of : PlanCriterionCheck → CriterionCheckExecution → Option Text
  failure_of check execution =
      if execution.passed
      then none
      else some (clean check.criterion ++ lit ": " ++ clean_to 2000 execution.detail)

  abbrev pub with_failure_of : Option Text → List Text → List Text
  with_failure_of none failures = failures
  with_failure_of (some failure) failures = failures ++ failure ∷ []

  abbrev pub with_result :
      PlanCriterionCheck → CriterionCheckExecution → CheckOutcome → CheckOutcome
  with_result check execution o = record {
    results =
        o.results
        ++ record {
          criterion = clean check.criterion;
          check = clean check.check;
          passed = execution.passed;
        }
          ∷ [];
    failures = with_failure_of (failure_of check execution) o.failures;
    failure_details_by_index = o.failure_details_by_index ++ failure_of check execution ∷ [];
  }

  -- The loop of `#runChecks` from the check of index `i` on.
  unfoldable pub run_checks_from :
      (ℕ → CheckTurn) → ℕ → List PlanCriterionCheck → CheckOutcome → CheckOutcome
  run_checks_from turn i [] o = o
  run_checks_from turn i (check ∷ checks) o =
      let rest =
        run_checks_from turn (suc i) checks
          (with_result check (execution_of (turn i).execution) o) in
      if (turn i).stopped_before || (turn i).stopped_after then o else rest

  -- `#runChecks`, in a workspace or without one.
  unfoldable pub run_checks : (ℕ → CheckTurn) → Option Text → List PlanCriterionCheck → CheckOutcome
  unfolding run_checks_from
  run_checks turn none checks = no_outcome
  run_checks turn (some workspace_path) checks = run_checks_from turn 0 checks no_outcome

  abbrev pub clean_result : CheckResult → CheckResult
  clean_result r = record {
    criterion = clean r.criterion;
    check = clean r.check;
    passed = r.passed;
  }

  abbrev pub clean_failure : Option Text → Option Text
  clean_failure none = none
  clean_failure (some failure) = some (clean failure)

  -- `redactedCheckOutcome`
  unfoldable pub redacted_check_outcome : CheckOutcome → CheckOutcome
  redacted_check_outcome o = record {
    results = map clean_result o.results;
    failures = map clean o.failures;
    failure_details_by_index = map clean_failure o.failure_details_by_index;
  }

  -- The entries of two lists at an index that may lie beyond them.
  abbrev pub passed_first : List CheckResult → Bool
  passed_first [] = false
  passed_first (r ∷ results) = r.passed

  abbrev pub detail_first : List (Option Text) → Option Text
  detail_first [] = none
  detail_first (d ∷ details) = d

  abbrev pub rest_of {ℓ} : {A : Type ℓ} → List A → List A
  rest_of [] = []
  rest_of (x ∷ xs) = xs

  abbrev pub evidence_of : PlanCriterionCheck → Bool → Option Text → Text
  evidence_of check true detail = lit "Passed: " ++ clean check.check
  evidence_of check false (some failure) = failure
  evidence_of check false none = lit "Failed: " ++ clean check.check

  unfoldable pub criterion_results :
      List PlanCriterionCheck → List CheckResult → List (Option Text) → List CriterionResult
  unfolding lit
  criterion_results [] results details = []
  criterion_results (check ∷ checks) results details =
      record {
        criterion = clean check.criterion;
        passed = passed_first results;
        evidence = evidence_of check (passed_first results) (detail_first details);
      }
      ∷ criterion_results checks (rest_of results) (rest_of details)

  unfoldable pub evidence :
      List PlanCriterionCheck → CheckOutcome → Text → Bool → MachineVerifyEvidence
  unfolding redacted_check_outcome criterion_results
  evidence checks outcome detail passed =
      let safe = redacted_check_outcome outcome in
      record {
        summary = clean_to 4000 detail;
        evidence = clean_to 4000 detail ∷ [];
        acceptance_criteria = criterion_results checks safe.results safe.failure_details_by_index;
        blockers = if passed then [] else safe.failures;
      }
