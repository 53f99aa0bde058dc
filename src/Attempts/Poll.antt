-- ===== src/Attempts/Poll.antt =====
-- src/server/task-board/collaborators/verify-attempts.ts: `#poll`, by what the verifying process, the
-- checks and git answer while it waits.
use nexus_seventeen.Prelude.{
  ℕ, Bool, true, false, not, ◌&&◌, ◌||◌, List, [], ◌∷◌, ◌++◌, Option, none, some, Text, lit, length,
  trim, is_nil, nat_eq, if◌then◌else◌, Result, ok, err,
}
use nexus_seventeen.Merge.{is_git_object_id}
use nexus_seventeen.Redact.{redact_for_persistence}
use nexus_seventeen.Attempts.Rows.{AttemptState, green, failed, died, AttemptContext}
use nexus_seventeen.Attempts.Checks.{CheckTurn, CheckOutcome, clean_to, run_checks}

pub data RunState : Type 0 where
  run_running run_failed run_died run_green : RunState

-- What is met at each wait. A thrown error is its message.
pub record PollWorld : Type 0 where
  pub status : Result Text RunState
  pub closed_after_status : Bool
  pub tail : Result Text Text
  pub closed_after_tail : Bool
  pub turn : ℕ → CheckTurn
  pub closed_after_checks : Bool
  pub running_after_checks : Bool
  pub head : Result Text Text

-- The arguments of the call of `#finalize`.
pub record Verdict : Type 0 where
  pub state : AttemptState
  pub checks : CheckOutcome
  pub detail : Text
  pub passed : Bool
  pub stored_detail : Text

abbrev pub failure_verdict : AttemptState → Text → Verdict
failure_verdict state detail = record {
  state = state;
  checks = record { results = []; failures = detail ∷ []; failure_details_by_index = [] };
  detail = detail;
  passed = false;
  stored_detail = detail;
}

abbrev pub join : Text → List Text → Text
join separator [] = []
join separator (part ∷ []) = part
join separator (part ∷ next ∷ parts) = part ++ separator ++ join separator (next ∷ parts)

module _ (redact_recognized_credentials : Text → Text) where
  abbrev pub error_detail : Text → Text
  error_detail error = clean_to redact_recognized_credentials 4000 error

  abbrev pub status_detail : Text → Result Text Text → Text
  status_detail error (ok tail) =
      if is_nil tail
      then lit "Machine verify status failed: " ++ error_detail error
      else lit "Machine verify status failed: " ++ error_detail error ++ 10 ∷ tail
  status_detail error (err tail_error) =
      lit "Machine verify status failed: "
      ++ error_detail error
      ++ lit "; verify log tail failed: "
      ++ error_detail tail_error

  abbrev pub tail_detail : Result Text Text → Text
  tail_detail (ok tail) = tail
  tail_detail (err error) = lit "Could not read verify log tail: " ++ error_detail error

  abbrev pub unless_closed : Bool → Verdict → Option Verdict
  unless_closed true verdict = none
  unless_closed false verdict = some verdict

  abbrev pub no_tip : Text → Verdict
  no_tip error =
      failure_verdict died
        (lit "Machine verify could not record the verified branch tip: " ++ error_detail error)

  abbrev pub tip_verdict : CheckOutcome → Result Text Text → Verdict
  tip_verdict checks (err error) = no_tip error
  tip_verdict checks (ok output) =
      if is_git_object_id (trim output) && nat_eq (length (trim output)) 40
      then record {
        state = green;
        checks = checks;
        detail = lit "Machine verify and criterion checks passed.";
        passed = true;
        stored_detail = lit "verified-sha:" ++ trim output;
      }
      else no_tip (lit "git returned an invalid verified object id")

  abbrev pub checks_verdict : CheckOutcome → Result Text Text → Verdict
  checks_verdict checks head =
      let detail =
        clean_to redact_recognized_credentials 4000
          (lit "Machine verify criterion checks failed: " ++ join (lit "; ") checks.failures) in
      if is_nil checks.failures then tip_verdict checks head else record {
        state = failed;
        checks = checks;
        detail = detail;
        passed = false;
        stored_detail = detail;
      }

  -- The part behind a green run.
  unfoldable pub on_green : AttemptContext → PollWorld → Option Verdict
  unfolding run_checks is_nil trim is_git_object_id lit
  on_green current world =
      if world.closed_after_checks || not world.running_after_checks
      then none
      else some (
          checks_verdict
            (run_checks redact_recognized_credentials world.turn current.attempt.workspace_path
              current.criterion_checks)
            world.head)

  abbrev pub on_status : AttemptContext → PollWorld → Result Text RunState → Option Verdict
  on_status current world (err error) =
      unless_closed world.closed_after_tail (failure_verdict died (status_detail error world.tail))
  on_status current world (ok run_running) = none
  on_status current world (ok run_failed) =
      unless_closed world.closed_after_tail (failure_verdict failed (tail_detail world.tail))
  on_status current world (ok run_died) =
      unless_closed world.closed_after_tail (failure_verdict died (tail_detail world.tail))
  on_status current world (ok run_green) = on_green current world

  abbrev pub on_identity : AttemptContext → PollWorld → Option Text → Option Text → Option Verdict
  on_identity current world (some verify_run_id) (some workspace_path) =
      if world.closed_after_status then none else on_status current world world.status
  on_identity current world none workspace_path =
      some (failure_verdict died (lit "Machine verify lost its durable run identity."))
  on_identity current world (some verify_run_id) none =
      some (failure_verdict died (lit "Machine verify lost its durable run identity."))

  -- `#poll`, with no verdict where it returns without a call of `#finalize`.
  unfoldable pub poll : AttemptContext → PollWorld → Option Verdict
  unfolding on_green is_nil lit redact_for_persistence
  poll current world =
      on_identity current world current.attempt.verify_run_id current.attempt.workspace_path
