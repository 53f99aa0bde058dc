-- ===== src/Workflow/Handoffs.antt =====
-- src/server/task-board/persistence/workflow.ts: what the settlement of an attempt checks and records before it
-- moves the node: the findings of a review, the scope of the change, and the handoff.
use nexus_seventeen.Prelude.{
  ℕ, suc, Bool, true, false, not, ◌&&◌, ◌||◌, List, [], ◌∷◌, ◌++◌, map, Option, none, some, Text,
  lit, any, all, take, starts_with, duplicate_free, ltb, if◌then◌else◌, Result, ◌>>◌, throw_if,
  ◌==◌, eq_text,
}
use nexus_seventeen.Contract.{
  WorkItemStage, implementation, verification, eq_stage, ReviewFindingCategory,
  review_finding_blocks,
}
use nexus_seventeen.Redact.{redact_for_persistence}
use nexus_seventeen.Attempts.Rows.{CriterionResult}
use nexus_seventeen.Attempts.Failures.{decimal}
use nexus_seventeen.Attempts.Checks.{clean}
use nexus_seventeen.Attempts.Poll.{join}
use nexus_seventeen.Workflow.Rows.{
  FlowDb, SettledAttempt, HandoffOutcome, passed, failed, needs_input, StageHandoff, FindingRow,
  WorkflowError, handoff_outcome_mismatch, handoff_artifact_invalid, review_findings_not_allowed,
  review_outcome_mismatch, review_findings_required,
}

pub record StageHandoffDraft : Type 0 where
  pub outcome : HandoffOutcome
  pub summary : Text
  pub evidence : List Text
  pub artifact_ids : List Text
  pub acceptance_criteria : List CriterionResult
  pub blockers : List Text
  pub recommended_return_stage : Option WorkItemStage

pub record ReviewFindingDraft : Type 0 where
  pub file : Option Text
  pub line : Option ℕ
  pub category : ReviewFindingCategory
  pub severity : Text
  pub expected : Text
  pub actual : Text

pub data RunOutcome : Type 0 where
  run_completed run_failed run_interrupted : RunOutcome

pub data ScopeCheck : Type 0 where
  scope_ok : ScopeCheck
  scope_files : List Text → ScopeCheck
  scope_error : Text → ScopeCheck

-- The arguments of `settleAttemptInternal`, with the time of the call.
pub record AttemptSettlement : Type 0 where
  pub outcome : RunOutcome
  pub result : Text
  pub draft : Option StageHandoffDraft
  pub review_findings : Option (List ReviewFindingDraft)
  pub scope_check : Option ScopeCheck
  pub now : Text

abbrev pub has_passed : AttemptSettlement → Bool
has_passed s = elim s.outcome [
  | run_completed ↦ true
  | run_failed ↦ false
  | run_interrupted ↦ false
]

abbrev pub has_failed : AttemptSettlement → Bool
has_failed s = elim s.outcome [
  | run_completed ↦ false
  | run_failed ↦ true
  | run_interrupted ↦ false
]

abbrev pub is_passed : HandoffOutcome → Bool
is_passed outcome = elim outcome [ passed ↦ true | failed ↦ false | needs_input ↦ false ]

abbrev pub is_needs_input : HandoffOutcome → Bool
is_needs_input outcome = elim outcome [ passed ↦ false | failed ↦ false | needs_input ↦ true ]

abbrev pub is_given {ℓ} : {A : Type ℓ} → Option A → Bool
is_given none = false
is_given (some a) = true

-- The tests on the draft of the handoff.
abbrev pub contradicts : Bool → Option StageHandoffDraft → Bool
contradicts settled none = false
contradicts settled (some draft) =
    settled && not (is_passed draft.outcome) || not settled && is_passed draft.outcome

abbrev pub drafted_artifacts : Option StageHandoffDraft → List Text
drafted_artifacts none = []
drafted_artifacts (some draft) = draft.artifact_ids

abbrev pub is_available : FlowDb → Text → Text → Bool
is_available db project_id artifact_id =
    any (λ a. a.artifact_id == artifact_id && a.project_id == project_id) db.artifacts

abbrev pub is_pipeline : SettledAttempt → Bool
is_pipeline a = is_given a.pipeline_branch

abbrev pub is_pipeline_review : SettledAttempt → Bool
is_pipeline_review a = a.attempt.stage == verification && is_pipeline a

abbrev pub findings_of : AttemptSettlement → List ReviewFindingDraft
findings_of s = elim s.review_findings [ none ↦ [] | some findings ↦ findings ]

unfoldable pub has_blocking_finding : AttemptSettlement → Bool
unfolding any review_finding_blocks
has_blocking_finding s = any (λ f. review_finding_blocks f.category) (findings_of s)

abbrev pub passes_or_absent : Option StageHandoffDraft → Bool
passes_or_absent none = true
passes_or_absent (some draft) = is_passed draft.outcome

abbrev pub needs_no_input : Option StageHandoffDraft → Bool
needs_no_input none = false
needs_no_input (some draft) = not (is_needs_input draft.outcome)

abbrev pub is_failed_review : SettledAttempt → AttemptSettlement → Bool
is_failed_review a s = is_pipeline_review a && has_failed s && needs_no_input s.draft

-- The throws of the settlement.
unfoldable pub check_settlement :
    FlowDb → SettledAttempt → AttemptSettlement → Result WorkflowError (Unit {0})
unfolding duplicate_free all any has_blocking_finding
check_settlement db a s = do
  throw_if (contradicts (has_passed s) s.draft) handoff_outcome_mismatch
  throw_if (not (duplicate_free (drafted_artifacts s.draft))) handoff_artifact_invalid
  throw_if (not (all (is_available db a.node.project_id) (drafted_artifacts s.draft)))
      handoff_artifact_invalid
  throw_if (is_given s.review_findings && not (is_pipeline_review a)) review_findings_not_allowed
  throw_if
      (is_pipeline_review a && has_passed s && has_blocking_finding s && passes_or_absent s.draft)
      review_outcome_mismatch
  throw_if (is_failed_review a s && not (has_blocking_finding s)) review_findings_required

-- `scopeViolationResult`
abbrev pub scope_violation_result : List Text → Text
scope_violation_result files = take 2000 (lit "scope violation: " ++ join (lit ", ") files)

abbrev pub scope_detail : Option ScopeCheck → Option Text
scope_detail none = some (lit "scope check failed")
scope_detail (some scope_ok) = none
scope_detail (some (scope_files files)) = some (scope_violation_result files)
scope_detail (some (scope_error error)) = some (take 2000 error)

-- `scopeFailureDetail`
unfoldable pub scope_failure_detail : SettledAttempt → AttemptSettlement → Option Text
unfolding lit
scope_failure_detail a s =
    if has_passed s && a.attempt.stage == implementation && is_pipeline a
    then scope_detail s.scope_check
    else none

module _ (random_uuid : ℕ → Text) (redact : Text → Text) where
  -- `String(index).padStart(2, "0")`
  abbrev pub two_digits : ℕ → Text
  two_digits index = if ltb index 10 then b'0' ∷ decimal index else decimal index

  abbrev pub persisted_finding :
      SettledAttempt → AttemptSettlement → ℕ → ℕ → ReviewFindingDraft → FindingRow
  persisted_finding a s index drawn f = record {
    finding_id = lit "finding_" ++ two_digits index ++ b'_' ∷ random_uuid drawn;
    node_id = a.attempt.node_id;
    stage = a.attempt.stage;
    round = a.attempt.attempt;
    file = f.file;
    line = f.line;
    category = f.category;
    severity = f.severity;
    expected = clean redact f.expected;
    actual = clean redact f.actual;
    blocking = review_finding_blocks f.category;
    created_at = s.now;
  }

  unfoldable pub insert_findings :
      SettledAttempt → AttemptSettlement → ℕ → List ReviewFindingDraft → FlowDb → FlowDb
  unfolding lit decimal review_finding_blocks redact_for_persistence
  insert_findings a s index [] db = db
  insert_findings a s index (f ∷ findings) db =
      insert_findings a s (suc index) findings (record db {
        board = record db.board { drawn = suc db.board.drawn };
        review_findings = db.review_findings ++ persisted_finding a s index db.board.drawn f ∷ [];
      })

  abbrev pub clean_criterion : CriterionResult → CriterionResult
  clean_criterion c = record c { evidence = clean redact c.evidence }

  abbrev pub clean_draft : StageHandoffDraft → StageHandoffDraft
  clean_draft d = record d {
    summary = clean redact d.summary;
    evidence = map (clean redact) d.evidence;
    acceptance_criteria = map clean_criterion d.acceptance_criteria;
    blockers = map (clean redact) d.blockers;
  }

  -- `supplied === null` leaves what the run itself says.
  abbrev pub supplied_draft : AttemptSettlement → StageHandoffDraft
  supplied_draft s = elim s.draft [
    | some draft ↦ clean_draft draft
    | none ↦ record {
      outcome = if has_passed s then passed else failed;
      summary = s.result;
      evidence = [];
      artifact_ids = [];
      acceptance_criteria = [];
      blockers = if has_passed s then [] else s.result ∷ [];
      recommended_return_stage = none;
    }
  ]

  abbrev pub or_stage : Option WorkItemStage → Option WorkItemStage → Option WorkItemStage
  or_stage (some stage) otherwise = some stage
  or_stage none otherwise = otherwise

  abbrev pub handoff_of : SettledAttempt → AttemptSettlement → ℕ → Option Text → StageHandoff
  handoff_of a s drawn scope_failure =
      let d = supplied_draft s in
      let nothing_failed = not (is_given scope_failure) in
      record {
        handoff_id = lit "handoff_" ++ random_uuid drawn;
        node_id = a.attempt.node_id;
        task_id = a.attempt.task_id;
        stage = a.attempt.stage;
        outcome = if nothing_failed then d.outcome else failed;
        summary = elim scope_failure [ none ↦ d.summary | some detail ↦ detail ];
        evidence = d.evidence;
        artifact_ids = d.artifact_ids;
        acceptance_criteria = d.acceptance_criteria;
        blockers = elim scope_failure [ none ↦ d.blockers | some detail ↦ detail ∷ [] ];
        recommended_return_stage =
            if nothing_failed
            then (if is_failed_review a s
                then some implementation
                else or_stage d.recommended_return_stage
                    (if has_passed s then none else some a.attempt.stage))
            else some a.attempt.stage;
        created_at = s.now;
      }

  -- `INSERT OR IGNORE`: a task has one handoff.
  unfoldable pub insert_handoff : SettledAttempt → AttemptSettlement → Option Text → FlowDb → FlowDb
  unfolding any lit redact_for_persistence
  insert_handoff a s scope_failure db = record db {
    board = record db.board { drawn = suc db.board.drawn };
    stage_handoffs =
        if any (λ (h : StageHandoff). h.task_id == a.attempt.task_id) db.stage_handoffs
        then db.stage_handoffs
        else db.stage_handoffs ++ handoff_of a s db.board.drawn scope_failure ∷ [];
  }

  abbrev pub bright_line : Text
  bright_line = lit "BRIGHT_LINE:"

  -- `brightLineDetail`
  unfoldable pub bright_line_detail : SettledAttempt → AttemptSettlement → Option Text
  unfolding starts_with lit redact_for_persistence
  bright_line_detail a s =
      if is_pipeline a && a.attempt.stage == implementation && not (has_passed s)
      then (if starts_with s.result bright_line then some s.result else elim s.draft [
        | none ↦ none
        | some draft ↦
            if starts_with (clean redact draft.summary) bright_line
            then some (clean redact draft.summary)
            else none
      ])
      else none
