-- ===== src/Attempts/Tests.antt =====
-- Concrete runs of src/server/task-board/collaborators/verify-attempts.ts with a workflow that accepts
-- every settlement and no credential that is recognized.
use nexus_seventeen.Prelude.{
  ℕ, ◌≡◌, refl, true, false, [], ◌∷◌, ◌++◌, none, some, Text, text_eq, lit, tally, arith, ok,
}
use mathlib.Core.List.{Memᴰ}
use nexus_seventeen.Contract.{WorkItemStage, stage_eq}
use nexus_seventeen.Redact.{redact_for_persistence, truncate_preserving_redaction_markers}
use nexus_seventeen.Attempts.Rows.{
  AttemptState, starting, running, green, failed, failed_to_start, retired, ready, VerifyAttempt,
  WorkNode, PlanRow, VerifiedItem, VerifyDb, AttemptContext, MachineVerifyEvidence, Settlement,
  is_startable, is_running, context, PlanCriterionCheck,
}
use nexus_seventeen.Attempts.Failures.{start_failure_count}
use nexus_seventeen.Attempts.Details.{KeepsMarker, start_failure_count-start_detail}
use nexus_seventeen.Attempts.Checks.{no_outcome, evidence}
use nexus_seventeen.Attempts.Writes.{
  SettleInTransaction, created, create_starting_attempt, record_running, start_detail, finalize,
  retire_open_attempts,
}
use nexus_seventeen.Attempts.Steps.{
  create, run, finish, retire, Reach, here, next, IsFresh, is_green,
}
use nexus_seventeen.Attempts.Created.{SettledOnce}
use nexus_seventeen.Attempts.Once.{Reach-SettledOnce}
use nexus_seventeen.Attempts.Poll.{PollWorld, Verdict, poll, run_green}
use nexus_seventeen.Attempts.Verdicts.{IsEarned, poll-IsEarned}
use nexus_seventeen.Attempts.Stays.{Reach-verdict_stays}
use nexus_seventeen.Attempts.Starts.{TwoStarts, start_error-start_error}

abbrev unchanged : Text → Text
unchanged t = t

abbrev accept : SettleInTransaction
accept node_id stage passed evidence nodes = ok nodes

abbrev node : WorkNode
node = record {
  node_id = 1 ∷ [];
  project_id = [];
  plan_revision_id = 2 ∷ [];
  current_stage = WorkItemStage.testing;
  state = ready;
  version = 1;
  updated_at = [];
}

abbrev check : PlanCriterionCheck
check = record { criterion = b'c' ∷ []; check = b'k' ∷ [] }

abbrev db : VerifyDb
db = record {
  verify_attempts = [];
  stage_attempts = [];
  work_nodes = node ∷ [];
  plan_revisions =
      record { plan_revision_id = 2 ∷ []; work_item_id = 3 ∷ []; criterion_checks = check ∷ [] }
      ∷ [];
  work_items = record { work_item_id = 3 ∷ []; pipeline_branch = some []; base_sha = none } ∷ [];
  settlements = [];
}

abbrev attempt : AttemptState → VerifyAttempt
attempt state = record {
  verify_attempt_id = 9 ∷ [];
  node_id = 1 ∷ [];
  stage = WorkItemStage.testing;
  attempt = 1;
  verify_run_id = none;
  workspace_path = none;
  state = state;
  check_results = none;
  detail = none;
  created_at = [];
  ended_at = none;
}

abbrev active_node : WorkNode
active_node = record node {
  state = nexus_seventeen.Attempts.Rows.WorkNodeState.active;
  version = 2;
}

abbrev db_created : VerifyDb
db_created = record db { verify_attempts = attempt starting ∷ []; work_nodes = active_node ∷ [] }

one_is_created :
    create_starting_attempt db (1 ∷ []) WorkItemStage.testing (9 ∷ []) []
    ≡ ok (db_created, created (9 ∷ []))
unfolding create_starting_attempt text_eq stage_eq
one_is_created = refl

fresh : IsFresh (9 ∷ []) db
fresh = record { unused = λ a m e. elim m [ ]; unsettled = λ s m e. elim m [ ] }

abbrev running_attempt : VerifyAttempt
running_attempt = record (attempt running) {
  verify_run_id = some (7 ∷ []);
  workspace_path = some (8 ∷ []);
}

abbrev db_running : VerifyDb
db_running = record db_created { verify_attempts = running_attempt ∷ [] }

it_runs : (record_running (9 ∷ []) (7 ∷ []) (8 ∷ []) db_created).0 ≡ db_running
unfolding record_running text_eq
it_runs = refl

abbrev current : AttemptContext
current = record {
  attempt = running_attempt;
  work_item_id = 3 ∷ [];
  project_id = [];
  base_sha = none;
  criterion_checks = check ∷ [];
}

abbrev final_evidence : MachineVerifyEvidence
unfolding redact_for_persistence truncate_preserving_redaction_markers
final_evidence = evidence unchanged (check ∷ []) no_outcome [] true

abbrev done : VerifyAttempt
done = record running_attempt {
  state = green;
  check_results = some [];
  detail = some [];
  ended_at = some [];
}

abbrev settlement : Settlement
settlement = record {
  verify_attempt_id = 9 ∷ [];
  node_id = 1 ∷ [];
  stage = WorkItemStage.testing;
  passed = true;
  evidence = final_evidence;
}

abbrev db_done : VerifyDb
db_done = record db_running { verify_attempts = done ∷ []; settlements = settlement ∷ [] }

it_ends : finalize unchanged accept current green no_outcome [] true [] [] db_running ≡ ok db_done
unfolding finalize text_eq truncate_preserving_redaction_markers
it_ends = refl

-- The cancellation comes too late.
abbrev late :
    Reach unchanged accept db_done (retire_open_attempts unchanged accept (3 ∷ []) [] [] db_done).0
late = next here (retire (3 ∷ []) [] [] refl)

a_run : Reach unchanged accept db db_done
a_run =
    next
      (next
        (next here (
          create (1 ∷ []) WorkItemStage.testing (9 ∷ []) [] (created (9 ∷ [])) fresh
            one_is_created))
        (run (9 ∷ []) (7 ∷ []) (8 ∷ []) it_runs))
      (finish current green no_outcome [] true [] [] is_green it_ends)

empty_once : SettledOnce db
unfolding tally
empty_once = record {
  single = λ id. omega arith;
  keyed = λ a b ma. elim ma [ ];
  counted = λ a m. elim m [ ];
}

Reach-SettledOnce_example : SettledOnce db_done
Reach-SettledOnce_example = Reach-SettledOnce unchanged accept a_run empty_once

Reach-verdict_stays_example :
    Memᴰ done (retire_open_attempts unchanged accept (3 ∷ []) [] [] db_done).0.verify_attempts
Reach-verdict_stays_example = Reach-verdict_stays unchanged accept done refl late (Memᴰ.head refl)

unchanged-KeepsMarker : (n : ℕ) → KeepsMarker unchanged n
unchanged-KeepsMarker n text = (text, refl)

start_failure_count-start_detail_example :
    start_failure_count (some (start_detail unchanged accept 12 (lit "no disk"))) ≡ 12
start_failure_count-start_detail_example =
    start_failure_count-start_detail unchanged accept 12 (lit "no disk") (omega arith)
      (unchanged-KeepsMarker 12)

abbrev unstarted : AttemptContext
unstarted = record current { attempt = attempt starting }

context-unstarted : context db_created (9 ∷ []) ≡ some unstarted
unfolding context text_eq
context-unstarted = refl

start_error-start_error_example :
    TwoStarts unchanged accept db_created
      (9 ∷ [])
      unstarted
      none
      none
      (lit "no disk")
      (lit "no memory")
      []
      []
unfolding is_startable start_failure_count
start_error-start_error_example =
    start_error-start_error unchanged accept db_created (9 ∷ []) unstarted none none (lit "no disk")
      (lit "no memory") [] [] (active_node ∷ []) (unchanged-KeepsMarker 1) context-unstarted refl
      refl (λ e. refl)

abbrev sha : Text
unfolding lit
sha = lit "0123456789abcdef0123456789abcdef01234567"

abbrev world : PollWorld
world = record {
  status = ok run_green;
  closed_after_status = false;
  tail = ok [];
  closed_after_tail = false;
  turn = λ i. record {
    stopped_before = false;
    execution = ok (record { passed = true; detail = [] });
    stopped_after = false;
  };
  closed_after_checks = false;
  running_after_checks = true;
  head = ok sha;
}

abbrev verdict : Verdict
unfolding lit
verdict = record {
  state = green;
  checks = record {
    results = record { criterion = b'c' ∷ []; check = b'k' ∷ []; passed = true } ∷ [];
    failures = [];
    failure_details_by_index = none ∷ [];
  };
  detail = lit "Machine verify and criterion checks passed.";
  passed = true;
  stored_detail = lit "verified-sha:" ++ sha;
}

poll_is_green : poll unchanged current world ≡ some verdict
unfolding poll redact_for_persistence
poll_is_green = refl

poll-IsEarned_example : IsEarned unchanged current world verdict
unfolding verdict
poll-IsEarned_example = poll-IsEarned unchanged current world verdict refl (λ i h. cc) poll_is_green
