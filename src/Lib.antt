-- ===== src/Lib.antt =====
-- Verification of the task board: the states of work items and their transitions, plans that split
-- work into children, the declared scopes that keep children apart, the machine verification of their
-- branches, the publication of documents, and the scrub of stored text.
--
-- A work item moves through the states of the shared contract. Every move goes through one function
-- of the board's persistence layer, which checks the request against the transition table, updates
-- the row under its version, appends an entry to the audit log, and opens or resolves a park record;
-- a child that fails parks its parent. A plan that an agent submits may declare children, and the
-- shared contract decides whether that declaration is accepted before the board makes work items of
-- it. The scope rules of the contract serve both the plan policy and the check of a branch's diff.
--
-- Files:
-- - Prelude and its children: shared names, lists, texts as UTF-16 code units, results of code that
--   throws.
-- - Contract (src/shared/task-board-contract/index.ts, src/server/shared/scope-check.ts): States has
--   isTerminalWorkItemState and isWorkItemTransitionAllowed, Stages the other vocabularies, Scope
--   normalizeDeclaredScope, declaredScopesOverlap and checkDeclaredScopePaths.
-- - Redact (src/server/shared/redact.ts): truncatePreservingRedactionMarkers,
--   the two scrubs and safeErrorDetail. The credential regular expressions are a parameter.
-- - Board: the rows and the errors of src/server/task-board/persistence. A store is the list of the
--   rows of each table, and a statement is a function on the store.
-- - Transition (src/server/task-board/persistence/work-item-transitions.ts): Requests has the checks
--   of transitionWorkItemInTransaction on a request, Writes its statements, Transition the function
--   itself. `randomUUID` is a parameter, a function of the number of earlier draws, and so is the
--   registered cascade for the children of a parent that ended. The function calls itself once, to
--   park a parent, and that call ends in a state without further effect, so it is unrolled.
-- - Plan (src/shared/task-board-contract/validate/plans.ts): Children, Visit and Phases have
--   validateWorkflowPlanChildren. The recursive search takes fuel, one more than there are children.
-- - Execution (src/server/task-board/persistence/work-item-transitions.ts): workItemStateForStage,
--   workItemStateForNodeStage and workItemStateOwnsWorkflowExecution.
-- - Merge (src/server/task-board/collaborators/pipeline-merge.ts, src/server/shared/git.ts): Commands
--   has the git commands, Merge mergePipelineBranch, inspectPipelineMergeTarget,
--   inspectPipelineBaseAdvance and resolvePipelineBranchTip. The git runner is a parameter: a function
--   on an abstract repository that prints or fails. What it is relied on for stands as hypotheses:
--   that reading commands leave the repository alone, and that an abort undoes a failed merge.
-- - Readiness (src/server/task-board/collaborators/decomposition-readiness.ts): the two queries of
--   decompositionReadinessBlocker as functions on lists of rows.
-- - Interface (src/server/task-board/collaborators/decomposition-readiness.ts and
--   src/server/task-board/persistence/repository-path.ts): the published interface that a Migrate child
--   works against, on lists of rows; the reader of a file of a commit is a parameter.
-- - Activity (src/server/agents/runtime/derive.ts): ActivityBuffer, as a function of its state and the
--   time of each call, and the labels of tool calls with the stages they stand for; sanitizeActivity
--   takes its regular expressions as a parameter.
-- - ScopeDiff (src/server/shared/scope-check.ts): checkDeclaredScope, whose git runner is a parameter;
--   the files are read off what `git diff -z` prints.
-- - Publish (src/server/docs-publish, parseGitTreeEntry of src/server/shared/git.ts): Sources has
--   enumerateDocs and validateExcludePattern, Repo withSourceBanner and publishRepo, and Calls says
--   which calls a publication needs. The git runner and
--   the sink are parameters over states of their own; errors are data in place of the lines printed.
-- - Attempts (src/server/task-board/collaborators/verify-attempts.ts): Rows has the tables and
--   #context, Failures the count of failed starts, Checks #runChecks, Writes the transactions, Poll #poll,
--   and Steps relates the transactions in any order. Starts and Details are about failed starts: the
--   marker of the stored detail is read back where no credential pattern matches in it, which stands
--   as a hypothesis. settleInTransaction, the identifiers and what is met
--   at each await are parameters.
-- - Verify (src/server/agents/verify/mapping.ts): Globs has globToRegExp and the test of its
--   expression, Mapping mapChangedFiles, with a set as the list of its entries.
-- - Workflow (src/server/task-board/persistence/workflow.ts): Rows has the tables, Stages
--   setWorkItemStage, Handoffs the checks, findings and handoff of a settlement, Settle
--   settleAttemptInternal, Machine settleMachineVerifyAttemptInTransaction,
--   Nodes the commands on one node, and Returns the statements of other functions that put a
--   node back to work or insert one, and Steps relates all of these in any order. The work items are the
--   store of Board, moved by Transition; the columns of work_items that Board leaves out are a table of
--   their own.
-- - Retry (src/server/docs-publish/retry.ts): withRetry, by recursion on the attempts that are left.
--
-- Texts are lists of UTF-16 code units. The columns of a table that no modelled statement names are
-- left out of its row. Numbers are natural numbers, and where the source subtracts to a negative
-- number the model compares the sum instead.
--
-- Not modelled: the board's commands on work items, runs, tasks and projects, the proposal,
-- confirmation and materialisation of plans, what a verification attempt awaits and cleans up, the
-- sweeps for wall-clock caps, the notifications and ledgers, the validators of the wire contract,
-- the HTTP host, the workers and their containers, the client of the wiki, and the web client.
pub mod Prelude
pub mod Contract
pub mod Redact
pub mod Board
pub mod Transition
pub mod Plan
pub mod Activity
pub mod Attempts
pub mod Execution
pub mod Interface
pub mod Merge
pub mod Publish
pub mod Readiness
pub mod Retry
pub mod ScopeDiff
pub mod Verify
pub mod Workflow
