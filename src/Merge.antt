-- ===== src/Merge.antt =====
-- src/server/task-board/collaborators/pipeline-merge.ts: the merge of a pipeline branch into the
-- branch that the repository has checked out. `Commands` has the git commands and what is read from
-- their output; the git runner, a function on the repository's state, is a parameter.
mod Commands
mod Tests
pub mod Untouched
pub mod Merged
unfoldable pub use Commands.{
  git_policy_flags, git_arguments, command_arguments, is_git_object_id, is_decimal,
  merge_error_detail,
}
pub use Commands.*
use nexus_seventeen.Prelude.{
  ℕ, Bool, true, false, not, ◌||◌, List, [], ◌∷◌, ◌++◌, Option, none, some, option_eq, Text, lit,
  trim, is_nil, starts_with, take, if◌then◌else◌, Result, ok, err, ◌==◌, eq_text, eq_nat,
}

pub data MergePipelineResult : Type 0 where
  merged : Text → MergePipelineResult
  conflict diverged : Text → MergePipelineResult
  empty repo_busy : MergePipelineResult

pub data PipelineMergeTarget : Type 0 where
  ready : Text → Text → PipelineMergeTarget
  target_busy : PipelineMergeTarget

pub data PipelineBaseAdvance : Type 0 where
  base_busy : PipelineBaseAdvance
  base_unchanged base_advanced base_diverged : Text → PipelineBaseAdvance

pub data MergeError : Type 0 where
  invalid_branch_object_id invalid_target_object_id invalid_commit_count invalid_merge_object_id :
      MergeError
  git_failed : GitFailure → MergeError

pub record MergeRequest : Type 0 where
  pub repo_path : Text
  pub branch : Text
  pub branch_sha : Text
  pub base_sha : Text

-- What a run of git does to the repository, and what it prints or throws.
abbrev pub GitTextRunner : Type 0 → Type 0
GitTextRunner R = List Text → R → Result GitFailure Text × R

module _ {R : Type 0} (committer : Committer) (git : GitTextRunner R) (request : MergeRequest) where
  abbrev pub call : GitCommand → R → Result GitFailure Text × R
  call command repo =
      git (git_arguments committer request.repo_path (command_arguments command)) repo

  abbrev on_head : Text → Result GitFailure Text × R → Result MergeError PipelineMergeTarget × R
  on_head branch (err failure, repo) = (err (git_failed failure), repo)
  on_head branch (ok out, repo) =
      if is_git_object_id (trim out)
      then (ok (ready branch (trim out)), repo)
      else (err invalid_target_object_id, repo)

  unfoldable pub is_busy : Text → Text → Bool
  unfolding is_nil starts_with lit
  is_busy branch dirty =
      not (is_nil dirty)
      || branch == lit "HEAD"
      || branch == request.branch
      || starts_with branch (lit "task/")

  unfoldable pub on_status :
      Text → Result GitFailure Text × R → Result MergeError PipelineMergeTarget × R
  unfolding is_git_object_id trim is_busy
  on_status branch (err failure, repo) = (ok target_busy, repo)
  on_status branch (ok dirty, repo) =
      if is_busy branch dirty
      then (ok target_busy, repo)
      else on_head branch (call head_commit repo)

  unfoldable pub on_branch : Result GitFailure Text × R → Result MergeError PipelineMergeTarget × R
  unfolding on_status trim
  on_branch (err failure, repo) = (ok target_busy, repo)
  on_branch (ok out, repo) = on_status (trim out) (call status_porcelain repo)

  -- `inspectPipelineMergeTarget`
  unfoldable pub inspect_pipeline_merge_target : R → Result MergeError PipelineMergeTarget × R
  unfolding on_branch
  inspect_pipeline_merge_target repo = on_branch (call current_branch repo)

  abbrev pub on_ancestor : Result GitFailure Text × R → Result GitFailure Bool × R
  on_ancestor (ok out, repo) = (ok true, repo)
  on_ancestor (err failure, repo) =
      if option_eq failure.status (some 1) then (ok false, repo) else (err failure, repo)

  -- `isPipelineBaseAncestor`
  unfoldable pub is_pipeline_base_ancestor : Text → R → Result GitFailure Bool × R
  unfolding command_arguments
  is_pipeline_base_ancestor target repo =
      on_ancestor (call (is_ancestor request.base_sha target) repo)

  abbrev advance_of : Text → Result GitFailure Bool × R → Result MergeError PipelineBaseAdvance × R
  advance_of head (err failure, repo) = (err (git_failed failure), repo)
  advance_of head (ok ancestor, repo) =
      (ok (if ancestor then base_advanced head else base_diverged head), repo)

  abbrev advance_on_target :
      Result MergeError PipelineMergeTarget × R → Result MergeError PipelineBaseAdvance × R
  advance_on_target (err e, repo) = (err e, repo)
  advance_on_target (ok target_busy, repo) = (ok base_busy, repo)
  advance_on_target (ok (ready branch head), repo) =
      if head == request.base_sha
      then (ok (base_unchanged head), repo)
      else advance_of head (is_pipeline_base_ancestor head repo)

  -- `inspectPipelineBaseAdvance`
  unfoldable pub inspect_pipeline_base_advance : R → Result MergeError PipelineBaseAdvance × R
  unfolding inspect_pipeline_merge_target is_pipeline_base_ancestor
  inspect_pipeline_base_advance repo = advance_on_target (inspect_pipeline_merge_target repo)

  abbrev on_tip : Result GitFailure Text × R → Result MergeError Text × R
  on_tip (err failure, repo) = (err (git_failed failure), repo)
  on_tip (ok out, repo) =
      if is_git_object_id (trim out)
      then (ok (trim out), repo)
      else (err invalid_branch_object_id, repo)

  -- `resolvePipelineBranchTip`
  unfoldable pub resolve_pipeline_branch_tip : R → Result MergeError Text × R
  unfolding is_git_object_id trim command_arguments
  resolve_pipeline_branch_tip repo = on_tip (call (verify_commit request.branch) repo)

  unfoldable pub on_merge_commit :
      Result GitFailure Text × R → Result MergeError MergePipelineResult × R
  unfolding is_git_object_id trim
  on_merge_commit (err failure, repo) = (err (git_failed failure), repo)
  on_merge_commit (ok out, repo) =
      if is_git_object_id (trim out)
      then (ok (merged (trim out)), repo)
      else (err invalid_merge_object_id, repo)

  unfoldable pub conflict_summary : GitFailure → Text
  unfolding lit merge_error_detail
  conflict_summary failure =
      take summary_limit
        (lit "Merge conflict for " ++ request.branch ++ lit ": " ++ merge_error_detail failure)

  unfoldable pub on_abort :
      GitFailure → Result GitFailure Text × R → Result MergeError MergePipelineResult × R
  unfolding conflict_summary
  on_abort failure (err again, repo) = (err (git_failed again), repo)
  on_abort failure (ok out, repo) = (ok (conflict (conflict_summary failure)), repo)

  unfoldable pub on_merge_head :
      GitFailure → Result GitFailure Text × R → Result MergeError MergePipelineResult × R
  unfolding on_abort command_arguments
  on_merge_head failure (err absent, repo) = (err (git_failed failure), repo)
  on_merge_head failure (ok out, repo) = on_abort failure (call abort_merge repo)

  unfoldable pub on_merge : Result GitFailure Text × R → Result MergeError MergePipelineResult × R
  unfolding on_merge_head on_merge_commit command_arguments
  on_merge (err failure, repo) = on_merge_head failure (call merge_head repo)
  on_merge (ok out, repo) = on_merge_commit (call head_commit repo)

  unfoldable pub merge_counted : Text → R → Result MergeError MergePipelineResult × R
  unfolding is_decimal on_merge lit
  merge_counted commit_count repo =
      if commit_count == lit "0"
      then (ok empty, repo)
      else if is_decimal commit_count
      then on_merge (call (merge request.branch request.branch_sha) repo)
      else (err invalid_commit_count, repo)

  unfoldable pub on_count : Result GitFailure Text × R → Result MergeError MergePipelineResult × R
  unfolding merge_counted trim
  on_count (err failure, repo) = (err (git_failed failure), repo)
  on_count (ok out, repo) = merge_counted (trim out) repo

  abbrev pub diverged_detail : Text → Text → Text
  diverged_detail branch head =
      lit "Pipeline base "
      ++ request.base_sha
      ++ lit " is not an ancestor of merge target "
      ++ branch
      ++ lit " at "
      ++ head
      ++ lit "."

  -- A failure of the ancestry command counts as no ancestor.
  unfoldable pub on_base :
      Text → Text → Result GitFailure Bool × R → Result MergeError MergePipelineResult × R
  unfolding on_count lit command_arguments
  on_base branch head (ok true, repo) =
      on_count (call (count_commits request.base_sha request.branch_sha) repo)
  on_base branch head (ok false, repo) = (ok (diverged (diverged_detail branch head)), repo)
  on_base branch head (err failure, repo) = (ok (diverged (diverged_detail branch head)), repo)

  unfoldable pub on_target :
      Result MergeError PipelineMergeTarget × R → Result MergeError MergePipelineResult × R
  unfolding on_base is_pipeline_base_ancestor lit
  on_target (err e, repo) = (err e, repo)
  on_target (ok target_busy, repo) = (ok repo_busy, repo)
  on_target (ok (ready branch head), repo) =
      on_base branch head (is_pipeline_base_ancestor (lit "HEAD") repo)

  -- `mergePipelineBranch`
  unfoldable pub merge_pipeline_branch : R → Result MergeError MergePipelineResult × R
  unfolding on_target inspect_pipeline_merge_target is_git_object_id
  merge_pipeline_branch repo =
      if is_git_object_id request.branch_sha
      then on_target (inspect_pipeline_merge_target repo)
      else (err invalid_branch_object_id, repo)
