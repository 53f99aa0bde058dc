-- ===== src/Merge/Untouched.antt =====
-- What a merge that does not happen leaves behind: the repository as it was.
use nexus_seventeen.Prelude.{
  some, option_eq, eq_nat, ◌≡◌, refl, sym, subst, ◌∙◌, ap, inl, inr, Bool, true, false, Text, lit,
  trim, Result, ok, err, Bool-cases, ◌==◌, eq_text,
}
use nexus_seventeen.Merge.{
  GitFailure, GitCommand, current_branch, status_porcelain, head_commit, merge_head, abort_merge,
  is_ancestor, count_commits, merge, Committer, MergePipelineResult, merged, conflict, diverged,
  empty, repo_busy, PipelineMergeTarget, ready, target_busy, MergeError, MergeRequest,
  GitTextRunner, call, is_git_object_id, is_decimal, is_busy, on_head, on_status, on_branch,
  inspect_pipeline_merge_target, on_ancestor, is_pipeline_base_ancestor, on_merge_commit, on_abort,
  on_merge_head, on_merge, merge_counted, on_count, on_base, on_target, merge_pipeline_branch,
}

-- The commands that only read.
abbrev pub is_read : GitCommand → Bool
is_read (merge branch sha) = false
is_read abort_merge = false
is_read command = true

-- An answer in a repository that is the given one; a throw claims nothing.
abbrev Kept : {R A : Type 0} → R → Result MergeError A × R → Type 0
Kept repo (ok a, after) = after ≡ repo
Kept repo (err e, after) = Unit

abbrev pub Untouched : {R : Type 0} → R → Result MergeError MergePipelineResult × R → Type 0
Untouched repo (ok (merged sha), after) = Unit
Untouched repo (ok (conflict summary), after) = after ≡ repo
Untouched repo (ok (diverged detail), after) = after ≡ repo
Untouched repo (ok empty, after) = after ≡ repo
Untouched repo (ok repo_busy, after) = after ≡ repo
Untouched repo (err e, after) = Unit

module _ {R : Type 0} (committer : Committer) (git : GitTextRunner R) (request : MergeRequest)
    (reads : (command : GitCommand) (repo : R)
      → is_read command ≡ true
      → (call committer git request command repo).1 ≡ repo)
    (aborts : (branch sha : Text) (repo after : R) (failure : GitFailure) (out : Text)
      → call committer git request (merge branch sha) repo ≡ (err failure, after)
      → (call committer git request abort_merge after).0 ≡ ok out
      → (call committer git request abort_merge after).1 ≡ repo) where
  on_head-Kept :
      (repo : R) (branch : Text) (answer : Result GitFailure Text × R)
      → answer.1 ≡ repo
      → Kept repo (on_head committer git request branch answer)
  on_head-Kept repo branch (err failure, after) e = tt
  on_head-Kept repo branch (ok out, after) e = elim (Bool-cases (is_git_object_id (trim out))) [
    | inl t ↦ rw t e
    | inr f ↦ rw f tt
  ]

  on_status-Kept :
      (repo : R) (branch : Text) (answer : Result GitFailure Text × R)
      → answer.1 ≡ repo
      → Kept repo (on_status committer git request branch answer)
  unfolding on_status
  on_status-Kept repo branch (err failure, after) e = e
  on_status-Kept repo branch (ok dirty, after) e =
      elim (Bool-cases (is_busy committer git request branch dirty)) [
        | inl t ↦ rw t e
        | inr f ↦ rw f (
            on_head-Kept repo branch (call committer git request head_commit after)
              (reads head_commit after refl ∙ e))
      ]

  on_branch-Kept :
      (repo : R) (answer : Result GitFailure Text × R)
      → answer.1 ≡ repo
      → Kept repo (on_branch committer git request answer)
  unfolding on_branch
  on_branch-Kept repo (err failure, after) e = e
  on_branch-Kept repo (ok out, after) e =
      on_status-Kept repo (trim out) (call committer git request status_porcelain after)
        (reads status_porcelain after refl ∙ e)

  inspect-Kept : (repo : R) → Kept repo (inspect_pipeline_merge_target committer git request repo)
  unfolding inspect_pipeline_merge_target
  inspect-Kept repo =
      on_branch-Kept repo (call committer git request current_branch repo)
        (reads current_branch repo refl)

  ancestor_keeps :
      (target : Text) (repo : R)
      → (is_pipeline_base_ancestor committer git request target repo).1 ≡ repo
  unfolding is_pipeline_base_ancestor
  ancestor_keeps target repo =
      same (call committer git request (is_ancestor request.base_sha target) repo)
        (reads (is_ancestor request.base_sha target) repo refl)
    where
      same :
          (answer : Result GitFailure Text × R)
          → answer.1 ≡ repo
          → (on_ancestor committer git request answer).1 ≡ repo
      same (ok out, after) e = e
      same (err failure, after) e = elim (Bool-cases (option_eq failure.status (some 1))) [
        | inl t ↦ rw t e
        | inr f ↦ rw f e
      ]

  on_abort-Untouched :
      (repo : R) (failure : GitFailure) (answer : Result GitFailure Text × R)
      → ((out : Text) → answer.0 ≡ ok out → answer.1 ≡ repo)
      → Untouched repo (on_abort committer git request failure answer)
  unfolding on_abort
  on_abort-Untouched repo failure (err again, after) e = tt
  on_abort-Untouched repo failure (ok out, after) e = e out refl

  on_merge_head-Untouched :
      (repo failed : R) (failure : GitFailure) (answer : Result GitFailure Text × R)
      → answer.1 ≡ failed
      → call committer git request (merge request.branch request.branch_sha) repo
        ≡ (err failure, failed)
      → Untouched repo (on_merge_head committer git request failure answer)
  unfolding on_merge_head
  on_merge_head-Untouched repo failed failure (err absent, after) e h = tt
  on_merge_head-Untouched repo failed failure (ok out, after) e h =
      on_abort-Untouched repo failure (call committer git request abort_merge after) (λ told done.
        aborts request.branch request.branch_sha repo after failure told
          (h ∙ ap (λ (r : R). (err failure, r)) (sym e)) done)

  on_merge_commit-Untouched :
      (repo : R) (answer : Result GitFailure Text × R)
      → Untouched repo (on_merge_commit committer git request answer)
  unfolding on_merge_commit
  on_merge_commit-Untouched repo (err failure, after) = tt
  on_merge_commit-Untouched repo (ok out, after) = elim (Bool-cases (is_git_object_id (trim out))) [
    | inl t ↦ rw t tt
    | inr f ↦ rw f tt
  ]

  on_merge-Untouched :
      (repo : R) (answer : Result GitFailure Text × R)
      → call committer git request (merge request.branch request.branch_sha) repo ≡ answer
      → Untouched repo (on_merge committer git request answer)
  unfolding on_merge
  on_merge-Untouched repo (err failure, after) h =
      on_merge_head-Untouched repo after failure (call committer git request merge_head after)
        (reads merge_head after refl) h
  on_merge-Untouched repo (ok out, after) h =
      on_merge_commit-Untouched repo (call committer git request head_commit after)

  on_count-Untouched :
      (repo : R) (answer : Result GitFailure Text × R)
      → answer.1 ≡ repo
      → Untouched repo (on_count committer git request answer)
  unfolding on_count merge_counted
  on_count-Untouched repo (err failure, after) e = tt
  on_count-Untouched repo (ok out, after) e = elim (Bool-cases (trim out == lit "0")) [
    | inl z ↦ rw z e
    | inr n ↦ elim (Bool-cases (is_decimal (trim out))) [
      | inl d ↦
          rw (n, d)
            (subst
              (λ r. Untouched r (
                on_merge committer git request
                  (call committer git request (merge request.branch request.branch_sha) after)))
              e (on_merge-Untouched after _ refl))
      | inr f ↦ rw (n, f) tt
    ]
  ]

  on_base-Untouched :
      (repo : R) (branch head : Text) (answer : Result GitFailure Bool × R)
      → answer.1 ≡ repo
      → Untouched repo (on_base committer git request branch head answer)
  unfolding on_base
  on_base-Untouched repo branch head (ok true, after) e =
      on_count-Untouched repo
        (call committer git request (count_commits request.base_sha request.branch_sha) after)
        (reads (count_commits request.base_sha request.branch_sha) after refl ∙ e)
  on_base-Untouched repo branch head (ok false, after) e = e
  on_base-Untouched repo branch head (err failure, after) e = e

  on_target-Untouched :
      (repo : R) (answer : Result MergeError PipelineMergeTarget × R)
      → Kept repo answer
      → Untouched repo (on_target committer git request answer)
  unfolding on_target
  on_target-Untouched repo (err e, after) k = tt
  on_target-Untouched repo (ok target_busy, after) k = k
  on_target-Untouched repo (ok (ready branch head), after) k =
      on_base-Untouched repo branch head
        (is_pipeline_base_ancestor committer git request (lit "HEAD") after)
        (ancestor_keeps (lit "HEAD") after ∙ k)

  -- Where git's reading commands leave the repository alone, and an abort that succeeds restores what
  -- a failed merge changed, every merge that reports a busy repository, a diverged base, no commits
  -- or a conflict leaves the repository as it was.
  pub merge_pipeline_branch-Untouched :
      (repo : R) → Untouched repo (merge_pipeline_branch committer git request repo)
  unfolding merge_pipeline_branch
  merge_pipeline_branch-Untouched repo = elim (Bool-cases (is_git_object_id request.branch_sha)) [
    | inl t ↦ rw t (
        on_target-Untouched repo (inspect_pipeline_merge_target committer git request repo)
          (inspect-Kept repo))
    | inr f ↦ rw f tt
  ]
