-- ===== src/Merge/Tests.antt =====
-- Concrete merges for src/server/task-board/collaborators/pipeline-merge.ts: a repository that counts
-- its unfinished merges, with a git that merges and one that meets a conflict.
use nexus_seventeen.Prelude.{
  ℕ, zero, suc, ◌-◌, ◌≡◌, refl, ap, Bool, true, false, List, [], ◌∷◌, drop, some, Text, lit,
  text_eq, Result, ok, err, ◌==◌, eq_text, if◌then◌else◌, arith,
}
use nexus_seventeen.Merge.{
  GitFailure, GitCommand, current_branch, status_porcelain, head_commit, merge_head, abort_merge,
  is_ancestor, count_commits, verify_commit, merge, Committer, merged, MergeRequest, call,
  command_arguments, git_arguments, git_policy_flags, merge_pipeline_branch,
}
use nexus_seventeen.Merge.Untouched.{is_read, Untouched, merge_pipeline_branch-Untouched}
use nexus_seventeen.Merge.Merged.{IsMerge, merge_pipeline_branch-IsMerge}

abbrev repeat : ℕ → ℕ → Text
repeat zero c = []
repeat (suc n) c = c ∷ repeat n c

abbrev sha : Text
sha = repeat 40 b'a'

abbrev committer : Committer
committer = record { name = []; email = [] }

abbrev request : MergeRequest
request = record { repo_path = b'r' ∷ []; branch = b't' ∷ []; branch_sha = sha; base_sha = sha }

abbrev conflicting : GitFailure
conflicting = record { status = some 1; stderr = []; stdout = []; message = b'm' ∷ [] }

abbrev answer : Bool → List Text → ℕ → Result GitFailure Text × ℕ
answer succeeds [] repo = (ok [], repo)
answer succeeds (w ∷ []) repo = (ok [], repo)
answer succeeds (w ∷ v ∷ rest) repo =
    if w == lit "merge"
    then (if v == lit "--abort"
        then (ok [], repo - 1)
        else (if succeeds then (ok [], repo) else (err conflicting, suc repo)))
    else (if w == lit "rev-list"
        then (ok (b'2' ∷ []), repo)
        else (if w == lit "status"
            then (ok [], repo)
            else (if v == lit "--abbrev-ref" then (ok (b'x' ∷ []), repo) else (ok sha, repo))))

-- The policy flags, `-C` and the path come before the command.
abbrev git : Bool → List Text → ℕ → Result GitFailure Text × ℕ
git succeeds arguments repo = answer succeeds (drop 12 arguments) repo

git_reads :
    (command : GitCommand) (repo : ℕ)
    → is_read command ≡ true
    → (call committer (git false) request command repo).1 ≡ repo
unfolding git_arguments git_policy_flags command_arguments lit text_eq
git_reads current_branch repo h = refl
git_reads status_porcelain repo h = refl
git_reads head_commit repo h = refl
git_reads merge_head repo h = refl
git_reads abort_merge repo h = cc
git_reads (is_ancestor base target) repo h = refl
git_reads (count_commits base target) repo h = refl
git_reads (verify_commit branch) repo h = refl
git_reads (merge branch target) repo h = cc

git_aborts :
    (branch target : Text) (repo after : ℕ) (failure : GitFailure) (out : Text)
    → call committer (git false) request (merge branch target) repo ≡ (err failure, after)
    → (call committer (git false) request abort_merge after).0 ≡ ok out
    → (call committer (git false) request abort_merge after).1 ≡ repo
unfolding git_arguments git_policy_flags command_arguments lit text_eq
git_aborts branch target repo after failure out h done =
    let more : suc repo ≡ after = ap (λ (a : Result GitFailure Text × ℕ). a.1) h in omega arith

merge_pipeline_branch-Untouched_example :
    Untouched 7 (merge_pipeline_branch committer (git false) request 7)
merge_pipeline_branch-Untouched_example =
    merge_pipeline_branch-Untouched committer (git false) request git_reads git_aborts 7

merge_succeeds : merge_pipeline_branch committer (git true) request 7 ≡ (ok (merged sha), 7)
unfolding merge_pipeline_branch git_arguments text_eq
merge_succeeds = refl

merge_pipeline_branch-IsMerge_example : IsMerge committer (git true) request 7 sha 7
merge_pipeline_branch-IsMerge_example =
    merge_pipeline_branch-IsMerge committer (git true) request sha 7 7 merge_succeeds
