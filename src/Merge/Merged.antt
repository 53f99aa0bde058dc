-- ===== src/Merge/Merged.antt =====
-- What is known when a merge is reported, and the bound of a conflict's summary.
use nexus_seventeen.Prelude.{
  ◌≡◌, refl, ◌∙◌, inl, inr, true, false, some, option_eq, eq_nat, Text, lit, trim, Result, ok, err,
  Bool-cases, ◌==◌, eq_text,
}
use nexus_seventeen.Merge.{
  GitFailure, status_porcelain, head_commit, merge_head, abort_merge, is_ancestor, count_commits,
  current_branch, merge, Committer, MergePipelineResult, merged, PipelineMergeTarget, ready,
  target_busy, diverged, diverged_detail, empty, MergeError, invalid_commit_count,
  invalid_branch_object_id, invalid_merge_object_id, invalid_target_object_id, MergeRequest,
  GitTextRunner, call, is_git_object_id, is_decimal, is_busy, on_head, on_status, on_branch,
  inspect_pipeline_merge_target, on_ancestor, is_pipeline_base_ancestor, on_merge_commit, on_abort,
  on_merge_head, on_merge, merge_counted, on_count, on_base, on_target, merge_pipeline_branch,
}

abbrev Answer : Type 0 → Type 0
Answer R = Result MergeError MergePipelineResult × R

module _ {R : Type 0} (committer : Committer) (git : GitTextRunner R) (request : MergeRequest) where
  -- Read from `repo` on: the checked-out branch, a tree that is not busy on it, and a valid head.
  pub record IsFree (repo : R) (branch : Text) (after : R) : Type 0 where
    pub name : Text
    pub named : R
    pub read_branch : call committer git request current_branch repo ≡ (ok name, named)
    pub is_branch : trim name ≡ branch
    pub dirty : Text
    pub checked : R
    pub read_status : call committer git request status_porcelain named ≡ (ok dirty, checked)
    pub free : is_busy committer git request branch dirty ≡ false
    pub head : Text
    pub read_head : call committer git request head_commit checked ≡ (ok head, after)
    pub valid_head : is_git_object_id (trim head) ≡ true

  -- From `tested` on: git counts the commits of the range, merges the branch, and names the new head.
  pub record IsCounted (tested : R) (sha : Text) (final : R) : Type 0 where
    pub counted : Text
    pub ready_to_merge : R
    pub read_count :
        call committer git request (count_commits request.base_sha request.branch_sha) tested
        ≡ (ok counted, ready_to_merge)
    pub some_commits : (trim counted == lit "0") ≡ false
    pub number : is_decimal (trim counted) ≡ true
    pub output : Text
    pub done : R
    pub succeeded :
        call committer git request (merge request.branch request.branch_sha) ready_to_merge
        ≡ (ok output, done)
    pub head : Text
    pub read_sha : call committer git request head_commit done ≡ (ok head, final)
    pub is_sha : trim head ≡ sha
    pub valid_sha : is_git_object_id sha ≡ true

  -- The run of git commands from `repo` to `final` that stands behind a reported merge.
  pub record IsMerge (repo : R) (sha : Text) (final : R) : Type 0 where
    pub valid_branch_sha : is_git_object_id request.branch_sha ≡ true
    pub branch : Text
    pub inspected : R
    pub free : IsFree repo branch inspected
    pub told : Text
    pub tested : R
    pub descends :
        call committer git request (is_ancestor request.base_sha (lit "HEAD")) inspected
        ≡ (ok told, tested)
    pub counting : IsCounted tested sha final

  on_head-ready :
      (asked branch head : Text) (checked : R) (answer : Result GitFailure Text × R) {after : R}
      → call committer git request head_commit checked ≡ answer
      → on_head committer git request asked answer ≡ (ok (ready branch head), after)
      → (asked ≡ branch)
        × ((out : Text) × (call committer git request head_commit checked ≡ (ok out, after))
            × (is_git_object_id (trim out) ≡ true))
  on_head-ready asked branch head checked (err failure, r) p h = cc
  on_head-ready asked branch head checked (ok out, r) {after} p h =
      elim (Bool-cases (is_git_object_id (trim out))) [
        | inl t ↦
            let given : ◌≡◌ {A = Result MergeError PipelineMergeTarget × R}
                (ok (ready asked (trim out)), r) (ok (ready branch head), after) =
              rw t at h in
            let same : asked ≡ branch = cc in
            let left : r ≡ after = cc in (same, (out, p ∙ rw left refl, t))
        | inr f ↦
            let given : ◌≡◌ {A = Result MergeError PipelineMergeTarget × R}
                (err invalid_target_object_id, r) (ok (ready branch head), after) =
              rw f at h in
            cc
      ]

  on_status-IsFree :
      (repo : R) (name branch head : Text) (named : R) (answer : Result GitFailure Text × R)
      {after : R}
      → call committer git request current_branch repo ≡ (ok name, named)
      → call committer git request status_porcelain named ≡ answer
      → on_status committer git request (trim name) answer ≡ (ok (ready branch head), after)
      → IsFree repo branch after
  unfolding on_status
  on_status-IsFree repo name branch head named (err failure, r) q p h = cc
  on_status-IsFree repo name branch head named (ok dirty, r) {after} q p h =
      elim (Bool-cases (is_busy committer git request (trim name) dirty)) [
        | inl t ↦
            let given : ◌≡◌ {A = Result MergeError PipelineMergeTarget × R} (ok target_busy, r)
                (ok (ready branch head), after) =
              rw (on_status, t) at h in
            cc
        | inr f ↦
            let (same, (out, read, valid)) =
              on_head-ready (trim name) branch head r (call committer git request head_commit r)
                refl (rw (on_status, f) at h) in
            record {
              name = name;
              named = named;
              read_branch = q;
              is_branch = same;
              dirty = dirty;
              checked = r;
              read_status = p;
              free = rw (← same) f;
              head = out;
              read_head = read;
              valid_head = valid;
            }
      ]

  inspect-IsFree :
      (repo : R) (branch head : Text) (answer : Result GitFailure Text × R) {after : R}
      → call committer git request current_branch repo ≡ answer
      → on_branch committer git request answer ≡ (ok (ready branch head), after)
      → IsFree repo branch after
  unfolding on_branch
  inspect-IsFree repo branch head (err failure, r) q h = cc
  inspect-IsFree repo branch head (ok out, r) q h =
      on_status-IsFree repo out branch head r (call committer git request status_porcelain r) q refl
        h

  module _ {sha : Text} {final : R} where
    on_abort-not_merged :
        (failure : GitFailure) (answer : Result GitFailure Text × R) {B : Type 0}
        → on_abort committer git request failure answer ≡ (ok (merged sha), final)
        → B
    unfolding on_abort
    on_abort-not_merged failure (err again, r) h = cc
    on_abort-not_merged failure (ok done, r) h = cc

    on_merge_head-not_merged :
        (failure : GitFailure) (answer : Result GitFailure Text × R) {B : Type 0}
        → on_merge_head committer git request failure answer ≡ (ok (merged sha), final)
        → B
    unfolding on_merge_head
    on_merge_head-not_merged failure (err absent, after) h = cc
    on_merge_head-not_merged failure (ok out, after) h =
        on_abort-not_merged failure (call committer git request abort_merge after) h

    on_merge_commit-named :
        (done : R) (answer : Result GitFailure Text × R)
        → call committer git request head_commit done ≡ answer
        → on_merge_commit committer git request answer ≡ (ok (merged sha), final)
        → (out : Text) × (call committer git request head_commit done ≡ (ok out, final))
          × (trim out ≡ sha)
          × (is_git_object_id sha ≡ true)
    unfolding on_merge_commit
    on_merge_commit-named done (err failure, after) p h = cc
    on_merge_commit-named done (ok out, after) p h =
        elim (Bool-cases (is_git_object_id (trim out))) [
          | inl t ↦
              let given : ◌≡◌ {A = Answer R} (ok (merged (trim out)), after)
                  (ok (merged sha), final) =
                rw (on_merge_commit, t) at h in
              let same : trim out ≡ sha = cc in
              let left : after ≡ final = cc in (out, p ∙ rw left refl, same, rw (← same) t)
          | inr f ↦
              let given : ◌≡◌ {A = Answer R} (err invalid_merge_object_id, after)
                  (ok (merged sha), final) =
                rw (on_merge_commit, f) at h in
              cc
        ]

    on_merge-merged :
        (answer : Result GitFailure Text × R)
        → on_merge committer git request answer ≡ (ok (merged sha), final)
        → (output : Text) × (done : R) × (answer ≡ (ok output, done))
          × ((out : Text) × (call committer git request head_commit done ≡ (ok out, final))
              × (trim out ≡ sha)
              × (is_git_object_id sha ≡ true))
    unfolding on_merge
    on_merge-merged (err failure, after) h =
        on_merge_head-not_merged failure (call committer git request merge_head after) h
    on_merge-merged (ok out, after) h = (
      out,
      after,
      refl,
      on_merge_commit-named after (call committer git request head_commit after) refl h,
    )

    on_count-IsCounted :
        (tested : R) (answer : Result GitFailure Text × R)
        → call committer git request (count_commits request.base_sha request.branch_sha) tested
          ≡ answer
        → on_count committer git request answer ≡ (ok (merged sha), final)
        → IsCounted tested sha final
    unfolding on_count merge_counted
    on_count-IsCounted tested (err failure, after) p h = cc
    on_count-IsCounted tested (ok out, after) p h = elim (Bool-cases (trim out == lit "0")) [
      | inl z ↦
          let given : ◌≡◌ {A = Answer R} (ok empty, after) (ok (merged sha), final) =
            rw (on_count, merge_counted, z) at h in
          cc
      | inr n ↦ elim (Bool-cases (is_decimal (trim out))) [
        | inl d ↦
            let (output, done, told, (head, read, same, valid)) =
              on_merge-merged
                (call committer git request (merge request.branch request.branch_sha) after)
                (rw (on_count, merge_counted, n, d) at h) in
            record {
              counted = out;
              ready_to_merge = after;
              read_count = p;
              some_commits = n;
              number = d;
              output = output;
              done = done;
              succeeded = told;
              head = head;
              read_sha = read;
              is_sha = same;
              valid_sha = valid;
            }
        | inr f ↦
            let given : ◌≡◌ {A = Answer R} (err invalid_commit_count, after)
                (ok (merged sha), final) =
              rw (on_count, merge_counted, n, f) at h in
            cc
      ]
    ]

    on_base-told :
        (branch head : Text) (inspected : R) (answer : Result GitFailure Text × R)
        → call committer git request (is_ancestor request.base_sha (lit "HEAD")) inspected ≡ answer
        → on_base committer git request branch head (on_ancestor committer git request answer)
          ≡ (ok (merged sha), final)
        → (told : Text) × (tested : R) × (call committer git request
              (is_ancestor request.base_sha (lit "HEAD"))
              inspected
            ≡ (ok told, tested))
          × IsCounted tested sha final
    unfolding on_base
    on_base-told branch head inspected (ok told, after) p h = (
      told,
      after,
      p,
      on_count-IsCounted after
          (call committer git request (count_commits request.base_sha request.branch_sha) after)
          refl h,
    )
    on_base-told branch head inspected (err failure, after) p h =
        elim (Bool-cases (option_eq failure.status (some 1))) [
          | inl t ↦
              let given : ◌≡◌ {A = Answer R}
                  (ok (diverged (diverged_detail committer git request branch head)), after)
                  (ok (merged sha), final) =
                rw (on_base, t) at h in
              cc
          | inr f ↦
              let given : ◌≡◌ {A = Answer R}
                  (ok (diverged (diverged_detail committer git request branch head)), after)
                  (ok (merged sha), final) =
                rw (on_base, f) at h in
              cc
        ]

    on_target-IsMerge :
        (repo : R) (answer : Result MergeError PipelineMergeTarget × R)
        → inspect_pipeline_merge_target committer git request repo ≡ answer
        → is_git_object_id request.branch_sha ≡ true
        → on_target committer git request answer ≡ (ok (merged sha), final)
        → IsMerge repo sha final
    unfolding on_target is_pipeline_base_ancestor inspect_pipeline_merge_target
    on_target-IsMerge repo (err e, after) p t h = cc
    on_target-IsMerge repo (ok target_busy, after) p t h = cc
    on_target-IsMerge repo (ok (ready branch head), after) p t h =
        let (told, tested, descends, counting) =
          on_base-told branch head after
            (call committer git request (is_ancestor request.base_sha (lit "HEAD")) after) refl h in
        record {
          valid_branch_sha = t;
          branch = branch;
          inspected = after;
          free =
              inspect-IsFree repo branch head (call committer git request current_branch repo) refl
                p;
          told = told;
          tested = tested;
          descends = descends;
          counting = counting;
        }

  -- Where a merge is reported, the branch was named by a valid object id, and the run consists of these commands,
  -- each of which succeeded on the repository that the one before it left: the checked-out branch is read, its
  -- tree is not busy, its head is valid, the base is an ancestor of it, the range has a number of commits that
  -- is not zero, git merges the branch, and the head then read is the reported, valid object id.
  pub merge_pipeline_branch-IsMerge :
      (sha : Text) (repo final : R)
      → merge_pipeline_branch committer git request repo ≡ (ok (merged sha), final)
      → IsMerge repo sha final
  unfolding merge_pipeline_branch
  merge_pipeline_branch-IsMerge sha repo final h =
      elim (Bool-cases (is_git_object_id request.branch_sha)) [
        | inl t ↦
            on_target-IsMerge repo (inspect_pipeline_merge_target committer git request repo) refl t
              (rw (merge_pipeline_branch, t) at h)
        | inr f ↦
            let given : ◌≡◌ {A = Answer R} (err invalid_branch_object_id, repo)
                (ok (merged sha), final) =
              rw (merge_pipeline_branch, f) at h in
            cc
      ]
