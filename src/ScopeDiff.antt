-- ===== src/ScopeDiff.antt =====
-- src/server/shared/scope-check.ts: `checkDeclaredScope`, which asks git for the files of a task branch
-- and checks them against the declared scope.
pub mod Checked
mod Tests
use nexus_seventeen.Prelude.{
  ℕ, Bool, not, List, [], ◌∷◌, ◌++◌, Text, lit, keep, is_nil, split_on, if◌then◌else◌, Result, ok,
  err,
}
use nexus_seventeen.Contract.{
  ScopeError, ScopeCheck, normalize_declared_scope, check_declared_scope_paths,
}
use nexus_seventeen.Merge.{GitFailure, Committer, git_arguments, GitTextRunner}

pub record ScopeRequest : Type 0 where
  pub repo_path : Text
  pub base_sha : Text
  pub branch : Text
  pub declared_scope : List Text

-- What the function throws.
pub data ScopeCheckError : Type 0 where
  scope_refused : ScopeError → ScopeCheckError
  diff_failed : GitFailure → ScopeCheckError

-- `output.split("\0").filter((file) => file.length > 0)`
unfoldable pub changed_files : Text → List Text
unfolding split_on keep is_nil
changed_files output = keep (λ file. not (is_nil file)) (split_on 0 output)

unfoldable pub diff_arguments : ScopeRequest → List Text
unfolding lit
diff_arguments request =
    lit "diff"
    ∷ lit "--no-renames"
    ∷ lit "--name-only"
    ∷ lit "-z"
    ∷ (request.base_sha ++ lit ".." ++ request.branch)
    ∷ lit "--"
    ∷ []

abbrev pub refuse : Result ScopeError ScopeCheck → Result ScopeCheckError ScopeCheck
refuse (ok check) = ok check
refuse (err e) = err (scope_refused e)

module _ {R : Type 0} (committer : Committer) (git : GitTextRunner R) (request : ScopeRequest) where
  abbrev pub on_diff :
      List Text → Result GitFailure Text × R → Result ScopeCheckError ScopeCheck × R
  on_diff normalized (err failure, repo) = (err (diff_failed failure), repo)
  on_diff normalized (ok output, repo) =
      (refuse (check_declared_scope_paths (changed_files output) normalized), repo)

  abbrev pub on_scope : R → Result ScopeError (List Text) → Result ScopeCheckError ScopeCheck × R
  on_scope repo (err e) = (err (scope_refused e), repo)
  on_scope repo (ok normalized) =
      on_diff normalized
        (git (git_arguments committer request.repo_path (diff_arguments request)) repo)

  -- `checkDeclaredScope`
  unfoldable pub check_declared_scope : R → Result ScopeCheckError ScopeCheck × R
  unfolding changed_files diff_arguments
  check_declared_scope repo = on_scope repo (normalize_declared_scope request.declared_scope)
