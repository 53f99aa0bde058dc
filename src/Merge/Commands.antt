-- ===== src/Merge/Commands.antt =====
-- src/server/shared/git.ts and src/server/task-board/collaborators/pipeline-merge.ts: the git
-- commands, their arguments, and the tests on what git prints.
use nexus_seventeen.Prelude.{
  ℕ, Bool, not, ◌&&◌, ◌||◌, List, [], ◌∷◌, ◌++◌, Option, Text, lit, all, length, take, is_nil,
  nat_eq, leb, trim, eq_text,
}

-- The failure that a git runner throws: an `Error` with what the child process left. An absent
-- `stderr` or `stdout` is the empty text.
pub record GitFailure : Type 0 where
  pub status : Option ℕ
  pub stderr : Text
  pub stdout : Text
  pub message : Text

pub data GitCommand : Type 0 where
  current_branch status_porcelain head_commit merge_head abort_merge : GitCommand
  is_ancestor count_commits : Text → Text → GitCommand
  verify_commit : Text → GitCommand
  merge : Text → Text → GitCommand

unfoldable pub command_arguments : GitCommand → List Text
unfolding lit
command_arguments current_branch = lit "rev-parse" ∷ lit "--abbrev-ref" ∷ lit "HEAD" ∷ []
command_arguments status_porcelain = lit "status" ∷ lit "--porcelain" ∷ lit "-z" ∷ []
command_arguments head_commit = lit "rev-parse" ∷ lit "HEAD" ∷ []
command_arguments merge_head = lit "rev-parse" ∷ lit "--verify" ∷ lit "MERGE_HEAD" ∷ []
command_arguments abort_merge = lit "merge" ∷ lit "--abort" ∷ []
command_arguments (is_ancestor base target) =
    lit "merge-base" ∷ lit "--is-ancestor" ∷ base ∷ target ∷ []
command_arguments (count_commits base sha) =
    lit "rev-list" ∷ lit "--count" ∷ (base ++ lit ".." ++ sha) ∷ []
command_arguments (verify_commit branch) =
    lit "rev-parse" ∷ lit "--verify" ∷ (branch ++ lit "^{commit}") ∷ []
command_arguments (merge branch sha) =
    lit "merge"
    ∷ lit "--no-ff"
    ∷ lit "--no-edit"
    ∷ lit "-m"
    ∷ (lit "Merge branch '" ++ branch ++ lit "'")
    ∷ sha
    ∷ []

-- `BOARD_COMMITTER_NAME` and `BOARD_COMMITTER_EMAIL`, which the environment may set.
pub record Committer : Type 0 where
  pub name : Text
  pub email : Text

-- `GIT_POLICY_FLAGS`
unfoldable pub git_policy_flags : Committer → List Text
unfolding lit
git_policy_flags committer =
    lit "-c"
    ∷ lit "core.fsmonitor="
    ∷ lit "-c"
    ∷ lit "core.hooksPath="
    ∷ lit "-c"
    ∷ (lit "user.name=" ++ committer.name)
    ∷ lit "-c"
    ∷ (lit "user.email=" ++ committer.email)
    ∷ lit "-c"
    ∷ lit "safe.directory=*"
    ∷ []

-- `gitArguments`
unfoldable pub git_arguments : Committer → Text → List Text → List Text
unfolding git_policy_flags lit
git_arguments committer repo_path arguments =
    git_policy_flags committer ++ lit "-C" ∷ repo_path ∷ arguments

abbrev is_digit : ℕ → Bool
is_digit c = leb b'0' c && leb c b'9'

abbrev is_hex : ℕ → Bool
is_hex c = is_digit c || leb b'a' c && leb c b'f'

-- `GIT_OBJECT_ID_PATTERN`
unfoldable pub is_git_object_id : Text → Bool
unfolding all
is_git_object_id text = all is_hex text && (nat_eq (length text) 40 || nat_eq (length text) 64)

-- `/^\d+$/u`
unfoldable pub is_decimal : Text → Bool
unfolding all is_nil
is_decimal text = not (is_nil text) && all is_digit text

abbrev pub summary_limit : ℕ
summary_limit = 2000

abbrev first_given : List Text → Text → Text
first_given [] default = default
first_given (t ∷ ts) default = elim t [ [] ↦ first_given ts default | c ∷ cs ↦ c ∷ cs ]

-- `mergeErrorDetail` on a `GitFailure`.
unfoldable pub merge_error_detail : GitFailure → Text
unfolding trim lit
merge_error_detail failure = take summary_limit (
    first_given (trim failure.stderr ∷ trim failure.stdout ∷ trim failure.message ∷ [])
      (lit "Git could not merge the pipeline branch."))
