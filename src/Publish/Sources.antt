-- ===== src/Publish/Sources.antt =====
-- src/server/docs-publish/enumerate.ts, src/server/docs-publish/exclude.ts and `parseGitTreeEntry` of
-- src/server/shared/git.ts: the Markdown files of one commit that a repository publishes.
use nexus_seventeen.Prelude.{
  ℕ, ◌-◌, Bool, false, not, ◌&&◌, ◌||◌, List, [], ◌∷◌, ◌++◌, Option, none, some, Text, lit, any,
  all, keep, is_nil, length, take, leb, nat_eq, starts_with, trim, split_on, if◌then◌else◌, Result,
  ok, err, ◌>>=◌, ◌==◌, eq_text,
}
use nexus_seventeen.Merge.{GitFailure, Committer, git_arguments, is_git_object_id, GitTextRunner}

pub record DocSource : Type 0 where
  pub path : Text
  pub title : Text
  pub markdown : Text
  pub blob_sha : Text

pub record GitTreeEntry : Type 0 where
  pub mode : Text
  pub kind : Text
  pub sha : Text
  pub path : Text

-- What is thrown, as data in place of the line that `errorDetail` prints of it.
pub data EnumerateError : Type 0 where
  exclude_invalid : Text → EnumerateError
  malformed_entry : Text → EnumerateError
  invalid_sha : Text → EnumerateError
  git_failed : GitFailure → EnumerateError

-- The two sides of the first `c`, where `indexOf` finds one.
abbrev with_first : ℕ → Option (Text × Text) → Option (Text × Text)
with_first c none = none
with_first c (some (left, right)) = some (c ∷ left, right)

unfoldable pub cut : ℕ → Text → Option (Text × Text)
cut c [] = none
cut c (d ∷ text) =
    let rest = cut c text in if nat_eq d c then some ([], text) else with_first d rest

abbrev is_octal : ℕ → Bool
is_octal c = leb b'0' c && leb c b'7'

abbrev is_lower : ℕ → Bool
is_lower c = leb b'a' c && leb c b'z'

unfoldable pub checked_entry : GitTreeEntry → Option GitTreeEntry
unfolding all is_nil is_git_object_id
checked_entry e =
    if nat_eq (length e.mode) 6
      && all is_octal e.mode
      && not (is_nil e.kind)
      && all is_lower e.kind
      && is_git_object_id e.sha
      && not (is_nil e.path)
    then some e
    else none

abbrev after_kind : Text → Text → Option (Text × Text) → Option GitTreeEntry
after_kind mode kind none = none
after_kind mode kind (some (sha, path)) =
    checked_entry (record { mode = mode; kind = kind; sha = sha; path = path })

abbrev after_mode : Text → Option (Text × Text) → Option GitTreeEntry
after_mode mode none = none
after_mode mode (some (kind, rest)) = after_kind mode kind (cut 9 rest)

abbrev after_entry : Option (Text × Text) → Option GitTreeEntry
after_entry none = none
after_entry (some (mode, rest)) = after_mode mode (cut 32 rest)

-- `parseGitTreeEntry`
unfoldable pub parse_git_tree_entry : Text → Option GitTreeEntry
unfolding cut checked_entry
parse_git_tree_entry entry = after_entry (cut 32 entry)

abbrev ends_with_glob : Text → Bool
unfolding starts_with lit
ends_with_glob (a ∷ b ∷ c ∷ []) = (a ∷ b ∷ c ∷ []) == lit "/**"
ends_with_glob [] = false
ends_with_glob (a ∷ rest) = ends_with_glob rest

abbrev is_control_character : ℕ → Bool
is_control_character c = leb c 0x1f || nat_eq c 0x7f

-- `GLOB_CHARACTER`
abbrev is_glob : ℕ → Bool
unfolding lit any
is_glob c = any (nat_eq c) (lit "*?[]{}()!\\")

abbrev ends_with_slash : Text → Bool
ends_with_slash [] = false
ends_with_slash (c ∷ []) = nat_eq c b'/'
ends_with_slash (c ∷ d ∷ rest) = ends_with_slash (d ∷ rest)

abbrev is_bad_segment : Text → Bool
unfolding is_nil lit
is_bad_segment segment = is_nil segment || segment == lit "." || segment == lit ".."

unfoldable pub is_bad_prefix : Text → Bool
unfolding is_nil starts_with any split_on lit
is_bad_prefix prefix =
    is_nil prefix
    || starts_with prefix (lit "/")
    || ends_with_slash prefix
    || any is_glob prefix
    || any is_bad_segment (split_on b'/' prefix)

-- `validateExcludePattern` of a text, with the prefix that its callers cut off.
unfoldable pub exclude_prefix : Text → Result EnumerateError Text
unfolding is_nil trim any is_bad_prefix
exclude_prefix value =
    let prefix = take (length value - 3) value in
    if is_nil value
      || not (leb (length value) 1024)
      || not (trim value == value)
      || any is_control_character value
      || not (ends_with_glob value)
      || is_bad_prefix prefix
    then err (exclude_invalid value)
    else ok prefix

unfoldable pub exclude_prefixes : List Text → Result EnumerateError (List Text)
unfolding exclude_prefix
exclude_prefixes [] = ok []
exclude_prefixes (pattern ∷ patterns) =
    let rest = exclude_prefixes patterns in
    do prefix ← exclude_prefix pattern; prefixes ← rest; ok (prefix ∷ prefixes)

abbrev is_markdown : Text → Bool
unfolding lit
is_markdown (a ∷ b ∷ c ∷ []) = (a ∷ b ∷ c ∷ []) == lit ".md"
is_markdown [] = false
is_markdown (a ∷ rest) = is_markdown rest

-- `isDocSourcePath`
unfoldable pub is_doc_source_path : Text → Bool
unfolding starts_with lit
is_doc_source_path path =
    path == lit "README.md" || starts_with path (lit "docs/") && is_markdown path

unfoldable pub is_excluded : List Text → Text → Bool
unfolding any starts_with
is_excluded prefixes path = any (λ prefix. starts_with path (prefix ++ b'/' ∷ [])) prefixes

-- The entries that are parsed, that are blobs, and that the publisher wants.
abbrev with_entry : List Text → GitTreeEntry → List GitTreeEntry → List GitTreeEntry
unfolding lit
with_entry prefixes e entries =
    if e.kind == lit "blob" && is_doc_source_path e.path && not (is_excluded prefixes e.path)
    then e ∷ entries
    else entries

unfoldable pub tree_entries : List Text → List Text → Result EnumerateError (List GitTreeEntry)
unfolding parse_git_tree_entry is_doc_source_path is_excluded
tree_entries prefixes [] = ok []
tree_entries prefixes (line ∷ lines) =
    let rest = tree_entries prefixes lines in
    elim (parse_git_tree_entry line) [
      | none ↦ err (malformed_entry line)
      | some e ↦ do entries ← rest; ok (with_entry prefixes e entries)
    ]

module _ {R : Type 0} (committer : Committer) (git : GitTextRunner R) (repo_path ref : Text) where
  abbrev doc_of : GitTreeEntry → Text → DocSource
  doc_of e markdown = record {
    path = e.path;
    title = e.path;
    markdown = markdown;
    blob_sha = e.sha;
  }

  abbrev with_source :
      DocSource
      → Result EnumerateError (List DocSource) × R
      → Result EnumerateError (List DocSource) × R
  with_source source (err e, repo) = (err e, repo)
  with_source source (ok sources, repo) = (ok (source ∷ sources), repo)

  -- `entries.map(…)` with the `git show` of each entry.
  unfoldable pub read_sources : List GitTreeEntry → R → Result EnumerateError (List DocSource) × R
  unfolding lit
  read_sources [] repo = (ok [], repo)
  read_sources (e ∷ entries) repo =
      let (shown, repo') =
        git (git_arguments committer repo_path (lit "show" ∷ (ref ++ b':' ∷ e.path) ∷ [])) repo in
      elim shown [
        | err failure ↦ (err (git_failed failure), repo')
        | ok markdown ↦ with_source (doc_of e markdown) (read_sources entries repo')
      ]

  abbrev pub on_entries :
      R → Result EnumerateError (List GitTreeEntry) → Result EnumerateError (List DocSource) × R
  on_entries repo (err e) = (err e, repo)
  on_entries repo (ok entries) = read_sources entries repo

  abbrev pub on_tree :
      List Text → Result GitFailure Text × R → Result EnumerateError (List DocSource) × R
  unfolding keep is_nil split_on
  on_tree prefixes (err failure, repo) = (err (git_failed failure), repo)
  on_tree prefixes (ok output, repo) =
      on_entries repo (tree_entries prefixes (keep (λ line. not (is_nil line)) (split_on 0 output)))

  abbrev pub on_prefixes :
      R → Result EnumerateError (List Text) → Result EnumerateError (List DocSource) × R
  unfolding lit
  on_prefixes repo (err e) = (err e, repo)
  on_prefixes repo (ok prefixes) = on_tree prefixes (
      git
        (git_arguments committer repo_path (
          lit "ls-tree" ∷ lit "-r" ∷ lit "-z" ∷ ref ∷ lit "--" ∷ lit "README.md" ∷ lit "docs" ∷ []))
        repo)

  -- `enumerateDocs`
  unfoldable pub enumerate_docs : List Text → R → Result EnumerateError (List DocSource) × R
  unfolding exclude_prefixes tree_entries read_sources
  enumerate_docs exclude repo = on_prefixes repo (exclude_prefixes exclude)
