-- ===== src/ScopeDiff/Tests.antt =====
-- Concrete calls of `checkDeclaredScope` of src/server/shared/scope-check.ts.
use nexus_seventeen.Prelude.{
  ℕ, ◌+◌, all, is_nil, ◌≡◌, ◌↔◌, refl, List, [], ◌∷◌, Text, text_eq, lit, ok,
}
use mathlib.Core.List.{Memᴰ}
use nexus_seventeen.Contract.{
  within_scope, outside_scope, normalize_declared_scope, check_declared_scope_paths,
}
use nexus_seventeen.Contract.ScopeLaws.{Covers}
use nexus_seventeen.Merge.{Committer, GitTextRunner}
use nexus_seventeen.ScopeDiff.{ScopeRequest, check_declared_scope}
use nexus_seventeen.ScopeDiff.Checked.{printed, check_declared_scope_iff}

abbrev committer : Committer
committer = record { name = []; email = [] }

abbrev request : ScopeRequest
unfolding lit
request = record {
  repo_path = lit "/r";
  base_sha = lit "a";
  branch = lit "b";
  declared_scope = lit "src/" ∷ [];
}

abbrev scope : List Text
unfolding lit
scope = lit "src" ∷ []

abbrev inside : List Text
unfolding lit
inside = lit "src/a.ts" ∷ lit "src" ∷ []

abbrev git_inside : GitTextRunner ℕ
unfolding printed
git_inside arguments repo = (ok (printed inside), repo + 1)

abbrev git_outside : GitTextRunner ℕ
unfolding printed lit
git_outside arguments repo = (ok (printed (lit "docs" ∷ inside)), repo + 1)

outside_is_refused :
    check_declared_scope committer git_outside request 0 ≡ (ok (outside_scope (lit "docs" ∷ [])), 1)
unfolding check_declared_scope lit text_eq printed normalize_declared_scope
    check_declared_scope_paths
outside_is_refused = refl

check_declared_scope_iff_example :
    (check_declared_scope committer git_inside request 0 ≡ (ok within_scope, 1))
    ↔ ((file : Text) → Memᴰ file inside → Covers scope file)
unfolding normalize_declared_scope lit text_eq printed all is_nil
check_declared_scope_iff_example =
    check_declared_scope_iff committer git_inside request 0 1 inside scope refl refl refl
