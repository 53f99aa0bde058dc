-- ===== src/Contract/Tests.antt =====
-- Concrete declared scopes for src/shared/task-board-contract/index.ts and
-- src/server/shared/scope-check.ts: `a/` and `a/c` overlap, `a` and `b` do not.
use nexus_seventeen.Prelude.{
  ◌≡◌, ◌↔◌, refl, true, false, [], ◌∷◌, Text, text_eq, starts_with, any, keep, is_nil, ok,
}
use mathlib.Core.List.{Memᴰ}
use nexus_seventeen.Contract.{
  strip_slashes, normalize_declared_scope, covers_path, declared_scopes_overlap,
  check_declared_scope_paths, within_scope, outside_scope,
}
use nexus_seventeen.Contract.ScopeLaws.{
  Covers, declared_scopes_overlap_iff, check_declared_scope_paths_iff, disjoint-outside,
}

abbrev dir_a : Text
dir_a = b'a' ∷ []

abbrev dir_a_slash : Text
dir_a_slash = b'a' ∷ b'/' ∷ []

abbrev dir_b : Text
dir_b = b'b' ∷ []

abbrev file_ac : Text
file_ac = b'a' ∷ b'/' ∷ b'c' ∷ []

normal_a : normalize_declared_scope (dir_a_slash ∷ []) ≡ ok (dir_a ∷ [])
unfolding normalize_declared_scope strip_slashes any is_nil
normal_a = refl

normal_b : normalize_declared_scope (dir_b ∷ []) ≡ ok (dir_b ∷ [])
unfolding normalize_declared_scope strip_slashes any is_nil
normal_b = refl

normal_ac : normalize_declared_scope (file_ac ∷ []) ≡ ok (file_ac ∷ [])
unfolding normalize_declared_scope strip_slashes any is_nil
normal_ac = refl

apart : declared_scopes_overlap (dir_a_slash ∷ []) (dir_b ∷ []) ≡ ok false
unfolding declared_scopes_overlap normalize_declared_scope strip_slashes any is_nil text_eq
    starts_with
apart = refl

within : check_declared_scope_paths (file_ac ∷ []) (dir_a_slash ∷ []) ≡ ok within_scope
unfolding check_declared_scope_paths normalize_declared_scope strip_slashes any is_nil text_eq
    starts_with covers_path keep
within = refl

declared_scopes_overlap_iff_example :
    (declared_scopes_overlap (dir_a_slash ∷ []) (file_ac ∷ []) ≡ ok true)
    ↔ ((path : Text) × Covers (dir_a ∷ []) path × Covers (file_ac ∷ []) path)
declared_scopes_overlap_iff_example =
    declared_scopes_overlap_iff (dir_a_slash ∷ []) (file_ac ∷ []) (dir_a ∷ []) (file_ac ∷ [])
      normal_a normal_ac

check_declared_scope_paths_iff_example :
    (check_declared_scope_paths (file_ac ∷ []) (dir_a_slash ∷ []) ≡ ok within_scope)
    ↔ ((file : Text) → Memᴰ file (file_ac ∷ []) → Covers (dir_a ∷ []) file)
check_declared_scope_paths_iff_example =
    check_declared_scope_paths_iff (file_ac ∷ []) (dir_a_slash ∷ []) (dir_a ∷ []) normal_a

disjoint-outside_example :
    check_declared_scope_paths (file_ac ∷ []) (dir_b ∷ []) ≡ ok (outside_scope (file_ac ∷ []))
disjoint-outside_example =
    disjoint-outside (dir_a_slash ∷ []) (dir_b ∷ []) (dir_a ∷ []) (dir_b ∷ []) normal_a normal_b
      apart file_ac [] within
