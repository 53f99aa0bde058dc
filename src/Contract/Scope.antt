-- ===== src/Contract/Scope.antt =====
-- src/shared/task-board-contract/index.ts and src/server/shared/scope-check.ts: declared scopes are
-- path prefixes; two scopes overlap when one covers a path of the other.
use nexus_seventeen.Prelude.{
  Bool, true, false, ◌||◌, List, [], ◌∷◌, ◌++◌, map, Text, text_eq, starts_with, nat_eq, any, keep,
  is_nil, if◌then◌else◌, Result, ok, err, ◌>>=◌, ◌==◌, eq_text,
}

-- `prefix.replace(/\/+$/u, "")`: a slash goes when nothing but slashes follows it.
unfoldable pub strip_slashes : Text → Text
unfolding is_nil
strip_slashes [] = []
strip_slashes (c ∷ cs) =
    let rest = strip_slashes cs in
    if is_nil rest then (if nat_eq c b'/' then [] else c ∷ []) else c ∷ rest

pub data ScopeError : Type 0 where
  empty_path_prefix : ScopeError

unfoldable pub normalize_declared_scope : List Text → Result ScopeError (List Text)
unfolding strip_slashes any is_nil
normalize_declared_scope declared_scope =
    let normalized = map strip_slashes declared_scope in
    if any is_nil normalized then err empty_path_prefix else ok normalized

-- `file === prefix || file.startsWith(`${prefix}/`)`
unfoldable pub covers_path : Text → Text → Bool
unfolding text_eq starts_with
covers_path prefix file = file == prefix || starts_with file (prefix ++ b'/' ∷ [])

unfoldable pub declared_scopes_overlap : List Text → List Text → Result ScopeError Bool
unfolding normalize_declared_scope covers_path any
declared_scopes_overlap a b = do
  normalized_a ← normalize_declared_scope a
  normalized_b ← normalize_declared_scope b
  ok (
      any
        (λ x.
          any (λ y. x == y || starts_with x (y ++ b'/' ∷ []) || starts_with y (x ++ b'/' ∷ []))
            normalized_b)
        normalized_a)

pub data ScopeCheck : Type 0 where
  within_scope : ScopeCheck
  outside_scope : List Text → ScopeCheck

unfoldable pub check_declared_scope_paths : List Text → List Text → Result ScopeError ScopeCheck
unfolding normalize_declared_scope covers_path any keep is_nil
check_declared_scope_paths files declared_scope = do
  normalized_scope ← normalize_declared_scope declared_scope
  let outside =
      keep
        (λ file. if any (λ prefix. covers_path prefix file) normalized_scope then false else true)
        files
  ok (if is_nil outside then within_scope else outside_scope outside)
