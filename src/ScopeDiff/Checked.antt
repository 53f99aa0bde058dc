-- ===== src/ScopeDiff/Checked.antt =====
-- src/server/shared/scope-check.ts: what `checkDeclaredScope` says of the files that git prints.
use nexus_seventeen.Prelude.{
  ℕ, ◌≡◌, ◌↔◌, refl, Bool, true, false, not, ◌&&◌, List, [], ◌∷◌, ◌++◌, map, Text, any, all, keep,
  is_nil, nat_eq, has_no, split_on, split_on-append, if◌then◌else◌, Result, ok, err, arith,
  Bool-cases, inl, inr, ap, subst, sym, ◌∙◌, ok-injective,
}
use mathlib.Core.List.{Memᴰ}
use nexus_seventeen.Contract.{
  strip_slashes, ScopeError, empty_path_prefix, ScopeCheck, within_scope, normalize_declared_scope,
  check_declared_scope_paths,
}
use nexus_seventeen.Contract.ScopeLaws.{Covers, check_declared_scope_paths_iff}
use nexus_seventeen.Merge.{Committer, git_arguments, GitTextRunner}
use nexus_seventeen.ScopeDiff.{
  ScopeRequest, changed_files, diff_arguments, refuse, check_declared_scope,
}

-- What `git diff -z` prints: every path with a NUL behind it.
unfoldable pub printed : List Text → Text
printed [] = []
printed (file ∷ files) = file ++ 0 ∷ printed files

abbrev pub is_path : Text → Bool
is_path file = not (is_nil file) && has_no 0 file

changed_files-printed :
    (files : List Text) → all is_path files ≡ true → changed_files (printed files) ≡ files
unfolding changed_files printed all keep is_nil split_on
changed_files-printed [] h = refl
changed_files-printed (file ∷ files) h =
    let ih = changed_files-printed files (ground (arith, h)) in
    let split = split_on-append 0 file (printed files) (ground (arith, h)) in
    let some_text : is_nil file ≡ false = ground (arith, h) in
    let go : keep (λ f. not (is_nil f)) (split_on 0 (file ++ 0 ∷ printed files)) ≡ file ∷ files =
      rw (split, some_text) (ap (λ xs. file ∷ xs) ih) in
    go

abbrev strip_step : ℕ → Text → Text
unfolding is_nil
strip_step c rest = if is_nil rest then (if nat_eq c b'/' then [] else c ∷ []) else c ∷ rest

strip_slashes-strip_step :
    (c : ℕ) (rest : Text)
    → strip_slashes rest ≡ rest
    → strip_slashes (strip_step c rest) ≡ strip_step c rest
unfolding strip_slashes is_nil strip_step
strip_slashes-strip_step c [] h = ground arith
strip_slashes-strip_step c (r ∷ rest) h = ap (strip_step c) h

strip_slashes-strip_slashes : (t : Text) → strip_slashes (strip_slashes t) ≡ strip_slashes t
unfolding strip_slashes is_nil strip_step
strip_slashes-strip_slashes [] = refl
strip_slashes-strip_slashes (c ∷ cs) =
    strip_slashes-strip_step c (strip_slashes cs) (strip_slashes-strip_slashes cs)

map-strip_slashes :
    (ts : List Text) → map strip_slashes (map strip_slashes ts) ≡ map strip_slashes ts
map-strip_slashes [] = refl
map-strip_slashes (t ∷ ts) = rw (strip_slashes-strip_slashes t, map-strip_slashes ts) refl

normalize_declared_scope-ok :
    (declared normalized : List Text)
    → normalize_declared_scope declared ≡ ok normalized
    → normalize_declared_scope normalized ≡ ok normalized
unfolding normalize_declared_scope
normalize_declared_scope-ok declared normalized h =
    elim (Bool-cases (any is_nil (map strip_slashes declared))) [
      | inl t ↦
          let refused : ◌≡◌ {A = Result ScopeError (List Text)} (err empty_path_prefix)
              (ok normalized) =
            rw (normalize_declared_scope, t) at h in
          cc
      | inr f ↦
          let read : ◌≡◌ {A = Result ScopeError (List Text)} (ok (map strip_slashes declared))
              (ok normalized) =
            rw (normalize_declared_scope, f) at h in
          subst (λ xs. normalize_declared_scope xs ≡ ok xs) (ok-injective read)
            (rw (normalize_declared_scope, map-strip_slashes declared, f) refl)
    ]

refuse-ok : (r : Result ScopeError ScopeCheck) → refuse r ≡ ok within_scope → r ≡ ok within_scope
refuse-ok (ok check) h = ap ok (ok-injective h)
refuse-ok (err e) h = cc

module _ {R : Type 0} (committer : Committer) (git : GitTextRunner R) (request : ScopeRequest)
    (repo repo_after : R) where
  from_check :
      (files normalized : List Text)
      → check_declared_scope committer git request repo
        ≡ (refuse (check_declared_scope_paths files normalized), repo_after)
      → normalize_declared_scope normalized ≡ ok normalized
      → (check_declared_scope committer git request repo ≡ (ok within_scope, repo_after))
        ↔ ((file : Text) → Memᴰ file files → Covers normalized file)
  from_check files normalized e stable =
      let within = check_declared_scope_paths_iff files normalized normalized stable in
      (
        λ h.
            within.0
              (refuse-ok (check_declared_scope_paths files normalized) (ap (λ r. r.0) (sym e ∙ h))),
        λ every. e ∙ ap (λ r. (refuse r, repo_after)) (within.1 every),
      )

  -- When the declared scope is valid and git prints the changed files of the branch, the check accepts
  -- the branch exactly when the scope covers each of the files.
  pub check_declared_scope_iff :
      (files normalized : List Text)
      → normalize_declared_scope request.declared_scope ≡ ok normalized
      → all is_path files ≡ true
      → git (git_arguments committer request.repo_path (diff_arguments request)) repo
        ≡ (ok (printed files), repo_after)
      → (check_declared_scope committer git request repo ≡ (ok within_scope, repo_after))
        ↔ ((file : Text) → Memᴰ file files → Covers normalized file)
  unfolding check_declared_scope
  check_declared_scope_iff files normalized read paths diff =
      let run : check_declared_scope committer git request repo
          ≡ (refuse (check_declared_scope_paths files normalized), repo_after) =
        rw (check_declared_scope, read, diff, changed_files-printed files paths) refl in
      from_check files normalized run
        (normalize_declared_scope-ok request.declared_scope normalized read)
