-- ===== src/Contract/ScopeLaws.antt =====
-- src/shared/task-board-contract/index.ts and src/server/shared/scope-check.ts: what the overlap
-- test and the diff check say of the paths that a scope covers.
use nexus_seventeen.Prelude.{
  ◌≡◌, ◌↔◌, refl, sym, ap, subst, ◌∙◌, inl, inr, Bool, true, false, ◌||◌, List, [], ◌∷◌, ◌++◌,
  arith, Text, text_eq, text_eq_iff, starts_with, nat_eq_iff, any, any-of_true, any-mem, keep,
  keep-mem, is_nil, if◌then◌else◌, Result, ok, ok-injective, ◌==◌, eq_text, Bool-cases,
}
use mathlib.Core.List.{Memᴰ}
use nexus_seventeen.Contract.{
  ScopeError, normalize_declared_scope, covers_path, declared_scopes_overlap, ScopeCheck,
  within_scope, outside_scope, check_declared_scope_paths,
}

abbrev slashed : Text → Text
slashed x = x ++ b'/' ∷ []

-- A path that one normalised prefix of the scope covers.
abbrev pub Covers : List Text → Text → Type 0
Covers scope path = any (λ prefix. covers_path prefix path) scope ≡ true

abbrev meets : Text → Text → Bool
meets x y = x == y || starts_with x (slashed y) || starts_with y (slashed x)

-- Two directories above one path are the same, or one is above the other.
slashed_compare :
    (x y p : Text)
    → starts_with p (slashed x) ≡ true
    → starts_with p (slashed y) ≡ true
    → meets x y ≡ true
unfolding starts_with text_eq
slashed_compare [] [] p h k = refl
slashed_compare [] (d ∷ y) [] h k = cc
slashed_compare [] (d ∷ y) (c ∷ p) h k =
    ground (arith, nat_eq_iff c d, nat_eq_iff c b'/', nat_eq_iff d b'/')
slashed_compare (c ∷ x) [] [] h k = cc
slashed_compare (c ∷ x) [] (d ∷ p) h k =
    ground (arith, nat_eq_iff d c, nat_eq_iff d b'/', nat_eq_iff c b'/')
slashed_compare (c ∷ x) (d ∷ y) [] h k = cc
slashed_compare (c ∷ x) (d ∷ y) (q ∷ p) h k =
    ground
      (arith, slashed_compare x y p, nat_eq_iff q c, nat_eq_iff q d, nat_eq_iff c d, nat_eq_iff d c)

covers-meets : (x y p : Text) → covers_path x p ≡ true → covers_path y p ≡ true → meets x y ≡ true
unfolding covers_path
covers-meets x y p h k = elim (Bool-cases (text_eq p x)) [
  | inl e ↦ elim (Bool-cases (text_eq p y)) [
    | inl f ↦ ground (arith, text_eq_iff p x, text_eq_iff p y, text_eq_iff x y)
    | inr f ↦
        let same : p ≡ x = (text_eq_iff p x).0 e in
        let below : starts_with x (slashed y) ≡ true = rw (← same) (ground arith) in
        ground (arith, below)
  ]
  | inr e ↦ elim (Bool-cases (text_eq p y)) [
    | inl f ↦
        let same : p ≡ y = (text_eq_iff p y).0 f in
        let below : starts_with y (slashed x) ≡ true = rw (← same) (ground arith) in
        ground (arith, below)
    | inr f ↦ slashed_compare x y p (ground arith) (ground arith)
  ]
]

covers_path_refl : (x : Text) → covers_path x x ≡ true
unfolding covers_path
covers_path_refl x = ground (arith, text_eq_iff x x)

meets-covers :
    (x y : Text)
    → meets x y ≡ true
    → (p : Text) × (covers_path x p ≡ true) × (covers_path y p ≡ true)
unfolding covers_path
meets-covers x y h = elim (Bool-cases (starts_with y (slashed x))) [
  | inl e ↦ (y, ground (arith, e), covers_path_refl y)
  | inr e ↦ (x, covers_path_refl x, ground (arith, e, text_eq_iff x y, text_eq_iff x x))
]

module _ (a b normalized_a normalized_b : List Text)
    (read_a : normalize_declared_scope a ≡ ok normalized_a)
    (read_b : normalize_declared_scope b ≡ ok normalized_b) where
  overlap_value :
      declared_scopes_overlap a b ≡ ok (any (λ x. any (meets x) normalized_b) normalized_a)
  unfolding declared_scopes_overlap
  overlap_value = rw (read_a, read_b)

  -- Two scopes overlap exactly when some path is covered by both.
  pub declared_scopes_overlap_iff :
      (declared_scopes_overlap a b ≡ ok true)
      ↔ ((path : Text) × Covers normalized_a path × Covers normalized_b path)
  declared_scopes_overlap_iff = (shared, found)
    where
      shared :
          declared_scopes_overlap a b ≡ ok true
          → (path : Text) × Covers normalized_a path × Covers normalized_b path
      shared h =
          let (x, in_a, h') =
            any-of_true (λ x. any (meets x) normalized_b) normalized_a
              (ok-injective (sym overlap_value ∙ h)) in
          let (y, in_b, both) = any-of_true (meets x) normalized_b h' in
          let (p, of_x, of_y) = meets-covers x y both in
          (p, any-mem _ normalized_a in_a of_x, any-mem _ normalized_b in_b of_y)

      found :
          (path : Text) × Covers normalized_a path × Covers normalized_b path
          → declared_scopes_overlap a b ≡ ok true
      found (p, of_a, of_b) =
          let (x, in_a, of_x) = any-of_true (λ prefix. covers_path prefix p) normalized_a of_a in
          let (y, in_b, of_y) = any-of_true (λ prefix. covers_path prefix p) normalized_b of_b in
          rw overlap_value (
            ap ok (
              any-mem _ normalized_a in_a
                (any-mem (meets x) normalized_b in_b (covers-meets x y p of_x of_y))))

keep-none :
    (p : Text → Bool) (xs : List Text) → ((x : Text) → Memᴰ x xs → p x ≡ false) → keep p xs ≡ []
unfolding keep
keep-none p [] h = refl
keep-none p (x ∷ xs) h = rw (h x (Memᴰ.head refl)) (keep-none p xs (λ y m. h y (Memᴰ.tail m)))

keep-every :
    (p : Text → Bool) (xs : List Text) → ((x : Text) → Memᴰ x xs → p x ≡ true) → keep p xs ≡ xs
unfolding keep
keep-every p [] h = refl
keep-every p (x ∷ xs) h =
    rw (h x (Memᴰ.head refl)) (ap (λ ys. x ∷ ys) (keep-every p xs (λ y m. h y (Memᴰ.tail m))))

abbrev outside : List Text → Text → Bool
outside normalized file = if any (λ prefix. covers_path prefix file) normalized then false else true

abbrev verdict : List Text → ScopeCheck
verdict files = if is_nil files then within_scope else outside_scope files

verdict-within :
    (files : List Text)
    → ◌≡◌ {A = Result ScopeError ScopeCheck} (ok (verdict files)) (ok within_scope)
    → files ≡ []
unfolding is_nil
verdict-within [] h = refl
verdict-within (f ∷ fs) h = cc

-- The diff check passes exactly the diffs whose every file is covered by the declared scope.
pub check_declared_scope_paths_iff :
    (files declared_scope normalized : List Text)
    → normalize_declared_scope declared_scope ≡ ok normalized
    → (check_declared_scope_paths files declared_scope ≡ ok within_scope)
      ↔ ((file : Text) → Memᴰ file files → Covers normalized file)
unfolding check_declared_scope_paths is_nil
check_declared_scope_paths_iff files declared_scope normalized read = (every, passes)
  where
    every :
        check_declared_scope_paths files declared_scope ≡ ok within_scope
        → (file : Text) → Memᴰ file files
        → Covers normalized file
    every h file m = elim (Bool-cases (any (λ prefix. covers_path prefix file) normalized)) [
      | inl e ↦ e
      | inr e ↦
          let none_outside : keep (outside normalized) files ≡ [] =
            verdict-within _ (rw (check_declared_scope_paths, read) at h) in
          elim (subst (λ xs. Memᴰ file xs) none_outside
            (keep-mem (outside normalized) files m (rw e refl))) [ ]
    ]

    passes :
        ((file : Text) → Memᴰ file files → Covers normalized file)
        → check_declared_scope_paths files declared_scope ≡ ok within_scope
    passes h =
        let none_outside : keep (outside normalized) files ≡ [] =
          keep-none _ files (λ f m. rw (h f m) refl) in
        rw (read, none_outside) refl

-- Of two scopes that do not overlap, a diff within one has every file outside the other.
pub disjoint-outside :
    (a b normalized_a normalized_b : List Text)
    → normalize_declared_scope a ≡ ok normalized_a
    → normalize_declared_scope b ≡ ok normalized_b
    → declared_scopes_overlap a b ≡ ok false
    → (file : Text) (rest : List Text)
    → check_declared_scope_paths (file ∷ rest) a ≡ ok within_scope
    → check_declared_scope_paths (file ∷ rest) b ≡ ok (outside_scope (file ∷ rest))
unfolding check_declared_scope_paths is_nil
disjoint-outside a b normalized_a normalized_b read_a read_b disjoint file rest within =
    let everything : keep (outside normalized_b) (file ∷ rest) ≡ file ∷ rest =
      keep-every _ (file ∷ rest) uncovered in
    rw (read_b, everything) refl
  where
    uncovered : (f : Text) → Memᴰ f (file ∷ rest) → outside normalized_b f ≡ true
    uncovered f m = elim (Bool-cases (any (λ prefix. covers_path prefix f) normalized_b)) [
      | inl e ↦
          let of_a =
            (check_declared_scope_paths_iff (file ∷ rest) a normalized_a read_a).0 within f m in
          let overlap =
            (declared_scopes_overlap_iff a b normalized_a normalized_b read_a read_b).1
              (f, of_a, e) in
          let clash : ◌≡◌ {A = Result ScopeError Bool} (ok true) (ok false) =
            sym overlap ∙ disjoint in
          let clash' : true ≡ false = ok-injective clash in cc
      | inr e ↦ rw e refl
    ]
