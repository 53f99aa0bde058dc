-- ===== src/Verify/Selected.antt =====
-- src/server/agents/verify/mapping.ts: `mapChangedFiles` against a description of what each changed file chosen_entries.
use nexus_seventeen.Prelude.{
  ◌≡◌, refl, sym, ap, ◌∙◌, Bool, true, false, not, ◌&&◌, ◌||◌, List, [], ◌∷◌, ◌++◌, Option, none,
  some, Text, any, keep, contains, if◌then◌else◌, ◌==◌, eq_text, subst, text_eq_iff, Bool-cases,
  inl, inr,
}
use nexus_seventeen.Transition.{text_leb}
use nexus_seventeen.Verify.Mapping.{
  VerifyTier, is_fast, VerifyRuleAction, self, mirror, fixed, colocated, no_tests, escalate,
  VerifyRule, VerifySelection, MappingHost, set_add, set_add_all, dirname, mirror_test_file,
  is_test_file, colocated_test_file, or_empty, no_mirror_note, missing_note, escalate_note, insert,
  sort,
}

pub data Target : Type 0 where
  node_test_file node_test_dir vitest_target escalation unmatched_file : Target

abbrev pub entries : Target → VerifySelection → List Text
entries node_test_file s = s.node_test_files
entries node_test_dir s = s.node_test_dirs
entries vitest_target s = s.vitest_targets
entries escalation s = s.escalations
entries unmatched_file s = s.unmatched

abbrev pub only_if : Bool → Text → List Text
only_if true x = x ∷ []
only_if false x = []

-- What a changed file chosen_entries, target by target.
module _ (tier : VerifyTier) (host : MappingHost) (file : Text) where
  abbrev pub has_mirror : Bool
  has_mirror = is_fast tier && host.file_exists (mirror_test_file file)

  abbrev pub mirror_dir : Text
  mirror_dir = dirname (mirror_test_file file)

  abbrev pub files_of : VerifyRuleAction → List Text
  files_of self = only_if (is_fast tier) file
  files_of mirror = only_if has_mirror (mirror_test_file file)
  files_of (fixed dirs vitest) = []
  files_of (colocated fallback) = []
  files_of no_tests = []
  files_of escalate = []

  abbrev pub dirs_of : VerifyRuleAction → List Text
  dirs_of self = only_if (not (is_fast tier)) (dirname file)
  dirs_of mirror = only_if (not has_mirror && host.directory_exists mirror_dir) mirror_dir
  dirs_of (fixed dirs vitest) = keep host.directory_exists (or_empty dirs)
  dirs_of (colocated fallback) = []
  dirs_of no_tests = []
  dirs_of escalate = []

  abbrev pub test_or : Text → Option Text → Text
  test_or fallback none = fallback
  test_or fallback (some test_file) =
      if is_test_file file || host.file_exists test_file then test_file else fallback

  abbrev pub vitest_of : VerifyRuleAction → List Text
  vitest_of self = []
  vitest_of mirror = []
  vitest_of (fixed dirs vitest) = or_empty vitest
  vitest_of (colocated fallback) =
      (if is_fast tier then test_or fallback (colocated_test_file file) else fallback) ∷ []
  vitest_of no_tests = []
  vitest_of escalate = []

  abbrev pub escalations_of : Text → VerifyRuleAction → List Text
  escalations_of match_glob self = []
  escalations_of match_glob mirror =
      only_if (not has_mirror && not (host.directory_exists mirror_dir)) (no_mirror_note file)
  escalations_of match_glob (fixed dirs vitest) =
      only_if (any (λ dir. not (host.directory_exists dir)) (or_empty dirs)) (missing_note file)
  escalations_of match_glob (colocated fallback) = []
  escalations_of match_glob no_tests = []
  escalations_of match_glob escalate = escalate_note file match_glob ∷ []

  abbrev pub chosen_entries : Target → Option VerifyRule → List Text
  chosen_entries node_test_file none = []
  chosen_entries node_test_dir none = []
  chosen_entries vitest_target none = []
  chosen_entries escalation none = []
  chosen_entries unmatched_file none = file ∷ []
  chosen_entries node_test_file (some rule) = files_of rule.action
  chosen_entries node_test_dir (some rule) = dirs_of rule.action
  chosen_entries vitest_target (some rule) = vitest_of rule.action
  chosen_entries escalation (some rule) = escalations_of rule.match_glob rule.action
  chosen_entries unmatched_file (some rule) = []

pub same_or_false : (b : Bool) → b ≡ (b || false)
same_or_false true = refl
same_or_false false = refl

pub or_assoc : (a b c : Bool) → ((a || b) || c) ≡ (a || (b || c))
or_assoc true b c = refl
or_assoc false b c = refl

or_swap : (a b c : Bool) → (a || (b || c)) ≡ (b || (a || c))
or_swap true true c = refl
or_swap true false c = refl
or_swap false b c = refl

pub or_last : (a b c : Bool) → ((a || (b || false)) || c) ≡ (a || (b || c))
or_last true b c = refl
or_last false true c = refl
or_last false false c = refl

or_known : (a b : Bool) → (b ≡ true → a ≡ true) → a ≡ (a || (b || false))
or_known true b h = refl
or_known false true h = h refl
or_known false false h = refl

module _ (x : Text) where
  contains-append : (xs ys : List Text) → contains x (xs ++ ys) ≡ (contains x xs || contains x ys)
  unfolding contains
  contains-append [] ys = refl
  contains-append (y ∷ xs) ys =
      rw (contains-append xs ys) (sym (or_assoc (y == x) (contains x xs) (contains x ys)))

  contains-same :
      (y : Text) (set : List Text) → contains y set ≡ true → (y == x) ≡ true → contains x set ≡ true
  contains-same y set h e = subst (λ z. contains z set ≡ true) ((text_eq_iff y x).0 e) h

  pub contains-set_add :
      (y : Text) (set : List Text)
      → contains x (set_add y set) ≡ (contains x set || contains x (y ∷ []))
  unfolding set_add contains
  contains-set_add y set = elim (Bool-cases (contains y set)) [
    | inl t ↦ rw t (or_known (contains x set) (y == x) (λ e. contains-same y set t e))
    | inr f ↦ rw f (contains-append set (y ∷ []))
  ]

  pub contains-set_add_all :
      (ys set : List Text) → contains x (set_add_all ys set) ≡ (contains x set || contains x ys)
  unfolding set_add_all contains
  contains-set_add_all [] set = same_or_false (contains x set)
  contains-set_add_all (y ∷ ys) set =
      contains-set_add_all ys (set_add y set)
      ∙ ap (λ b. b || contains x ys) (contains-set_add y set)
      ∙ or_last (contains x set) (y == x) (contains x ys)

  contains-insert :
      (y : Text) (ys : List Text) → contains x (insert y ys) ≡ ((y == x) || contains x ys)
  unfolding insert contains
  contains-insert y [] = refl
  contains-insert y (z ∷ ys) = elim (Bool-cases (text_leb y z)) [
    | inl t ↦ rw t refl
    | inr f ↦ rw (f, contains-insert y ys) (or_swap (z == x) (y == x) (contains x ys))
  ]

  pub contains-sort : (xs : List Text) → contains x (sort xs) ≡ contains x xs
  unfolding sort contains
  contains-sort [] = refl
  contains-sort (y ∷ xs) = contains-insert y (sort xs) ∙ ap (λ b. (y == x) || b) (contains-sort xs)
