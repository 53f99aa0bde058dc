-- ===== src/Verify/Mapping.antt =====
-- src/server/agents/verify/mapping.ts: `mapChangedFiles`, with the sets of the source as lists in the order of
-- their insertions, and the actions of src/server/agents/verify/contract.ts.
use nexus_seventeen.Prelude.{
  ℕ, Bool, true, false, not, ◌&&◌, ◌||◌, List, [], ◌∷◌, ◌++◌, Option, none, some, Text, lit, any,
  contains, drop, find, starts_with, if◌then◌else◌, ◌==◌, eq_text, text_eq,
}
use nexus_seventeen.Transition.{text_leb}
use nexus_seventeen.Verify.Globs.{matches, is_slash}

pub data VerifyTier : Type 0 where
  fast area : VerifyTier

abbrev pub is_fast : VerifyTier → Bool
is_fast fast = true
is_fast area = false

pub data VerifyRuleAction : Type 0 where
  self mirror : VerifyRuleAction
  fixed : Option (List Text) → Option (List Text) → VerifyRuleAction
  colocated : Text → VerifyRuleAction
  no_tests escalate : VerifyRuleAction

pub record VerifyRule : Type 0 where
  pub match_glob : Text
  pub action : VerifyRuleAction

pub record VerifySelection : Type 0 where
  pub node_test_files : List Text
  pub node_test_dirs : List Text
  pub vitest_targets : List Text
  pub escalations : List Text
  pub unmatched : List Text

pub record MappingHost : Type 0 where
  pub file_exists : Text → Bool
  pub directory_exists : Text → Bool

abbrev pub empty_selection : VerifySelection
empty_selection = record {
  node_test_files = [];
  node_test_dirs = [];
  vitest_targets = [];
  escalations = [];
  unmatched = [];
}

-- `set.add(x)`
unfoldable pub set_add : Text → List Text → List Text
unfolding contains
set_add x set = if contains x set then set else set ++ x ∷ []

unfoldable pub set_add_all : List Text → List Text → List Text
unfolding set_add
set_add_all [] set = set
set_add_all (x ∷ xs) set = set_add_all xs (set_add x set)

-- The part of a path before its last slash with a name behind it.
unfoldable pub before_last_slash : Text → Option Text
unfolding any
before_last_slash [] = none
before_last_slash (c ∷ path) = elim (before_last_slash path) [
  | some before ↦ some (c ∷ before)
  | none ↦ if is_slash c && any (λ d. not (is_slash d)) path then some [] else none
]

abbrev pub directory_of : ℕ → Option Text → Text
directory_of c none = if is_slash c then b'/' ∷ [] else b'.' ∷ []
directory_of c (some []) = if is_slash c then b'/' ∷ b'/' ∷ [] else c ∷ []
directory_of c (some (d ∷ before)) = c ∷ d ∷ before

-- `posix.dirname(path)`
unfoldable pub dirname : Text → Text
unfolding before_last_slash
dirname [] = b'.' ∷ []
dirname (c ∷ path) = directory_of c (before_last_slash path)

-- A test of an expression that ends in `$`, and a replacement of what it matches.
unfoldable pub ends_with : Text → Text → Bool
unfolding text_eq
ends_with suffix [] = [] == suffix
ends_with suffix (c ∷ text) = (c ∷ text) == suffix || ends_with suffix text

unfoldable pub replace_end : Text → Text → Text → Text
unfolding text_eq
replace_end suffix by [] = []
replace_end suffix by (c ∷ text) =
    let rest = replace_end suffix by text in if (c ∷ text) == suffix then by else c ∷ rest

unfoldable pub mirror_test_file : Text → Text
unfolding starts_with replace_end lit
mirror_test_file file =
    replace_end (lit ".ts") (lit ".test.ts")
      (if starts_with file (lit "src/") then lit "tests/" ++ drop 4 file else file)

unfoldable pub is_test_file : Text → Bool
unfolding ends_with lit
is_test_file file = ends_with (lit ".test.ts") file || ends_with (lit ".test.tsx") file

unfoldable pub colocated_test_file : Text → Option Text
unfolding is_test_file ends_with replace_end lit
colocated_test_file file =
    if is_test_file file
    then some file
    else if ends_with (lit ".ts") file
    then some (replace_end (lit ".ts") (lit ".test.ts") file)
    else if ends_with (lit ".tsx") file
    then some (replace_end (lit ".tsx") (lit ".test.tsx") file)
    else none

abbrev pub or_empty : Option (List Text) → List Text
or_empty none = []
or_empty (some xs) = xs

abbrev pub no_mirror_note : Text → Text
unfolding lit
no_mirror_note file = file ++ lit " (no mirror test or directory)"

abbrev pub missing_note : Text → Text
unfolding lit
missing_note file = file ++ lit " (configured test dir missing)"

abbrev pub escalate_note : Text → Text → Text
unfolding lit
escalate_note file match_glob = file ++ lit " (rule " ++ match_glob ++ lit " escalates)"

module _ (host : MappingHost) where
  -- The loop over `action.nodeTestDirs`.
  unfoldable pub add_fixed_dirs : Text → List Text → VerifySelection → VerifySelection
  unfolding set_add
  add_fixed_dirs file [] s = s
  add_fixed_dirs file (dir ∷ dirs) s = add_fixed_dirs file dirs (
      if host.directory_exists dir
      then record s { node_test_dirs = set_add dir s.node_test_dirs }
      else record s { escalations = set_add (missing_note file) s.escalations })

  abbrev pub add_vitest : List Text → VerifySelection → VerifySelection
  add_vitest targets s = record s { vitest_targets = set_add_all targets s.vitest_targets }

  unfoldable pub add_colocated : Text → Text → Option Text → VerifySelection → VerifySelection
  unfolding set_add is_test_file
  add_colocated file fallback none s = record s {
    vitest_targets = set_add fallback s.vitest_targets;
  }
  add_colocated file fallback (some test_file) s =
      if is_test_file file || host.file_exists test_file
      then record s { vitest_targets = set_add test_file s.vitest_targets }
      else record s { vitest_targets = set_add fallback s.vitest_targets }

module _ (tier : VerifyTier) (host : MappingHost) where
  -- The cases of the `switch`.
  unfoldable pub apply_action : Text → Text → VerifyRuleAction → VerifySelection → VerifySelection
  unfolding set_add dirname mirror_test_file add_fixed_dirs set_add_all add_colocated
      colocated_test_file
  apply_action file match_glob self s =
      if is_fast tier
      then record s { node_test_files = set_add file s.node_test_files }
      else record s { node_test_dirs = set_add (dirname file) s.node_test_dirs }
  apply_action file match_glob mirror s =
      if is_fast tier && host.file_exists (mirror_test_file file)
      then record s { node_test_files = set_add (mirror_test_file file) s.node_test_files }
      else if host.directory_exists (dirname (mirror_test_file file))
      then record s { node_test_dirs = set_add (dirname (mirror_test_file file)) s.node_test_dirs }
      else record s { escalations = set_add (no_mirror_note file) s.escalations }
  apply_action file match_glob (fixed node_test_dirs vitest) s =
      add_vitest host (or_empty vitest) (add_fixed_dirs host file (or_empty node_test_dirs) s)
  apply_action file match_glob (colocated vitest_fallback) s =
      if is_fast tier
      then add_colocated host file vitest_fallback (colocated_test_file file) s
      else record s { vitest_targets = set_add vitest_fallback s.vitest_targets }
  apply_action file match_glob no_tests s = s
  apply_action file match_glob escalate s = record s {
    escalations = set_add (escalate_note file match_glob) s.escalations;
  }

  abbrev pub on_rule : Text → Option VerifyRule → VerifySelection → VerifySelection
  on_rule file none s = record s { unmatched = set_add file s.unmatched }
  on_rule file (some rule) s = apply_action file rule.match_glob rule.action s

  -- `matchers.find(...)`
  unfoldable pub rule_of : List VerifyRule → Text → Option VerifyRule
  unfolding find matches
  rule_of rules file = find (λ rule. matches rule.match_glob file) rules

  unfoldable pub map_files : List VerifyRule → List Text → VerifySelection → VerifySelection
  unfolding rule_of apply_action set_add
  map_files rules [] s = s
  map_files rules (file ∷ changed) s = map_files rules changed (on_rule file (rule_of rules file) s)

-- `[...set].sort()`
unfoldable pub insert : Text → List Text → List Text
unfolding text_leb
insert x [] = x ∷ []
insert x (y ∷ ys) = let rest = insert x ys in if text_leb x y then x ∷ y ∷ ys else y ∷ rest

unfoldable pub sort : List Text → List Text
unfolding insert
sort [] = []
sort (x ∷ xs) = insert x (sort xs)

abbrev pub sorted_selection : VerifySelection → VerifySelection
sorted_selection s = record {
  node_test_files = sort s.node_test_files;
  node_test_dirs = sort s.node_test_dirs;
  vitest_targets = sort s.vitest_targets;
  escalations = sort s.escalations;
  unmatched = sort s.unmatched;
}

-- `mapChangedFiles`
unfoldable pub map_changed_files :
    List Text → List VerifyRule → VerifyTier → MappingHost → VerifySelection
unfolding map_files sort
map_changed_files changed rules tier host =
    sorted_selection (map_files tier host rules changed empty_selection)
