-- ===== src/Verify/Tests.antt =====
-- Runs of the selection of tests, and the theorems at concrete changes.
use nexus_seventeen.Prelude.{
  ◌≡◌, refl, true, ◌&&◌, List, [], ◌∷◌, ◌++◌, Text, lit, all, any, contains, eq_text, starts_with,
  drop, length,
}
use nexus_seventeen.Verify.Globs.{matches}
use nexus_seventeen.Verify.Mapping.{
  map_changed_files, fast, VerifyRule, mirror, escalate, MappingHost,
}
use nexus_seventeen.Verify.Below.{is_below, matches-is_below}
use nexus_seventeen.Verify.Selected.{node_test_file, entries}
use nexus_seventeen.Verify.Agrees.{selected_by, map_changed_files-selects}

below_is_matched : matches (lit "src/**") (lit "src/a/b.ts") ≡ true
unfolding matches lit
below_is_matched = refl

name_is_matched : matches (lit "src/**/*.ts") (lit "src/b.ts") ≡ true
unfolding matches lit
name_is_matched = refl

abbrev rules : List VerifyRule
unfolding lit
rules =
    record { match_glob = lit "src/**/*.ts"; action = mirror }
    ∷ record { match_glob = lit "docs/**"; action = escalate }
    ∷ []

abbrev host : MappingHost
host = record { file_exists = λ path. true; directory_exists = λ path. true }

abbrev changed : List Text
unfolding lit
changed = lit "src/b.ts" ∷ lit "docs/x" ∷ lit "readme" ∷ lit "src/a.ts" ∷ []

selection : map_changed_files changed rules fast host ≡ record {
  node_test_files = lit "tests/a.test.ts" ∷ lit "tests/b.test.ts" ∷ [];
  node_test_dirs = [];
  vitest_targets = [];
  escalations = lit "docs/x (rule docs/** escalates)" ∷ [];
  unmatched = lit "readme" ∷ [];
}
unfolding map_changed_files lit
selection = refl

map_changed_files-selects_example :
    contains
      (lit "tests/a.test.ts")
      (entries node_test_file (map_changed_files changed rules fast host))
    ≡ any (selected_by rules fast host (lit "tests/a.test.ts") node_test_file) changed
map_changed_files-selects_example =
    map_changed_files-selects rules fast host (lit "tests/a.test.ts") changed node_test_file

matches-is_below_example : matches (lit "src/web" ++ lit "/**") (lit "src/web/a.tsx") ≡ (
    starts_with (lit "src/web/a.tsx") (lit "src/web")
    && is_below (drop (length (lit "src/web")) (lit "src/web/a.tsx")))
unfolding all lit
matches-is_below_example = matches-is_below (lit "src/web") (lit "src/web/a.tsx") refl
