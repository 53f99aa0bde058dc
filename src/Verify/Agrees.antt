-- ===== src/Verify/Agrees.antt =====
-- src/server/agents/verify/mapping.ts: `mapChangedFiles` chosen_entries what its changed files select, each by its rule.
use nexus_seventeen.Prelude.{
  ◌≡◌, refl, ap, ◌∙◌, Bool, false, ◌||◌, List, [], ◌∷◌, Option, none, some, Text, any, contains,
  eq_text,
}
use nexus_seventeen.Verify.Mapping.{
  VerifyTier, VerifyRule, VerifySelection, MappingHost, empty_selection, on_rule, rule_of,
  map_files, sorted_selection, map_changed_files,
}
use nexus_seventeen.Verify.Selected.{
  Target, node_test_file, node_test_dir, vitest_target, escalation, unmatched_file, entries,
  chosen_entries, or_assoc, same_or_false, contains-sort,
}
use nexus_seventeen.Verify.Brings.{apply_action-Brings, unmatched-Brings}

module _ (rules : List VerifyRule) (tier : VerifyTier) (host : MappingHost) (x : Text) where
  on_rule-brings :
      (file : Text) (rule : Option VerifyRule) (s : VerifySelection) (t : Target)
      → contains x (entries t (on_rule tier host file rule s))
        ≡ (contains x (entries t s) || contains x (chosen_entries tier host file t rule))
  on_rule-brings file none s node_test_file = unmatched-Brings x host file [] s node_test_file
  on_rule-brings file none s node_test_dir = unmatched-Brings x host file [] s node_test_dir
  on_rule-brings file none s vitest_target = unmatched-Brings x host file [] s vitest_target
  on_rule-brings file none s escalation = unmatched-Brings x host file [] s escalation
  on_rule-brings file none s unmatched_file = unmatched-Brings x host file [] s unmatched_file
  on_rule-brings file (some rule) s node_test_file =
      apply_action-Brings x host file rule.match_glob tier rule.action s node_test_file
  on_rule-brings file (some rule) s node_test_dir =
      apply_action-Brings x host file rule.match_glob tier rule.action s node_test_dir
  on_rule-brings file (some rule) s vitest_target =
      apply_action-Brings x host file rule.match_glob tier rule.action s vitest_target
  on_rule-brings file (some rule) s escalation =
      apply_action-Brings x host file rule.match_glob tier rule.action s escalation
  on_rule-brings file (some rule) s unmatched_file =
      apply_action-Brings x host file rule.match_glob tier rule.action s unmatched_file

  -- Whether a changed file chosen_entries `x`.
  abbrev pub selected_by : Target → Text → Bool
  selected_by t file = contains x (chosen_entries tier host file t (rule_of tier host rules file))

  map_files-brings :
      (changed : List Text) (s : VerifySelection) (t : Target)
      → contains x (entries t (map_files tier host rules changed s))
        ≡ (contains x (entries t s) || any (selected_by t) changed)
  unfolding map_files any
  map_files-brings [] s t = same_or_false (contains x (entries t s))
  map_files-brings (file ∷ changed) s t =
      let rule = rule_of tier host rules file in
      map_files-brings changed (on_rule tier host file rule s) t
      ∙ ap (λ b. b || any (selected_by t) changed) (on_rule-brings file rule s t)
      ∙ or_assoc (contains x (entries t s)) (selected_by t file) (any (selected_by t) changed)

  sorted_same :
      (s : VerifySelection) (t : Target)
      → contains x (entries t (sorted_selection s)) ≡ contains x (entries t s)
  sorted_same s node_test_file = contains-sort x (entries node_test_file s)
  sorted_same s node_test_dir = contains-sort x (entries node_test_dir s)
  sorted_same s vitest_target = contains-sort x (entries vitest_target s)
  sorted_same s escalation = contains-sort x (entries escalation s)
  sorted_same s unmatched_file = contains-sort x (entries unmatched_file s)

  nothing_selected : (t : Target) → contains x (entries t empty_selection) ≡ false
  unfolding contains
  nothing_selected node_test_file = refl
  nothing_selected node_test_dir = refl
  nothing_selected vitest_target = refl
  nothing_selected escalation = refl
  nothing_selected unmatched_file = refl

  -- An entry stands in a set of the selection exactly where some changed file chosen_entries it by the first rule
  -- that matches the file, or by the lack of one.
  pub map_changed_files-selects :
      (changed : List Text) (t : Target)
      → contains x (entries t (map_changed_files changed rules tier host))
        ≡ any (selected_by t) changed
  unfolding map_changed_files
  map_changed_files-selects changed t =
      sorted_same (map_files tier host rules changed empty_selection) t
      ∙ map_files-brings changed empty_selection t
      ∙ ap (λ b. b || any (selected_by t) changed) (nothing_selected t)
