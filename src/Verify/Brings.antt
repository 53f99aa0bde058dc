-- ===== src/Verify/Brings.antt =====
-- src/server/agents/verify/mapping.ts: what each action brings into a selection.
use nexus_seventeen.Prelude.{
  ◌≡◌, refl, sym, ap, ◌∙◌, Bool, true, false, not, ◌&&◌, ◌||◌, List, [], ◌∷◌, Option, none, some,
  Text, any, keep, contains, if◌then◌else◌, ◌==◌, eq_text, Bool-cases, inl, inr,
}
use nexus_seventeen.Verify.Mapping.{
  VerifyTier, fast, area, VerifyRuleAction, self, mirror, fixed, colocated, no_tests, escalate,
  VerifySelection, MappingHost, set_add, dirname, mirror_test_file, is_test_file,
  colocated_test_file, or_empty, no_mirror_note, missing_note, escalate_note, add_fixed_dirs,
  add_colocated, apply_action,
}
use nexus_seventeen.Verify.Selected.{
  Target, node_test_file, node_test_dir, vitest_target, escalation, unmatched_file, entries,
  chosen_entries, only_if, test_or, has_mirror, mirror_dir, same_or_false, or_last,
  contains-set_add, contains-set_add_all,
}

or_twice : (a b : Bool) → ((a || (b || false)) || (b || false)) ≡ (a || (b || false))
or_twice true b = refl
or_twice false true = refl
or_twice false false = refl

abbrev one_target : Text → Target → List Text
one_target target node_test_file = []
one_target target node_test_dir = []
one_target target vitest_target = target ∷ []
one_target target escalation = []
one_target target unmatched_file = []

module _ (x : Text) (host : MappingHost) (file match_glob : Text) where
  -- A change of a selection that brings in what `chosen` lists.
  abbrev Brings : VerifySelection → VerifySelection → (Target → List Text) → Type 0
  Brings s s' chosen =
      (t : Target) → contains x (entries t s') ≡ (contains x (entries t s) || contains x (chosen t))

  abbrev chosen_by : VerifyTier → VerifyRuleAction → Target → List Text
  chosen_by tier action t =
      chosen_entries tier host file t (some (record { match_glob = match_glob; action = action }))

  apply_self :
      (tier : VerifyTier) (s : VerifySelection)
      → Brings s (apply_action tier host file match_glob self s) (chosen_by tier self)
  unfolding apply_action contains
  apply_self fast s node_test_file = contains-set_add x file s.node_test_files
  apply_self fast s node_test_dir = same_or_false (contains x s.node_test_dirs)
  apply_self fast s vitest_target = same_or_false (contains x s.vitest_targets)
  apply_self fast s escalation = same_or_false (contains x s.escalations)
  apply_self fast s unmatched_file = same_or_false (contains x s.unmatched)
  apply_self area s node_test_file = same_or_false (contains x s.node_test_files)
  apply_self area s node_test_dir = contains-set_add x (dirname file) s.node_test_dirs
  apply_self area s vitest_target = same_or_false (contains x s.vitest_targets)
  apply_self area s escalation = same_or_false (contains x s.escalations)
  apply_self area s unmatched_file = same_or_false (contains x s.unmatched)

  abbrev mirrored : Bool → Bool → VerifySelection → VerifySelection
  mirrored test dir s =
      if test
      then record s { node_test_files = set_add (mirror_test_file file) s.node_test_files }
      else if dir
      then record s { node_test_dirs = set_add (dirname (mirror_test_file file)) s.node_test_dirs }
      else record s { escalations = set_add (no_mirror_note file) s.escalations }

  abbrev mirror_chosen : Bool → Bool → Target → List Text
  mirror_chosen test dir node_test_file = only_if test (mirror_test_file file)
  mirror_chosen test dir node_test_dir = only_if (not test && dir) (mirror_dir fast host file)
  mirror_chosen test dir vitest_target = []
  mirror_chosen test dir escalation = only_if (not test && not dir) (no_mirror_note file)
  mirror_chosen test dir unmatched_file = []

  mirrored-Brings :
      (test dir : Bool) (s : VerifySelection)
      → Brings s (mirrored test dir s) (mirror_chosen test dir)
  unfolding contains
  mirrored-Brings true dir s node_test_file =
      contains-set_add x (mirror_test_file file) s.node_test_files
  mirrored-Brings true dir s node_test_dir = same_or_false (contains x s.node_test_dirs)
  mirrored-Brings true dir s vitest_target = same_or_false (contains x s.vitest_targets)
  mirrored-Brings true dir s escalation = same_or_false (contains x s.escalations)
  mirrored-Brings true dir s unmatched_file = same_or_false (contains x s.unmatched)
  mirrored-Brings false true s node_test_file = same_or_false (contains x s.node_test_files)
  mirrored-Brings false true s node_test_dir =
      contains-set_add x (dirname (mirror_test_file file)) s.node_test_dirs
  mirrored-Brings false true s vitest_target = same_or_false (contains x s.vitest_targets)
  mirrored-Brings false true s escalation = same_or_false (contains x s.escalations)
  mirrored-Brings false true s unmatched_file = same_or_false (contains x s.unmatched)
  mirrored-Brings false false s node_test_file = same_or_false (contains x s.node_test_files)
  mirrored-Brings false false s node_test_dir = same_or_false (contains x s.node_test_dirs)
  mirrored-Brings false false s vitest_target = same_or_false (contains x s.vitest_targets)
  mirrored-Brings false false s escalation = contains-set_add x (no_mirror_note file) s.escalations
  mirrored-Brings false false s unmatched_file = same_or_false (contains x s.unmatched)

  apply_mirror :
      (tier : VerifyTier) (s : VerifySelection)
      → Brings s (apply_action tier host file match_glob mirror s) (chosen_by tier mirror)
  unfolding apply_action
  apply_mirror tier s node_test_file =
      mirrored-Brings (has_mirror tier host file)
        (host.directory_exists (dirname (mirror_test_file file))) s node_test_file
  apply_mirror tier s node_test_dir =
      mirrored-Brings (has_mirror tier host file)
        (host.directory_exists (dirname (mirror_test_file file))) s node_test_dir
  apply_mirror tier s vitest_target =
      mirrored-Brings (has_mirror tier host file)
        (host.directory_exists (dirname (mirror_test_file file))) s vitest_target
  apply_mirror tier s escalation =
      mirrored-Brings (has_mirror tier host file)
        (host.directory_exists (dirname (mirror_test_file file))) s escalation
  apply_mirror tier s unmatched_file =
      mirrored-Brings (has_mirror tier host file)
        (host.directory_exists (dirname (mirror_test_file file))) s unmatched_file

  abbrev missing : List Text → Bool
  missing dirs = any (λ dir. not (host.directory_exists dir)) dirs

  abbrev fixed_chosen : List Text → Target → List Text
  fixed_chosen dirs node_test_file = []
  fixed_chosen dirs node_test_dir = keep host.directory_exists dirs
  fixed_chosen dirs vitest_target = []
  fixed_chosen dirs escalation = only_if (missing dirs) (missing_note file)
  fixed_chosen dirs unmatched_file = []

  -- A note that may be added once more.
  note_again :
      (m : Bool) (set : List Text)
      → (contains x (set_add (missing_note file) set) || contains x (only_if m (missing_note file)))
        ≡ (contains x set || contains x (missing_note file ∷ []))
  unfolding contains
  note_again true set =
      ap (λ b. b || contains x (missing_note file ∷ []))
        (contains-set_add x (missing_note file) set)
      ∙ or_twice (contains x set) (missing_note file == x)
  note_again false set =
      sym (same_or_false (contains x (set_add (missing_note file) set)))
      ∙ contains-set_add x (missing_note file) set

  abbrev with_dir : Text → VerifySelection → VerifySelection
  with_dir dir s = record s { node_test_dirs = set_add dir s.node_test_dirs }

  abbrev with_missing : VerifySelection → VerifySelection
  with_missing s = record s { escalations = set_add (missing_note file) s.escalations }

  add_fixed_dirs-Brings :
      (dirs : List Text) (s : VerifySelection)
      → Brings s (add_fixed_dirs host file dirs s) (fixed_chosen dirs)
  unfolding add_fixed_dirs keep any contains
  add_fixed_dirs-Brings [] s node_test_file = same_or_false (contains x s.node_test_files)
  add_fixed_dirs-Brings [] s node_test_dir = same_or_false (contains x s.node_test_dirs)
  add_fixed_dirs-Brings [] s vitest_target = same_or_false (contains x s.vitest_targets)
  add_fixed_dirs-Brings [] s escalation = same_or_false (contains x s.escalations)
  add_fixed_dirs-Brings [] s unmatched_file = same_or_false (contains x s.unmatched)
  add_fixed_dirs-Brings (dir ∷ dirs) s node_test_file =
      elim (Bool-cases (host.directory_exists dir)) [
        | inl h ↦ rw h (add_fixed_dirs-Brings dirs (with_dir dir s) node_test_file)
        | inr h ↦ rw h (add_fixed_dirs-Brings dirs (with_missing s) node_test_file)
      ]
  add_fixed_dirs-Brings (dir ∷ dirs) s node_test_dir =
      elim (Bool-cases (host.directory_exists dir)) [
        | inl h ↦ rw h (
            add_fixed_dirs-Brings dirs (with_dir dir s) node_test_dir
            ∙ ap (λ b. b || contains x (keep host.directory_exists dirs))
                (contains-set_add x dir s.node_test_dirs)
            ∙ or_last (contains x s.node_test_dirs) (dir == x)
                (contains x (keep host.directory_exists dirs)))
        | inr h ↦ rw h (add_fixed_dirs-Brings dirs (with_missing s) node_test_dir)
      ]
  add_fixed_dirs-Brings (dir ∷ dirs) s vitest_target =
      elim (Bool-cases (host.directory_exists dir)) [
        | inl h ↦ rw h (add_fixed_dirs-Brings dirs (with_dir dir s) vitest_target)
        | inr h ↦ rw h (add_fixed_dirs-Brings dirs (with_missing s) vitest_target)
      ]
  add_fixed_dirs-Brings (dir ∷ dirs) s escalation = elim (Bool-cases (host.directory_exists dir)) [
    | inl h ↦ rw h (add_fixed_dirs-Brings dirs (with_dir dir s) escalation)
    | inr h ↦ rw h (
        add_fixed_dirs-Brings dirs (with_missing s) escalation
        ∙ note_again (missing dirs) s.escalations)
  ]
  add_fixed_dirs-Brings (dir ∷ dirs) s unmatched_file =
      elim (Bool-cases (host.directory_exists dir)) [
        | inl h ↦ rw h (add_fixed_dirs-Brings dirs (with_dir dir s) unmatched_file)
        | inr h ↦ rw h (add_fixed_dirs-Brings dirs (with_missing s) unmatched_file)
      ]

  apply_fixed :
      (tier : VerifyTier) (dirs vitest : Option (List Text)) (s : VerifySelection)
      → Brings s
          (apply_action tier host file match_glob (fixed dirs vitest) s)
          (chosen_by tier (fixed dirs vitest))
  unfolding apply_action contains
  apply_fixed tier dirs vitest s node_test_file =
      add_fixed_dirs-Brings (or_empty dirs) s node_test_file
  apply_fixed tier dirs vitest s node_test_dir =
      add_fixed_dirs-Brings (or_empty dirs) s node_test_dir
  apply_fixed tier dirs vitest s vitest_target =
      contains-set_add_all x (or_empty vitest)
        (add_fixed_dirs host file (or_empty dirs) s).vitest_targets
      ∙ ap (λ b. b || contains x (or_empty vitest))
          (add_fixed_dirs-Brings (or_empty dirs) s vitest_target
            ∙ sym (same_or_false (contains x s.vitest_targets)))
  apply_fixed tier dirs vitest s escalation = add_fixed_dirs-Brings (or_empty dirs) s escalation
  apply_fixed tier dirs vitest s unmatched_file =
      add_fixed_dirs-Brings (or_empty dirs) s unmatched_file

  -- A selection with one more target of vitest.
  target-Brings :
      (target : Text) (s : VerifySelection) (t : Target)
      → contains x (entries t (record s { vitest_targets = set_add target s.vitest_targets }))
        ≡ (contains x (entries t s) || contains x (one_target target t))
  unfolding contains
  target-Brings target s node_test_file = same_or_false (contains x s.node_test_files)
  target-Brings target s node_test_dir = same_or_false (contains x s.node_test_dirs)
  target-Brings target s vitest_target = contains-set_add x target s.vitest_targets
  target-Brings target s escalation = same_or_false (contains x s.escalations)
  target-Brings target s unmatched_file = same_or_false (contains x s.unmatched)

  colocated-Brings :
      (tier : VerifyTier) (fallback : Text) (found : Option Text) (s : VerifySelection) (t : Target)
      → contains x (entries t (add_colocated host file fallback found s)) ≡ (
          contains x (entries t s)
          || contains x (one_target (test_or tier host file fallback found) t))
  unfolding add_colocated
  colocated-Brings tier fallback none s t = target-Brings fallback s t
  colocated-Brings tier fallback (some test_file) s t =
      elim (Bool-cases (is_test_file file || host.file_exists test_file)) [
        | inl h ↦ rw h (target-Brings test_file s t)
        | inr h ↦ rw h (target-Brings fallback s t)
      ]

  apply_colocated :
      (tier : VerifyTier) (fallback : Text) (s : VerifySelection)
      → Brings s
          (apply_action tier host file match_glob (colocated fallback) s)
          (chosen_by tier (colocated fallback))
  unfolding apply_action
  apply_colocated fast fallback s node_test_file =
      colocated-Brings fast fallback (colocated_test_file file) s node_test_file
  apply_colocated fast fallback s node_test_dir =
      colocated-Brings fast fallback (colocated_test_file file) s node_test_dir
  apply_colocated fast fallback s vitest_target =
      colocated-Brings fast fallback (colocated_test_file file) s vitest_target
  apply_colocated fast fallback s escalation =
      colocated-Brings fast fallback (colocated_test_file file) s escalation
  apply_colocated fast fallback s unmatched_file =
      colocated-Brings fast fallback (colocated_test_file file) s unmatched_file
  apply_colocated area fallback s node_test_file = target-Brings fallback s node_test_file
  apply_colocated area fallback s node_test_dir = target-Brings fallback s node_test_dir
  apply_colocated area fallback s vitest_target = target-Brings fallback s vitest_target
  apply_colocated area fallback s escalation = target-Brings fallback s escalation
  apply_colocated area fallback s unmatched_file = target-Brings fallback s unmatched_file

  apply_rest : (tier : VerifyTier) (s : VerifySelection) → Brings s s (chosen_by tier no_tests)
  unfolding contains
  apply_rest tier s node_test_file = same_or_false (contains x s.node_test_files)
  apply_rest tier s node_test_dir = same_or_false (contains x s.node_test_dirs)
  apply_rest tier s vitest_target = same_or_false (contains x s.vitest_targets)
  apply_rest tier s escalation = same_or_false (contains x s.escalations)
  apply_rest tier s unmatched_file = same_or_false (contains x s.unmatched)

  apply_escalate :
      (tier : VerifyTier) (s : VerifySelection)
      → Brings s (apply_action tier host file match_glob escalate s) (chosen_by tier escalate)
  unfolding apply_action contains
  apply_escalate tier s node_test_file = same_or_false (contains x s.node_test_files)
  apply_escalate tier s node_test_dir = same_or_false (contains x s.node_test_dirs)
  apply_escalate tier s vitest_target = same_or_false (contains x s.vitest_targets)
  apply_escalate tier s escalation =
      contains-set_add x (escalate_note file match_glob) s.escalations
  apply_escalate tier s unmatched_file = same_or_false (contains x s.unmatched)

  pub apply_action-Brings :
      (tier : VerifyTier) (action : VerifyRuleAction) (s : VerifySelection)
      → Brings s (apply_action tier host file match_glob action s) (chosen_by tier action)
  apply_action-Brings tier self s t = apply_self tier s t
  apply_action-Brings tier mirror s t = apply_mirror tier s t
  apply_action-Brings tier (fixed dirs vitest) s t = apply_fixed tier dirs vitest s t
  apply_action-Brings tier (colocated fallback) s t = apply_colocated tier fallback s t
  apply_action-Brings tier no_tests s t = unfold apply_action in apply_rest tier s t
  apply_action-Brings tier escalate s t = apply_escalate tier s t

  pub unmatched-Brings :
      (s : VerifySelection)
      → Brings s
          (record s { unmatched = set_add file s.unmatched })
          (λ t. chosen_entries fast host file t none)
  unfolding contains
  unmatched-Brings s node_test_file = same_or_false (contains x s.node_test_files)
  unmatched-Brings s node_test_dir = same_or_false (contains x s.node_test_dirs)
  unmatched-Brings s vitest_target = same_or_false (contains x s.vitest_targets)
  unmatched-Brings s escalation = same_or_false (contains x s.escalations)
  unmatched-Brings s unmatched_file = contains-set_add x file s.unmatched
