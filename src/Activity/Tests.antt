-- ===== src/Activity/Tests.antt =====
-- Concrete calls of the `ActivityBuffer` of src/server/agents/runtime/derive.ts.
use nexus_seventeen.Prelude.{
  ℕ, ◌+◌, text_eq, ◌≤◌, ◌≡◌, refl, List, [], ◌∷◌, Option, none, some, arith, Text, ok, lit, eq_text,
  some,
}
use nexus_seventeen.Activity.{ActivityBufferOptions, new_buffer, push_safe, prior_of, prune}
use nexus_seventeen.Activity.Spacing.{
  Call, pushed, flushed, emission_times, Spaced, emission_times-Spaced,
}
use nexus_seventeen.Activity.Stages.{research, phase_stage_from_activity, tool_call_activity}
use nexus_seventeen.Activity.Repeats.{IsSameOutcome, push_each, push_safe-repeat}

abbrev options : ActivityBufferOptions
options = record { minimum_interval_ms = 1500; dedupe_window_ms = 30000; maximum_characters = 240 }

abbrev plain : Text → Text
plain text = text

abbrev activity : Text
activity = b'a' ∷ []

-- Two activities in one second: the second waits for the interval to pass.
abbrev calls : List (Call × ℕ)
calls =
    (pushed (some activity), 1000)
    ∷ (pushed (some (b'b' ∷ [])), 1900)
    ∷ (flushed, 2400)
    ∷ (flushed, 2600)
    ∷ []

calls_emit : emission_times options plain calls new_buffer ≡ ok (1000 ∷ 2600 ∷ [])
unfolding emission_times text_eq
calls_emit = refl

emission_times-Spaced_example : Spaced options plain none (1000 ∷ 2600 ∷ [])
emission_times-Spaced_example = emission_times-Spaced options plain calls new_buffer calls_emit

nothing_known : prior_of options activity (prune options 1000 new_buffer) ≡ none
unfolding prior_of prune
nothing_known = refl

soon : 9000 ≤ 1000 + options.dedupe_window_ms
soon = omega arith

-- Another activity, and the same one, are pushed in between.
abbrev between : List (ℕ × Option Text)
between = (2000, some (b'b' ∷ [])) ∷ (3000, none) ∷ (4000, some activity) ∷ []

push_safe-repeat_example :
    IsSameOutcome
      (push_safe options 9000
        (push_each options between (push_safe options 1000 new_buffer (some activity)).1)
        (some activity))
      (push_safe options 9000
        (push_each options between (push_safe options 1000 new_buffer (some activity)).1)
        none)
push_safe-repeat_example =
    push_safe-repeat options activity 1000 9000 new_buffer between nothing_known
      (omega arith, (omega arith, (omega arith, tt))) soon

a_fetch_is_research :
    phase_stage_from_activity (tool_call_activity (lit "progress") (lit "WebFetch")) ≡ some research
unfolding phase_stage_from_activity tool_call_activity text_eq lit
a_fetch_is_research = refl
