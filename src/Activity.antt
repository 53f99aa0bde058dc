-- ===== src/Activity.antt =====
-- src/server/agents/runtime/derive.ts: `ActivityBuffer`, which drops repeated activities and limits
-- how often one is emitted, and the text limit of `sanitizeActivity`.
pub mod Spacing
pub mod Repeats
pub mod Stages
mod Tests
use nexus_seventeen.Prelude.{
  ℕ, ◌+◌, ◌-◌, Bool, true, false, not, ◌&&◌, ◌||◌, List, [], ◌∷◌, ◌++◌, Option, none, some, Text,
  length, take, trim_end, is_nil, ltb, leb, keep, find, if◌then◌else◌, Result, ok, err, ◌>>=◌, ◌>>◌,
  throw_if, ◌==◌, eq_text,
}

pub data ActivityError : Type 0 where
  minimum_interval_invalid dedupe_window_invalid maximum_characters_invalid observed_at_invalid
        observed_at_moved_backwards :
      ActivityError

-- The read-only fields of the class.
pub record ActivityBufferOptions : Type 0 where
  pub minimum_interval_ms : ℕ
  pub dedupe_window_ms : ℕ
  pub maximum_characters : ℕ

-- An entry of the map of recent activities.
pub record Seen : Type 0 where
  pub activity : Text
  pub seen_at : ℕ

pub record ActivityBuffer : Type 0 where
  pub recent : List Seen
  pub last_observed_at : Option ℕ
  pub last_emitted_at : Option ℕ
  pub pending : Option Text

abbrev pub new_buffer : ActivityBuffer
new_buffer = record { recent = []; last_observed_at = none; last_emitted_at = none; pending = none }

-- `Number.MAX_SAFE_INTEGER`
abbrev pub max_safe_integer : ℕ
max_safe_integer = 9007199254740991

-- The checks of the constructor on given options.
unfoldable pub check_options : ActivityBufferOptions → Result ActivityError (Unit {0})
check_options options = do
  throw_if (not (leb options.minimum_interval_ms max_safe_integer)) minimum_interval_invalid
  throw_if (not (leb options.dedupe_window_ms max_safe_integer)) dedupe_window_invalid
  throw_if
      (not (leb options.maximum_characters max_safe_integer) || ltb options.maximum_characters 32)
      maximum_characters_invalid

-- `scrub` is the chain of regular-expression replacements, with the trim at its end.
unfoldable pub sanitize_activity : (Text → Text) → ℕ → Text → Option Text
unfolding is_nil trim_end
sanitize_activity scrub maximum_characters value =
    let result = scrub value in
    if is_nil result
    then none
    else (if ltb maximum_characters (length result)
        then some (trim_end (take (maximum_characters - 1) result) ++ 0x2026 ∷ [])
        else some result)

module _ (options : ActivityBufferOptions) where
  -- `observedAt - lastEmittedAt >= minimumIntervalMs`, without a negative difference.
  unfoldable pub is_ready : ℕ → ActivityBuffer → Bool
  is_ready observed_at buffer = elim buffer.last_emitted_at [
    | none ↦ true
    | some emitted_at ↦ leb (emitted_at + options.minimum_interval_ms) observed_at
  ]

  abbrev pub Emission : Type 0
  Emission = Option Text × ActivityBuffer

  unfoldable pub emit : Text → ℕ → ActivityBuffer → Emission
  emit value observed_at buffer = (some value, record buffer { last_emitted_at = some observed_at })

  unfoldable pub emit_held : ℕ → ActivityBuffer → Option Text → Emission
  unfolding is_ready emit
  emit_held observed_at buffer none = (none, buffer)
  emit_held observed_at buffer (some value) =
      if is_ready observed_at buffer
      then emit value observed_at (record buffer { pending = none })
      else (none, buffer)

  -- `#emitPendingIfReady`
  unfoldable pub emit_pending_if_ready : ℕ → ActivityBuffer → Emission
  unfolding emit_held
  emit_pending_if_ready observed_at buffer = emit_held observed_at buffer buffer.pending

  -- `observedAt - seenAt > dedupeWindowMs`
  abbrev pub is_stale : ℕ → Seen → Bool
  is_stale observed_at seen = ltb (seen.seen_at + options.dedupe_window_ms) observed_at

  unfoldable pub prune : ℕ → ActivityBuffer → ActivityBuffer
  unfolding keep
  prune observed_at buffer = record buffer {
    recent = keep (λ seen. not (is_stale observed_at seen)) buffer.recent;
  }

  unfoldable pub prior_of : Text → ActivityBuffer → Option Seen
  unfolding find
  prior_of activity buffer = find (λ seen. seen.activity == activity) buffer.recent

  -- `Map.set`: a key that the map holds keeps its place.
  unfoldable pub remember : Text → ℕ → List Seen → List Seen
  remember activity observed_at [] = record { activity = activity; seen_at = observed_at } ∷ []
  remember activity observed_at (seen ∷ rest) =
      if seen.activity == activity
      then record { activity = activity; seen_at = observed_at } ∷ rest
      else seen ∷ remember activity observed_at rest

  abbrev or_hold : Text → ℕ → Emission → Emission
  or_hold safe observed_at (some value, buffer) =
      (some value, record buffer { pending = some safe })
  or_hold safe observed_at (none, buffer) =
      if is_ready observed_at buffer
      then emit safe observed_at buffer
      else (none, record buffer { pending = some safe })

  unfoldable pub accept : Text → ℕ → ActivityBuffer → Emission
  unfolding emit_pending_if_ready is_ready emit remember
  accept safe observed_at buffer = or_hold safe observed_at (
      emit_pending_if_ready observed_at
        (record buffer { recent = remember safe observed_at buffer.recent }))

  unfoldable pub push_fresh : Text → ℕ → ActivityBuffer → Option Seen → Emission
  unfolding accept
  push_fresh safe observed_at buffer none = accept safe observed_at buffer
  push_fresh safe observed_at buffer (some prior) =
      if not (is_stale observed_at prior)
      then emit_pending_if_ready observed_at buffer
      else accept safe observed_at buffer

  unfoldable pub push_safe : ℕ → ActivityBuffer → Option Text → Emission
  unfolding push_fresh prune prior_of
  push_safe observed_at buffer none = emit_pending_if_ready observed_at buffer
  push_safe observed_at buffer (some safe) =
      let pruned = prune observed_at buffer in
      push_fresh safe observed_at pruned (prior_of safe pruned)

  -- `#observeTime`
  unfoldable pub observe_time : ℕ → ActivityBuffer → Result ActivityError ActivityBuffer
  observe_time observed_at buffer = do
    throw_if (not (leb observed_at max_safe_integer)) observed_at_invalid
    throw_if (elim buffer.last_observed_at [ none ↦ false | some last ↦ ltb observed_at last ])
        observed_at_moved_backwards
    ok (record buffer { last_observed_at = some observed_at })

  abbrev and_sanitized : (Text → Text) → Option Text → Option Text
  and_sanitized scrub none = none
  and_sanitized scrub (some activity) = sanitize_activity scrub options.maximum_characters activity

  -- `push`, with `null` as `none`
  unfoldable pub push :
      (Text → Text) → Option Text → ℕ → ActivityBuffer → Result ActivityError Emission
  unfolding observe_time push_safe sanitize_activity
  push scrub activity observed_at buffer = do
    observed ← observe_time observed_at buffer
    ok (push_safe observed_at observed (and_sanitized scrub activity))

  unfoldable pub flush : ℕ → ActivityBuffer → Result ActivityError Emission
  unfolding observe_time emit_pending_if_ready
  flush observed_at buffer = do
    observed ← observe_time observed_at buffer
    ok (emit_pending_if_ready observed_at observed)

  abbrev drain_held : ℕ → ActivityBuffer → Option Text → Emission
  drain_held observed_at buffer none = (none, buffer)
  drain_held observed_at buffer (some value) =
      emit value observed_at (record buffer { pending = none })

  unfoldable pub drain : ℕ → ActivityBuffer → Result ActivityError Emission
  unfolding observe_time emit
  drain observed_at buffer = do
    observed ← observe_time observed_at buffer
    ok (drain_held observed_at observed observed.pending)
