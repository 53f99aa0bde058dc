-- ===== src/Activity/Spacing.antt =====
-- How far apart the emissions of an `ActivityBuffer` are.
use nexus_seventeen.Prelude.{
  ℕ, ◌+◌, ◌≤◌, ◌≡◌, refl, sym, subst, inl, inr, true, false, not, List, [], ◌∷◌, Option, none, some,
  arith, Text, leb, Result, ok, ◌>>=◌, throw_if, ltb, ap, >>=-eq-ok, ok-injective, Bool-cases,
}
use nexus_seventeen.Activity.{
  ActivityError, ActivityBufferOptions, ActivityBuffer, is_ready, emit, emit_held,
  emit_pending_if_ready, or_hold, accept, push_fresh, push_safe, prune, prior_of, remember,
  observe_time, and_sanitized, push, flush, Seen, is_stale, max_safe_integer, observed_at_invalid,
  observed_at_moved_backwards,
}

-- The interval since the last emission has passed.
abbrev IsDue : ActivityBufferOptions → ℕ → Option ℕ → Type 0
IsDue options now none = Unit
IsDue options now (some last) = last + options.minimum_interval_ms ≤ now

-- An emission was due, and is noted as the last one; else the last one is as before.
abbrev IsTimed : ActivityBufferOptions → ℕ → Option ℕ → Option Text × ActivityBuffer → Type 0
IsTimed options now last (none, after) = after.last_emitted_at ≡ last
IsTimed options now last (some value, after) =
    (after.last_emitted_at ≡ some now) × IsDue options now last

module _ (options : ActivityBufferOptions) (now : ℕ) where
  ready-IsDue :
      (last : Option ℕ) (buffer : ActivityBuffer)
      → buffer.last_emitted_at ≡ last
      → is_ready options now buffer ≡ true
      → IsDue options now last
  unfolding is_ready
  ready-IsDue none buffer e h = tt
  ready-IsDue (some last) buffer e h = let due = rw (is_ready, e) at h in ground arith

  emit_held-IsTimed :
      (buffer : ActivityBuffer) (held : Option Text)
      → IsTimed options now buffer.last_emitted_at (emit_held options now buffer held)
  unfolding emit_held emit
  emit_held-IsTimed buffer none = refl
  emit_held-IsTimed buffer (some value) = elim (Bool-cases (is_ready options now buffer)) [
    | inl e ↦ rw e (refl, ready-IsDue buffer.last_emitted_at buffer refl e)
    | inr e ↦ rw e refl
  ]

  emit_pending_if_ready-IsTimed :
      (buffer : ActivityBuffer)
      → IsTimed options now buffer.last_emitted_at (emit_pending_if_ready options now buffer)
  unfolding emit_pending_if_ready
  emit_pending_if_ready-IsTimed buffer = emit_held-IsTimed buffer buffer.pending

  or_hold-IsTimed :
      (last : Option ℕ) (safe : Text) (emission : Option Text × ActivityBuffer)
      → IsTimed options now last emission
      → IsTimed options now last (or_hold options safe now emission)
  unfolding emit
  or_hold-IsTimed last safe (some value, after) h = h
  or_hold-IsTimed last safe (none, after) h = elim (Bool-cases (is_ready options now after)) [
    | inl e ↦ rw e (refl, ready-IsDue last after h e)
    | inr e ↦ rw e h
  ]

  accept-IsTimed :
      (safe : Text) (buffer : ActivityBuffer)
      → IsTimed options now buffer.last_emitted_at (accept options safe now buffer)
  unfolding accept
  accept-IsTimed safe buffer = or_hold-IsTimed buffer.last_emitted_at safe _ (
      emit_pending_if_ready-IsTimed
        (record buffer { recent = remember options safe now buffer.recent }))

  push_fresh-IsTimed :
      (safe : Text) (buffer : ActivityBuffer) (prior : Option Seen)
      → IsTimed options now buffer.last_emitted_at (push_fresh options safe now buffer prior)
  unfolding push_fresh
  push_fresh-IsTimed safe buffer none = accept-IsTimed safe buffer
  push_fresh-IsTimed safe buffer (some prior) = elim (Bool-cases (is_stale options now prior)) [
    | inl e ↦ rw e (accept-IsTimed safe buffer)
    | inr e ↦ rw e (emit_pending_if_ready-IsTimed buffer)
  ]

  push_safe-IsTimed :
      (buffer : ActivityBuffer) (safe : Option Text)
      → IsTimed options now buffer.last_emitted_at (push_safe options now buffer safe)
  unfolding push_safe prune
  push_safe-IsTimed buffer none = emit_pending_if_ready-IsTimed buffer
  push_safe-IsTimed buffer (some safe) =
      push_fresh-IsTimed safe (prune options now buffer)
        (prior_of options safe (prune options now buffer))

  observe_time-last :
      (buffer : ActivityBuffer) {observed : ActivityBuffer}
      → observe_time options now buffer ≡ ok observed
      → observed.last_emitted_at ≡ buffer.last_emitted_at
  unfolding observe_time
  observe_time-last buffer {observed} h =
      let (_, _, h1) =
        >>=-eq-ok (throw_if (not (leb now max_safe_integer)) observed_at_invalid) _ h in
      let (_, _, h2) =
        >>=-eq-ok
          (throw_if (elim buffer.last_observed_at [ none ↦ false | some last ↦ ltb now last ])
            observed_at_moved_backwards)
          _ h1 in
      sym (ap (λ (b : ActivityBuffer). b.last_emitted_at) (ok-injective h2))

-- One call of `push` or of `flush`.
pub data Call : Type 0 where
  pushed : Option Text → Call
  flushed : Call

module _ (options : ActivityBufferOptions) (scrub : Text → Text) where
  abbrev pub run_call :
      Call → ℕ → ActivityBuffer → Result ActivityError (Option Text × ActivityBuffer)
  run_call (pushed activity) now buffer = push options scrub activity now buffer
  run_call flushed now buffer = flush options now buffer

  run_call-IsTimed :
      (call : Call) (now : ℕ) (buffer : ActivityBuffer) {emission : Option Text × ActivityBuffer}
      → run_call call now buffer ≡ ok emission
      → IsTimed options now buffer.last_emitted_at emission
  unfolding push flush
  run_call-IsTimed (pushed activity) now buffer {emission} h =
      let (observed, o, e) = >>=-eq-ok (observe_time options now buffer) _ h in
      subst (λ last. IsTimed options now last emission) (observe_time-last options now buffer o)
        (subst (IsTimed options now observed.last_emitted_at) (ok-injective e)
          (push_safe-IsTimed options now observed (and_sanitized options scrub activity)))
  run_call-IsTimed flushed now buffer {emission} h =
      let (observed, o, e) = >>=-eq-ok (observe_time options now buffer) _ h in
      subst (λ last. IsTimed options now last emission) (observe_time-last options now buffer o)
        (subst (IsTimed options now observed.last_emitted_at) (ok-injective e)
          (emit_pending_if_ready-IsTimed options now observed))

  abbrev noted : ℕ → Option Text → List ℕ → List ℕ
  noted now none times = times
  noted now (some value) times = now ∷ times

  -- The times at which a sequence of calls emits.
  unfoldable pub emission_times : List (Call × ℕ) → ActivityBuffer → Result ActivityError (List ℕ)
  unfolding push flush
  emission_times [] buffer = ok []
  emission_times ((call, now) ∷ calls) buffer = run_call call now buffer >>= λ emission.
      emission_times calls emission.1 >>= λ times. ok (noted now emission.0 times)

  -- Each time is at least the minimum interval after the one before it.
  abbrev pub Spaced : Option ℕ → List ℕ → Type 0
  Spaced last [] = Unit
  Spaced last (t ∷ ts) = IsDue options t last × Spaced (some t) ts

  joined :
      (now : ℕ) (last : Option ℕ) (emission : Option Text × ActivityBuffer) (later : List ℕ)
      → IsTimed options now last emission
      → Spaced emission.1.last_emitted_at later
      → Spaced last (noted now emission.0 later)
  joined now last (none, after) later t s = subst (λ l. Spaced l later) t s
  joined now last (some value, after) later t s = (t.1, subst (λ l. Spaced l later) t.0 s)

  -- Whatever is pushed and flushed, and however often, the emissions are at least the minimum interval
  -- apart from each other and from the last one before.
  pub emission_times-Spaced :
      (calls : List (Call × ℕ)) (buffer : ActivityBuffer) {times : List ℕ}
      → emission_times calls buffer ≡ ok times
      → Spaced buffer.last_emitted_at times
  unfolding emission_times
  emission_times-Spaced [] buffer h = subst (Spaced buffer.last_emitted_at) (ok-injective h) tt
  emission_times-Spaced ((call, now) ∷ calls) buffer {times} h =
      let (emission, e, h1) = >>=-eq-ok (run_call call now buffer) _ h in
      let (later, l, h2) = >>=-eq-ok (emission_times calls emission.1) _ h1 in
      subst (Spaced buffer.last_emitted_at) (ok-injective h2) (
        joined now buffer.last_emitted_at emission later (run_call-IsTimed call now buffer e)
          (emission_times-Spaced calls emission.1 l))
