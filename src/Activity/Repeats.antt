-- ===== src/Activity/Repeats.antt =====
-- An activity that `ActivityBuffer` has seen is dropped until the window has passed.
use nexus_seventeen.Prelude.{
  ℕ, ◌+◌, ◌≤◌, ◌≡◌, refl, ap, ◌∙◌, inl, inr, Bool, true, false, not, List, [], ◌∷◌, Option, none,
  some, arith, Text, keep, find, ◌==◌, eq_text, beq_refl, Bool-cases, text_eq_iff, absurd_bool, All,
}
use nexus_seventeen.Activity.{
  ActivityBufferOptions, ActivityBuffer, Seen, is_ready, emit, emit_held, emit_pending_if_ready,
  or_hold, accept, push_fresh, push_safe, prune, prior_of, remember, is_stale,
}

-- The same emission, and the same activity held.
abbrev pub IsSameOutcome : Option Text × ActivityBuffer → Option Text × ActivityBuffer → Type 0
IsSameOutcome a b = (a.0 ≡ b.0) × (a.1.pending ≡ b.1.pending)

-- The first entry that a search finds is found among the entries that a filter keeps, if it is kept.
find-keep :
    (p q : Seen → Bool) (xs : List Seen) {x : Seen}
    → find p xs ≡ some x
    → q x ≡ true
    → find p (keep q xs) ≡ some x
unfolding find keep
find-keep p q [] h k = cc
find-keep p q (y ∷ ys) {x} h k = elim (Bool-cases (p y)) [
  | inl e ↦
      let told : some y ≡ some x = rw e at h in
      let same : y ≡ x = cc in rw (same, k, ← same, e) refl
  | inr e ↦ elim (Bool-cases (q y)) [
    | inl f ↦ rw (f, e) (find-keep p q ys (rw e at h) k)
    | inr f ↦ rw f (find-keep p q ys (rw e at h) k)
  ]
]

remember-prior_of :
    (options : ActivityBufferOptions) (safe : Text) (now : ℕ) (recent : List Seen)
    → find (λ seen. seen.activity == safe) (remember options safe now recent)
      ≡ some (record { activity = safe; seen_at = now })
unfolding find remember
remember-prior_of options safe now [] = rw (beq_refl safe) refl
remember-prior_of options safe now (seen ∷ rest) = elim (Bool-cases (seen.activity == safe)) [
  | inl e ↦ rw (e, beq_refl safe) refl
  | inr e ↦ rw (e, e) (remember-prior_of options safe now rest)
]

module _ (options : ActivityBufferOptions) (now : ℕ) where
  emit_held-recent :
      (buffer : ActivityBuffer) (held : Option Text)
      → (emit_held options now buffer held).1.recent ≡ buffer.recent
  unfolding emit_held emit
  emit_held-recent buffer none = refl
  emit_held-recent buffer (some value) = elim (Bool-cases (is_ready options now buffer)) [
    | inl e ↦ rw e refl
    | inr e ↦ rw e refl
  ]

  or_hold-recent :
      (safe : Text) (emission : Option Text × ActivityBuffer)
      → (or_hold options safe now emission).1.recent ≡ emission.1.recent
  unfolding emit
  or_hold-recent safe (some value, after) = refl
  or_hold-recent safe (none, after) = elim (Bool-cases (is_ready options now after)) [
    | inl e ↦ rw e refl
    | inr e ↦ rw e refl
  ]

  -- An accepted activity is remembered with the time of its push.
  accept-recent :
      (safe : Text) (buffer : ActivityBuffer)
      → (accept options safe now buffer).1.recent ≡ remember options safe now buffer.recent
  unfolding accept emit_pending_if_ready
  accept-recent safe buffer =
      or_hold-recent safe _
      ∙ emit_held-recent (record buffer { recent = remember options safe now buffer.recent })
          buffer.pending

  -- Pruning changes neither what is emitted nor what is held.
  emit_pruned :
      (buffer : ActivityBuffer) (recent : List Seen) (held : Option Text)
      → ((emit_held options now (record buffer { recent = recent }) held).0
          ≡ (emit_held options now buffer held).0)
        × ((emit_held options now (record buffer { recent = recent }) held).1.pending
            ≡ (emit_held options now buffer held).1.pending)
  unfolding emit_held emit is_ready
  emit_pruned buffer recent none = (refl, refl)
  emit_pruned buffer recent (some value) = elim (Bool-cases (is_ready options now buffer)) [
    | inl e ↦ rw (emit_held, is_ready, e) (refl, refl)
    | inr e ↦ rw (emit_held, is_ready, e) (refl, refl)
  ]

module _ (options : ActivityBufferOptions) where
  -- An activity that is remembered and whose window has not passed changes nothing but the memory.
  push_safe-known :
      (safe : Text) (later : ℕ) (buffer : ActivityBuffer) (seen : Seen)
      → prior_of options safe buffer ≡ some seen
      → is_stale options later seen ≡ false
      → IsSameOutcome
          (push_safe options later buffer (some safe))
          (push_safe options later buffer none)
  unfolding push_safe push_fresh prune prior_of emit_pending_if_ready
  push_safe-known safe later buffer seen known fresh =
      let kept =
        find-keep (λ s. s.activity == safe) (λ s. not (is_stale options later s)) buffer.recent
          known (rw fresh refl) in
      rw (push_safe, kept, fresh)
        (emit_pruned options later buffer (keep (λ s. not (is_stale options later s)) buffer.recent)
          buffer.pending)

  push_safe-new :
      (safe : Text) (now : ℕ) (buffer : ActivityBuffer)
      → prior_of options safe (prune options now buffer) ≡ none
      → push_safe options now buffer (some safe)
        ≡ accept options safe now (prune options now buffer)
  unfolding push_safe push_fresh
  push_safe-new safe now buffer new =
      ap (push_fresh options safe now (prune options now buffer)) new

  push_safe-remembers :
      (safe : Text) (now : ℕ) (buffer : ActivityBuffer)
      → prior_of options safe (prune options now buffer) ≡ none
      → prior_of options safe (push_safe options now buffer (some safe)).1
        ≡ some (record { activity = safe; seen_at = now })
  unfolding prior_of
  push_safe-remembers safe now buffer new =
      ap (λ recent. find (λ (s : Seen). s.activity == safe) recent)
        (ap (λ (e : Option Text × ActivityBuffer). e.1.recent) (push_safe-new safe now buffer new)
          ∙ accept-recent options now safe (prune options now buffer))
      ∙ remember-prior_of options safe now (prune options now buffer).recent

  -- Another activity is remembered beside the one that is known.
  remember-other :
      (safe other : Text) (now : ℕ) (recent : List Seen) {seen : Seen}
      → find (λ s. s.activity == safe) recent ≡ some seen
      → (other == safe) ≡ false
      → find (λ s. s.activity == safe) (remember options other now recent) ≡ some seen
  unfolding find remember
  remember-other safe other now [] h apart = cc
  remember-other safe other now (s ∷ rest) h apart = elim (Bool-cases (s.activity == other)) [
    | inl e ↦
        let same = (text_eq_iff s.activity other).0 e in
        let not_first : (s.activity == safe) ≡ false = rw same apart in
        rw (e, apart) (rw not_first at h)
    | inr e ↦ elim (Bool-cases (s.activity == safe)) [
      | inl f ↦ rw (e, f) (rw f at h)
      | inr f ↦ rw (e, f) (remember-other safe other now rest (rw f at h) apart)
    ]
  ]

  accept-other :
      (safe other : Text) (now : ℕ) (buffer : ActivityBuffer) {seen : Seen}
      → prior_of options safe buffer ≡ some seen
      → (other == safe) ≡ false
      → prior_of options safe (accept options other now buffer).1 ≡ some seen
  unfolding prior_of
  accept-other safe other now buffer known apart =
      ap (λ recent. find (λ (s : Seen). s.activity == safe) recent)
        (accept-recent options now other buffer)
      ∙ remember-other safe other now buffer.recent known apart

  emit_pending-prior :
      (safe : Text) (now : ℕ) (buffer : ActivityBuffer)
      → prior_of options safe (emit_pending_if_ready options now buffer).1
        ≡ prior_of options safe buffer
  unfolding prior_of emit_pending_if_ready
  emit_pending-prior safe now buffer =
      ap (λ recent. find (λ (s : Seen). s.activity == safe) recent)
        (emit_held-recent options now buffer buffer.pending)

  prune-prior :
      (safe : Text) (now : ℕ) (buffer : ActivityBuffer) {seen : Seen}
      → prior_of options safe buffer ≡ some seen
      → is_stale options now seen ≡ false
      → prior_of options safe (prune options now buffer) ≡ some seen
  unfolding prior_of prune
  prune-prior safe now buffer known fresh =
      find-keep (λ s. s.activity == safe) (λ s. not (is_stale options now s)) buffer.recent known
        (rw fresh refl)

  -- A push, of whatever activity, while the window of a known one lasts leaves the memory of it.
  fresh-prior :
      (safe other : Text) (now : ℕ) (buffer : ActivityBuffer) (prior : Option Seen) {seen : Seen}
      → prior_of options other buffer ≡ prior
      → prior_of options safe buffer ≡ some seen
      → is_stale options now seen ≡ false
      → prior_of options safe (push_fresh options other now buffer prior).1 ≡ some seen
  unfolding push_fresh
  fresh-prior safe other now buffer none {seen} found known fresh =
      elim (Bool-cases (other == safe)) [
        | inl same ↦
            let known_too : prior_of options other buffer ≡ some seen =
              rw ((text_eq_iff other safe).0 same) known in
            cc
        | inr apart ↦ accept-other safe other now buffer known apart
      ]
  fresh-prior safe other now buffer (some p) {seen} found known fresh =
      elim (Bool-cases (is_stale options now p)) [
        | inl stale ↦ elim (Bool-cases (other == safe)) [
          | inl same ↦
              let known_too : prior_of options other buffer ≡ some seen =
                rw ((text_eq_iff other safe).0 same) known in
              let is_it : p ≡ seen = cc in
              let is_fresh : is_stale options now p ≡ false = rw is_it fresh in
              absurd_bool stale is_fresh
          | inr apart ↦ rw (stale, push_fresh) (accept-other safe other now buffer known apart)
        ]
        | inr kept ↦ rw (kept, push_fresh) (emit_pending-prior safe now buffer ∙ known)
      ]

  push_safe-prior :
      (safe : Text) (now : ℕ) (buffer : ActivityBuffer) (pushed : Option Text) {seen : Seen}
      → prior_of options safe buffer ≡ some seen
      → is_stale options now seen ≡ false
      → prior_of options safe (push_safe options now buffer pushed).1 ≡ some seen
  unfolding push_safe
  push_safe-prior safe now buffer none known fresh = emit_pending-prior safe now buffer ∙ known
  push_safe-prior safe now buffer (some other) known fresh =
      fresh-prior safe other now (prune options now buffer)
        (prior_of options other (prune options now buffer)) refl
        (prune-prior safe now buffer known fresh) fresh

  -- The buffer behind a list of pushes, each with its time.
  abbrev pub push_each : List (ℕ × Option Text) → ActivityBuffer → ActivityBuffer
  unfolding push_safe
  push_each [] buffer = buffer
  push_each ((now, pushed) ∷ pushes) buffer =
      push_each pushes (push_safe options now buffer pushed).1

  push_each-prior :
      (safe : Text) (pushes : List (ℕ × Option Text)) (buffer : ActivityBuffer) {seen : Seen}
      → prior_of options safe buffer ≡ some seen
      → All (λ (p : ℕ × Option Text). p.0 ≤ seen.seen_at + options.dedupe_window_ms) pushes
      → prior_of options safe (push_each pushes buffer) ≡ some seen
  unfolding push_each
  push_each-prior safe [] buffer known soon = known
  push_each-prior safe ((now, pushed) ∷ pushes) buffer known soon =
      push_each-prior safe pushes (push_safe options now buffer pushed).1
        (push_safe-prior safe now buffer pushed known (ground (arith, soon.0))) soon.1

  -- An activity that is new to the buffer and is pushed again before its window has passed makes that push emit and
  -- hold what a push of nothing would, whatever else is pushed in between.
  pub push_safe-repeat :
      (safe : Text) (now later : ℕ) (buffer : ActivityBuffer) (between : List (ℕ × Option Text))
      → prior_of options safe (prune options now buffer) ≡ none
      → All (λ (p : ℕ × Option Text). p.0 ≤ now + options.dedupe_window_ms) between
      → later ≤ now + options.dedupe_window_ms
      → IsSameOutcome
          (push_safe options later
            (push_each between (push_safe options now buffer (some safe)).1)
            (some safe))
          (push_safe options later
            (push_each between (push_safe options now buffer (some safe)).1)
            none)
  push_safe-repeat safe now later buffer between new in_window soon =
      let seen : Seen = record { activity = safe; seen_at = now } in
      push_safe-known safe later (push_each between (push_safe options now buffer (some safe)).1)
        seen
        (push_each-prior safe between (push_safe options now buffer (some safe)).1 {seen = seen}
          (push_safe-remembers safe now buffer new) in_window)
        (ground (arith, soon))
