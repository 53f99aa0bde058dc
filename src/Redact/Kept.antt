-- ===== src/Redact/Kept.antt =====
-- src/server/shared/redact.ts: a text at the start that the credential patterns leave alone is stored as it is, where
-- the limit has room for it and for a redaction marker.
use nexus_seventeen.Prelude.{
  ℕ, zero, suc, ◌+◌, ◌-◌, ◌≤◌, ◌≡◌, refl, sym, ap, ◌∙◌, subst, Bool, true, false, not, [], ◌∷◌,
  ◌++◌, Option, none, some, arith, Text, lit, find-mem, starts_with, leb, ltb, nat_eq, keep, length,
  take, drop, Bool-cases, inl, inr, All, All-mem, all, ◌&&◌, both_true,
}
use nexus_seventeen.Redact.{
  redaction_marker_prefix, redaction_markers, last_index_of, marker_at_start, cut_before_marker,
  cut_marker, cut_found, truncate_preserving_redaction_markers, is_control, redact_for_persistence,
}

-- A text with another behind it.
abbrev pub Keeps : Text → Text → Type 0
Keeps p text = (rest : Text) × (text ≡ p ++ rest)

take-Keeps : (p rest : Text) (n : ℕ) → length p ≤ n → Keeps p (take n (p ++ rest))
take-Keeps [] rest n h = (take n rest, refl)
take-Keeps (c ∷ p) rest zero h = absurd (omega (arith, h))
take-Keeps (c ∷ p) rest (suc n) h =
    let (r, e) = take-Keeps p rest n (omega (arith, h)) in (r, ap (λ t. c ∷ t) e)

append_assoc : (xs ys zs : Text) → (xs ++ ys) ++ zs ≡ xs ++ (ys ++ zs)
append_assoc [] ys zs = refl
append_assoc (x ∷ xs) ys zs = rw (append_assoc xs ys zs)

append-Keeps : (p text end : Text) → Keeps p text → Keeps p (text ++ end)
append-Keeps p text end (rest, e) = (rest ++ end, ap (λ t. t ++ end) e ∙ append_assoc p rest end)

markers_short : All (λ (m : Text). length m ≤ 25) redaction_markers
unfolding redaction_markers lit
markers_short = (omega arith, (omega arith, (omega arith, (omega arith, tt))))

marker_at_start-short :
    (text : Text) {marker : Text} → marker_at_start text ≡ some marker → length marker ≤ 25
unfolding marker_at_start
marker_at_start-short text h =
    All-mem (λ (m : Text). length m ≤ 25) redaction_markers markers_short
      (find-mem (λ marker. starts_with text marker) redaction_markers h).0

module _ (p : Text) (limit : ℕ) (room : length p + 25 ≤ limit) where
  cut_before_marker-Keeps :
      (rest : Text) (start : ℕ) (marker : Text)
      → length marker ≤ 25
      → Keeps p (cut_before_marker (p ++ rest) limit start marker)
  unfolding cut_before_marker
  cut_before_marker-Keeps rest start marker short =
      elim (Bool-cases (leb (start + length marker) limit)) [
        | inl t ↦ rw (t, cut_before_marker) (take-Keeps p rest limit (omega (arith, room)))
        | inr f ↦
            let fits : ltb limit (length marker) ≡ false = ground (arith, room, short) in
            rw (f, fits, cut_before_marker)
              (append-Keeps p (take (limit - length marker) (p ++ rest)) marker
                (take-Keeps p rest (limit - length marker) (omega (arith, room, short))))
      ]

  cut_marker-Keeps :
      (rest text : Text) (start : ℕ) (marker : Option Text)
      → marker_at_start text ≡ marker
      → Keeps p (cut_marker (p ++ rest) limit start marker)
  unfolding cut_marker
  cut_marker-Keeps rest text start none h = take-Keeps p rest limit (omega (arith, room))
  cut_marker-Keeps rest text start (some marker) h =
      cut_before_marker-Keeps rest start marker (marker_at_start-short text h)

  cut_found-Keeps : (rest : Text) (found : Option ℕ) → Keeps p (cut_found (p ++ rest) limit found)
  unfolding cut_found
  cut_found-Keeps rest none = take-Keeps p rest limit (omega (arith, room))
  cut_found-Keeps rest (some start) =
      cut_marker-Keeps rest (drop start (p ++ rest)) start
        (marker_at_start (drop start (p ++ rest))) refl

  truncate-Keeps : (rest : Text) → Keeps p (truncate_preserving_redaction_markers (p ++ rest) limit)
  unfolding truncate_preserving_redaction_markers
  truncate-Keeps rest =
      let some_room : nat_eq limit 0 ≡ false = ground (arith, room) in
      elim (Bool-cases (leb (length (p ++ rest)) limit)) [
        | inl t ↦ rw (some_room, t, truncate_preserving_redaction_markers) (rest, refl)
        | inr f ↦
            rw (some_room, f, truncate_preserving_redaction_markers)
              (cut_found-Keeps rest (last_index_of redaction_marker_prefix (p ++ rest) (limit - 1)))
      ]

keep-append : (q : ℕ → Bool) (xs ys : Text) → keep q (xs ++ ys) ≡ keep q xs ++ keep q ys
unfolding keep
keep-append q [] ys = refl
keep-append q (x ∷ xs) ys = elim (Bool-cases (q x)) [
  | inl t ↦ rw (t, keep-append q xs ys)
  | inr f ↦ rw (f, keep-append q xs ys)
]

-- A character that no scrub takes out.
abbrev pub is_visible : ℕ → Bool
is_visible c = leb 32 c && leb c 126

visible : (c : ℕ) → is_visible c ≡ true → not (is_control c) ≡ true
unfolding is_control
visible c h = ground (arith, h)

keep-visible : (p : Text) → all is_visible p ≡ true → keep (λ c. not (is_control c)) p ≡ p
unfolding keep all
keep-visible [] h = refl
keep-visible (c ∷ p) h =
    let (first, others) = both_true (is_visible c) (all is_visible p) h in
    rw (visible c first, keep-visible p others)

pub redact_for_persistence-Keeps :
    (redact : Text → Text) (p rest : Text) (limit : ℕ)
    → length p + 25 ≤ limit
    → all is_visible p ≡ true
    → ((text : Text) → Keeps p (redact (p ++ text)))
    → Keeps p (redact_for_persistence redact (p ++ rest) (some limit))
unfolding redact_for_persistence
redact_for_persistence-Keeps redact p rest limit room is_seen keeps =
    let printed = keep (λ c. not (is_control c)) rest in
    let stripped : keep (λ c. not (is_control c)) (p ++ rest) ≡ p ++ printed =
      keep-append (λ c. not (is_control c)) p rest
      ∙ ap (λ t. t ++ printed) (keep-visible p is_seen) in
    let (after, e) = keeps printed in
    subst (λ t. Keeps p (truncate_preserving_redaction_markers t limit))
      (sym (ap redact stripped ∙ e)) (truncate-Keeps p limit room after)
