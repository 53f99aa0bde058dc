-- ===== src/Readiness/Urgency.antt =====
-- src/server/task-board/collaborators/decomposition-readiness.ts: the row that an `ORDER BY ... LIMIT 1`
-- of the readiness queries picks.
use nexus_seventeen.Prelude.{
  ◌≤◌, ◌≡◌, ◌⊎◌, refl, sym, subst, inl, inr, Bool, true, false, List, [], ◌∷◌, Option, none, some,
  arith, nat_eq_iff, Option-cases, eq_text, Bool-cases,
}
use mathlib.Core.List.{Memᴰ}
use nexus_seventeen.Contract.{eq_state}
use nexus_seventeen.Board.{WorkItem}
use nexus_seventeen.Readiness.{urgency, is_more_urgent, first_of, first_by}

module _ (before : WorkItem → WorkItem → Bool) where
  first_of-is_some :
      (best : Option WorkItem) (s : WorkItem) → (x : WorkItem) × (first_of before best s ≡ some x)
  first_of-is_some none s = (s, refl)
  first_of-is_some (some b) s = elim (Bool-cases (before b s)) [
    | inl e ↦ (b, rw e refl)
    | inr e ↦ (s, rw e refl)
  ]

  pub first_by-none : (xs : List WorkItem) → first_by before xs ≡ none → xs ≡ []
  unfolding first_by
  first_by-none [] h = refl
  first_by-none (x ∷ xs) h =
      let (y, e) = first_of-is_some (first_by before xs) x in ground (arith, e)

  first_of-cases :
      (best : Option WorkItem) (s x : WorkItem)
      → first_of before best s ≡ some x
      → (x ≡ s) ⊎ (best ≡ some x)
  first_of-cases none s x h = let same : s ≡ x = cc in inl (sym same)
  first_of-cases (some b) s x h = elim (Bool-cases (before b s)) [
    | inl e ↦ inr (rw e at h)
    | inr e ↦ let told : some s ≡ some x = rw e at h in let same : s ≡ x = cc in inl (sym same)
  ]

  pub first_by-mem : (xs : List WorkItem) {x : WorkItem} → first_by before xs ≡ some x → Memᴰ x xs
  unfolding first_by
  first_by-mem [] h = cc
  first_by-mem (s ∷ xs) {x} h = elim (first_of-cases (first_by before xs) s x h) [
    | inl e ↦ Memᴰ.head e
    | inr e ↦ Memᴰ.tail (first_by-mem xs e)
  ]

more_urgent_le : (a b : WorkItem) → is_more_urgent a b ≡ true → urgency a ≤ urgency b
unfolding is_more_urgent
more_urgent_le a b h = ground (arith, nat_eq_iff (urgency a) (urgency b))

less_urgent_le : (a b : WorkItem) → is_more_urgent a b ≡ false → urgency b ≤ urgency a
unfolding is_more_urgent
less_urgent_le a b h = ground arith

first_of-least :
    (best : Option WorkItem) (s : WorkItem) {x : WorkItem}
    → first_of is_more_urgent best s ≡ some x
    → (urgency x ≤ urgency s) × ((b : WorkItem) → best ≡ some b → urgency x ≤ urgency b)
first_of-least none s {x} h = let same : s ≡ x = cc in (rw same (omega arith), λ b e. cc)
first_of-least (some best) s {x} h = elim (Bool-cases (is_more_urgent best s)) [
  | inl e ↦
      let told : some best ≡ some x = rw e at h in
      let same : best ≡ x = cc in
      (
        rw (← same) (more_urgent_le best s e),
        λ b q. let other : best ≡ b = cc in rw (← same, ← other) (omega arith),
      )
  | inr e ↦
      let told : some s ≡ some x = rw e at h in
      let same : s ≡ x = cc in
      (
        rw (← same) (omega arith),
        λ b q. let other : best ≡ b = cc in rw (← same, ← other) (less_urgent_le best s e),
      )
]

-- No row of the list is more urgent than the first.
pub first_by-least :
    (xs : List WorkItem) {x y : WorkItem}
    → first_by is_more_urgent xs ≡ some x
    → Memᴰ y xs
    → urgency x ≤ urgency y
unfolding first_by
first_by-least [] h m = elim m [ ]
first_by-least (s ∷ xs) {x} {y} h (Memᴰ.head e) =
    rw e ((first_of-least (first_by is_more_urgent xs) s h).0)
first_by-least (s ∷ xs) {x} {y} h (Memᴰ.tail m) = elim (Option-cases (first_by is_more_urgent xs)) [
  | inl e ↦ elim (subst (λ zs. Memᴰ y zs) (first_by-none is_more_urgent xs e) m) [ ]
  | inr (b, e) ↦
      let low = (first_of-least (first_by is_more_urgent xs) s h).1 b e in
      let rest = first_by-least xs e m in omega (arith, low, rest)
]
