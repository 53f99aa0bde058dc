-- ===== src/Attempts/Settled.antt =====
-- src/server/task-board/collaborators/verify-attempts.ts: an attempt is settled once, in the transaction that
-- ends it.
use nexus_seventeen.Prelude.{
  ℕ, suc, ◌+◌, ◌≤◌, ◌≡◌, ◌⊎◌, inl, inr, refl, sym, ap, ◌∙◌, subst, Bool, true, false, Bool-cases,
  List, [], ◌∷◌, ◌++◌, Text, text_eq_iff, tally, update_where, if◌then◌else◌, ◌==◌, eq_text, arith,
}
use mathlib.Core.List.{Memᴰ}
use nexus_seventeen.Attempts.Rows.{AttemptState, green, failed, died, VerifyAttempt, Settlement}

-- The states in which an attempt has been settled.
abbrev pub is_settled : AttemptState → Bool
is_settled green = true
is_settled failed = true
is_settled died = true
is_settled _ = false

abbrev pub settlements_of : Text → List Settlement → ℕ
settlements_of id settlements = tally (λ s. s.verify_attempt_id == id) settlements

module _ {A : Type 0} where
  pub update_where-mem :
      (p : A → Bool) (f : A → A) (xs : List A) {y : A}
      → Memᴰ y (update_where p f xs)
      → (x : A) × Memᴰ x xs × (y ≡ (if p x then f x else x))
  unfolding update_where
  update_where-mem p f [] m = elim m [ ]
  update_where-mem p f (x ∷ xs) (Memᴰ.head e) = (x, Memᴰ.head refl, e)
  update_where-mem p f (x ∷ xs) (Memᴰ.tail m) =
      let (z, k, e) = update_where-mem p f xs m in (z, Memᴰ.tail k, e)

  pub mem-update_where :
      (p : A → Bool) (f : A → A) (xs : List A) {x : A}
      → Memᴰ x xs
      → p x ≡ false
      → Memᴰ x (update_where p f xs)
  unfolding update_where
  mem-update_where p f [] m h = elim m [ ]
  mem-update_where p f (z ∷ xs) {x} (Memᴰ.head e) h =
      let same : x ≡ (if p z then f z else z) = rw (← e, h) in Memᴰ.head same
  mem-update_where p f (z ∷ xs) (Memᴰ.tail m) h = Memᴰ.tail (mem-update_where p f xs m h)

  pub tally-mem : (p : A → Bool) (xs : List A) → tally p xs ≡ 1 → (x : A) × Memᴰ x xs × (p x ≡ true)
  unfolding tally
  tally-mem p [] h = absurd (omega (arith, h))
  tally-mem p (x ∷ xs) h = elim (Bool-cases (p x)) [
    | inl t ↦ (x, Memᴰ.head refl, t)
    | inr f ↦ let (y, m, t) = tally-mem p xs (rw f at h) in (y, Memᴰ.tail m, t)
  ]

  pub tally-append :
      (p : A → Bool) (xs : List A) (z : A)
      → tally p (xs ++ z ∷ []) ≡ tally p xs + (if p z then 1 else 0)
  unfolding tally
  tally-append p [] z = ground arith
  tally-append p (x ∷ xs) z = ground (arith, tally-append p xs z)

  pub tally-none :
      (p : A → Bool) (xs : List A) → ((x : A) → Memᴰ x xs → p x ≡ false) → tally p xs ≡ 0
  unfolding tally
  tally-none p [] h = refl
  tally-none p (x ∷ xs) h = rw (h x (Memᴰ.head refl)) (tally-none p xs (λ y m. h y (Memᴰ.tail m)))

  -- An `UPDATE` that selects no row.
  pub update_where-none :
      (p : A → Bool) (f : A → A) (xs : List A) → tally p xs ≡ 0 → update_where p f xs ≡ xs
  unfolding tally update_where
  update_where-none p f [] h = refl
  update_where-none p f (x ∷ xs) h = elim (Bool-cases (p x)) [
    | inl t ↦ absurd (let more : suc (tally p xs) ≡ 0 = rw t at h in omega (arith, more))
    | inr n ↦ rw n (rw (update_where-none p f xs (rw n at h)))
  ]

  pub append-mem : (xs : List A) (z : A) {y : A} → Memᴰ y (xs ++ z ∷ []) → Memᴰ y xs ⊎ (y ≡ z)
  append-mem [] z (Memᴰ.head e) = inr e
  append-mem [] z (Memᴰ.tail m) = elim m [ ]
  append-mem (x ∷ xs) z (Memᴰ.head e) = inl (Memᴰ.head e)
  append-mem (x ∷ xs) z (Memᴰ.tail m) = elim (append-mem xs z m) [
    | inl k ↦ inl (Memᴰ.tail k)
    | inr e ↦ inr e
  ]

abbrev pub rows_of : Text → List VerifyAttempt → ℕ
rows_of id rows = tally (λ a. a.verify_attempt_id == id) rows

-- The identifier determines the row.
abbrev pub Keyed : List VerifyAttempt → Type 0
Keyed rows =
    (a b : VerifyAttempt)
    → Memᴰ a rows
    → Memᴰ b rows
    → a.verify_attempt_id ≡ b.verify_attempt_id
    → a ≡ b

abbrev pub expected : VerifyAttempt → ℕ
expected a = if is_settled a.state then 1 else 0

-- Each attempt that has ended in a verdict was settled once, and no other attempt was settled.
pub record IsSettledOnce (rows : List VerifyAttempt) (settlements : List Settlement) : Type 0 where
  pub single : (id : Text) → rows_of id rows ≤ 1
  pub keyed : Keyed rows
  pub counted :
      (a : VerifyAttempt)
      → Memᴰ a rows
      → settlements_of a.verify_attempt_id settlements ≡ expected a

-- A change that keeps identifiers, at the rows it selects.
abbrev pub KeepsId : (VerifyAttempt → Bool) → (VerifyAttempt → VerifyAttempt) → Type 0
KeepsId p f = (a : VerifyAttempt) → p a ≡ true → (f a).verify_attempt_id ≡ a.verify_attempt_id

pub differs : (a b : Text) → (a ≡ b → ⊥) → (a == b) ≡ false
differs a b h = elim (Bool-cases (a == b)) [
  | inl t ↦ absurd (h ((text_eq_iff a b).0 t))
  | inr n ↦ n
]

count_other :
    (settlements : List Settlement) (s : Settlement) (y : VerifyAttempt)
    → (s.verify_attempt_id == y.verify_attempt_id) ≡ false
    → settlements_of y.verify_attempt_id settlements ≡ expected y
    → settlements_of y.verify_attempt_id (s ∷ settlements) ≡ expected y
unfolding tally
count_other settlements s y other h = rw other h

now_counted :
    (settlements : List Settlement) (s : Settlement) (y z : VerifyAttempt)
    → z.verify_attempt_id ≡ y.verify_attempt_id
    → (y.verify_attempt_id ≡ s.verify_attempt_id)
      × (is_settled y.state ≡ false)
      × (is_settled z.state ≡ true)
    → settlements_of y.verify_attempt_id settlements ≡ expected y
    → settlements_of z.verify_attempt_id (s ∷ settlements) ≡ expected z
unfolding tally
now_counted settlements s y z same ends h =
    let met : (s.verify_attempt_id == z.verify_attempt_id) ≡ true =
      (text_eq_iff s.verify_attempt_id z.verify_attempt_id).1 (sym (same ∙ ends.0)) in
    let before : settlements_of z.verify_attempt_id settlements ≡ 0 =
      ap (λ id. settlements_of id settlements) same ∙ h ∙ ap (λ b. if b then 1 else 0) ends.1 in
    let after : expected z ≡ 1 = ap (λ b. if b then 1 else 0) ends.2 in
    rw met (omega (arith, before, after))

module _ (p : VerifyAttempt → Bool) (f : VerifyAttempt → VerifyAttempt) (keeps : KeepsId p f) where
  chosen_id : (a : VerifyAttempt) → (if p a then f a else a).verify_attempt_id ≡ a.verify_attempt_id
  chosen_id a = elim (Bool-cases (p a)) [ inl t ↦ rw t (keeps a t) | inr e ↦ rw e ]

  update_where-Keyed : (rows : List VerifyAttempt) → Keyed rows → Keyed (update_where p f rows)
  update_where-Keyed rows k a b ma mb same =
      let (x, mx, ex) = update_where-mem p f rows ma in
      let (y, my, ey) = update_where-mem p f rows mb in
      let ids : x.verify_attempt_id ≡ y.verify_attempt_id =
        sym (chosen_id x)
        ∙ ap (λ (v : VerifyAttempt). v.verify_attempt_id) (sym ex)
        ∙ same
        ∙ ap (λ (v : VerifyAttempt). v.verify_attempt_id) ey
        ∙ chosen_id y in
      ex ∙ ap (λ v. if p v then f v else v) (k x y mx my ids) ∙ sym ey

  still_counted :
      (settlements : List Settlement)
      → ((a : VerifyAttempt) → p a ≡ true → is_settled (f a).state ≡ is_settled a.state)
      → (x : VerifyAttempt) → settlements_of x.verify_attempt_id settlements ≡ expected x
      → settlements_of (if p x then f x else x).verify_attempt_id settlements
        ≡ expected (if p x then f x else x)
  still_counted settlements stays x h = elim (Bool-cases (p x)) [
    | inl t ↦ rw t (
        ap (λ id. settlements_of id settlements) (keeps x t)
        ∙ h
        ∙ ap (λ b. if b then 1 else 0) (sym (stays x t)))
    | inr n ↦ rw n h
  ]

  rows_of-update_where :
      (id : Text) (rows : List VerifyAttempt) → rows_of id (update_where p f rows) ≡ rows_of id rows
  unfolding update_where tally
  rows_of-update_where id [] = refl
  rows_of-update_where id (a ∷ rows) = rw (chosen_id a, rows_of-update_where id rows) refl

  -- A change that neither ends an attempt in a verdict nor takes one back.
  pub update_where-IsSettledOnce :
      (rows : List VerifyAttempt) (settlements : List Settlement)
      → ((a : VerifyAttempt) → p a ≡ true → is_settled (f a).state ≡ is_settled a.state)
      → IsSettledOnce rows settlements
      → IsSettledOnce (update_where p f rows) settlements
  update_where-IsSettledOnce rows settlements stays h = record {
    single = λ id. rw (rows_of-update_where id rows) (h.single id);
    keyed = update_where-Keyed rows h.keyed;
    counted = λ a m.
        let (x, mx, e) = update_where-mem p f rows m in
        subst (λ b. settlements_of b.verify_attempt_id settlements ≡ expected b) (sym e)
          (still_counted settlements stays x (h.counted x mx));
  }

  -- A change of the one row of an identifier, with its settlement.
  pub settled-IsSettledOnce :
      (rows : List VerifyAttempt) (settlements : List Settlement) (s : Settlement)
      → ((a : VerifyAttempt)
          → p a ≡ true
          → (a.verify_attempt_id ≡ s.verify_attempt_id)
            × (is_settled a.state ≡ false)
            × (is_settled (f a).state ≡ true))
      → (x : VerifyAttempt) → Memᴰ x rows
      → p x ≡ true
      → IsSettledOnce rows settlements
      → IsSettledOnce (update_where p f rows) (s ∷ settlements)
  settled-IsSettledOnce rows settlements s ends x mx px h = record {
    single = λ id. rw (rows_of-update_where id rows) (h.single id);
    keyed = update_where-Keyed rows h.keyed;
    counted = λ a m.
        let (y, my, e) = update_where-mem p f rows m in
        subst (λ b. settlements_of b.verify_attempt_id (s ∷ settlements) ≡ expected b) (sym e)
          (elim (Bool-cases (p y)) [
            | inl t ↦
                rw t (now_counted settlements s y (f y) (keeps y t) (ends y t) (h.counted y my))
            | inr n ↦
                let other : s.verify_attempt_id == y.verify_attempt_id ≡ false =
                  differs s.verify_attempt_id y.verify_attempt_id (λ same.
                    let one : x ≡ y = h.keyed x y mx my ((ends x px).0 ∙ same) in
                    let chosen : p y ≡ true = subst (λ v. p v ≡ true) one px in cc) in
                rw n (count_other settlements s y other (h.counted y my))
          ]);
  }
