-- ===== src/Transition/Rules.antt =====
-- How a successful call of `transitionWorkItemInTransaction` decomposes, and the rule by which an
-- invariant of the touch and write steps holds of the whole call, the parent's park included.
use nexus_seventeen.Prelude.{
  ℕ, ◌+◌, ◌≡◌, ap, subst, ◌⊎◌, inl, inr, true, false, ◌||◌, Option, none, some, arith, Text, find,
  ok, >>=-eq-ok, ok-injective, Bool-cases, ◌==◌, eq_text,
}
use nexus_seventeen.Contract.{WorkItemState, eq_state, coordinating, final_approval}
use nexus_seventeen.Board.{WorkItem, Store}
use nexus_seventeen.Transition.Requests.{Request, admit}
use nexus_seventeen.Transition.Writes.{touch_work_item, write_move}
use nexus_seventeen.Transition.{
  check_move, change_row, move_work_item, transition_row, transition_work_item,
  ParentTerminationCascade, CascadeInput, termination_cascade, run_cascade, end_failed, park_parent,
  park_parent_row, park_named_parent, park_parent_of, child_failure, is_failed_end,
}

abbrev pub Answer : Type 0
Answer = Store × WorkItemState × ℕ

-- A registered cascade may write what it likes, as long as it keeps the invariant.
abbrev pub CascadeKeeps {ℓ} : (Store → Type ℓ) → Option ParentTerminationCascade → Type ℓ
CascadeKeeps P none = Unit
CascadeKeeps P (some cascade) =
    (input : CascadeInput) (store next : Store) → cascade input store ≡ ok next → P store → P next

module _ (random_uuid : ℕ → Text) (redact : Text → Text) where
  -- What the touch and the write steps keep, each for the store that the checks read.
  pub record Keeps {ℓ} (P : Store → Type ℓ) : Type ℓ where
    pub touch :
        (store : Store) (request : Request) (row : WorkItem) {answer : Answer}
        → admit store request ≡ ok row
        → (request.to == row.state) ≡ true
        → touch_work_item store request row ≡ ok answer
        → P store
        → P answer.0
    pub write :
        (store : Store) (request : Request) (row : WorkItem) {next : Store}
        → admit store request ≡ ok row
        → (request.to == row.state) ≡ false
        → check_move store request row ≡ ok tt
        → write_move random_uuid redact store request row ≡ ok next
        → P store
        → P next

  -- A successful move of the row.
  pub record Moved (store : Store) (request : Request) (row : WorkItem) (next : Store)
      : Type 0 where
    pub admitted : admit store request ≡ ok row
    pub changed : (request.to == row.state) ≡ false
    pub checked : check_move store request row ≡ ok tt
    pub wrote : write_move random_uuid redact store request row ≡ ok next

  pub record Touched (store : Store) (request : Request) (row : WorkItem) (answer : Answer)
      : Type 0 where
    pub admitted : admit store request ≡ ok row
    pub same : (request.to == row.state) ≡ true
    pub touched : touch_work_item store request row ≡ ok answer

  pub Keeps-Touched {ℓ} :
      {P : Store → Type ℓ} {store : Store} {request : Request} {row : WorkItem} {answer : Answer}
      → Keeps P
      → Touched store request row answer
      → P store
      → P answer.0
  Keeps-Touched {store = s} {request = r} {row = w} k t p =
      k.touch s r w t.admitted t.same t.touched p

  pub Keeps-Moved {ℓ} :
      {P : Store → Type ℓ} {store : Store} {request : Request} {row : WorkItem} {next : Store}
      → Keeps P
      → Moved store request row next
      → P store
      → P next
  Keeps-Moved {store = s} {request = r} {row = w} k m p =
      k.write s r w m.admitted m.changed m.checked m.wrote p

  -- `Unit {0}` has one value, so a check that passed is `ok tt`.
  module _ (store : Store) (request : Request) {answer : Answer} where
    change_row-eq-ok :
        (row : WorkItem)
        → admit store request ≡ ok row
        → (request.to == row.state) ≡ false
        → change_row random_uuid redact store request row ≡ ok answer
        → Moved store request row answer.0 × (answer ≡ (answer.0, row.state, row.version + 1))
    unfolding change_row
    change_row-eq-ok row a ne h =
        let (_, c, h') = >>=-eq-ok (check_move store request row) _ h in
        let (next, w, e) = >>=-eq-ok (write_move random_uuid redact store request row) _ h' in
        let given : (next, row.state, row.version + 1) ≡ answer = ok-injective e in
        (record { admitted = a; changed = ne; checked = c; wrote = rw (← given) w }, rw (← given))

    pub move_work_item-eq-ok :
        move_work_item random_uuid redact store request ≡ ok answer
        → (row : WorkItem) × (Touched store request row answer ⊎ Moved store request row answer.0)
    unfolding move_work_item
    move_work_item-eq-ok h =
        let (row, a, h') = >>=-eq-ok (admit store request) _ h in
        elim (Bool-cases (request.to == row.state)) [
          | inl same ↦ (row, inl (record { admitted = a; same = same; touched = rw same at h' }))
          | inr ne ↦ (row, inr (change_row-eq-ok row a ne (rw ne at h')).0)
        ]

  module _ (registered : Option ParentTerminationCascade) where
    module _ (store : Store) (request : Request) (answer : Answer) where
      -- A move of the row, then what its end entails.
      pub record Transitioned (row : WorkItem) : Type 0 where
        pub written : Store
        pub move : Moved store request row written
        pub cascade : Option ParentTerminationCascade
        pub found : termination_cascade registered store request ≡ ok cascade
        pub final : Store
        pub ended : end_failed random_uuid redact cascade request written ≡ ok final
        pub told : (final, row.state, row.version + 1) ≡ answer

    module _ (store : Store) (request : Request) {answer : Answer} where
      pub transition_work_item-eq-ok :
          transition_work_item random_uuid redact registered store request ≡ ok answer
          → (row : WorkItem) × (Touched store request row answer
              ⊎ Transitioned store request answer row)
      unfolding transition_work_item transition_row
      transition_work_item-eq-ok h =
          let (row, a, h') = >>=-eq-ok (admit store request) _ h in
          elim (Bool-cases (request.to == row.state)) [
            | inl same ↦ (row, inl (record { admitted = a; same = same; touched = rw same at h' }))
            | inr ne ↦
                let (_, c, h1) = >>=-eq-ok (check_move store request row) _ (rw ne at h') in
                let (cascade, f, h2) =
                  >>=-eq-ok (termination_cascade registered store request) _ h1 in
                let (written, w, h3) =
                  >>=-eq-ok (write_move random_uuid redact store request row) _ h2 in
                let (final, d, e) =
                  >>=-eq-ok (end_failed random_uuid redact cascade request written) _ h3 in
                (
                  row,
                  inr (record {
                    written = written;
                    move = record { admitted = a; changed = ne; checked = c; wrote = w };
                    cascade = cascade;
                    found = f;
                    final = final;
                    ended = d;
                    told = ok-injective e;
                  }),
                )
          ]

  module _ {ℓ} {P : Store → Type ℓ} (keeps : Keeps P) where
    pub move_work_item-keeps :
        (store : Store) (request : Request) {answer : Answer}
        → move_work_item random_uuid redact store request ≡ ok answer
        → P store
        → P answer.0
    move_work_item-keeps store request h p = elim (move_work_item-eq-ok store request h).1 [
      | inl t ↦ Keeps-Touched keeps t p
      | inr m ↦ Keeps-Moved keeps m p
    ]

    park_parent_row-keeps :
        (store : Store) (request : Request) (parent_id : Text) (parent : Option WorkItem)
        {next : Store}
        → park_parent_row random_uuid redact store request parent_id parent ≡ ok next
        → P store
        → P next
    unfolding park_parent_row
    park_parent_row-keeps store request parent_id none h p = subst P (ok-injective h) p
    park_parent_row-keeps store request parent_id (some parent) h p =
        elim (Bool-cases (parent.state == coordinating || parent.state == final_approval)) [
          | inl waits ↦
              let (answer, m, given) =
                >>=-eq-ok
                  (move_work_item random_uuid redact store
                    (child_failure random_uuid redact request parent_id))
                  _ (rw waits at h) in
              subst P (ok-injective given) (move_work_item-keeps store _ m p)
          | inr rests ↦ subst P (ok-injective (rw rests at h)) p
        ]

    park_named_parent-keeps :
        (store : Store) (request : Request) (parent_id : Option Text) {next : Store}
        → park_named_parent random_uuid redact store request parent_id ≡ ok next
        → P store
        → P next
    unfolding park_named_parent
    park_named_parent-keeps store request none h p = subst P (ok-injective h) p
    park_named_parent-keeps store request (some parent_id) h p =
        park_parent_row-keeps store request parent_id _ h p

    park_parent_of-keeps :
        (store : Store) (request : Request) (child : Option WorkItem) {next : Store}
        → park_parent_of random_uuid redact store request child ≡ ok next
        → P store
        → P next
    unfolding park_parent_of
    park_parent_of-keeps store request none h p = subst P (ok-injective h) p
    park_parent_of-keeps store request (some child) h p =
        park_named_parent-keeps store request child.parent_work_item_id h p

    park_parent-keeps :
        (store : Store) (request : Request) {next : Store}
        → park_parent random_uuid redact store request ≡ ok next
        → P store
        → P next
    unfolding park_parent
    park_parent-keeps store request h p =
        park_parent_of-keeps store request
          (find (λ w. w.work_item_id == request.work_item_id) store.work_items) h p

    run_cascade-keeps :
        (cascade : Option ParentTerminationCascade) (request : Request) (store : Store)
        {next : Store}
        → CascadeKeeps P cascade
        → run_cascade cascade request store ≡ ok next
        → P store
        → P next
    unfolding run_cascade
    run_cascade-keeps none request store k h p = subst P (ok-injective h) p
    run_cascade-keeps (some cascade) request store {next} k h p = k _ store next h p

    end_failed-keeps :
        (cascade : Option ParentTerminationCascade) (request : Request) (store : Store)
        {next : Store}
        → CascadeKeeps P cascade
        → end_failed random_uuid redact cascade request store ≡ ok next
        → P store
        → P next
    unfolding end_failed
    end_failed-keeps cascade request store k h p = elim (Bool-cases (is_failed_end request.to)) [
      | inl failed ↦
          let (cascaded, c, h') =
            >>=-eq-ok (run_cascade cascade request store) _ (rw failed at h) in
          park_parent-keeps cascaded request h' (run_cascade-keeps cascade request store k c p)
      | inr other ↦ subst P (ok-injective (rw other at h)) p
    ]

    -- The cascade that runs is the registered one, or none.
    termination_cascade-CascadeKeeps :
        (registered cascade : Option ParentTerminationCascade) (store : Store) (request : Request)
        → CascadeKeeps P registered
        → termination_cascade registered store request ≡ ok cascade
        → CascadeKeeps P cascade
    unfolding termination_cascade
    termination_cascade-CascadeKeeps registered none store request k h = tt
    termination_cascade-CascadeKeeps none (some cascade) store request k h = ground arith
    termination_cascade-CascadeKeeps (some r) (some cascade) store request k h =
        let same : some r ≡ some cascade = ground arith in subst (CascadeKeeps P) same k

    -- What the touch and the write keep, and the cascade, the whole transition keeps.
    pub transition_work_item-keeps :
        (registered : Option ParentTerminationCascade) (store : Store) (request : Request)
        {answer : Answer}
        → CascadeKeeps P registered
        → transition_work_item random_uuid redact registered store request ≡ ok answer
        → P store
        → P answer.0
    transition_work_item-keeps registered store request k h p =
        elim (transition_work_item-eq-ok registered store request h).1 [
          | inl t ↦ Keeps-Touched keeps t p
          | inr t ↦ subst P (ap (λ (a : Answer). a.0) t.told) (
              end_failed-keeps t.cascade request t.written
                (termination_cascade-CascadeKeeps registered t.cascade store request k t.found)
                t.ended (Keeps-Moved keeps t.move p))
        ]
