-- ===== src/Readiness/ContractChild.antt =====
-- src/server/task-board/collaborators/decomposition-readiness.ts: when a Contract child is blocked, and
-- by which of its siblings.
use nexus_seventeen.Prelude.{
  ◌≤◌, ◌≡◌, ◌↔◌, refl, sym, ap, subst, ◌∙◌, inl, inr, true, false, ◌&&◌, List, [], Option, none,
  some, option_eq, option_eq_iff, arith, Text, any-mem, keep, mem-keep, keep-mem, find, find-mem,
  Option-cases, ◌==◌, eq_text, Bool-cases,
}
use mathlib.Core.List.{Memᴰ}
use nexus_seventeen.Contract.{merged, eq_state, state_eq_iff}
use nexus_seventeen.Board.{contract, WorkItem}
use nexus_seventeen.Readiness.{
  Family, DecompositionReadinessBlocker, is_failed_terminal_work_item_state, is_attested,
  is_other_phase, has_some_phase, is_unready, urgency, is_more_urgent, first_by, sibling_blocker,
  parent_is_phased, decomposition_readiness_blocker,
}
use nexus_seventeen.Readiness.Urgency.{first_by-none, first_by-mem, first_by-least}

-- What the contract query leaves out is merged and attested.
unready-cases :
    (family : Family) (parent_id : Text) (s : WorkItem)
    → is_unready family parent_id s ≡ false
    → s.parent_work_item_id ≡ some parent_id
    → is_other_phase s.phase ≡ true
    → (s.state ≡ merged) × (is_attested family s.work_item_id ≡ true)
unfolding is_unready
unready-cases family parent_id s h p o =
    let same = (option_eq_iff s.parent_work_item_id (some parent_id)).1 p in
    ((state_eq_iff s.state merged).0 (ground (arith, same)), ground (arith, same))

ready-cases :
    (family : Family) (parent_id : Text) (s : WorkItem)
    → (s.parent_work_item_id ≡ some parent_id
        → is_other_phase s.phase ≡ true
        → (s.state ≡ merged) × (is_attested family s.work_item_id ≡ true))
    → is_unready family parent_id s ≡ false
unfolding is_unready
ready-cases family parent_id s h =
    elim (Bool-cases (option_eq s.parent_work_item_id (some parent_id))) [
      | inr e ↦ rw e refl
      | inl e ↦ elim (Bool-cases (is_other_phase s.phase)) [
        | inr f ↦ ground (arith, f)
        | inl f ↦
            let (done, attested) =
              h ((option_eq_iff s.parent_work_item_id (some parent_id)).0 e) f in
            ground (arith, (state_eq_iff s.state merged).1 done, attested)
      ]
    ]

state_of :
    (family : Family) (x : WorkItem) (blocker : DecompositionReadinessBlocker)
    → sibling_blocker family (some x) ≡ some blocker
    → x.state ≡ blocker.state
state_of family x blocker h =
    ap (λ (b : Option DecompositionReadinessBlocker). elim b [ none ↦ x.state | some c ↦ c.state ])
      h

failed_urgency : (s : WorkItem) → is_failed_terminal_work_item_state s.state ≡ true → urgency s ≡ 0
unfolding urgency
failed_urgency s h = ground (arith, h)

urgent_failed : (s : WorkItem) → urgency s ≤ 0 → is_failed_terminal_work_item_state s.state ≡ true
unfolding urgency
urgent_failed s h = ground arith

unready_of :
    (family : Family) (parent_id : Text) (s : WorkItem)
    → s.parent_work_item_id ≡ some parent_id
    → is_other_phase s.phase ≡ true
    → is_failed_terminal_work_item_state s.state ≡ true
    → is_unready family parent_id s ≡ true
unfolding is_unready is_failed_terminal_work_item_state
unready_of family parent_id s p o failed =
    ground (arith, (option_eq_iff s.parent_work_item_id (some parent_id)).1 p, o)

module _ (family : Family) (work_item_id parent_id : Text) (owner : WorkItem)
    (read : find (λ w. w.work_item_id == work_item_id) family.work_items ≡ some owner)
    (child : owner.parent_work_item_id ≡ some parent_id) (last : owner.phase ≡ some contract) where
  phased : parent_is_phased family parent_id ≡ true
  unfolding parent_is_phased
  phased =
      any-mem (λ s. option_eq s.parent_work_item_id (some parent_id) && has_some_phase s.phase)
        family.work_items (find-mem _ family.work_items read).0
        (ground (
          arith,
          (option_eq_iff owner.parent_work_item_id (some parent_id)).1 child,
          ap has_some_phase last,
        ))

  unready : List WorkItem
  unready = keep (is_unready family parent_id) family.work_items

  contract_value :
      decomposition_readiness_blocker family work_item_id
      ≡ sibling_blocker family (first_by is_more_urgent unready)
  unfolding decomposition_readiness_blocker unready
  contract_value = rw (read, child, phased, last)

  unready-none : decomposition_readiness_blocker family work_item_id ≡ none → unready ≡ []
  unready-none h = elim (Option-cases (first_by is_more_urgent unready)) [
    | inl e ↦ first_by-none is_more_urgent unready e
    | inr (x, e) ↦
        let told : sibling_blocker family (some x) ≡ none =
          ap (sibling_blocker family) (sym e) ∙ sym contract_value ∙ h in
        cc
  ]

  -- A Contract child may start exactly when every Expand and Migrate child of its parent is merged and
  -- its deployment is attested.
  pub contract-blocker_iff : (decomposition_readiness_blocker family work_item_id ≡ none) ↔ (
      (s : WorkItem)
      → Memᴰ s family.work_items
      → s.parent_work_item_id ≡ some parent_id
      → is_other_phase s.phase ≡ true
      → (s.state ≡ merged) × (is_attested family s.work_item_id ≡ true))
  unfolding unready
  contract-blocker_iff = (all_ready, may_start)
    where
      all_ready :
          decomposition_readiness_blocker family work_item_id ≡ none
          → (s : WorkItem) → Memᴰ s family.work_items
          → s.parent_work_item_id ≡ some parent_id
          → is_other_phase s.phase ≡ true
          → (s.state ≡ merged) × (is_attested family s.work_item_id ≡ true)
      all_ready h s m p o = elim (Bool-cases (is_unready family parent_id s)) [
        | inl e ↦
            elim (subst (λ xs. Memᴰ s xs) (unready-none h)
              (keep-mem (is_unready family parent_id) family.work_items m e)) [ ]
        | inr e ↦ unready-cases family parent_id s e p o
      ]

      may_start :
          ((s : WorkItem)
            → Memᴰ s family.work_items
            → s.parent_work_item_id ≡ some parent_id
            → is_other_phase s.phase ≡ true
            → (s.state ≡ merged) × (is_attested family s.work_item_id ≡ true))
          → decomposition_readiness_blocker family work_item_id ≡ none
      may_start ready =
          elim (Option-cases
            (first_by is_more_urgent (keep (is_unready family parent_id) family.work_items))) [
              | inl e ↦ contract_value ∙ ap (sibling_blocker family) e
              | inr (x, e) ↦
                  let (m, blocks) = mem-keep (is_unready family parent_id) family.work_items (
                    first_by-mem is_more_urgent
                      (keep (is_unready family parent_id) family.work_items) e) in
                  let passes = ready-cases family parent_id x (ready x m) in
                  ground (arith, blocks, passes)
            ]

  -- The child named as blocking a Contract child has itself failed if any Expand or Migrate child of
  -- the parent is abandoned or dead-lettered: a hopeless wait is reported first.
  pub contract-blocker_failed :
      (blocker : DecompositionReadinessBlocker) (s : WorkItem)
      → decomposition_readiness_blocker family work_item_id ≡ some blocker
      → Memᴰ s family.work_items
      → s.parent_work_item_id ≡ some parent_id
      → is_other_phase s.phase ≡ true
      → is_failed_terminal_work_item_state s.state ≡ true
      → is_failed_terminal_work_item_state blocker.state ≡ true
  unfolding unready
  contract-blocker_failed blocker s h m p o failed =
      elim (Option-cases
        (first_by is_more_urgent (keep (is_unready family parent_id) family.work_items))) [
          | inl e ↦
              let told : ◌≡◌ {A = Option DecompositionReadinessBlocker} none (some blocker) =
                ap (sibling_blocker family) (sym e) ∙ sym contract_value ∙ h in
              cc
          | inr (x, e) ↦
              let told : sibling_blocker family (some x) ≡ some blocker =
                ap (sibling_blocker family) (sym e) ∙ sym contract_value ∙ h in
              let same : x.state ≡ blocker.state = state_of family x blocker told in
              let blocks = unready_of family parent_id s p o failed in
              let least =
                first_by-least (keep (is_unready family parent_id) family.work_items) e
                  (keep-mem (is_unready family parent_id) family.work_items m blocks) in
              rw (← same) (urgent_failed x (omega (arith, least, failed_urgency s failed)))
        ]
