-- ===== src/Readiness/Predecessors.antt =====
-- src/server/task-board/collaborators/decomposition-readiness.ts: when an Expand or Migrate child is
-- blocked by a work item that it depends on.
use nexus_seventeen.Prelude.{
  ◌≡◌, ◌↔◌, refl, sym, ap, subst, ◌∙◌, inl, inr, Bool, true, false, not, ◌&&◌, List, [], ◌∷◌, ◌++◌,
  none, some, arith, Text, text_eq_iff, keep, keep-mem, find, find-mem, Option-cases, ◌==◌, eq_text,
  Bool-cases,
}
use mathlib.Core.List.{Memᴰ}
use nexus_seventeen.Contract.{merged, eq_state, state_eq_iff}
use nexus_seventeen.Board.{WorkItem}
use nexus_seventeen.Readiness.{
  Dependency, Family, is_contract, is_earlier, first_by, open_predecessors, predecessor_blocker,
  parent_is_phased, decomposition_readiness_blocker,
}
use nexus_seventeen.Readiness.Urgency.{first_by-none}

empty_first : predecessor_blocker (first_by is_earlier []) ≡ none
unfolding first_by
empty_first = refl

append_nil : (xs ys : List WorkItem) → xs ++ ys ≡ [] → (xs ≡ []) × (ys ≡ [])
append_nil [] ys h = (refl, h)
append_nil (x ∷ xs) ys h = cc

-- The row that a dependency joins while it is not merged.
abbrev is_open : Dependency → WorkItem → Bool
is_open d w = w.work_item_id == d.depends_on_work_item_id && not (w.state == merged)

-- Every row that a dependency of the work item names is merged.
abbrev pub PredecessorsMerged : Family → Text → List Dependency → Type 0
PredecessorsMerged family work_item_id deps =
    (d : Dependency)
    → Memᴰ d deps
    → d.work_item_id ≡ work_item_id
    → (w : WorkItem) → Memᴰ w family.work_items
    → w.work_item_id ≡ d.depends_on_work_item_id
    → w.state ≡ merged

module _ (family : Family) (work_item_id : Text) where
  kept_merged :
      (d : Dependency) (w : WorkItem)
      → keep (is_open d) family.work_items ≡ []
      → Memᴰ w family.work_items
      → w.work_item_id ≡ d.depends_on_work_item_id
      → w.state ≡ merged
  kept_merged d w h m e = elim (Bool-cases (w.state == merged)) [
    | inl t ↦ (state_eq_iff w.state merged).0 t
    | inr f ↦
        elim (subst (λ xs. Memᴰ w xs) h
          (keep-mem (is_open d) family.work_items m
            (ground (arith, f, (text_eq_iff w.work_item_id d.depends_on_work_item_id).1 e)))) [ ]
  ]

  open_predecessors-PredecessorsMerged :
      (deps : List Dependency)
      → open_predecessors family work_item_id deps ≡ []
      → PredecessorsMerged family work_item_id deps
  unfolding open_predecessors
  open_predecessors-PredecessorsMerged [] h d m e w n named = elim m [ ]
  open_predecessors-PredecessorsMerged (c ∷ rest) h d (Memᴰ.head q) e w n named =
      let mine : (c.work_item_id == work_item_id) ≡ true =
        rw (← q, e) ((text_eq_iff work_item_id work_item_id).1 refl) in
      let here =
        (append_nil (keep (is_open c) family.work_items)
          (open_predecessors family work_item_id rest) (rw (open_predecessors, mine) at h)).0 in
      kept_merged c w here n (rw q at named)
  open_predecessors-PredecessorsMerged (c ∷ rest) h d (Memᴰ.tail m) e w n named =
      elim (Bool-cases (c.work_item_id == work_item_id)) [
        | inl t ↦
            let later =
              (append_nil (keep (is_open c) family.work_items)
                (open_predecessors family work_item_id rest) (rw (open_predecessors, t) at h)).1 in
            open_predecessors-PredecessorsMerged rest later d m e w n named
        | inr f ↦
            open_predecessors-PredecessorsMerged rest (rw (open_predecessors, f) at h) d m e w n
              named
      ]

  keep_nil :
      (d : Dependency) (ws : List WorkItem)
      → ((w : WorkItem) → Memᴰ w ws → w.work_item_id ≡ d.depends_on_work_item_id → w.state ≡ merged)
      → keep (is_open d) ws ≡ []
  unfolding keep
  keep_nil d [] h = refl
  keep_nil d (w ∷ ws) h =
      let skip : is_open d w ≡ false =
        elim (Bool-cases (w.work_item_id == d.depends_on_work_item_id)) [
          | inl t ↦ ground (
            arith,
            (state_eq_iff w.state merged).1
                (h w (Memᴰ.head refl) ((text_eq_iff w.work_item_id d.depends_on_work_item_id).0 t)),
          )
          | inr f ↦ ground (arith, f)
        ] in
      rw skip (keep_nil d ws (λ v m. h v (Memᴰ.tail m)))

  PredecessorsMerged-nil :
      (deps : List Dependency)
      → PredecessorsMerged family work_item_id deps
      → open_predecessors family work_item_id deps ≡ []
  unfolding open_predecessors
  PredecessorsMerged-nil [] h = refl
  PredecessorsMerged-nil (c ∷ rest) h = elim (Bool-cases (c.work_item_id == work_item_id)) [
    | inl t ↦
        rw
          (
            t,
            keep_nil c family.work_items
                (h c (Memᴰ.head refl) ((text_eq_iff c.work_item_id work_item_id).0 t)),
          )
          (PredecessorsMerged-nil rest (λ d m. h d (Memᴰ.tail m)))
    | inr f ↦ rw f (PredecessorsMerged-nil rest (λ d m. h d (Memᴰ.tail m)))
  ]

  module _ (parent_id : Text) (owner : WorkItem)
      (read : find (λ w. w.work_item_id == work_item_id) family.work_items ≡ some owner)
      (child : owner.parent_work_item_id ≡ some parent_id)
      (phases : parent_is_phased family parent_id ≡ true)
      (earlier : is_contract owner.phase ≡ false) where
    predecessor_value :
        decomposition_readiness_blocker family work_item_id
        ≡ predecessor_blocker (
            first_by is_earlier
              (open_predecessors family owner.work_item_id family.work_item_dependencies))
    unfolding decomposition_readiness_blocker
    predecessor_value = rw (read, child, phases, earlier) refl

    named : owner.work_item_id ≡ work_item_id
    named = (text_eq_iff owner.work_item_id work_item_id).0 (find-mem _ family.work_items read).1

    -- An Expand or Migrate child of a phased parent may start exactly when every work item that its
    -- dependencies name is merged.
    pub predecessor-blocker_iff :
        (decomposition_readiness_blocker family work_item_id ≡ none)
        ↔ PredecessorsMerged family work_item_id family.work_item_dependencies
    predecessor-blocker_iff = (all_merged, may_start)
      where
        all_merged :
            decomposition_readiness_blocker family work_item_id ≡ none
            → PredecessorsMerged family work_item_id family.work_item_dependencies
        all_merged h =
            elim (Option-cases (
              first_by is_earlier
                (open_predecessors family owner.work_item_id family.work_item_dependencies))) [
                  | inl e ↦ open_predecessors-PredecessorsMerged family.work_item_dependencies (
                      subst (λ k. open_predecessors family k family.work_item_dependencies ≡ [])
                        named (first_by-none is_earlier _ e))
                  | inr (x, e) ↦
                      let told : predecessor_blocker (some x) ≡ none =
                        ap predecessor_blocker (sym e) ∙ sym predecessor_value ∙ h in
                      cc
                ]

        may_start :
            PredecessorsMerged family work_item_id family.work_item_dependencies
            → decomposition_readiness_blocker family work_item_id ≡ none
        may_start h =
            predecessor_value
            ∙ ap (λ ws. predecessor_blocker (first_by is_earlier ws))
                (subst (λ k. open_predecessors family k family.work_item_dependencies ≡ [])
                  (sym named) (PredecessorsMerged-nil family.work_item_dependencies h))
            ∙ empty_first
