-- ===== src/Workflow/Inserted.antt =====
-- src/server/task-board/persistence/workflow.ts: an inserted node keeps the keys and the order of the nodes.
use nexus_seventeen.Prelude.{
  absurd_bool, ◌≡◌, refl, sym, ap, subst, ◌∙◌, true, false, List, [], ◌∷◌, ◌++◌, map, Text, inl,
  inr, ◌⊎◌,
}
use mathlib.Core.List.{Memᴰ}
use nexus_seventeen.Workflow.Rows.{FlowDb, FlowNode, NodeDependency}
use nexus_seventeen.Workflow.Returns.{PlanNode, insert_node, child_node, insert_child}
use nexus_seventeen.Workflow.Ordered.{is_begun, AllDone, IsOrdered}
use nexus_seventeen.Workflow.Unblocked.{HasNodeKeys}
use nexus_seventeen.Workflow.Sound.{IsSound}

-- No node has the identifier, and none that depends on it has begun.
pub record IsUnused (db : FlowDb) (id : Text) : Type 0 where
  pub unnamed : (n : FlowNode) → Memᴰ n db.work_nodes → n.node_id ≡ id → ⊥
  pub awaited :
      (d : NodeDependency)
      → Memᴰ d db.dependencies
      → d.dependency_node_id ≡ id
      → (n : FlowNode) → Memᴰ n db.work_nodes
      → n.node_id ≡ d.node_id
      → is_begun n.state ≡ false

mem-append {ℓ} : {A : Type ℓ} (xs ys : List A) {x : A} → Memᴰ x (xs ++ ys) → Memᴰ x xs ⊎ Memᴰ x ys
mem-append [] ys m = inr m
mem-append (y ∷ xs) ys (Memᴰ.head e) = inl (Memᴰ.head e)
mem-append (y ∷ xs) ys (Memᴰ.tail m) = elim (mem-append xs ys m) [
  | inl k ↦ inl (Memᴰ.tail k)
  | inr k ↦ inr k
]

mem-one {ℓ} : {A : Type ℓ} {x y : A} → Memᴰ x (y ∷ []) → x ≡ y
mem-one (Memᴰ.head e) = e
mem-one (Memᴰ.tail m) = elim m [ ]

mem-snoc {ℓ} :
    {A : Type ℓ} (xs : List A) (y : A) {x : A} → Memᴰ x (xs ++ y ∷ []) → Memᴰ x xs ⊎ (x ≡ y)
mem-snoc xs y m = elim (mem-append xs (y ∷ []) m) [ inl k ↦ inl k | inr k ↦ inr (mem-one k) ]

module _ (db : FlowDb) (node : FlowNode) (new : List NodeDependency)
    (unused : IsUnused db node.node_id) (waits : is_begun node.state ≡ false)
    (own : (d : NodeDependency) → Memᴰ d new → d.node_id ≡ node.node_id) where
  inserted-HasNodeKeys : HasNodeKeys db.work_nodes → HasNodeKeys (db.work_nodes ++ node ∷ [])
  inserted-HasNodeKeys keys x y mx my e = elim (mem-snoc db.work_nodes node mx) [
    | inl kx ↦ elim (mem-snoc db.work_nodes node my) [
      | inl ky ↦ keys x y kx ky e
      | inr qy ↦ absurd (unused.unnamed x kx (e ∙ ap (λ (n : FlowNode). n.node_id) qy))
    ]
    | inr qx ↦ elim (mem-snoc db.work_nodes node my) [
      | inl ky ↦ absurd (unused.unnamed y ky (sym e ∙ ap (λ (n : FlowNode). n.node_id) qx))
      | inr qy ↦ qx ∙ sym qy
    ]
  ]

  inserted-AllDone :
      (n : FlowNode)
      → Memᴰ n db.work_nodes
      → is_begun n.state ≡ true
      → AllDone db.dependencies db.work_nodes n.node_id
      → AllDone (db.dependencies ++ new) (db.work_nodes ++ node ∷ []) n.node_id
  inserted-AllDone n m b all d md ed y my ey = elim (mem-append db.dependencies new md) [
    | inr k ↦ absurd (unused.unnamed n m (sym ed ∙ own d k))
    | inl k ↦ elim (mem-snoc db.work_nodes node my) [
      | inl ky ↦ all d k ed y ky ey
      | inr qy ↦
          absurd_bool b
            (unused.awaited d k (sym ey ∙ ap (λ (n : FlowNode). n.node_id) qy) n m (sym ed))
    ]
  ]

  inserted-IsOrdered :
      IsOrdered db.dependencies db.work_nodes
      → IsOrdered (db.dependencies ++ new) (db.work_nodes ++ node ∷ [])
  inserted-IsOrdered o = record {
    begun = λ n m b. elim (mem-snoc db.work_nodes node m) [
      | inl k ↦ inserted-AllDone n k b (o.begun n k b)
      | inr q ↦ absurd_bool (subst (λ (k : FlowNode). is_begun k.state ≡ true) q b) waits
    ];
  }

own_dependencies :
    (id : Text) (stored : Text → Text) (ids : List Text) (d : NodeDependency)
    → Memᴰ d (map (λ k. record { node_id = id; dependency_node_id = stored k }) ids)
    → d.node_id ≡ id
own_dependencies id stored [] d m = elim m [ ]
own_dependencies id stored (k ∷ ids) d (Memᴰ.head e) = ap (λ (x : NodeDependency). x.node_id) e
own_dependencies id stored (k ∷ ids) d (Memᴰ.tail m) = own_dependencies id stored ids d m

append_nil {ℓ} : {A : Type ℓ} (xs : List A) → xs ++ [] ≡ xs
append_nil [] = refl
append_nil (x ∷ xs) = rw (append_nil xs)

pub insert_node-IsSound :
    (db : FlowDb) (stored : Text → Text) (plan_id project_id created_at : Text) (node : PlanNode)
    → IsUnused db (stored node.node_id)
    → IsSound db
    → IsSound (insert_node db stored plan_id project_id created_at node)
unfolding insert_node
insert_node-IsSound db stored plan_id project_id created_at node unused sound = record {
  keys = inserted-HasNodeKeys db _ [] unused refl (λ d m. elim m [ ]) sound.keys;
  ordered =
      inserted-IsOrdered db _ _ unused refl
        (own_dependencies (stored node.node_id) stored node.dependency_node_ids) sound.ordered;
}

pub insert_child-IsSound :
    (db : FlowDb) (node_id plan_revision_id project_id objective : Text)
    (acceptance_criteria : List Text) (now : Text)
    → IsUnused db node_id
    → IsSound db
    → IsSound
        (insert_child db node_id plan_revision_id project_id objective acceptance_criteria now)
unfolding insert_child
insert_child-IsSound db node_id plan_revision_id project_id objective acceptance_criteria now unused
      sound =
    let node = child_node node_id plan_revision_id project_id objective acceptance_criteria now in
    record {
      keys = inserted-HasNodeKeys db node [] unused refl (λ d m. elim m [ ]) sound.keys;
      ordered =
          subst (λ ds. IsOrdered ds (db.work_nodes ++ node ∷ [])) (append_nil db.dependencies)
            (inserted-IsOrdered db node [] unused refl (λ d m. elim m [ ]) sound.ordered);
    }
