-- ===== src/Workflow/Ordered.antt =====
-- src/server/task-board/persistence/workflow.ts: the order of the nodes that their dependencies fix.
use nexus_seventeen.Prelude.{
  absurd_bool, ◌≡◌, refl, sym, ap, subst, ◌∙◌, Bool, true, false, List, [], ◌∷◌, Text, update_where,
  if◌then◌else◌, Bool-cases, inl, inr, ◌⊎◌, eq_text, text_eq_iff,
}
use mathlib.Core.List.{Memᴰ}
use nexus_seventeen.Attempts.Rows.{
  WorkNodeState, pending, ready, active, blocked, stale, completed, cancelled,
}
use nexus_seventeen.Attempts.Settled.{update_where-mem}
use nexus_seventeen.Workflow.Rows.{FlowNode, NodeDependency, is_node, started_node}
use nexus_seventeen.Workflow.Settle.{is_completed}
use nexus_seventeen.Workflow.Moves.{started}

-- A node that runs, may run or has run.
abbrev pub is_begun : WorkNodeState → Bool
is_begun state = elim state [
  | ready ↦ true
  | active ↦ true
  | completed ↦ true
  | pending ↦ false
  | blocked ↦ false
  | stale ↦ false
  | cancelled ↦ false
]

module _ (dependencies : List NodeDependency) where
  -- Every node that a node depends on is completed.
  abbrev pub AllDone : List FlowNode → Text → Type 0
  AllDone nodes node_id =
      (d : NodeDependency)
      → Memᴰ d dependencies
      → d.node_id ≡ node_id
      → (m : FlowNode) → Memᴰ m nodes
      → m.node_id ≡ d.dependency_node_id
      → is_completed m.state ≡ true

  -- No node has begun before all that it depends on.
  pub record IsOrdered (nodes : List FlowNode) : Type 0 where
    pub begun : (n : FlowNode) → Memᴰ n nodes → is_begun n.state ≡ true → AllDone nodes n.node_id

  -- An update that keeps identifiers and completed nodes, and begins nodes only where it may.
  module _ (p : FlowNode → Bool) (f : FlowNode → FlowNode)
      (same_id : (n : FlowNode) → (f n).node_id ≡ n.node_id) where
    abbrev pub image : FlowNode → FlowNode
    image n = if p n then f n else n

    pub image_id : (n : FlowNode) → (image n).node_id ≡ n.node_id
    image_id n = elim (Bool-cases (p n)) [ inl t ↦ rw t (same_id n) | inr e ↦ rw e refl ]

    module _ (nodes : List FlowNode)
        (stays : (n : FlowNode)
          → Memᴰ n nodes
          → is_completed n.state ≡ true
          → is_completed (image n).state ≡ true) where
      AllDone-update : (id : Text) → AllDone nodes id → AllDone (update_where p f nodes) id
      AllDone-update id h d md ed m mm em =
          let (x, mx, e) = update_where-mem p f nodes mm in
          let is_x : x.node_id ≡ d.dependency_node_id =
            sym (image_id x) ∙ ap (λ (n : FlowNode). n.node_id) (sym e) ∙ em in
          subst (λ (n : FlowNode). is_completed n.state ≡ true) (sym e)
            (stays x mx (h d md ed x mx is_x))

      pub update-IsOrdered :
          ((n : FlowNode)
            → Memᴰ n nodes
            → is_begun (image n).state ≡ true
            → (is_begun n.state ≡ true) ⊎ AllDone nodes n.node_id)
          → IsOrdered nodes
          → IsOrdered (update_where p f nodes)
      update-IsOrdered may h = record {
        begun = λ n m b.
            let (x, mx, e) = update_where-mem p f nodes m in
            let id : x.node_id ≡ n.node_id =
              sym (image_id x) ∙ ap (λ (y : FlowNode). y.node_id) (sym e) in
            let done : AllDone nodes x.node_id =
              elim (may x mx (subst (λ (y : FlowNode). is_begun y.state ≡ true) e b)) [
                | inl was ↦ h.begun x mx was
                | inr all ↦ all
              ] in
            AllDone-update n.node_id (subst (AllDone nodes) id done);
      }

  pub record Startable (nodes : List FlowNode) (id : Text) : Type 0 where
    pub unfinished : (x : FlowNode) → Memᴰ x nodes → x.node_id ≡ id → is_completed x.state ≡ false
    pub done : AllDone nodes id

  module _ (now id : Text) (nodes : List FlowNode) (h : Startable nodes id) where
    named : (n : FlowNode) → is_node id n ≡ true → n.node_id ≡ id
    named n t = (text_eq_iff n.node_id id).0 t

    start-stays :
        (n : FlowNode)
        → Memᴰ n nodes
        → is_completed n.state ≡ true
        → is_completed (if is_node id n then started_node now n else n).state ≡ true
    start-stays n m c = elim (Bool-cases (is_node id n)) [
      | inl t ↦ absurd_bool c (h.unfinished n m (named n t))
      | inr f ↦ rw f c
    ]

    start-may :
        (n : FlowNode)
        → Memᴰ n nodes
        → is_begun (if is_node id n then started_node now n else n).state ≡ true
        → (is_begun n.state ≡ true) ⊎ AllDone nodes n.node_id
    start-may n m b = elim (Bool-cases (is_node id n)) [
      | inl t ↦ inr (subst (AllDone nodes) (sym (named n t)) h.done)
      | inr f ↦ inl (rw f at b)
    ]

    start-IsOrdered :
        IsOrdered nodes → IsOrdered (update_where (is_node id) (started_node now) nodes)
    start-IsOrdered o =
        update-IsOrdered (is_node id) (started_node now) (λ n. refl) nodes start-stays start-may o

    start-open :
        (y : FlowNode)
        → is_completed y.state ≡ false
        → is_completed (if is_node id y then started_node now y else y).state ≡ false
    start-open y c = elim (Bool-cases (is_node id y)) [ inl t ↦ rw t refl | inr f ↦ rw f c ]

    start-Startable :
        (other : Text)
        → Startable nodes other
        → Startable (update_where (is_node id) (started_node now) nodes) other
    start-Startable other k = record {
      unfinished = λ x m e.
          let (y, my, q) = update_where-mem (is_node id) (started_node now) nodes m in
          let same : y.node_id ≡ other =
            sym (image_id (is_node id) (started_node now) (λ n. refl) y)
            ∙ ap (λ (n : FlowNode). n.node_id) (sym q)
            ∙ e in
          subst (λ (n : FlowNode). is_completed n.state ≡ false) (sym q)
            (start-open y (k.unfinished y my same));
      done =
          AllDone-update (is_node id) (started_node now) (λ n. refl) nodes start-stays other k.done;
    }

  pub started-IsOrdered :
      (now : Text) (ids : List Text) (nodes : List FlowNode)
      → ((id : Text) → Memᴰ id ids → Startable nodes id)
      → IsOrdered nodes
      → IsOrdered (started now ids nodes)
  started-IsOrdered now [] nodes h o = o
  started-IsOrdered now (id ∷ ids) nodes h o =
      let first = h id (Memᴰ.head refl) in
      started-IsOrdered now ids (update_where (is_node id) (started_node now) nodes)
        (λ other m. start-Startable now id nodes first other (h other (Memᴰ.tail m)))
        (start-IsOrdered now id nodes first o)
