-- ===== src/Workflow/Returned.antt =====
-- src/server/task-board/persistence/workflow.ts: the statements that put a node back to work or insert one keep the
-- keys and the order of the nodes.
use nexus_seventeen.Prelude.{
  both_true, ℕ, ◌≡◌, refl, sym, ap, subst, ◌∙◌, Bool, true, false, ◌&&◌, ◌||◌, List, some, Text,
  tally, update_where, nat_eq, ok, ok-injective, arith, if◌then◌else◌, err_is_not_ok, Bool-cases,
  inl, inr, eq_text, text_eq_iff, eq_nat,
}
use mathlib.Core.List.{Memᴰ}
use nexus_seventeen.Contract.{WorkItemStage, eq_stage}
use nexus_seventeen.Attempts.Rows.{WorkNodeState, is_activatable, active}
use nexus_seventeen.Attempts.Settled.{update_where-mem}
use nexus_seventeen.Workflow.Rows.{
  FlowDb, FlowNode, NodeDependency, WorkflowError, is_node, moved_node, blocked_node,
}
use nexus_seventeen.Workflow.Settle.{is_completed}
use nexus_seventeen.Workflow.Machine.{is_active_state}
use nexus_seventeen.Workflow.Nodes.{is_node_in, is_blocked_state, activated_node}
use nexus_seventeen.Workflow.Returns.{
  update_one, return_final_approval, is_published, block_published, return_published, is_verifiable,
  activate_verified, is_recoverable, recover_node, returned_node,
}
use nexus_seventeen.Workflow.Ordered.{is_begun, AllDone, IsOrdered, image_id}
use nexus_seventeen.Workflow.Unblocked.{update-HasNodeKeys}
use nexus_seventeen.Workflow.Sound.{IsSound, update-IsSound, select-unfinished}

-- No dependency names the node.
abbrev pub IsLast : List NodeDependency → Text → Type 0
IsLast dependencies id = (d : NodeDependency) → Memᴰ d dependencies → d.dependency_node_id ≡ id → ⊥

named_in : (id : Text) (n : FlowNode) (b : Bool) → (is_node id n && b) ≡ true → n.node_id ≡ id
named_in id n b h = (text_eq_iff n.node_id id).0 (both_true _ _ h).0

module _ (id : Text) (p : FlowNode → Bool) (f : FlowNode → FlowNode) (db : FlowDb)
    (same_id : (n : FlowNode) → (f n).node_id ≡ n.node_id)
    (named : (n : FlowNode) → p n ≡ true → n.node_id ≡ id) where
  -- A change of a completed node that no other depends on.
  module _ (done : (n : FlowNode) → p n ≡ true → is_completed n.state ≡ true)
      (last : IsLast db.dependencies id) where
    was_begun :
        (n : FlowNode) → is_begun (if p n then f n else n).state ≡ true → is_begun n.state ≡ true
    was_begun n b = elim (Bool-cases (p n)) [
      | inl t ↦ completed_begun n.state (done n t)
      | inr e ↦ rw e at b
    ]
      where
        completed_begun : (st : WorkNodeState) → is_completed st ≡ true → is_begun st ≡ true
        completed_begun st h = ground (arith, h)

    done_stays :
        (d : NodeDependency) (n : FlowNode)
        → Memᴰ d db.dependencies
        → n.node_id ≡ d.dependency_node_id
        → is_completed n.state ≡ true
        → is_completed (if p n then f n else n).state ≡ true
    done_stays d n md e c = elim (Bool-cases (p n)) [
      | inl t ↦ absurd (last d md (sym e ∙ named n t))
      | inr q ↦ rw q c
    ]

    last-IsOrdered :
        IsOrdered db.dependencies db.work_nodes
        → IsOrdered db.dependencies (update_where p f db.work_nodes)
    last-IsOrdered o = record {
      begun = λ n m b d md ed y my ey.
          let (x, mx, e) = update_where-mem p f db.work_nodes m in
          let (z, mz, q) = update_where-mem p f db.work_nodes my in
          let x_id : x.node_id ≡ n.node_id =
            sym (image_id db.dependencies p f same_id x)
            ∙ ap (λ (k : FlowNode). k.node_id) (sym e) in
          let z_id : z.node_id ≡ d.dependency_node_id =
            sym (image_id db.dependencies p f same_id z)
            ∙ ap (λ (k : FlowNode). k.node_id) (sym q)
            ∙ ey in
          let began = was_begun x (subst (λ (k : FlowNode). is_begun k.state ≡ true) e b) in
          let finished = o.begun x mx began d md (ed ∙ sym x_id) z mz z_id in
          subst (λ (k : FlowNode). is_completed k.state ≡ true) (sym q)
            (done_stays d z md z_id finished);
    }

    last-IsSound :
        (error : WorkflowError) {db' : FlowDb}
        → update_one error p f db ≡ ok db'
        → IsSound db
        → IsSound db'
    last-IsSound error h sound = elim (Bool-cases (nat_eq (tally p db.work_nodes) 1)) [
      | inl t ↦ subst IsSound (ok-injective (rw t at h)) (record {
        keys = update-HasNodeKeys p f db.work_nodes same_id sound.keys;
        ordered = last-IsOrdered sound.ordered;
      })
      | inr e ↦ err_is_not_ok (rw e at h)
    ]

  -- A change of a node that is not completed and whose dependencies are.
  resumed-IsSound :
      (error : WorkflowError) {db' : FlowDb}
      → ((n : FlowNode) → p n ≡ true → is_completed n.state ≡ false)
      → AllDone db.dependencies db.work_nodes id
      → update_one error p f db ≡ ok db'
      → IsSound db
      → IsSound db'
  resumed-IsSound error unfinished all h sound =
      elim (Bool-cases (nat_eq (tally p db.work_nodes) 1)) [
        | inl t ↦ subst IsSound (ok-injective (rw t at h)) (
            update-IsSound p f db same_id unfinished
              (λ n m u b. inr (subst (AllDone db.dependencies db.work_nodes) (sym (named n u)) all))
              sound)
        | inr e ↦ err_is_not_ok (rw e at h)
      ]

module _ (db : FlowDb) (node_id : Text) where
  pub return_final_approval-IsSound :
      (now : Text) {db' : FlowDb}
      → IsLast db.dependencies node_id
      → return_final_approval db node_id now ≡ ok db'
      → IsSound db
      → IsSound db'
  unfolding return_final_approval
  return_final_approval-IsSound now last h sound =
      last-IsSound node_id (is_node_in node_id is_completed) (returned_node now) db (λ n. refl)
        (λ n t. named_in node_id n _ t) (λ n t. (both_true _ _ t).1) last _ h sound

  published_named : (n : FlowNode) → is_published node_id n ≡ true → n.node_id ≡ node_id
  published_named n t = named_in node_id n _ (both_true _ _ t).0

  published_done : (n : FlowNode) → is_published node_id n ≡ true → is_completed n.state ≡ true
  published_done n t = (both_true _ _ (both_true _ _ t).0).1

  pub block_published-IsSound :
      (now : Text) {db' : FlowDb}
      → IsLast db.dependencies node_id
      → block_published db node_id now ≡ ok db'
      → IsSound db
      → IsSound db'
  unfolding block_published
  block_published-IsSound now last h sound =
      last-IsSound node_id (is_published node_id) (blocked_node now) db (λ n. refl) published_named
        published_done last _ h sound

  pub return_published-IsSound :
      (now : Text) {db' : FlowDb}
      → IsLast db.dependencies node_id
      → return_published db node_id now ≡ ok db'
      → IsSound db
      → IsSound db'
  unfolding return_published
  return_published-IsSound now last h sound =
      last-IsSound node_id (is_published node_id) (returned_node now) db (λ n. refl) published_named
        published_done last _ h sound

  pub activate_verified-IsSound :
      (stage : WorkItemStage) (now : Text) {db' : FlowDb}
      → AllDone db.dependencies db.work_nodes node_id
      → activate_verified db node_id stage now ≡ ok db'
      → IsSound db
      → IsSound db'
  unfolding activate_verified is_activatable
  activate_verified-IsSound stage now all h sound =
      resumed-IsSound node_id (is_verifiable node_id stage) (activated_node now) db (λ n. refl)
        (λ n t. named_in node_id n _ (both_true _ _ t).0) _
        (λ n t. select-unfinished is_activatable refl n.state (both_true _ _ (both_true _ _ t).0).1)
        all h sound

  pub recover_node-IsSound :
      (version : ℕ) (stage : WorkItemStage) (now : Text) {db' : FlowDb}
      → AllDone db.dependencies db.work_nodes node_id
      → recover_node db node_id version stage now ≡ ok db'
      → IsSound db
      → IsSound db'
  unfolding recover_node
  recover_node-IsSound version stage now all h sound =
      resumed-IsSound node_id (is_recoverable node_id version stage)
        (moved_node active (some stage) now) db (λ n. refl) (λ n t. named_in node_id n _ (held n t))
        _
        (λ n t.
          select-unfinished (λ state. is_active_state state || is_blocked_state state) refl n.state
            (both_true _ _ (held n t)).1)
        all h sound
    where
      held :
          (n : FlowNode)
          → is_recoverable node_id version stage n ≡ true
          → is_node_in node_id (λ state. is_active_state state || is_blocked_state state) n ≡ true
      held n t = ground (arith, t)
