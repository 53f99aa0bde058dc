-- ===== src/Workflow/Sound.antt =====
-- src/server/task-board/persistence/workflow.ts: the commands on one node keep the keys and the order of the nodes.
use nexus_seventeen.Prelude.{
  absurd_bool, both_true, ℕ, ◌≡◌, refl, sym, ap, subst, Bool, true, false, not, ◌&&◌, Option, none,
  some, Text, any, any-mem, tally, ltb, nat_eq, ok, ok-injective, err_is_not_ok, Bool-cases, inl,
  inr, ◌⊎◌, ◌==◌, eq_text, text_eq_iff, option_eq,
}
use mathlib.Core.List.{Memᴰ}
use nexus_seventeen.Contract.{WorkItemStage}
use nexus_seventeen.Attempts.Rows.{
  WorkNodeState, pending, ready, active, blocked, stale, completed, cancelled,
}
use nexus_seventeen.Workflow.Rows.{
  FlowDb, FlowNode, NodeDependency, is_node, moved_node, blocked_node, started_node, insert_event,
}
use nexus_seventeen.Workflow.Settle.{is_completed, is_pending}
use nexus_seventeen.Workflow.Machine.{is_active_state}
use nexus_seventeen.Workflow.Nodes.{
  is_blocked_state, is_unstarted, is_held, is_node_in, update_nodes, activated_node, link_attempt,
  block_row, block_node, ready_row, ready_node, suspend_row, suspend_attempt_node, defer_node,
  is_free, activate_free_nodes, latest_block,
}
use nexus_seventeen.Workflow.Ordered.{is_begun, AllDone, IsOrdered, update-IsOrdered}
use nexus_seventeen.Workflow.Unblocked.{HasNodeKeys, update-HasNodeKeys}

-- What the changes keep.
pub record IsSound (db : FlowDb) : Type 0 where
  pub keys : HasNodeKeys db.work_nodes
  pub ordered : IsOrdered db.dependencies db.work_nodes

-- A change of nodes that are not completed, which begins none before all that it depends on is completed.
pub update-IsSound :
    (p : FlowNode → Bool) (f : FlowNode → FlowNode) (db : FlowDb)
    → ((n : FlowNode) → (f n).node_id ≡ n.node_id)
    → ((n : FlowNode) → p n ≡ true → is_completed n.state ≡ false)
    → ((n : FlowNode)
        → Memᴰ n db.work_nodes
        → p n ≡ true
        → is_begun (f n).state ≡ true
        → (is_begun n.state ≡ true) ⊎ AllDone db.dependencies db.work_nodes n.node_id)
    → IsSound db
    → IsSound (update_nodes p f db)
update-IsSound p f db same_id unfinished begins h = record {
  keys = update-HasNodeKeys p f db.work_nodes same_id h.keys;
  ordered =
      update-IsOrdered db.dependencies p f same_id db.work_nodes
        (λ n m c. elim (Bool-cases (p n)) [
          | inl t ↦ absurd_bool c (unfinished n t)
          | inr e ↦ rw e c
        ])
        (λ n m b. elim (Bool-cases (p n)) [
          | inl t ↦ begins n m t (rw t at b)
          | inr e ↦ inl (rw e at b)
        ])
        h.ordered;
}

-- The same graph under another database.
kept_graph :
    {db db' : FlowDb}
    → db'.work_nodes ≡ db.work_nodes
    → db'.dependencies ≡ db.dependencies
    → IsSound db
    → IsSound db'
kept_graph {db} {db'} en ed h = record {
  keys = subst HasNodeKeys (sym en) h.keys;
  ordered =
      subst (λ ds. IsOrdered ds db'.work_nodes) (sym ed)
        (subst (IsOrdered db.dependencies) (sym en) h.ordered);
}

-- A command that does not select completed nodes selects none that is.
pub select-unfinished :
    (select : WorkNodeState → Bool)
    → select completed ≡ false
    → (state : WorkNodeState) → select state ≡ true
    → is_completed state ≡ false
select-unfinished select none_completed completed h = absurd_bool h none_completed
select-unfinished select none_completed pending h = refl
select-unfinished select none_completed ready h = refl
select-unfinished select none_completed active h = refl
select-unfinished select none_completed blocked h = refl
select-unfinished select none_completed stale h = refl
select-unfinished select none_completed cancelled h = refl

-- A change into a state that has not begun.
halt-IsSound :
    (p : FlowNode → Bool) (f : FlowNode → FlowNode) (db : FlowDb)
    → ((n : FlowNode) → (f n).node_id ≡ n.node_id)
    → ((n : FlowNode) → p n ≡ true → is_completed n.state ≡ false)
    → ((n : FlowNode) → is_begun (f n).state ≡ false)
    → IsSound db
    → IsSound (update_nodes p f db)
halt-IsSound p f db same_id unfinished halts h =
    update-IsSound p f db same_id unfinished (λ n m t b. absurd_bool b (halts n)) h

module _ (random_uuid : ℕ → Text) where
  block_row-IsSound :
      (db : FlowDb) (summary now : Text) (row : Option FlowNode)
      → IsSound db
      → IsSound (block_row random_uuid db summary now row).0
  unfolding insert_event
  block_row-IsSound db summary now none h = h
  block_row-IsSound db summary now (some row) h = elim (Bool-cases (is_blocked_state row.state)) [
    | inl t ↦
        elim (Bool-cases
          (option_eq (latest_block row.node_id none db.project_events) (some summary))) [
            | inl u ↦ rw (t, u) h
            | inr v ↦ rw (t, v) (kept_graph refl refl h)
          ]
    | inr e ↦
        let p = is_node_in row.node_id is_unstarted in
        let halted =
          halt-IsSound p (blocked_node now) db (λ n. refl)
            (λ n u. select-unfinished is_unstarted refl n.state (both_true _ _ u).1) (λ n. refl)
            h in
        elim (Bool-cases (nat_eq (tally p db.work_nodes) 1)) [
          | inl u ↦ rw (e, u) (kept_graph refl refl halted)
          | inr v ↦ rw (e, v) halted
        ]
  ]

  pub block_node-IsSound :
      (db : FlowDb) (node_id summary now : Text)
      → IsSound db
      → IsSound (block_node random_uuid db node_id summary now).0
  unfolding block_node
  block_node-IsSound db node_id summary now h = block_row-IsSound db summary now _ h

  ready_row-IsSound :
      (db : FlowDb) (node_id now : Text) (row : Option FlowNode) {db' : FlowDb}
      → AllDone db.dependencies db.work_nodes node_id
      → ready_row random_uuid db node_id now row ≡ ok db'
      → IsSound db
      → IsSound db'
  unfolding insert_event
  ready_row-IsSound db node_id now none all h sound =
      elim (Bool-cases (any (is_node node_id) db.work_nodes)) [
        | inl t ↦ subst IsSound (ok-injective (rw t at h)) sound
        | inr f ↦ err_is_not_ok (rw f at h)
      ]
  ready_row-IsSound db node_id now (some row) all h sound =
      let p = is_node_in node_id is_held in
      let begun =
        update-IsSound p (started_node now) db (λ n. refl)
          (λ n u. select-unfinished is_held refl n.state (both_true _ _ u).1)
          (λ n m u b. inr (
            subst (AllDone db.dependencies db.work_nodes)
              (sym ((text_eq_iff n.node_id node_id).0 (both_true _ _ u).0)) all))
          sound in
      elim (Bool-cases (not (nat_eq (tally p db.work_nodes) 1))) [
        | inl t ↦ err_is_not_ok (rw t at h)
        | inr f ↦ elim (Bool-cases (is_blocked_state row.state)) [
          | inl u ↦ subst IsSound (ok-injective (rw (f, u) at h)) (kept_graph refl refl begun)
          | inr v ↦ subst IsSound (ok-injective (rw (f, v) at h)) begun
        ]
      ]

  suspend_row-IsSound :
      (db : FlowDb) (task_id reason now : Text) (row : Option FlowNode) {answer : FlowDb × Bool}
      → suspend_row random_uuid db task_id reason now row ≡ ok answer
      → IsSound db
      → IsSound answer.0
  unfolding insert_event
  suspend_row-IsSound db task_id reason now none h sound =
      subst (λ (r : FlowDb × Bool). IsSound r.0) (ok-injective h) sound
  suspend_row-IsSound db task_id reason now (some row) h sound =
      elim (Bool-cases (not (is_active_state row.state))) [
        | inl t ↦
            subst (λ (r : FlowDb × Bool). IsSound r.0) (ok-injective (rw t at h))
              (kept_graph refl refl sound)
        | inr f ↦
            let p = is_node_in row.node_id is_active_state in
            let halted =
              halt-IsSound p (blocked_node now) db (λ n. refl)
                (λ n u. select-unfinished is_active_state refl n.state (both_true _ _ u).1)
                (λ n. refl) sound in
            elim (Bool-cases (nat_eq (tally p db.work_nodes) 1)) [
              | inl u ↦
                  subst (λ (r : FlowDb × Bool). IsSound r.0) (ok-injective (rw (f, u) at h))
                    (kept_graph refl refl halted)
              | inr v ↦ err_is_not_ok (rw (f, v) at h)
            ]
      ]

  pub link_attempt-IsSound :
      (db : FlowDb) (node_id task_id : Text) (stage : WorkItemStage) (now : Text)
      → ((n : FlowNode) → Memᴰ n db.work_nodes → n.node_id ≡ node_id → n.state ≡ ready)
      → IsSound db
      → IsSound (link_attempt random_uuid db node_id task_id stage now)
  unfolding link_attempt
  link_attempt-IsSound db node_id task_id stage now is_ready sound = record {
    keys =
        update-HasNodeKeys (is_node node_id) (activated_node now) db.work_nodes (λ n. refl)
          sound.keys;
    ordered =
        update-IsOrdered db.dependencies (is_node node_id) (activated_node now) (λ n. refl)
          db.work_nodes
          (λ n m c. elim (Bool-cases (is_node node_id n)) [
            | inl t ↦
                absurd_bool c (ap is_completed (is_ready n m ((text_eq_iff n.node_id node_id).0 t)))
            | inr e ↦ rw e c
          ])
          (λ n m b. elim (Bool-cases (is_node node_id n)) [
            | inl t ↦ inl (ap is_begun (is_ready n m ((text_eq_iff n.node_id node_id).0 t)))
            | inr e ↦ inl (rw e at b)
          ])
          sound.ordered;
  }

pub defer_node-IsSound :
    (db : FlowDb) (node_id now : Text) {db' : FlowDb}
    → defer_node db node_id now ≡ ok db'
    → IsSound db
    → IsSound db'
unfolding defer_node
defer_node-IsSound db node_id now h sound =
    let p = is_node_in node_id is_blocked_state in
    elim (Bool-cases (ltb 1 (tally p db.work_nodes))) [
      | inl t ↦ err_is_not_ok (rw t at h)
      | inr f ↦ subst IsSound (ok-injective (rw f at h)) (
          halt-IsSound p (moved_node pending none now) db (λ n. refl)
            (λ n u. select-unfinished is_blocked_state refl n.state (both_true _ _ u).1) (λ n. refl)
            sound)
    ]

free_all_done :
    (db : FlowDb) (n : FlowNode)
    → any (λ (d : NodeDependency). d.node_id == n.node_id) db.dependencies ≡ false
    → AllDone db.dependencies db.work_nodes n.node_id
free_all_done db n h d md ed m mm em =
    absurd_bool
      (any-mem (λ (c : NodeDependency). c.node_id == n.node_id) db.dependencies md
        ((text_eq_iff d.node_id n.node_id).1 ed))
      h

free_parts : (b c d : Bool) → (b && c && not d) ≡ true → (c ≡ true) × (d ≡ false)
free_parts true true false h = (refl, refl)
free_parts true true true h = absurd_bool h refl
free_parts true false d h = absurd_bool h refl
free_parts false c d h = absurd_bool h refl

pub activate_free_nodes-IsSound :
    (db : FlowDb) (plan_revision_id now : Text)
    → IsSound db
    → IsSound (activate_free_nodes db plan_revision_id now)
unfolding activate_free_nodes
activate_free_nodes-IsSound db plan_revision_id now sound =
    update-IsSound (is_free db plan_revision_id) (started_node now) db (λ n. refl)
      (λ n t.
        select-unfinished is_pending refl n.state
          (free_parts (n.plan_revision_id == plan_revision_id) (is_pending n.state) _ t).0)
      (λ n m t b. inr (
        free_all_done db n
          (free_parts (n.plan_revision_id == plan_revision_id) (is_pending n.state) _ t).1))
      sound

module _ (random_uuid : ℕ → Text) where
  pub ready_node-IsSound :
      (db : FlowDb) (node_id now : Text) {db' : FlowDb}
      → AllDone db.dependencies db.work_nodes node_id
      → ready_node random_uuid db node_id now ≡ ok db'
      → IsSound db
      → IsSound db'
  unfolding ready_node
  ready_node-IsSound db node_id now all h sound =
      ready_row-IsSound random_uuid db node_id now _ all h sound

  pub suspend_attempt_node-IsSound :
      (db : FlowDb) (task_id reason now : Text) {answer : FlowDb × Bool}
      → suspend_attempt_node random_uuid db task_id reason now ≡ ok answer
      → IsSound db
      → IsSound answer.0
  unfolding suspend_attempt_node
  suspend_attempt_node-IsSound db task_id reason now h sound =
      suspend_row-IsSound random_uuid db task_id reason now _ h sound
