-- ===== src/Workflow/Unblocked.antt =====
-- src/server/task-board/persistence/workflow.ts: the nodes that a completed one frees, and their key.
use nexus_seventeen.Prelude.{
  ◌≡◌, refl, sym, ap, subst, ◌∙◌, Bool, true, false, not, ◌&&◌, List, [], ◌∷◌, map, Text,
  any-of_false, any-mem, keep, mem-keep, update_where, if◌then◌else◌, Bool-cases, inl, inr, ◌⊎◌,
  ◌==◌, eq_text, text_eq_iff, All-mem,
}
use mathlib.Core.List.{Memᴰ}
use nexus_seventeen.Attempts.Rows.{
  WorkNodeState, pending, ready, active, blocked, stale, completed, cancelled,
}
use nexus_seventeen.Attempts.Settled.{update_where-mem}
use nexus_seventeen.Workflow.Rows.{started_node, FlowDb, FlowNode, NodeDependency, is_node}
use nexus_seventeen.Workflow.Settle.{
  is_completed, newly_ready, waits_for, has_unfinished_dependency, is_unblocked_by,
}
use nexus_seventeen.Workflow.Moves.{started}
use nexus_seventeen.Workflow.Ordered.{
  is_begun, AllDone, IsOrdered, image_id, update-IsOrdered, Startable, started-IsOrdered,
}

-- The primary key of `work_nodes`.
abbrev pub HasNodeKeys : List FlowNode → Type 0
HasNodeKeys nodes = (x y : FlowNode) → Memᴰ x nodes → Memᴰ y nodes → x.node_id ≡ y.node_id → x ≡ y

pub update-HasNodeKeys :
    (p : FlowNode → Bool) (f : FlowNode → FlowNode) (nodes : List FlowNode)
    → ((n : FlowNode) → (f n).node_id ≡ n.node_id)
    → HasNodeKeys nodes
    → HasNodeKeys (update_where p f nodes)
update-HasNodeKeys p f nodes same_id keys x y mx my e =
    let (v, mv, ev) = update_where-mem p f nodes mx in
    let (w, mw, ew) = update_where-mem p f nodes my in
    let same : v.node_id ≡ w.node_id =
      sym (image_id [] p f same_id v)
      ∙ ap (λ (n : FlowNode). n.node_id) (sym ev)
      ∙ e
      ∙ ap (λ (n : FlowNode). n.node_id) ew
      ∙ image_id [] p f same_id w in
    ev ∙ ap (λ n. if p n then f n else n) (keys v w mv mw same) ∙ sym ew

mem-map {ℓ κ} :
    {A : Type ℓ} {B : Type κ} (f : A → B) (xs : List A) {y : B}
    → Memᴰ y (map f xs)
    → (x : A) × Memᴰ x xs × (y ≡ f x)
mem-map f [] m = elim m [ ]
mem-map f (x ∷ xs) (Memᴰ.head e) = (x, Memᴰ.head refl, e)
mem-map f (x ∷ xs) (Memᴰ.tail m) = let (z, k, e) = mem-map f xs m in (z, Memᴰ.tail k, e)

pending_is_open :
    (state : WorkNodeState) (q r : Bool)
    → ((elim state [
      | pending ↦ true
      | completed ↦ false
      | ready ↦ false
      | active ↦ false
      | blocked ↦ false
      | stale ↦ false
      | cancelled ↦ false
    ])
        && q
        && not r)
      ≡ true
    → (is_completed state ≡ false) × (r ≡ false)
pending_is_open pending true false h = (refl, refl)
pending_is_open pending true true h = cc
pending_is_open pending false r h = cc
pending_is_open ready q r h = cc
pending_is_open active q r h = cc
pending_is_open blocked q r h = cc
pending_is_open stale q r h = cc
pending_is_open completed q r h = cc
pending_is_open cancelled q r h = cc

completed_is_not {ℓ} : {A : Type ℓ} {b : Bool} → b ≡ false → b ≡ true → A
completed_is_not h k = cc

active_is_open {ℓ} :
    {A : Type ℓ} {state : WorkNodeState} → state ≡ active → is_completed state ≡ true → A
active_is_open e h = completed_is_not (ap is_completed e) h

and_true : {b c : Bool} → b ≡ true → c ≡ true → (b && c) ≡ true
and_true h k = rw (h, k) refl

not_waiting : (w c : Bool) → (w && not c) ≡ false → w ≡ true → c ≡ true
not_waiting true true h k = refl
not_waiting true false h k = cc
not_waiting false c h k = cc

module _ (db : FlowDb) (node_id : Text) (keys : HasNodeKeys db.work_nodes) where
  unfinished-none :
      (n : FlowNode)
      → has_unfinished_dependency db n ≡ false
      → (x : FlowNode) → Memᴰ x db.work_nodes
      → (waits_for db n x && not (is_completed x.state)) ≡ false
  unfolding has_unfinished_dependency
  unfinished-none n h x mx =
      All-mem (λ (y : FlowNode). (waits_for db n y && not (is_completed y.state)) ≡ false)
        db.work_nodes
        (any-of_false (λ y. waits_for db n y && not (is_completed y.state)) db.work_nodes h) mx

  dependency-waits :
      (n : FlowNode) (d : NodeDependency)
      → Memᴰ d db.dependencies
      → d.node_id ≡ n.node_id
      → (x : FlowNode) → x.node_id ≡ d.dependency_node_id
      → waits_for db n x ≡ true
  unfolding waits_for
  dependency-waits n d md ed x ex =
      any-mem (λ (c : NodeDependency). c.node_id == n.node_id && c.dependency_node_id == x.node_id)
        db.dependencies md
        (and_true ((text_eq_iff d.node_id n.node_id).1 ed)
          ((text_eq_iff d.dependency_node_id x.node_id).1 (sym ex)))

  unblocked-Startable :
      (n : FlowNode)
      → Memᴰ n db.work_nodes
      → is_unblocked_by db node_id n ≡ true
      → Startable db.dependencies db.work_nodes n.node_id
  unblocked-Startable n m h =
      let (is_open, none_unfinished) =
        pending_is_open n.state _ (has_unfinished_dependency db n) h in
      record {
        unfinished = λ x mx e.
            subst (λ (y : FlowNode). is_completed y.state ≡ false) (sym (keys x n mx m e)) is_open;
        done = λ d md ed x mx ex.
            not_waiting (waits_for db n x) (is_completed x.state)
              (unfinished-none n none_unfinished x mx) (dependency-waits n d md ed x ex);
      }

  newly_ready-Startable :
      (id : Text) → Memᴰ id (newly_ready db node_id) → Startable db.dependencies db.work_nodes id
  unfolding newly_ready
  newly_ready-Startable id m =
      let (n, k, e) =
        mem-map (λ (n : FlowNode). n.node_id) (keep (is_unblocked_by db node_id) db.work_nodes) m in
      let (mn, h) = mem-keep (is_unblocked_by db node_id) db.work_nodes k in
      subst (Startable db.dependencies db.work_nodes) (sym e) (unblocked-Startable n mn h)

-- The nodes of an active node, each of which is active as well.
abbrev pub IsActive : List FlowNode → Text → Type 0
IsActive nodes node_id = (x : FlowNode) → Memᴰ x nodes → x.node_id ≡ node_id → x.state ≡ active

module _ (dependencies : List NodeDependency) (nodes : List FlowNode) (id : Text)
    (is_active : IsActive nodes id) (f : FlowNode → FlowNode)
    (same_id : (n : FlowNode) → (f n).node_id ≡ n.node_id) where
  active-stays :
      (n : FlowNode)
      → Memᴰ n nodes
      → is_completed n.state ≡ true
      → is_completed (if is_node id n then f n else n).state ≡ true
  active-stays n m c = elim (Bool-cases (is_node id n)) [
    | inl t ↦ active_is_open (is_active n m ((text_eq_iff n.node_id id).0 t)) c
    | inr e ↦ rw e c
  ]

  active-may :
      (n : FlowNode)
      → Memᴰ n nodes
      → is_begun (if is_node id n then f n else n).state ≡ true
      → (is_begun n.state ≡ true) ⊎ AllDone dependencies nodes n.node_id
  active-may n m b = elim (Bool-cases (is_node id n)) [
    | inl t ↦ inl (ap is_begun (is_active n m ((text_eq_iff n.node_id id).0 t)))
    | inr e ↦ inl (rw e at b)
  ]

  pub active-IsOrdered :
      IsOrdered dependencies nodes → IsOrdered dependencies (update_where (is_node id) f nodes)
  active-IsOrdered o =
      update-IsOrdered dependencies (is_node id) f same_id nodes active-stays active-may o

-- The nodes that waited for a completed node alone are started in order.
pub done-IsOrdered :
    (now id : Text) (nodes : List FlowNode) (dependencies : List NodeDependency)
    → HasNodeKeys nodes
    → IsActive nodes id
    → IsOrdered dependencies nodes
    → (done : FlowDb) (f : FlowNode → FlowNode) → ((n : FlowNode) → (f n).node_id ≡ n.node_id)
    → done.work_nodes ≡ update_where (is_node id) f nodes
    → done.dependencies ≡ dependencies
    → IsOrdered dependencies (started now (newly_ready done id) done.work_nodes)
done-IsOrdered now id nodes dependencies keys is_active o done f same_id en ed =
    let done_keys : HasNodeKeys done.work_nodes =
      subst HasNodeKeys (sym en) (update-HasNodeKeys (is_node id) f nodes same_id keys) in
    let done_ordered : IsOrdered dependencies done.work_nodes =
      subst (IsOrdered dependencies) (sym en)
        (active-IsOrdered dependencies nodes id is_active f same_id o) in
    started-IsOrdered dependencies now (newly_ready done id) done.work_nodes
      (λ other m.
        subst (λ ds. Startable ds done.work_nodes other) ed
          (newly_ready-Startable done id done_keys other m))
      done_ordered

pub started-HasNodeKeys :
    (now : Text) (ids : List Text) (nodes : List FlowNode)
    → HasNodeKeys nodes
    → HasNodeKeys (started now ids nodes)
started-HasNodeKeys now [] nodes keys = keys
started-HasNodeKeys now (id ∷ ids) nodes keys =
    started-HasNodeKeys now ids (update_where (is_node id) (started_node now) nodes)
      (update-HasNodeKeys (is_node id) (started_node now) nodes (λ n. refl) keys)
