-- ===== src/Workflow/Shapes.antt =====
-- src/server/task-board/persistence/workflow.ts: what a settlement makes of the nodes of a plan.
use nexus_seventeen.Prelude.{◌≡◌, sym, subst, List, Text, update_where, eq_text}
use nexus_seventeen.Contract.{eq_stage}
use nexus_seventeen.Workflow.Rows.{FlowDb, FlowNode, NodeDependency, is_node}
use nexus_seventeen.Workflow.Settle.{newly_ready}
use nexus_seventeen.Workflow.Moves.{started}
use nexus_seventeen.Workflow.Ordered.{IsOrdered}
use nexus_seventeen.Workflow.Unblocked.{
  HasNodeKeys, IsActive, update-HasNodeKeys, started-HasNodeKeys, active-IsOrdered, done-IsOrdered,
}

-- What a settlement may make of the nodes.
pub data Shape (now id : Text) (nodes : List FlowNode) (dependencies : List NodeDependency)
    : List FlowNode → Type 0 where
  stays : Shape now id nodes dependencies nodes
  changes :
      (f : FlowNode → FlowNode)
      → ((n : FlowNode) → (f n).node_id ≡ n.node_id)
      → Shape now id nodes dependencies (update_where (is_node id) f nodes)
  starts :
      (done : FlowDb) (f : FlowNode → FlowNode)
      → ((n : FlowNode) → (f n).node_id ≡ n.node_id)
      → done.work_nodes ≡ update_where (is_node id) f nodes
      → done.dependencies ≡ dependencies
      → Shape now id nodes dependencies (started now (newly_ready done id) done.work_nodes)

pub Shape-IsOrdered :
    (now id : Text) (nodes : List FlowNode) (dependencies : List NodeDependency)
    → HasNodeKeys nodes
    → IsActive nodes id
    → IsOrdered dependencies nodes
    → {nodes' : List FlowNode} → Shape now id nodes dependencies nodes'
    → IsOrdered dependencies nodes'
Shape-IsOrdered now id nodes dependencies keys is_active o stays = o
Shape-IsOrdered now id nodes dependencies keys is_active o (changes f same_id) =
    active-IsOrdered dependencies nodes id is_active f same_id o
Shape-IsOrdered now id nodes dependencies keys is_active o (starts done f same_id en ed) =
    done-IsOrdered now id nodes dependencies keys is_active o done f same_id en ed

pub Shape-HasNodeKeys :
    (now id : Text) (nodes : List FlowNode) (dependencies : List NodeDependency)
    {nodes' : List FlowNode}
    → HasNodeKeys nodes
    → Shape now id nodes dependencies nodes'
    → HasNodeKeys nodes'
Shape-HasNodeKeys now id nodes dependencies keys stays = keys
Shape-HasNodeKeys now id nodes dependencies keys (changes f same_id) =
    update-HasNodeKeys (is_node id) f nodes same_id keys
Shape-HasNodeKeys now id nodes dependencies keys (starts done f same_id en ed) =
    started-HasNodeKeys now (newly_ready done id) done.work_nodes
      (subst HasNodeKeys (sym en) (update-HasNodeKeys (is_node id) f nodes same_id keys))
