-- ===== src/Workflow.antt =====
-- src/server/task-board/persistence/workflow.ts: the nodes of a plan as attempts at their stages settle. `Rows`
-- has the tables, `Stages` the stage of the work item, `Handoffs` what a settlement records, `Settle` the
-- settlement of an attempt, `Machine` that of machine verification, `Nodes` the commands on one node,
-- `Returns` the statements of other functions on nodes, and `Steps` the changes in any order.
pub mod Rows
pub mod Stages
pub mod Handoffs
pub mod Settle
pub mod Machine
pub mod Nodes
pub mod Returns
pub mod Kept
pub mod Moves
pub mod Ordered
pub mod Unblocked
pub mod Joined
pub mod Attempted
pub mod Shapes
pub mod MachineShaped
pub mod MachineOrdered
pub mod Sound
pub mod Returned
pub mod Inserted
pub mod Steps
mod Tests
