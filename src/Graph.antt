-- ===== src/Graph.antt =====
-- The execution graph of src/agent_physics/graph.py.
pub mod Graphs
pub mod Walks
pub mod Decided
pub mod Validated
pub mod Order
pub mod Waiting
pub mod Ordered
pub mod Successors
pub mod Sound
pub mod Counting
pub mod Passes
pub mod Starts
pub mod Runs
pub mod Reached
pub mod Found
pub mod Topological
pub mod Total
pub mod Examples
