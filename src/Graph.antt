-- ===== src/Graph.antt =====
-- src/graphs: the edges of a workflow graph, and the checks that `compile` makes of them.
pub mod Edges
pub mod Cycle
pub mod Reach
pub mod Builder
pub mod Compile
pub mod Made
pub mod Topological
