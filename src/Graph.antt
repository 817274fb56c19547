-- ===== src/Graph.antt =====
-- packages/red-engine/nightrecon_red_engine: the graph of identities, its index and its traversal.
pub mod Index
pub mod Traversal
pub mod Levels
pub mod Frontiers
pub mod Reachability
pub mod Traversals
pub mod Guarantees
pub mod Returns
