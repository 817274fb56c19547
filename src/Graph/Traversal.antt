-- ===== src/Graph/Traversal.antt =====
-- packages/red-engine/nightrecon_red_engine/graph_traversal.py.
use night_recon.Prelude.{
  Bool, List, Result, String, [], any, bool_Eq, contains, false, if◌then◌else◌, leb, length,
  list_Eq, nat_Eq, not, ok, option_Eq, or_raise, pair_Eq, require, string_Eq, suc, true, zero, ℕ,
  ◌++◌, ◌+◌, ◌>>=◌, ◌∷◌,
}
use night_recon.Graph.Index.{
  GraphError, GraphNode, IdentityGraph, bad_limits, neighbors, node, start_missing,
}

pub record GraphTraversalLimits : Type 0 where
  pub max_depth : ℕ
  pub max_nodes : ℕ

pub record GraphTraversalResult : Type 0 where
  pub start_node_id : String
  pub visited : List GraphNode
  pub depth_reached : ℕ
  pub truncated : Bool

-- `__post_init__`; a depth is not negative by its type
unfoldable pub check_limits : GraphTraversalLimits → Result GraphError (Unit {0})
check_limits limits = require (leb 1 limits.max_nodes) bad_limits

-- the variables that the loops over a frontier change
pub record Walk : Type 0 where
  pub visited_ids : List String
  pub ordered : List GraphNode
  pub next_nodes : List GraphNode

-- A loop went on to its end, or it returned since the limit of nodes was met.
pub data Visit : Type 0 where
  more : Walk → Visit
  full : Walk → Visit

-- `visited_ids.add`, and the two calls of `append`
abbrev pub admit_node : GraphNode → Walk → Walk
admit_node n w = record {
  visited_ids = w.visited_ids ++ n.node_id ∷ [];
  ordered = w.ordered ++ n ∷ [];
  next_nodes = w.next_nodes ++ n ∷ [];
}

-- One neighbor: known already, beyond the limit, or new.
unfoldable pub visit : ℕ → GraphNode → Walk → Visit
visit max_nodes n w =
    if contains n.node_id w.visited_ids
    then more w
    else (if leb max_nodes (length w.ordered) then full w else more (admit_node n w))

unfoldable pub visit_neighbors : ℕ → List GraphNode → Walk → Visit
visit_neighbors max_nodes [] w = more w
visit_neighbors max_nodes (n ∷ ns) w = elim (visit max_nodes n w) [
  | more v ↦ visit_neighbors max_nodes ns v
  | full v ↦ full v
]

module _ (g : IdentityGraph) (relationship direction : String) where
  unfoldable pub visit_frontier : ℕ → List GraphNode → Walk → Result GraphError Visit
  visit_frontier max_nodes [] w = ok (more w)
  visit_frontier max_nodes (current ∷ rest) w = do
    found ← neighbors g current.node_id relationship direction
    elim (visit_neighbors max_nodes found w) [
      | more v ↦ visit_frontier max_nodes rest v
      | full v ↦ ok (full v)
    ]

  -- `any(neighbor.node_id not in visited_ids for ...)`
  unfoldable pub any_unvisited : List GraphNode → List String → Result GraphError Bool
  any_unvisited [] ids = ok false
  any_unvisited (current ∷ rest) ids = do
    found ← neighbors g current.node_id relationship direction
    elim (any (λ n. not (contains n.node_id ids)) found) [
      | true ↦ ok true
      | false ↦ any_unvisited rest ids
    ]

  -- The loop over the levels, with the number of levels that the limit still allows.
  unfoldable pub search : ℕ → ℕ → List GraphNode → Walk → ℕ → Result GraphError (Walk × ℕ × Bool)
  search max_nodes zero frontier w depth = do
    truncated ← any_unvisited frontier w.visited_ids
    ok (w, depth, truncated)
  search max_nodes (suc left) frontier w depth = do
    visited ← visit_frontier max_nodes frontier (record w { next_nodes = [] })
    elim visited [
      | full v ↦ ok (v, depth, true)
      | more v ↦ elim v.next_nodes [
        | [] ↦ ok (v, depth, false)
        | n ∷ ns ↦ search max_nodes left (n ∷ ns) v (depth + 1)
      ]
    ]

  unfoldable pub traverse_identity_graph :
      String → GraphTraversalLimits → Result GraphError GraphTraversalResult
  traverse_identity_graph start_node_id limits = do
    start ← or_raise (node g start_node_id) start_missing
    let first : Walk = record {
      visited_ids = start.node_id ∷ [];
      ordered = start ∷ [];
      next_nodes = [];
    }
    (w, depth, truncated) ← search limits.max_nodes limits.max_depth (start ∷ []) first 0
    ok (record {
      start_node_id = start.node_id;
      visited = w.ordered;
      depth_reached = depth;
      truncated = truncated;
    })
