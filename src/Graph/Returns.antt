-- ===== src/Graph/Returns.antt =====
-- graph_traversal.py: when `traverse_identity_graph` returns.
use night_recon.Prelude.{
  Bool, Bool-cases, List, List-cases, Result-cases, String, [], any, arith, bool_Eq, contains,
  false, find, inl, inr, list_Eq, nat_Eq, not, ok, option_Eq, pair_Eq, refl, some, string_Eq, suc,
  true, zero, ℕ, ◌+◌, ◌==◌, ◌∷◌, ◌≡◌,
}
use night_recon.Graph.Index.{GraphNode, IdentityGraph, neighbors, node, node_ids}
use night_recon.Graph.Frontiers.{Visit-cases}
use night_recon.Graph.Traversal.{
  GraphTraversalLimits, GraphTraversalResult, Visit, Walk, any_unvisited, full, more, search,
  traverse_identity_graph, visit_frontier, visit_neighbors,
}

abbrev pub directions : List String
directions = "outgoing" ∷ "incoming" ∷ "both" ∷ []

find-returns :
    (id : String) (ns : List GraphNode)
    → contains id (node_ids ns) ≡ true
    → (s : GraphNode) × (find (λ n. n.node_id == id) ns ≡ some s)
unfolding find contains
find-returns id [] h = absurd (cc)
find-returns id (n ∷ ns) h = elim (Bool-cases (n.node_id == id)) [
  | inl b ↦ (n, ground (arith, b))
  | inr b ↦ let (s, e) = find-returns id ns (ground (arith, b, h)) in (s, ground (arith, b, e))
]

module _ (g : IdentityGraph) (relationship direction : String)
    (known : contains direction directions ≡ true) where
  neighbors-returns :
      (id : String) → (ns : List GraphNode) × (neighbors g id relationship direction ≡ ok ns)
  unfolding neighbors
  neighbors-returns id = elim (Result-cases (neighbors g id relationship direction)) [
    | inl r ↦ r
    | inr (x, e) ↦ absurd (ground (arith, e, known))
  ]

  visit_frontier-returns :
      (m : ℕ) (fs : List GraphNode) (w : Walk)
      → (r : Visit) × (visit_frontier g relationship direction m fs w ≡ ok r)
  unfolding visit_frontier
  visit_frontier-returns m [] w = (more w, refl)
  visit_frontier-returns m (c ∷ fs) w =
      let (ns, e) = neighbors-returns c.node_id in
      elim (Visit-cases (visit_neighbors m ns w)) [
        | inl (v, q) ↦ let (r, k) = visit_frontier-returns m fs v in (r, ground (arith, e, q, k))
        | inr (v, q) ↦ (full v, ground (arith, e, q))
      ]

  any_unvisited-returns :
      (fs : List GraphNode) (ids : List String)
      → (t : Bool) × (any_unvisited g relationship direction fs ids ≡ ok t)
  unfolding any_unvisited
  any_unvisited-returns [] ids = (false, refl)
  any_unvisited-returns (c ∷ fs) ids =
      let (ns, e) = neighbors-returns c.node_id in
      let (t, k) = any_unvisited-returns fs ids in
      elim (Bool-cases (any (λ n. not (contains n.node_id ids)) ns)) [
        | inl b ↦ (true, ground (arith, e, b))
        | inr b ↦ (t, ground (arith, e, b, k))
      ]

  search-returns :
      (m left : ℕ) (fs : List GraphNode) (w : Walk) (depth : ℕ)
      → (r : Walk × ℕ × Bool) × (search g relationship direction m left fs w depth ≡ ok r)
  unfolding search
  search-returns m zero fs w depth =
      let (t, e) = any_unvisited-returns fs w.visited_ids in ((w, depth, t), ground (arith, e))
  search-returns m (suc left) fs w depth =
      let (r, e) = visit_frontier-returns m fs (record w { next_nodes = [] }) in
      elim (Visit-cases r) [
        | inr (v, q) ↦ ((v, depth, true), ground (arith, e, q))
        | inl (v, q) ↦ elim (List-cases v.next_nodes) [
          | inl none_left ↦ ((v, depth, false), ground (arith, e, q, none_left))
          | inr (n, ns, some_left) ↦
              let (found, k) = search-returns m left (n ∷ ns) v (depth + 1) in
              (found, ground (arith, e, q, some_left, k))
        ]
      ]

  -- With a known direction and a start that is in the graph, a traversal returns a result, whatever
  -- the limits are.
  pub traverse-returns :
      (start : String) (limits : GraphTraversalLimits)
      → contains start (node_ids g.nodes) ≡ true
      → (r : GraphTraversalResult) × (traverse_identity_graph g relationship direction start limits
          ≡ ok r)
  unfolding traverse_identity_graph node
  traverse-returns start limits h =
      let (s, e) = find-returns start g.nodes h in
      let first : Walk = record {
        visited_ids = s.node_id ∷ [];
        ordered = s ∷ [];
        next_nodes = [];
      } in
      let ((w, d, t), f) = search-returns limits.max_nodes limits.max_depth (s ∷ []) first 0 in
      (
        record { start_node_id = s.node_id; visited = w.ordered; depth_reached = d; truncated = t },
        ground (arith, e, f),
      )
