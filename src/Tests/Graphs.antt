-- ===== src/Tests/Graphs.antt =====
-- graph_traversal.py on a small graph.
use night_recon.Prelude.{
  String, [], any, bool_Eq, contains, false, find, list_Eq, lower, nat_Eq, ok, option_Eq, pair_Eq,
  raise, refl, select, string_Eq, strip, true, ℕ, ◌↔◌, ◌∷◌, ◌≡◌,
}
use night_recon.Graph.Index.{
  GraphEdge, GraphNode, IdentityGraph, asset, bad_direction, incoming_edges, is_related, neighbors,
  node, node_ids, observed, outgoing_edges,
}
use night_recon.Graph.Traversal.{
  GraphTraversalLimits, GraphTraversalResult, any_unvisited, check_limits, search,
  traverse_identity_graph, visit, visit_frontier, visit_neighbors,
}
use night_recon.Graph.Traversals.{Reaches}
use night_recon.Graph.Guarantees.{Traversed, traverse-Traversed, traverse_iff}
use night_recon.Graph.Returns.{directions, traverse-returns}

abbrev named_node : String → GraphNode
named_node id = record {
  node_id = id;
  kind = asset;
  natural_key = id;
  label = id;
  provenance = [];
  properties = [];
}

abbrev plain_edge : String → String → GraphEdge
plain_edge source target = record {
  edge_id = "edge";
  source_node_id = source;
  target_node_id = target;
  relationship = "member-of";
  evidence_state = observed;
  provenance = [];
  properties = [];
}

-- an island stands apart
abbrev small_graph : IdentityGraph
small_graph = record {
  nodes = named_node "c" ∷ named_node "island" ∷ named_node "b" ∷ named_node "a" ∷ [];
  edges =
      plain_edge "a" "b" ∷ plain_edge "b" "c" ∷ plain_edge "c" "a" ∷ plain_edge "island" "a" ∷ [];
}

abbrev small_limits : GraphTraversalLimits
small_limits = record { max_depth = 4; max_nodes = 3 }

graph_code : Unit {0}
unfolding traverse_identity_graph search visit_frontier visit_neighbors visit any_unvisited
    neighbors outgoing_edges incoming_edges is_related node check_limits strip lower find select any
    contains
graph_code = tt

abbrev small_result : GraphTraversalResult
small_result = record {
  start_node_id = "a";
  visited = named_node "a" ∷ named_node "b" ∷ named_node "c" ∷ [];
  depth_reached = 2;
  truncated = false;
}

traverse_small :
    traverse_identity_graph small_graph " Member-Of " "outgoing" "a" small_limits ≡ ok small_result
unfolding graph_code
traverse_small = refl

cut_off :
    traverse_identity_graph small_graph "" "outgoing" "a" (record { max_depth = 1; max_nodes = 3 })
    ≡ ok (record {
      start_node_id = "a";
      visited = named_node "a" ∷ named_node "b" ∷ [];
      depth_reached = 1;
      truncated = true;
    })
unfolding graph_code
cut_off = refl

unknown_direction :
    traverse_identity_graph small_graph "" "sideways" "a" small_limits ≡ raise bad_direction
unfolding graph_code
unknown_direction = refl

limits_pass : check_limits small_limits ≡ ok tt
unfolding check_limits
limits_pass = refl

traverse-Traversed_example :
    Traversed small_graph " Member-Of " "outgoing" "a" small_limits small_result
traverse-Traversed_example =
    traverse-Traversed small_graph " Member-Of " "outgoing" "a" small_limits small_result
      limits_pass traverse_small

traverse_iff_example :
    (contains "c" (node_ids small_result.visited) ≡ true)
    ↔ ((n : ℕ) × Reaches small_graph " Member-Of " "outgoing" "a" "c" n)
traverse_iff_example =
    traverse_iff small_graph " Member-Of " "outgoing" "a" small_limits small_result limits_pass
      traverse_small refl "c"

outgoing_known : contains "outgoing" directions ≡ true
unfolding contains
outgoing_known = refl

a_listed : contains "a" (node_ids small_graph.nodes) ≡ true
unfolding contains
a_listed = refl

traverse-returns_example :
    (r : GraphTraversalResult) × (traverse_identity_graph small_graph " Member-Of " "outgoing" "a"
        small_limits
      ≡ ok r)
traverse-returns_example =
    traverse-returns small_graph " Member-Of " "outgoing" outgoing_known "a" small_limits a_listed
