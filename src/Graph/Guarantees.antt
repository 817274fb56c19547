-- ===== src/Graph/Guarantees.antt =====
-- graph_traversal.py: what `traverse_identity_graph` promises its callers.
use mathlib.Core.Path.{subst}
use night_recon.Prelude.{
  All, All-contained, Bool-cases, List, Option-cases, Result-cases, String, [], ap, arith, bool_Eq,
  contains, eq_of_beq, eq_refl, false, find, inl, inr, length, list_Eq, nat_Eq, ok, option_Eq,
  pair_Eq, refl, some, string_Eq, sym, true, unique, ℕ, ◌==◌, ◌↔◌, ◌∙◌, ◌∷◌, ◌≡◌, ◌≤◌,
}
use night_recon.Graph.Index.{GraphNode, IdentityGraph, node, node_ids}
use night_recon.Graph.Traversal.{
  GraphTraversalLimits, GraphTraversalResult, Walk, check_limits, search, traverse_identity_graph,
}
use night_recon.Graph.Frontiers.{Settled}
use night_recon.Graph.Reachability.{All-contains, Covered, search-Settled}
use night_recon.Graph.Traversals.{Outcome, Reaches, ReachesWithin, here, onward, search-Outcome}

find-id :
    (id : String) (ns : List GraphNode) (s : GraphNode)
    → find (λ n. n.node_id == id) ns ≡ some s
    → s.node_id ≡ id
unfolding find
find-id id [] s h = absurd (cc)
find-id id (n ∷ ns) s h = elim (Bool-cases (n.node_id == id)) [
  | inl b ↦ ground (arith, b, h, eq_of_beq n.node_id id b)
  | inr b ↦ find-id id ns s (ground (arith, b, h))
]

-- What a traversal from a node returns, whether it was cut off or not.
pub record Traversed (g : IdentityGraph) (relationship direction start : String)
    (limits : GraphTraversalLimits) (r : GraphTraversalResult) : Type 0 where
  pub from_start : r.start_node_id ≡ start
  pub start_visited : contains start (node_ids r.visited) ≡ true
  pub reached :
      All (ReachesWithin g relationship direction start limits.max_depth) (node_ids r.visited)
  pub no_repeats : unique (node_ids r.visited) ≡ true
  pub within_nodes : length r.visited ≤ limits.max_nodes
  pub within_depth : r.depth_reached ≤ limits.max_depth

module _ (g : IdentityGraph) (relationship direction : String) where
  -- A traversal that returned, taken apart.
  record Searched (start : String) (limits : GraphTraversalLimits) (r : GraphTraversalResult)
      : Type 0 where
    first : GraphNode
    is_first : first.node_id ≡ start
    walk : Walk
    named : r.start_node_id ≡ first.node_id
    searched :
        search g relationship direction limits.max_nodes limits.max_depth
          (first ∷ [])
          (record { visited_ids = first.node_id ∷ []; ordered = first ∷ []; next_nodes = [] })
          0
        ≡ ok (walk, r.depth_reached, r.truncated)
    all_visited : r.visited ≡ walk.ordered

  traverse-Searched :
      (start : String) (limits : GraphTraversalLimits) (r : GraphTraversalResult)
      → traverse_identity_graph g relationship direction start limits ≡ ok r
      → Searched start limits r
  unfolding traverse_identity_graph node
  traverse-Searched start limits r h = elim (Option-cases (node g start)) [
    | inl b ↦ absurd (ground (arith, b, h))
    | inr (s, b) ↦
        let first : Walk = record {
          visited_ids = s.node_id ∷ [];
          ordered = s ∷ [];
          next_nodes = [];
        } in
        elim (Result-cases
          (search g relationship direction limits.max_nodes limits.max_depth (s ∷ []) first 0)) [
            | inr (x, c) ↦ absurd (ground (arith, b, c, h))
            | inl ((w, d, t), c) ↦ record {
              first = s;
              is_first = find-id start g.nodes s b;
              walk = w;
              named = ground (arith, b, c, h);
              searched = ground (arith, b, c, h);
              all_visited = ground (arith, b, c, h);
            }
          ]
  ]

  search_from-Outcome :
      (start : String) (limits : GraphTraversalLimits) (r : GraphTraversalResult)
      → check_limits limits ≡ ok tt
      → (s : Searched start limits r)
      → Outcome g relationship direction s.first.node_id limits.max_nodes limits.max_depth
          (record { visited_ids = s.first.node_id ∷ []; ordered = s.first ∷ []; next_nodes = [] })
          s.walk
          r.depth_reached
  unfolding check_limits contains unique
  search_from-Outcome start limits r l s =
      let at_start : ReachesWithin g relationship direction s.first.node_id 0 s.first.node_id =
        (0, here, omega arith) in
      search-Outcome g relationship direction s.first.node_id limits.max_nodes limits.max_depth
        limits.max_depth (s.first ∷ [])
        (record { visited_ids = s.first.node_id ∷ []; ordered = s.first ∷ []; next_nodes = [] })
        s.walk 0 r.depth_reached r.truncated (omega arith) (at_start, tt)
        (record {
          reached = (at_start, tt);
          tidy = record { same_ids = refl; no_repeats = refl; within = ground (arith, l) };
        })
        s.searched

  -- Under limits that pass their check, whatever a traversal returns starts at the node asked for,
  -- has each node once, at most `max_nodes` of them, and only nodes that are reached from the start
  -- in at most `max_depth` steps to a neighbor, and it reports at most that depth.
  pub traverse-Traversed :
      (start : String) (limits : GraphTraversalLimits) (r : GraphTraversalResult)
      → check_limits limits ≡ ok tt
      → traverse_identity_graph g relationship direction start limits ≡ ok r
      → Traversed g relationship direction start limits r
  unfolding contains
  traverse-Traversed start limits r l h =
      let s = traverse-Searched start limits r h in
      let o = search_from-Outcome start limits r l s in
      let same : s.walk.visited_ids ≡ node_ids r.visited =
        o.keeps.tidy.same_ids ∙ ap node_ids (sym s.all_visited) in
      let seen = o.stays s.first.node_id (ground (arith, eq_refl s.first.node_id)) in
      record {
        from_start = s.named ∙ s.is_first;
        start_visited =
            subst (λ i. contains i (node_ids r.visited) ≡ true) s.is_first
              (subst (λ l. contains s.first.node_id l ≡ true) same seen);
        reached =
            subst
              (λ i.
                All (ReachesWithin g relationship direction i limits.max_depth)
                  (node_ids r.visited))
              s.is_first
              (subst (All (ReachesWithin g relationship direction s.first.node_id limits.max_depth))
                same o.keeps.reached);
        no_repeats = subst (λ l. unique l ≡ true) same o.keeps.tidy.no_repeats;
        within_nodes = ground (arith, o.keeps.tidy.within, s.all_visited);
        within_depth = o.deep;
      }

  Settled-Reaches :
      (start j : String) (n : ℕ) (ids : List String)
      → contains start ids ≡ true
      → ((i : String) → contains i ids ≡ true → Settled g relationship direction ids i)
      → Reaches g relationship direction start j n
      → contains j ids ≡ true
  Settled-Reaches start j n ids b s here = b
  Settled-Reaches start j n ids b s (onward {i} {n = k} ns r e c) =
      All-contains (λ x. contains x ids ≡ true) ns j
        (s i (Settled-Reaches start i k ids b s r) ns e) c

  start-Covered :
      (n : GraphNode)
      → Covered g relationship direction
          (n ∷ [])
          (record { visited_ids = n.node_id ∷ []; ordered = n ∷ []; next_nodes = [] })
  start-Covered n i c = inr c

  -- Under limits that pass their check, a traversal that reports nothing cut off has visited
  -- exactly the nodes that are reached from its start in any number of steps to a neighbor.
  pub traverse_iff :
      (start : String) (limits : GraphTraversalLimits) (r : GraphTraversalResult)
      → check_limits limits ≡ ok tt
      → traverse_identity_graph g relationship direction start limits ≡ ok r
      → r.truncated ≡ false
      → (i : String)
      → (contains i (node_ids r.visited) ≡ true)
        ↔ ((n : ℕ) × Reaches g relationship direction start i n)
  traverse_iff start limits r l h whole i =
      let s = traverse-Searched start limits r h in
      let o = search_from-Outcome start limits r l s in
      let t = traverse-Traversed start limits r l h in
      let same : s.walk.visited_ids ≡ node_ids r.visited =
        o.keeps.tidy.same_ids ∙ ap node_ids (sym s.all_visited) in
      let settled =
        search-Settled g relationship direction limits.max_nodes limits.max_depth (s.first ∷ [])
          (record { visited_ids = s.first.node_id ∷ []; ordered = s.first ∷ []; next_nodes = [] })
          s.walk 0 r.depth_reached (start-Covered s.first) (rw whole at s.searched) in
      (
        (λ c.
            let (n, p, b) =
              All-contained (ReachesWithin g relationship direction start limits.max_depth) i
                (node_ids r.visited) t.reached c in
            (n, p)),
        (λ (n, p).
            Settled-Reaches start i n (node_ids r.visited) t.start_visited
              (subst
                (λ ids.
                  (j : String) → contains j ids ≡ true → Settled g relationship direction ids j)
                same settled)
              p),
      )
