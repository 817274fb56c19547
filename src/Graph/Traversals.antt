-- ===== src/Graph/Traversals.antt =====
-- graph_traversal.py: what `traverse_identity_graph` returns.
use mathlib.Core.Path.{subst}
use night_recon.Prelude.{
  >>=-eq-ok, All, All-map, Bool, List, List-cases, Result, String, [], all, ap, arith, bool_Eq,
  contains, eq_refl, false, inl, inr, list_Eq, nat_Eq, ok, ok-injective, option_Eq, pair_Eq,
  string_Eq, suc, true, zero, ℕ, ◌+◌, ◌∷◌, ◌≡◌, ◌≤◌,
}
use night_recon.Graph.Index.{GraphError, GraphNode, IdentityGraph, neighbors, node_ids}
use night_recon.Graph.Traversal.{Walk, any_unvisited, full, more, search, visit_frontier}
use night_recon.Graph.Levels.{Adds, Adds-Tidy, Adds-contains, Adds-next_nodes, Adds-visited, Tidy}
use night_recon.Graph.Frontiers.{Leads, Visit-cases, of_outcome, visit_frontier-Adds}
use night_recon.Graph.Reachability.{Found}

-- A node is reached from another in a number of steps from a node to a neighbor.
pub data Reaches (g : IdentityGraph) (relationship direction start : String)
    : String → ℕ → Type 0 where
  here : Reaches g relationship direction start start 0
  onward :
      {i j : String} {n : ℕ} (ns : List GraphNode)
      → Reaches g relationship direction start i n
      → neighbors g i relationship direction ≡ ok ns
      → contains j (node_ids ns) ≡ true
      → Reaches g relationship direction start j (n + 1)

module _ (g : IdentityGraph) (relationship direction start : String) where
  abbrev pub ReachesWithin : ℕ → String → Type 0
  ReachesWithin bound i = (n : ℕ) × Reaches g relationship direction start i n × (n ≤ bound)

  later :
      (d e : ℕ) (ids : List String) → d ≤ e → All (ReachesWithin d) ids → All (ReachesWithin e) ids
  later d e ids l h =
      All-map (ReachesWithin d) (ReachesWithin e) ids (λ i r. (r.0, r.1, omega (arith, r.2, l))) h

  neighbors-ReachesWithin :
      (d : ℕ) (i : String) (all ns : List GraphNode)
      → ReachesWithin d i
      → neighbors g i relationship direction ≡ ok all
      → ((j : String) → contains j (node_ids ns) ≡ true → contains j (node_ids all) ≡ true)
      → All (λ n. ReachesWithin (d + 1) n.node_id) ns
  unfolding contains
  neighbors-ReachesWithin d i all [] r e sub = tt
  neighbors-ReachesWithin d i all (n ∷ ns) (k, r, l) e sub = (
    (k + 1, onward all r e (sub n.node_id (ground (arith, eq_refl n.node_id))), omega (arith, l)),
    neighbors-ReachesWithin d i all ns (k, r, l) e (λ j c. sub j (ground (arith, c))),
  )

  frontier-Leads :
      (d : ℕ) (fs : List GraphNode)
      → All (ReachesWithin d) (node_ids fs)
      → All (λ c. Leads g relationship direction (ReachesWithin (d + 1)) c.node_id) fs
  frontier-Leads d [] h = tt
  frontier-Leads d (c ∷ fs) (r, rs) =
      ((λ ns e. neighbors-ReachesWithin d c.node_id ns ns r e (λ j h. h)), frontier-Leads d fs rs)

  -- What a search keeps: the visited nodes are reached in so many steps, and their records agree.
  pub record Keeps (max_nodes bound : ℕ) (w : Walk) : Type 0 where
    pub reached : All (ReachesWithin bound) w.visited_ids
    pub tidy : Tidy max_nodes w

  level-Keeps :
      (m depth : ℕ) (w u : Walk)
      → Keeps m depth w
      → Adds m (ReachesWithin (depth + 1)) (record w { next_nodes = [] }) u
      → Keeps m (depth + 1) u
  level-Keeps m depth w u q a = record {
    reached = Adds-visited a (later depth (depth + 1) w.visited_ids (omega arith) q.reached);
    tidy = Adds-Tidy a (record {
      same_ids = q.tidy.same_ids;
      no_repeats = q.tidy.no_repeats;
      within = q.tidy.within;
    });
  }

  -- What a search from a walk comes to.
  pub record Outcome (m bound : ℕ) (w v : Walk) (d : ℕ) : Type 0 where
    pub keeps : Keeps m bound v
    pub deep : d ≤ bound
    pub stays : (i : String) → contains i w.visited_ids ≡ true → contains i v.visited_ids ≡ true

  finished :
      (m bound k depth d : ℕ) (w u v : Walk) (t' t : Bool)
      → Keeps m k u
      → k ≤ bound
      → depth ≤ bound
      → ((i : String) → contains i w.visited_ids ≡ true → contains i u.visited_ids ≡ true)
      → ◌≡◌ {A = Result GraphError Found} (ok (u, depth, t')) (ok (v, d, t))
      → Outcome m bound w v d
  finished m bound k depth d w u v t' t q l l' s h =
      let p = ok-injective h in
      let same : u ≡ v = ap (λ (r : Found). r.0) p in
      let deep : depth ≡ d = ap (λ (r : Found). r.1) p in
      record {
        keeps =
            subst (Keeps m bound) same
              (record { reached = later k bound u.visited_ids l q.reached; tidy = q.tidy });
        deep = omega (arith, deep, l');
        stays = λ i c. subst (λ x. contains i x.visited_ids ≡ true) same (s i c);
      }

  pub search-Outcome :
      (m left bound : ℕ) (fs : List GraphNode) (w v : Walk) (depth d : ℕ) (t : Bool)
      → depth + left ≡ bound
      → All (ReachesWithin depth) (node_ids fs)
      → Keeps m depth w
      → search g relationship direction m left fs w depth ≡ ok (v, d, t)
      → Outcome m bound w v d
  unfolding search
  search-Outcome m zero bound fs w v depth d t total f q h =
      let (b, e, k) =
        >>=-eq-ok (any_unvisited g relationship direction fs w.visited_ids)
          (λ truncated. ok (w, depth, truncated)) h in
      finished m bound depth depth d w w v b t q (omega (arith, total)) (omega (arith, total))
        (λ i c. c) k
  search-Outcome m (suc left) bound fs w v depth d t total f q h =
      let (r, e, k) =
        >>=-eq-ok (visit_frontier g relationship direction m fs (record w { next_nodes = [] }))
          (λ visited. elim visited [
            | full u ↦ ok (u, depth, true)
            | more u ↦ elim u.next_nodes [
              | [] ↦ ok (u, depth, false)
              | n ∷ ns ↦ search g relationship direction m left (n ∷ ns) u (depth + 1)
            ]
          ])
          h in
      let a =
        visit_frontier-Adds g relationship direction m (ReachesWithin (depth + 1)) fs
          (record w { next_nodes = [] }) r (frontier-Leads depth fs f) e in
      elim (Visit-cases r) [
        | inr (u, o) ↦
            let b = of_outcome o a in
            finished m bound (depth + 1) depth d w u v true t (level-Keeps m depth w u q b)
              (omega (arith, total)) (omega (arith, total)) (Adds-contains b) (rw o at k)
        | inl (u, o) ↦
            let b = of_outcome o a in
            let kept = level-Keeps m depth w u q b in
            elim (List-cases u.next_nodes) [
              | inl none_left ↦
                  finished m bound (depth + 1) depth d w u v false t kept (omega (arith, total))
                    (omega (arith, total)) (Adds-contains b) (rw none_left at (rw o at k))
              | inr (n, ns, some_left) ↦
                  let rest =
                    search-Outcome m left bound (n ∷ ns) u v (depth + 1) d t (omega (arith, total))
                      (subst (λ l. All (ReachesWithin (depth + 1)) (node_ids l)) some_left
                        (Adds-next_nodes b tt))
                      kept (rw some_left at (rw o at k)) in
                  record {
                    keeps = rest.keeps;
                    deep = rest.deep;
                    stays = λ i c. rest.stays i (Adds-contains b i c);
                  }
            ]
      ]
