-- ===== src/Graph/Reachability.antt =====
-- graph_traversal.py: the nodes that a traversal visits are those that can be reached.
use mathlib.Core.Path.{subst}
use night_recon.Prelude.{
  >>=-eq-ok, All, All-map, Bool, Bool-cases, List, List-cases, String, [], any, ap, arith, bool_Eq,
  contains, eq_of_beq, false, inl, inr, list_Eq, nat_Eq, not, ok, ok-injective, option_Eq, pair_Eq,
  string_Eq, suc, sym, true, zero, ℕ, ◌+◌, ◌==◌, ◌∙◌, ◌∷◌, ◌≡◌, ◌⊎◌,
}
use night_recon.Graph.Index.{GraphNode, IdentityGraph, neighbors, node_ids}
use night_recon.Graph.Traversal.{Walk, any_unvisited, full, more, search, visit_frontier}
use night_recon.Graph.Levels.{Adds, Adds-contains, Adds-next}
use night_recon.Graph.Frontiers.{
  AllVisited, Settled, Visit-cases, anything-Leads, visit_frontier-Adds, visit_frontier-more,
}

-- The result of a search: the walk, the depth it reached, and whether it was cut off.
abbrev pub Found : Type 0
Found = Walk × ℕ × Bool

pub All-contains :
    (P : String → Type 0) (ns : List GraphNode) (i : String)
    → All (λ n. P n.node_id) ns
    → contains i (node_ids ns) ≡ true
    → P i
unfolding contains
All-contains P [] i h c = absurd (cc)
All-contains P (n ∷ ns) i h c = elim (Bool-cases (n.node_id == i)) [
  | inl b ↦ subst P (eq_of_beq n.node_id i b) h.0
  | inr b ↦ All-contains P ns i h.1 (ground (arith, b, c))
]

none-unvisited :
    (ns : List GraphNode) (ids : List String)
    → any (λ n. not (contains n.node_id ids)) ns ≡ false
    → AllVisited ns ids
unfolding any
none-unvisited [] ids h = tt
none-unvisited (n ∷ ns) ids h = (ground (arith, h), none-unvisited ns ids (ground (arith, h)))

module _ (g : IdentityGraph) (relationship direction : String) where
  any_unvisited-Settled :
      (fs : List GraphNode) (ids : List String)
      → any_unvisited g relationship direction fs ids ≡ ok false
      → All (λ c. Settled g relationship direction ids c.node_id) fs
  unfolding any_unvisited
  any_unvisited-Settled [] ids h = tt
  any_unvisited-Settled (c ∷ fs) ids h =
      let (ns, e, k) =
        >>=-eq-ok (neighbors g c.node_id relationship direction)
          (λ found. elim (any (λ n. not (contains n.node_id ids)) found) [
            | true ↦ ok true
            | false ↦ any_unvisited g relationship direction fs ids
          ])
          h in
      elim (Bool-cases (any (λ n. not (contains n.node_id ids)) ns)) [
        | inl b ↦ absurd (ground (arith, b, k))
        | inr b ↦ (
          (λ ms f.
              subst (λ l. AllVisited l ids) (ok-injective (sym e ∙ f)) (none-unvisited ns ids b)),
          any_unvisited-Settled fs ids (rw b at k),
        )
      ]

  Settled-grows :
      {m : ℕ} {Q : String → Type 0} {w v : Walk} (i : String)
      → Adds m Q w v
      → Settled g relationship direction w.visited_ids i
      → Settled g relationship direction v.visited_ids i
  Settled-grows {w = w} {v = v} i a s ns e =
      All-map (λ n. contains n.node_id w.visited_ids ≡ true)
        (λ n. contains n.node_id v.visited_ids ≡ true) ns (λ n. Adds-contains a n.node_id) (s ns e)

  -- Each visited node is settled, or waits in a frontier.
  abbrev pub Covered : List GraphNode → Walk → Type 0
  Covered fs w =
      (i : String)
      → contains i w.visited_ids ≡ true
      → Settled g relationship direction w.visited_ids i ⊎ (contains i (node_ids fs) ≡ true)

  level-Covered :
      (m : ℕ) (fs : List GraphNode) (w v : Walk)
      → Covered fs w
      → visit_frontier g relationship direction m fs (record w { next_nodes = [] }) ≡ ok (more v)
      → Covered v.next_nodes v
  level-Covered m fs w v c h i k =
      let a : Adds m (λ j. Unit {0}) (record w { next_nodes = [] }) v =
        visit_frontier-Adds g relationship direction m (λ j. Unit {0}) fs
          (record w { next_nodes = [] }) (more v) (anything-Leads g relationship direction fs) h in
      elim (Adds-next a i k) [
        | inr b ↦ inr b
        | inl b ↦ elim (c i b) [
          | inl s ↦ inl (Settled-grows i a s)
          | inr f ↦ inl (
              All-contains (Settled g relationship direction v.visited_ids) fs i
                (visit_frontier-more g relationship direction m fs (record w { next_nodes = [] }) v
                  h)
                f)
        ]
      ]

  -- A search that was not cut off leaves every visited node settled.
  pub search-Settled :
      (m left : ℕ) (fs : List GraphNode) (w v : Walk) (depth d : ℕ)
      → Covered fs w
      → search g relationship direction m left fs w depth ≡ ok (v, d, false)
      → (i : String) → contains i v.visited_ids ≡ true
      → Settled g relationship direction v.visited_ids i
  unfolding search
  search-Settled m zero fs w v depth d c h =
      let (t, e, k) =
        >>=-eq-ok (any_unvisited g relationship direction fs w.visited_ids)
          (λ truncated. ok (w, depth, truncated)) h in
      let p = ok-injective k in
      let settled =
        any_unvisited-Settled fs w.visited_ids (e ∙ ap ok (ap (λ (r : Found). r.2) p)) in
      subst
        (λ u.
          (i : String)
          → contains i u.visited_ids ≡ true
          → Settled g relationship direction u.visited_ids i)
        (ap (λ (r : Found). r.0) p)
        (λ i b. elim (c i b) [
          | inl s ↦ s
          | inr f ↦ All-contains (Settled g relationship direction w.visited_ids) fs i settled f
        ])
  search-Settled m (suc left) fs w v depth d c h =
      let (r, e, k) =
        >>=-eq-ok (visit_frontier g relationship direction m fs (record w { next_nodes = [] }))
          (λ visited. elim visited [
            | full u ↦ ok (u, depth, true)
            | more u ↦ elim u.next_nodes [
              | [] ↦ ok (u, depth, false)
              | n ∷ ns ↦ search g relationship direction m left (n ∷ ns) u (depth + 1)
            ]
          ])
          h in
      elim (Visit-cases r) [
        | inr (u, q) ↦ absurd (ground (arith, q, k))
        | inl (u, q) ↦
            let covered : Covered u.next_nodes u = level-Covered m fs w u c (e ∙ ap ok q) in
            elim (List-cases u.next_nodes) [
              | inl none_left ↦
                  subst
                    (λ x.
                      (i : String)
                      → contains i x.visited_ids ≡ true
                      → Settled g relationship direction x.visited_ids i)
                    (ap (λ (x : Found). x.0) (ok-injective (rw none_left at (rw q at k))))
                    (λ i b. elim (covered i b) [
                      | inl s ↦ s
                      | inr f ↦
                          All-contains (Settled g relationship direction u.visited_ids) [] i tt
                            (subst (λ l. contains i (node_ids l) ≡ true) none_left f)
                    ])
              | inr (n, ns, some_left) ↦
                  search-Settled m left (n ∷ ns) u v (depth + 1) d
                    (subst (λ l. Covered l u) some_left covered) (rw some_left at (rw q at k))
            ]
      ]
