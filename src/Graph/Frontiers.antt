-- ===== src/Graph/Frontiers.antt =====
-- graph_traversal.py: the loops over one frontier find each neighbor and nothing else.
use mathlib.Core.Path.{subst}
use night_recon.Prelude.{
  >>=-eq-ok, All, All-map, Bool-cases, List, String, [], arith, bool_Eq, contains,
  contains-snoc_self, inl, inr, leb, length, list_Eq, nat_Eq, ok, ok-injective, option_Eq, pair_Eq,
  refl, string_Eq, sym, true, ℕ, ◌∙◌, ◌∷◌, ◌≡◌, ◌⊎◌,
}
use night_recon.Graph.Index.{GraphNode, IdentityGraph, neighbors}
use night_recon.Graph.Traversal.{Visit, Walk, full, more, visit, visit_frontier, visit_neighbors}
use night_recon.Graph.Levels.{Adds, Adds-contains, Adds-trans, added, none_added, walk_of}

pub Visit-cases : (r : Visit) → ((v : Walk) × (r ≡ more v)) ⊎ ((v : Walk) × (r ≡ full v))
Visit-cases (more v) = inl (v, refl)
Visit-cases (full v) = inr (v, refl)

-- Each node of a list is among the visited.
abbrev pub AllVisited : List GraphNode → List String → Type 0
AllVisited ns ids = All (λ n. contains n.node_id ids ≡ true) ns

visit-Adds :
    (m : ℕ) (Q : String → Type 0) (n : GraphNode) (w : Walk)
    → Q n.node_id
    → Adds m Q w (walk_of (visit m n w))
unfolding visit
visit-Adds m Q n w q = elim (Bool-cases (contains n.node_id w.visited_ids)) [
  | inl b ↦ rw b none_added
  | inr b ↦ elim (Bool-cases (leb m (length w.ordered))) [
    | inl c ↦ rw b (rw c none_added)
    | inr c ↦ rw b (rw c (added n b (ground (arith, c)) q none_added))
  ]
]

visit-more :
    (m : ℕ) (n : GraphNode) (w v : Walk)
    → visit m n w ≡ more v
    → contains n.node_id v.visited_ids ≡ true
unfolding visit
visit-more m n w v h = elim (Bool-cases (contains n.node_id w.visited_ids)) [
  | inl b ↦ ground (arith, b, h)
  | inr b ↦ elim (Bool-cases (leb m (length w.ordered))) [
    | inl c ↦ absurd (ground (arith, b, c, h))
    | inr c ↦ ground (arith, b, c, h, contains-snoc_self n.node_id w.visited_ids)
  ]
]

neighbor-more :
    (m : ℕ) (n : GraphNode) (ns : List GraphNode) (w v : Walk)
    → visit m n w ≡ more v
    → visit_neighbors m (n ∷ ns) w ≡ visit_neighbors m ns v
unfolding visit_neighbors
neighbor-more m n ns w v h = ground (arith, h)

neighbor-full :
    (m : ℕ) (n : GraphNode) (ns : List GraphNode) (w v : Walk)
    → visit m n w ≡ full v
    → visit_neighbors m (n ∷ ns) w ≡ full v
unfolding visit_neighbors
neighbor-full m n ns w v h = ground (arith, h)

-- what a loop admitted, from the outcome it is known to have
pub of_outcome :
    {m : ℕ} {Q : String → Type 0} {w : Walk} {r s : Visit}
    → r ≡ s
    → Adds m Q w (walk_of r)
    → Adds m Q w (walk_of s)
of_outcome {m} {Q} {w} e a = subst (λ r. Adds m Q w (walk_of r)) e a

visit_neighbors-Adds :
    (m : ℕ) (Q : String → Type 0) (ns : List GraphNode) (w : Walk)
    → All (λ n. Q n.node_id) ns
    → Adds m Q w (walk_of (visit_neighbors m ns w))
unfolding visit_neighbors
visit_neighbors-Adds m Q [] w q = none_added
visit_neighbors-Adds m Q (n ∷ ns) w q = elim (Visit-cases (visit m n w)) [
  | inl (v, e) ↦
      of_outcome (sym (neighbor-more m n ns w v e))
        (Adds-trans (of_outcome e (visit-Adds m Q n w q.0)) (visit_neighbors-Adds m Q ns v q.1))
  | inr (v, e) ↦
      of_outcome (sym (neighbor-full m n ns w v e)) (of_outcome e (visit-Adds m Q n w q.0))
]

anything-All : (ns : List GraphNode) → All (λ n. Unit {0}) ns
anything-All [] = tt
anything-All (n ∷ ns) = (tt, anything-All ns)

visit_neighbors-more :
    (m : ℕ) (ns : List GraphNode) (w v : Walk)
    → visit_neighbors m ns w ≡ more v
    → AllVisited ns v.visited_ids
unfolding visit_neighbors
visit_neighbors-more m [] w v h = tt
visit_neighbors-more m (n ∷ ns) w v h = elim (Visit-cases (visit m n w)) [
  | inr (u, e) ↦ absurd (ground (arith, neighbor-full m n ns w u e, h))
  | inl (u, e) ↦
      let k : visit_neighbors m ns u ≡ more v = sym (neighbor-more m n ns w u e) ∙ h in
      let a : Adds m (λ i. Unit {0}) u v =
        of_outcome k (visit_neighbors-Adds m (λ i. Unit {0}) ns u (anything-All ns)) in
      (Adds-contains a n.node_id (visit-more m n w u e), visit_neighbors-more m ns u v k)
]

module _ (g : IdentityGraph) (relationship direction : String) where
  -- The neighbors of a node have a property, or are all visited.
  abbrev pub Leads : (String → Type 0) → String → Type 0
  Leads Q i =
      (ns : List GraphNode)
      → neighbors g i relationship direction ≡ ok ns
      → All (λ n. Q n.node_id) ns

  abbrev pub Settled : List String → String → Type 0
  Settled ids i =
      (ns : List GraphNode) → neighbors g i relationship direction ≡ ok ns → AllVisited ns ids

  pub visit_frontier-Adds :
      (m : ℕ) (Q : String → Type 0) (fs : List GraphNode) (w : Walk) (r : Visit)
      → All (λ c. Leads Q c.node_id) fs
      → visit_frontier g relationship direction m fs w ≡ ok r
      → Adds m Q w (walk_of r)
  unfolding visit_frontier
  visit_frontier-Adds m Q [] w r q h = of_outcome (ok-injective h) none_added
  visit_frontier-Adds m Q (c ∷ fs) w r (q, qs) h =
      let (ns, e, k) =
        >>=-eq-ok (neighbors g c.node_id relationship direction)
          (λ found. elim (visit_neighbors m found w) [
            | more v ↦ visit_frontier g relationship direction m fs v
            | full v ↦ ok (full v)
          ])
          h in
      let a = visit_neighbors-Adds m Q ns w (q ns e) in
      elim (Visit-cases (visit_neighbors m ns w)) [
        | inl (v, d) ↦ Adds-trans (of_outcome d a) (visit_frontier-Adds m Q fs v r qs (rw d at k))
        | inr (v, d) ↦ of_outcome (d ∙ ok-injective (rw d at k)) a
      ]

  pub anything-Leads : (cs : List GraphNode) → All (λ c. Leads (λ i. Unit {0}) c.node_id) cs
  anything-Leads [] = tt
  anything-Leads (c ∷ cs) = ((λ ns e. anything-All ns), anything-Leads cs)

  pub visit_frontier-more :
      (m : ℕ) (fs : List GraphNode) (w v : Walk)
      → visit_frontier g relationship direction m fs w ≡ ok (more v)
      → All (λ c. Settled v.visited_ids c.node_id) fs
  unfolding visit_frontier
  visit_frontier-more m [] w v h = tt
  visit_frontier-more m (c ∷ fs) w v h =
      let (ns, e, k) =
        >>=-eq-ok (neighbors g c.node_id relationship direction)
          (λ found. elim (visit_neighbors m found w) [
            | more u ↦ visit_frontier g relationship direction m fs u
            | full u ↦ ok (full u)
          ])
          h in
      elim (Visit-cases (visit_neighbors m ns w)) [
        | inr (u, d) ↦ absurd (ground (arith, d, k))
        | inl (u, d) ↦
            let rest : visit_frontier g relationship direction m fs u ≡ ok (more v) = rw d at k in
            let a : Adds m (λ i. Unit {0}) u v =
              visit_frontier-Adds m (λ i. Unit {0}) fs u (more v) (anything-Leads fs) rest in
            (
              (λ ms f.
                  All-map (λ n. contains n.node_id u.visited_ids ≡ true)
                    (λ n. contains n.node_id v.visited_ids ≡ true) ms
                    (λ n. Adds-contains a n.node_id)
                    (subst (λ l. AllVisited l u.visited_ids) (ok-injective (sym e ∙ f))
                      (visit_neighbors-more m ns w u d))),
              visit_frontier-more m fs u v rest,
            )
      ]
