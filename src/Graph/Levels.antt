-- ===== src/Graph/Levels.antt =====
-- graph_traversal.py: what the loops over one frontier do to the visited nodes.
use mathlib.Core.Path.{subst}
use night_recon.Prelude.{
  All, All-append, Bool-cases, List, String, [], arith, bool_Eq, contains, contains-append, false,
  inl, inr, length, length-append, list_Eq, nat_Eq, option_Eq, pair_Eq, refl, string_Eq, sym, true,
  unique, unique-snoc, ℕ, ◌++◌, ◌<◌, ◌∷◌, ◌≡◌, ◌≤◌, ◌⊎◌,
}
use night_recon.Graph.Index.{GraphNode, node_ids}
use night_recon.Graph.Traversal.{Visit, Walk, admit_node, full, more}

abbrev pub walk_of : Visit → Walk
walk_of (more w) = w
walk_of (full w) = w

-- Nodes with a property were admitted one after the other, each new and within the limit.
pub data Adds (max_nodes : ℕ) (Q : String → Type 0) : Walk → Walk → Type 0 where
  none_added : {w : Walk} → Adds max_nodes Q w w
  added :
      {w v : Walk} (n : GraphNode)
      → contains n.node_id w.visited_ids ≡ false
      → length w.ordered < max_nodes
      → Q n.node_id
      → Adds max_nodes Q (admit_node n w) v
      → Adds max_nodes Q w v

pub Adds-trans :
    {m : ℕ} {Q : String → Type 0} {u v w : Walk} → Adds m Q u v → Adds m Q v w → Adds m Q u w
Adds-trans none_added b = b
Adds-trans (added n f h q a) b = added n f h q (Adds-trans a b)

-- The two records of the visited nodes agree, without repetition and within the limit.
pub record Tidy (max_nodes : ℕ) (w : Walk) : Type 0 where
  pub same_ids : w.visited_ids ≡ node_ids w.ordered
  pub no_repeats : unique w.visited_ids ≡ true
  pub within : length w.ordered ≤ max_nodes

node_ids-append :
    (xs : List GraphNode) (n : GraphNode) → node_ids (xs ++ n ∷ []) ≡ node_ids xs ++ n.node_id ∷ []
node_ids-append [] n = refl
node_ids-append (x ∷ xs) n = ground (arith, node_ids-append xs n)

pub Adds-Tidy : {m : ℕ} {Q : String → Type 0} {w v : Walk} → Adds m Q w v → Tidy m w → Tidy m v
Adds-Tidy none_added t = t
Adds-Tidy {w = w} (added n f h q a) t = Adds-Tidy a (record {
  same_ids = ground (arith, node_ids-append w.ordered n, t.same_ids);
  no_repeats = unique-snoc n.node_id w.visited_ids t.no_repeats f;
  within = omega (arith, length-append w.ordered (n ∷ []), h);
})

-- What was visited stays visited.
pub Adds-contains :
    {m : ℕ} {Q : String → Type 0} {w v : Walk}
    → Adds m Q w v
    → (i : String) → contains i w.visited_ids ≡ true
    → contains i v.visited_ids ≡ true
Adds-contains none_added i h = h
Adds-contains {w = w} (added n f l q a) i h =
    Adds-contains a i (ground (arith, h, contains-append i w.visited_ids (n.node_id ∷ [])))

-- What is visited now was visited before, or is among the nodes of the next level.
next-stays :
    {m : ℕ} {Q : String → Type 0} {w v : Walk}
    → Adds m Q w v
    → (i : String) → contains i (node_ids w.next_nodes) ≡ true
    → contains i (node_ids v.next_nodes) ≡ true
next-stays none_added i h = h
next-stays {w = w} (added n f l q a) i h = next-stays a i (
    ground (
      arith,
      h,
      node_ids-append w.next_nodes n,
      contains-append i (node_ids w.next_nodes) (n.node_id ∷ []),
    ))

pub Adds-next :
    {m : ℕ} {Q : String → Type 0} {w v : Walk}
    → Adds m Q w v
    → (i : String) → contains i v.visited_ids ≡ true
    → (contains i w.visited_ids ≡ true) ⊎ (contains i (node_ids v.next_nodes) ≡ true)
Adds-next none_added i h = inl h
Adds-next {w = w} (added n f l q a) i h = elim (Adds-next a i h) [
  | inr k ↦ inr k
  | inl k ↦ elim (Bool-cases (contains i w.visited_ids)) [
    | inl b ↦ inl b
    | inr b ↦ inr (
        next-stays a i (
          ground (
            arith,
            k,
            b,
            node_ids-append w.next_nodes n,
            contains-append i w.visited_ids (n.node_id ∷ []),
            contains-append i (node_ids w.next_nodes) (n.node_id ∷ []),
          )))
  ]
]

-- A property of the visited nodes and of those admitted holds of all.
pub Adds-visited :
    {m : ℕ} {Q : String → Type 0} {w v : Walk}
    → Adds m Q w v
    → All Q w.visited_ids
    → All Q v.visited_ids
Adds-visited none_added h = h
Adds-visited {Q = Q} {w = w} (added n f l q a) h =
    Adds-visited a (All-append Q w.visited_ids (n.node_id ∷ []) h (q, tt))

pub Adds-next_nodes :
    {m : ℕ} {Q : String → Type 0} {w v : Walk}
    → Adds m Q w v
    → All Q (node_ids w.next_nodes)
    → All Q (node_ids v.next_nodes)
Adds-next_nodes none_added h = h
Adds-next_nodes {Q = Q} {w = w} (added n f l q a) h = Adds-next_nodes a (
    subst (All Q) (sym (node_ids-append w.next_nodes n))
      (All-append Q (node_ids w.next_nodes) (n.node_id ∷ []) h (q, tt)))
