-- ===== src/Graph/Index.antt =====
-- packages/red-engine/nightrecon_red_engine/graph_models.py and graph_index.py.
use night_recon.Prelude.{
  Bool, List, Option, Result, String, [], bool_Eq, contains, find, if◌then◌else◌, list_Eq, lower,
  map, nat_Eq, ok, option_Eq, pair_Eq, require, select, string_Eq, strip, ◌&&◌, ◌++◌, ◌==◌, ◌>>◌,
  ◌||◌, ◌∷◌,
}

pub data GraphNodeKind : Type 0 where
  asset : GraphNodeKind
  service : GraphNodeKind
  identity : GraphNodeKind
  group : GraphNodeKind
  permission : GraphNodeKind
  vulnerability : GraphNodeKind
  critical_asset : GraphNodeKind
  assessment_finding : GraphNodeKind

pub data GraphEvidenceState : Type 0 where
  observed : GraphEvidenceState
  inferred : GraphEvidenceState

pub record GraphProvenance : Type 0 where
  pub source_type : String
  pub source_id : String
  pub observed_at : String

pub record GraphNode : Type 0 where
  pub node_id : String
  pub kind : GraphNodeKind
  pub natural_key : String
  pub label : String
  pub provenance : List GraphProvenance
  pub properties : List (String × String)

pub record GraphEdge : Type 0 where
  pub edge_id : String
  pub source_node_id : String
  pub target_node_id : String
  pub relationship : String
  pub evidence_state : GraphEvidenceState
  pub provenance : List GraphProvenance
  pub properties : List (String × String)

pub record IdentityGraph : Type 0 where
  pub nodes : List GraphNode
  pub edges : List GraphEdge

pub data GraphError : Type 0 where
  bad_direction : GraphError
  start_missing : GraphError
  target_missing : GraphError
  bad_limits : GraphError

-- the identifiers of some nodes
abbrev pub node_ids : List GraphNode → List String
node_ids ns = map (λ n. n.node_id) ns

module _ (g : IdentityGraph) where
  unfoldable pub node : String → Option GraphNode
  node id = find (λ n. n.node_id == id) g.nodes

  -- `not relation or edge.relationship == relation`
  unfoldable pub is_related : String → GraphEdge → Bool
  is_related relation e = relation == "" || e.relationship == relation

  unfoldable pub outgoing_edges : String → String → List GraphEdge
  outgoing_edges id relationship =
      select (λ e. e.source_node_id == id && is_related (lower (strip relationship)) e) g.edges

  unfoldable pub incoming_edges : String → String → List GraphEdge
  incoming_edges id relationship =
      select (λ e. e.target_node_id == id && is_related (lower (strip relationship)) e) g.edges

  unfoldable pub neighbors : String → String → String → Result GraphError (List GraphNode)
  neighbors id relationship direction = do
    require (contains direction ("outgoing" ∷ "incoming" ∷ "both" ∷ [])) bad_direction
    let targets = map (λ e. e.target_node_id) (outgoing_edges id relationship)
    let sources = map (λ e. e.source_node_id) (incoming_edges id relationship)
    let forward = if direction == "outgoing" || direction == "both" then targets else []
    let backward = if direction == "incoming" || direction == "both" then sources else []
    ok (select (λ n. contains n.node_id (forward ++ backward)) g.nodes)
