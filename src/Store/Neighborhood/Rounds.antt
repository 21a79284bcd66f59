-- ===== src/Store/Neighborhood/Rounds.antt =====
-- The whole of `neighborhood`: the seeds, the rounds of the search, and the graph that is returned.
pub mod Seeds
pub mod Returns
pub mod Finds
use braincrawl.Base.{
  ℕ, zero, suc, ◌+◌, ◌%◌, ◌^◌, String, Bool, true, false, Option, none, some, List, [], ◌∷◌, length,
  ltb, nat_beq, is_some, contains, filter, count, take, string_eq, str_lt, if◌then◌else◌, ◌&&◌,
  ◌==◌,
}
use braincrawl.Base.Map.{Map, get, insert, retain, entries, keys}
use braincrawl.Base.Sort.{sort_by}
use braincrawl.Types.{Alias, CanonicalId, EdgeDir, NodeKind, work, Json, obj, end}
use braincrawl.Exec.{Exec, pure, ◌>>=◌}
use braincrawl.Store.{MetadataStore}
use braincrawl.Store.Reads.{merge_assertions}
use braincrawl.Store.Neighborhood.{NeighborhoodEdge, Traversal, drain, visit}

pub record NeighborhoodNode : Type 0 where
  pub canonical_id : CanonicalId
  pub kind : NodeKind
  pub depth : ℕ
  pub in_degree : ℕ
  pub attrs : Json

pub record NeighborhoodGraph : Type 0 where
  pub nodes : List NeighborhoodNode
  pub edges : List NeighborhoodEdge
  pub truncated : Bool

-- `entry(k).or_insert(v)`
abbrev pub or_insert : String → ℕ → Map String ℕ → Map String ℕ
or_insert k v m = if is_some (get k m) then m else insert k v m

-- More seeds than nodes are allowed: the first ones in the order of their ids are kept.
unfoldable pub trim_seeds : ℕ → Map String ℕ → Map String ℕ × Bool
trim_seeds max_nodes visited =
    let kept = take max_nodes (sort_by str_lt (keys visited)) in
    if ltb max_nodes (length visited % 2 ^ 32)
    then (retain (λ k _. contains kept k) visited, true)
    else (visited, false)

-- Both ends are visited.
abbrev pub is_closed : Map String ℕ → NeighborhoodEdge → Bool
is_closed visited e = is_some (get e.src visited) && is_some (get e.dst visited)

-- By the in-degree, the largest first, then by the id.
unfoldable pub ranks_before : NeighborhoodNode → NeighborhoodNode → Bool
ranks_before a b =
    if ltb b.in_degree a.in_degree
    then true
    else if nat_beq a.in_degree b.in_degree
    then str_lt a.canonical_id b.canonical_id
    else false

abbrev pub in_degree_of : List NeighborhoodEdge → String → ℕ
in_degree_of edges id = count (λ (e : NeighborhoodEdge). e.dst == id) edges % 2 ^ 32

abbrev pub described :
    Option (NodeKind × List (String × Json × String) × List Alias) → NodeKind × Json
described none = (work, obj end)
described (some n) = (n.0, (merge_assertions n.1).0)

abbrev pub node_of :
    List NeighborhoodEdge
    → String
    → ℕ
    → Option (NodeKind × List (String × Json × String) × List Alias)
    → NeighborhoodNode
node_of edges id depth found = record {
  canonical_id = id;
  kind = (described found).0;
  depth = depth;
  in_degree = in_degree_of edges id;
  attrs = (described found).1;
}

module _ {S : Type 0} (m : MetadataStore S) where
  unfoldable pub seed_from : Option CanonicalId → Map String ℕ → Exec S (Map String ℕ)
  seed_from none visited = pure visited
  seed_from (some raw) visited = do live ← m.resolve_live raw; pure (or_insert live 0 visited)

  unfoldable pub add_seeds : List Alias → Map String ℕ → Exec S (Map String ℕ)
  unfolding seed_from
  add_seeds [] visited = pure visited
  add_seeds (alias ∷ seeds) visited = do
    found ← m.get_alias alias
    visited' ← seed_from found visited
    add_seeds seeds visited'

  module _ (fuel : ℕ) (dir : EdgeDir) (max_nodes : ℕ) where
    -- The nodes of one frontier.
    unfoldable pub expand : ℕ → List String → Traversal → Exec S Traversal
    unfolding drain visit
    expand depth [] t = pure t
    expand depth (id ∷ frontier) t = do
      t' ← drain m (visit dir depth max_nodes) fuel id dir none t
      expand depth frontier t'

    unfoldable pub rounds : ℕ → ℕ → List String → Traversal → Exec S Traversal
    unfolding expand
    rounds zero depth frontier t = pure t
    rounds (suc left) depth [] t = pure t
    rounds (suc left) depth (id ∷ frontier) t = do
      t' ← expand depth (id ∷ frontier) (record t { next_frontier = [] })
      rounds left (depth + 1) t'.next_frontier t'

  unfoldable pub read_nodes :
      List NeighborhoodEdge → List (String × ℕ) → Exec S (List NeighborhoodNode)
  read_nodes edges [] = pure []
  read_nodes edges ((id, depth) ∷ visited) = do
    found ← m.read_node id
    rest ← read_nodes edges visited
    pure (node_of edges id depth found ∷ rest)

  -- What the search has found, as a graph.
  unfoldable pub graph_of : Traversal → Exec S NeighborhoodGraph
  unfolding read_nodes ranks_before
  graph_of t =
      let closed = filter (is_closed t.visited) t.edge_list in
      (do
        nodes ← read_nodes closed (entries t.visited)
        pure (record {
          nodes = sort_by ranks_before nodes;
          edges = closed;
          truncated = t.truncated;
        }))

  unfoldable pub neighborhood : ℕ → List Alias → EdgeDir → ℕ → ℕ → Exec S NeighborhoodGraph
  unfolding add_seeds trim_seeds rounds graph_of
  neighborhood fuel seeds dir depth max_nodes = do
    seeded ← add_seeds seeds []
    let kept = trim_seeds max_nodes seeded
    t ← rounds fuel dir max_nodes depth 0 (keys kept.0) (record {
      visited = kept.0;
      discovered_edges = [];
      edge_list = [];
      next_frontier = [];
      truncated = kept.1;
    })
    graph_of t
