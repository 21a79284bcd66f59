-- ===== src/Store/Neighborhood.antt =====
-- The loop of `neighborhood` that drains the pages of one node's edges, over any function that visits
-- an edge, and the function of the source, `visit`.
pub mod Pages
pub mod Bounds
pub mod Rounds
mod Examples
use braincrawl.Base.{
  ℕ, zero, suc, ◌+◌, ◌%◌, ◌^◌, String, Bool, true, Option, none, some, List, [], ◌∷◌, ◌++◌, any,
  length, ltb, is_some, ◌==◌, string_eq, triple_eq, if◌then◌else◌,
}
use braincrawl.Base.Map.{Map, get, insert}
use braincrawl.Types.{CanonicalId, EdgeDir, forward, backward, EdgeView}
use braincrawl.Exec.{stuck, Exec, pure, ◌>>=◌}
use braincrawl.Store.{MetadataStore}

-- `NEIGHBORHOOD_EDGE_PAGE`
abbrev pub neighborhood_edge_page : ℕ
neighborhood_edge_page = 200

abbrev pub visit_all : {A : Type 0} → (A → EdgeView → A) → A → List EdgeView → A
visit_all visit acc [] = acc
visit_all visit acc (e ∷ edges) = visit_all visit (visit acc e) edges

pub record NeighborhoodEdge : Type 0 where
  pub src : CanonicalId
  pub dst : CanonicalId
  pub relation : String

-- What the traversal has found so far.
pub record Traversal : Type 0 where
  pub visited : Map String ℕ
  pub discovered_edges : List (String × String × String)
  pub edge_list : List NeighborhoodEdge
  pub next_frontier : List String
  pub truncated : Bool

-- An edge that was not discovered yet is kept.
abbrev pub discover : EdgeView → Traversal → Traversal
discover ev t =
    let key : String × String × String = (ev.src, ev.dst, ev.relation) in
    let edge : NeighborhoodEdge = record { src = ev.src; dst = ev.dst; relation = ev.relation } in
    if any (λ (k : String × String × String). k == key) t.discovered_edges then t else record t {
      discovered_edges = t.discovered_edges ++ key ∷ [];
      edge_list = t.edge_list ++ edge ∷ [];
    }

abbrev pub neighbor_of : EdgeDir → EdgeView → String
neighbor_of forward ev = ev.dst
neighbor_of backward ev = ev.src

-- A neighbour that was not visited yet is visited while there is room. The size is cast to a `u32`.
abbrev pub reach : ℕ → ℕ → String → Traversal → Traversal
reach depth max_nodes id t =
    let reached : Traversal = record t {
      visited = insert id (depth + 1) t.visited;
      next_frontier = t.next_frontier ++ id ∷ [];
    } in
    let full : Traversal = record t { truncated = true } in
    if is_some (get id t.visited)
    then t
    else if ltb (length t.visited % 2 ^ 32) max_nodes
    then reached
    else full

-- The body of the loop over the edges of a page.
unfoldable pub visit : EdgeDir → ℕ → ℕ → Traversal → EdgeView → Traversal
visit dir depth max_nodes t ev = reach depth max_nodes (neighbor_of dir ev) (discover ev t)

-- Every page but the last holds an edge, so one round more than there are edges is enough.
unfoldable pub drain :
    {S A : Type 0}
    → MetadataStore S
    → (A → EdgeView → A)
    → ℕ
    → CanonicalId
    → EdgeDir
    → Option String
    → A
    → Exec S A
drain m visit zero id dir cursor acc s = (stuck, s)
drain m visit (suc fuel) id dir cursor acc s =
    (m.read_edges id dir cursor neighborhood_edge_page >>= (λ page. elim page.1 [
      | none ↦ pure (visit_all visit acc page.0)
      | some c ↦ drain m visit fuel id dir (some c) (visit_all visit acc page.0)
    ]))
      s
