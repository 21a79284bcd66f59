-- ===== src/Store/Neighborhood/Rounds/Returns.antt =====
-- The parts of `neighborhood` over the in-memory backend: each ends without a failure and leaves the
-- store as it is.
use braincrawl.Base.{
  ℕ, count, if◌then◌else◌, ◌==◌, ◌%◌, zero, suc, ◌+◌, ◌≤◌, ◌<◌, ◌^◌, String, Bool, none, some, List,
  [], ◌∷◌, length, filter, map, is_some, string_eq, pair_eq, triple_eq, ◌≡◌, inl, inr, refl, ap,
  arith, Bool-cases, Option-cases, All,
}
use braincrawl.Base.Map.{length-entries, Map, get, entries, keys_of}
use braincrawl.Base.Sort.{length-sort_by}
use braincrawl.Types.{Alias, CanonicalId, EdgeDir}
use braincrawl.Exec.{ok, Exec}
use braincrawl.MemStore.{MemStoreInner, get_alias, alias_key}
use braincrawl.MemStore.Backend.{mem_store}
use braincrawl.MemStore.Edges.{matching, touches, edge_order, edge_view, node_rows, read_node}
use braincrawl.MemStore.Invariant.{IsValid}
use braincrawl.MemStore.Resolve.{resolve_live-live}
use braincrawl.Store.Neighborhood.{NeighborhoodEdge, Traversal, visit, visit_all}
use braincrawl.Store.Neighborhood.Bounds.{length-insert, visit_all_bound}
use braincrawl.Store.Neighborhood.Pages.{drain_lem}
use braincrawl.Store.Neighborhood.Rounds.{
  NeighborhoodNode, or_insert, in_degree_of, node_of, seed_from, add_seeds, expand, rounds,
  read_nodes,
}

length-filter : {A : Type 0} (p : A → Bool) (xs : List A) → length (filter p xs) ≤ length xs
length-filter p [] = omega arith
length-filter p (x ∷ xs) = ground (arith, length-filter p xs)

length-matching :
    (dir : EdgeDir) (id : CanonicalId) (s : MemStoreInner)
    → length (matching dir id s) ≤ length s.edges
unfolding matching
length-matching dir id s =
    let rows = filter (touches dir id) (entries s.edges) in
    omega (
      arith,
      length-sort_by (edge_order dir) rows,
      length-filter (touches dir id) (entries s.edges),
      length-entries s.edges,
    )

or_insert_bound : (k : String) (m : Map String ℕ) → length (or_insert k 0 m) ≤ length m + 1
or_insert_bound k m = elim (Bool-cases (is_some (get k m))) [
  | inl t ↦ rw t (omega arith)
  | inr f ↦ rw f (length-insert k 0 m)
]

module _ (s : MemStoreInner) where
  -- A method that ends without a failure and leaves the store as it is.
  abbrev pub Gives : {A : Type 0} → Exec MemStoreInner A → (A → Type 0) → Type 0
  Gives {A} run P = (a : A) × (run s ≡ (ok a, s)) × P a

  pub add_seeds-Gives :
      IsValid s
      → (seeds : List Alias) (visited : Map String ℕ)
      → Gives
          (add_seeds mem_store seeds visited)
          (λ (out : Map String ℕ). length out ≤ length visited + length seeds)
  unfolding add_seeds seed_from get_alias
  add_seeds-Gives v [] visited = (visited, refl, omega arith)
  add_seeds-Gives v (alias ∷ seeds) visited =
      elim (Option-cases (get (alias_key alias) s.aliases)) [
        | inl gone ↦
            let (out, returns, few) = add_seeds-Gives v seeds visited in
            (out, rw gone returns, omega (arith, few))
        | inr (g, found) ↦
            let one = resolve_live-live s g (v.owners.aliases (alias_key alias) g found) in
            let (out, returns, few) = add_seeds-Gives v seeds (or_insert g 0 visited) in
            (out, rw found (rw one returns), omega (arith, few, or_insert_bound g visited))
      ]

  module _ (fuel : ℕ) (enough : length s.edges < fuel) (big : length s.edges < 2 ^ 64)
      (dir : EdgeDir) (max_nodes : ℕ) (u32 : max_nodes < 2 ^ 32) where
    abbrev pub Fits : Traversal → Type 0
    Fits t = length t.visited ≤ max_nodes

    pub expand-Gives :
        (depth : ℕ) (frontier : List String) (t : Traversal)
        → Fits t
        → Gives (expand mem_store fuel dir max_nodes depth frontier t) Fits
    unfolding expand
    expand-Gives depth [] t h = (t, refl, h)
    expand-Gives depth (id ∷ frontier) t h =
        let edges = map edge_view (matching dir id s) in
        let t' = visit_all (visit dir depth max_nodes) t edges in
        let one =
          drain_lem (visit dir depth max_nodes) id dir s fuel t
            (omega (arith, length-matching dir id s)) (omega (arith, length-matching dir id s)) in
        let (out, returns, fits) =
          expand-Gives depth frontier t' (visit_all_bound dir depth max_nodes edges t u32 h) in
        (out, rw one returns, fits)

    pub rounds-Gives :
        (left depth : ℕ) (frontier : List String) (t : Traversal)
        → Fits t
        → Gives (rounds mem_store fuel dir max_nodes left depth frontier t) Fits
    unfolding rounds
    rounds-Gives zero depth frontier t h = (t, refl, h)
    rounds-Gives (suc left) depth [] t h = (t, refl, h)
    rounds-Gives (suc left) depth (id ∷ frontier) t h =
        let (t', one, fits) =
          expand-Gives depth (id ∷ frontier) (record t { next_frontier = [] }) h in
        let (out, returns, fits') = rounds-Gives left (depth + 1) t'.next_frontier t' fits in
        (out, rw one returns, fits')

-- The edges that end in a node.
abbrev pub incoming : List NeighborhoodEdge → String → ℕ
incoming [] id = 0
incoming (e ∷ edges) id = let rest = incoming edges id in if e.dst == id then suc rest else rest

incoming-in_degree_of :
    (edges : List NeighborhoodEdge) (id : String)
    → in_degree_of edges id ≡ incoming edges id % 2 ^ 32
incoming-in_degree_of edges id = ap (λ n. n % 2 ^ 32) (same edges)
  where
    same :
        (es : List NeighborhoodEdge)
        → count (λ (e : NeighborhoodEdge). e.dst == id) es ≡ incoming es id
    same [] = refl
    same (e ∷ es) = elim (Bool-cases (e.dst == id)) [
      | inl t ↦ rw t (ap suc (same es))
      | inr f ↦ rw f (same es)
    ]

abbrev pub HasCount : List NeighborhoodEdge → NeighborhoodNode → Type 0
HasCount edges n = n.in_degree ≡ incoming edges n.canonical_id % 2 ^ 32

read_node-returns :
    (id : CanonicalId) (s : MemStoreInner) → (found : _) × (read_node id s ≡ (ok found, s))
unfolding read_node
read_node-returns id s = elim (Option-cases (get id s.nodes)) [
  | inl gone ↦ (none, rw (read_node, gone) refl)
  | inr (row, found) ↦ elim (Option-cases row.merged_into) [
    | inl live ↦
        (some (row.kind, (node_rows id s).0, (node_rows id s).1), rw (read_node, found, live) refl)
    | inr (target, merged) ↦ (none, rw (read_node, found, merged) refl)
  ]
]

-- The nodes that are read are those that were visited, in their order.
pub record ReadsNodes (s : MemStoreInner) (edges : List NeighborhoodEdge)
    (visited : List (String × ℕ)) : Type 0 where
  pub nodes : List NeighborhoodNode
  pub returns : read_nodes mem_store edges visited s ≡ (ok nodes, s)
  pub ids : map (λ n. n.canonical_id) nodes ≡ keys_of visited
  pub counted : All (HasCount edges) nodes

pub read_nodes-ReadsNodes :
    (s : MemStoreInner) (edges : List NeighborhoodEdge) (visited : List (String × ℕ))
    → ReadsNodes s edges visited
unfolding read_nodes
read_nodes-ReadsNodes s edges [] = record { nodes = []; returns = refl; ids = refl; counted = tt }
read_nodes-ReadsNodes s edges ((id, depth) ∷ visited) =
    let rest = read_nodes-ReadsNodes s edges visited in
    let (found, one) = read_node-returns id s in
    record {
      nodes = node_of edges id depth found ∷ rest.nodes;
      returns = rw one (rw rest.returns refl);
      ids = ap (λ l. id ∷ l) rest.ids;
      counted = (incoming-in_degree_of edges id, rest.counted);
    }
