-- ===== src/Store/Neighborhood/Rounds/Finds.antt =====
-- The whole of `neighborhood` over the in-memory backend: it returns, and what it returns is a
-- closed and ranked graph of no more nodes than the maximum.
use braincrawl.Base.{
  ℕ, length-map, str_lt, false, ◌≤◌, ◌<◌, ◌^◌, String, List, [], ◌∷◌, length, filter, map, is_some,
  is_some_of, string_eq, pair_eq, triple_eq, ◌≡◌, inl, inr, refl, sym, ap, subst, arith, Bool-cases,
  Elem, All,
}
use braincrawl.Base.Map.{length-entries, Map, get, entries, keys, Elem-keys}
use braincrawl.Base.Sort.{
  sort_by, length-sort_by, Elem-sort_by, All-sort_by, All-weaken, IsSorted, IsOrder,
  sort_by-IsSorted, str_lt-IsOrder,
}
use braincrawl.Types.{Alias, EdgeDir}
use braincrawl.Exec.{ok}
use braincrawl.MemStore.{MemStoreInner}
use braincrawl.MemStore.Backend.{mem_store}
use braincrawl.MemStore.Invariant.{IsValid}
use braincrawl.Store.Neighborhood.{NeighborhoodEdge}
use braincrawl.Store.Neighborhood.Rounds.{
  NeighborhoodNode, NeighborhoodGraph, trim_seeds, is_closed, ranks_before, graph_of, neighborhood,
}
use braincrawl.Store.Neighborhood.Rounds.Seeds.{length-keys_of, trim_seeds_bound}
use braincrawl.Store.Neighborhood.Rounds.Returns.{
  add_seeds-Gives, rounds-Gives, read_nodes-ReadsNodes, HasCount,
}

ranks_before-IsOrder : IsOrder ranks_before
unfolding ranks_before
ranks_before-IsOrder = record {
  asym = λ a b h. ground (arith, str_lt-IsOrder.asym a.canonical_id b.canonical_id);
  neg_trans = λ a b c h k.
      ground (arith, str_lt-IsOrder.neg_trans a.canonical_id b.canonical_id c.canonical_id);
}

abbrev pub IsNodeOf : List NeighborhoodNode → String → Type 0
IsNodeOf nodes id = (n : NeighborhoodNode) × Elem n nodes × (n.canonical_id ≡ id)

abbrev pub HasEnds : List NeighborhoodNode → NeighborhoodEdge → Type 0
HasEnds nodes e = IsNodeOf nodes e.src × IsNodeOf nodes e.dst

-- A key of the visited nodes is the id of a node.
visited-IsNodeOf :
    (id : String) (nodes : List NeighborhoodNode) (ids : List String)
    → map (λ n. n.canonical_id) nodes ≡ ids
    → Elem id ids
    → IsNodeOf (sort_by ranks_before nodes) id
visited-IsNodeOf id nodes ids same h =
    let (n, e, q) = of_map nodes (subst (Elem id) (sym same) h) in
    (n, (Elem-sort_by ranks_before n nodes).1 e, q)
  where
    of_map : (ns : List NeighborhoodNode) → Elem id (map (λ n. n.canonical_id) ns) → IsNodeOf ns id
    of_map [] e = absurd e
    of_map (n ∷ ns) (inl q) = (n, inl refl, sym q)
    of_map (n ∷ ns) (inr r) = let (k, e, q) = of_map ns r in (k, inr e, q)

-- An edge that is kept leads from node to node.
closed-HasEnds :
    (visited : Map String ℕ) (nodes : List NeighborhoodNode) (edges : List NeighborhoodEdge)
    → map (λ n. n.canonical_id) nodes ≡ keys visited
    → All (HasEnds (sort_by ranks_before nodes)) (filter (is_closed visited) edges)
closed-HasEnds visited nodes [] same = tt
closed-HasEnds visited nodes (e ∷ edges) same =
    let later = closed-HasEnds visited nodes edges same in
    elim (Bool-cases (is_some (get e.src visited))) [
      | inr f ↦ rw f later
      | inl t ↦ elim (Bool-cases (is_some (get e.dst visited))) [
        | inr g ↦ rw (t, g) later
        | inl u ↦
            let (a, src) = is_some_of (get e.src visited) t in
            let (b, dst) = is_some_of (get e.dst visited) u in
            rw (t, u)
              (
                (
                  visited-IsNodeOf e.src nodes (keys visited) same (Elem-keys e.src a visited src),
                  visited-IsNodeOf e.dst nodes (keys visited) same (Elem-keys e.dst b visited dst),
                ),
                later,
              )
      ]
    ]

-- A later node has no higher in-degree, and at the same in-degree no smaller id.
abbrev pub Follows : NeighborhoodNode → NeighborhoodNode → Type 0
Follows a b =
    (b.in_degree ≤ a.in_degree)
    × (b.in_degree ≡ a.in_degree → str_lt b.canonical_id a.canonical_id ≡ false)

abbrev pub Ranked : List NeighborhoodNode → Type 0
Ranked [] = Unit
Ranked (n ∷ nodes) = All (Follows n) nodes × Ranked nodes

IsSorted-Ranked : (nodes : List NeighborhoodNode) → IsSorted ranks_before nodes → Ranked nodes
unfolding ranks_before
IsSorted-Ranked [] h = tt
IsSorted-Ranked (n ∷ nodes) (h, hs) = (
  All-weaken (λ m. ranks_before m n ≡ false) ranks_before nodes follows h,
  IsSorted-Ranked nodes hs,
)
  where
    follows : (m : NeighborhoodNode) → ranks_before m n ≡ false → Follows n m
    follows m q = (ground arith, λ e. ground arith)

-- What `neighborhood` returns: the graph.
pub record FindsGraph (fuel : ℕ) (seeds : List Alias) (dir : EdgeDir) (depth max_nodes : ℕ)
    (s : MemStoreInner) : Type 0 where
  pub graph : NeighborhoodGraph
  pub returns : neighborhood mem_store fuel seeds dir depth max_nodes s ≡ (ok graph, s)
  pub bounded : length graph.nodes ≤ max_nodes
  pub ranked : Ranked graph.nodes
  pub counted : All (HasCount graph.edges) graph.nodes
  pub closed : All (HasEnds graph.nodes) graph.edges

-- In a valid store with fewer edges than the fuel and than 2 ^ 64, and with fewer seeds and a smaller
-- maximum than 2 ^ 32, `neighborhood` returns and leaves the store as it is: its graph has no more nodes than the maximum, ranked by the in-degree and the
-- id, with the in-degree of each counted over the edges, and the edges lead from node to node.
pub neighborhood-FindsGraph :
    (fuel : ℕ) (seeds : List Alias) (dir : EdgeDir) (depth max_nodes : ℕ) (s : MemStoreInner)
    → IsValid s
    → length s.edges < fuel
    → length s.edges < 2 ^ 64
    → length seeds < 2 ^ 32
    → max_nodes < 2 ^ 32
    → FindsGraph fuel seeds dir depth max_nodes s
unfolding neighborhood graph_of
neighborhood-FindsGraph fuel seeds dir depth max_nodes s v enough big few u32 =
    let (seeded, first, size) = add_seeds-Gives s v seeds [] in
    let kept = trim_seeds max_nodes seeded in
    let (t, second, fits) =
      rounds-Gives s fuel enough big dir max_nodes u32 depth 0 (keys kept.0)
        (record {
          visited = kept.0;
          discovered_edges = [];
          edge_list = [];
          next_frontier = [];
          truncated = kept.1;
        })
        (trim_seeds_bound max_nodes seeded (omega (arith, few, size))) in
    let edges = filter (is_closed t.visited) t.edge_list in
    let third = read_nodes-ReadsNodes s edges (entries t.visited) in
    record {
      graph = record {
        nodes = sort_by ranks_before third.nodes;
        edges = edges;
        truncated = t.truncated;
      };
      returns = rw first (rw second (rw third.returns refl));
      bounded = omega (
        arith,
        fits,
        length-sort_by ranks_before third.nodes,
        length-map (λ (n : NeighborhoodNode). n.canonical_id) third.nodes,
        ap length third.ids,
        length-keys_of (entries t.visited),
        length-entries t.visited,
      );
      ranked =
          IsSorted-Ranked (sort_by ranks_before third.nodes)
            (sort_by-IsSorted ranks_before ranks_before-IsOrder third.nodes);
      counted = All-sort_by (HasCount edges) ranks_before third.nodes third.counted;
      closed = closed-HasEnds t.visited third.nodes t.edge_list third.ids;
    }
