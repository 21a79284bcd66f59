-- ===== src/Store/Neighborhood/Examples.antt =====
-- The one citation of a small store.
use braincrawl.Base.{false, [], ◌∷◌, arith}
use braincrawl.Types.{forward}
use braincrawl.Store.Neighborhood.Rounds.Finds.{FindsGraph, neighborhood-FindsGraph}
use braincrawl.MemStore.Examples.{doi, pmid, named_twice, named_twice-IsValid, one_row}
use braincrawl.Store.Neighborhood.{Traversal}

abbrev from_b : Traversal
from_b = record {
  visited = ("b", 0) ∷ [];
  discovered_edges = [];
  edge_list = [];
  next_frontier = [];
  truncated = false;
}

neighborhood-FindsGraph_example : FindsGraph 2 (doi ∷ pmid ∷ []) forward 3 10 named_twice
neighborhood-FindsGraph_example =
    neighborhood-FindsGraph 2 (doi ∷ pmid ∷ []) forward 3 10 named_twice named_twice-IsValid
      (omega (arith, one_row)) (omega (arith, one_row)) (omega arith) (omega arith)
