-- ===== src/MemStore/Merge.antt =====
-- `merge`: everything of the loser goes to the survivor, and a redirect remains.
pub mod Keeps
pub mod Sources
pub mod Rows
pub mod Newest
use braincrawl.Base.{
  String, Bool, true, false, Option, none, some, List, [], ◌∷◌, ◌++◌, map, filter, any, ◌==◌,
  string_eq, pair_eq, triple_eq, if◌then◌else◌, ◌||◌, str_lt,
}
use braincrawl.Base.Map.{Map, get, insert, map_values, keys, entries}
use braincrawl.Types.{CanonicalId, Artifact}
use braincrawl.Exec.{ok, Exec}
use braincrawl.MemStore.{
  NodeAssertionRow, EdgeAssertionRow, EdgeAssertions, EdgeKey, MemStoreInner, or_default, redirect,
}
use braincrawl.MemStore.Repoint.{move_all}

-- Of two assertions of one source, the one fetched later; on a tie, the one that is there.
unfoldable pub newer : Option NodeAssertionRow → NodeAssertionRow → NodeAssertionRow
newer none row = row
newer (some existing) row = if str_lt existing.fetched_at row.fetched_at then row else existing

unfoldable pub newer_edge : Option EdgeAssertionRow → EdgeAssertionRow → EdgeAssertionRow
newer_edge none row = row
newer_edge (some existing) row = if str_lt existing.fetched_at row.fetched_at then row else existing

unfoldable pub add_assertions : EdgeAssertions → List (String × EdgeAssertionRow) → EdgeAssertions
unfolding newer_edge
add_assertions target [] = target
add_assertions target ((source, row) ∷ rest) =
    add_assertions (insert source (newer_edge (get source target) row) target) rest

unfoldable pub fold_edges : Option EdgeAssertions → EdgeAssertions → EdgeAssertions
unfolding add_assertions
fold_edges old rows = add_assertions (or_default old) (entries rows)

abbrev pub demote : List Artifact → List Artifact
demote rows = map (λ (d : Artifact). record d { is_current = false }) rows

abbrev pub has_current : List Artifact → Bool
has_current rows = any (λ d. d.is_current) rows

unfoldable pub fold_artifacts : Option (List Artifact) → List Artifact → List Artifact
fold_artifacts old rows =
    or_default old ++ (if has_current (or_default old) then demote rows else rows)

abbrev pub repointed : String → String → String → String
repointed survivor loser id = if id == loser then survivor else id

abbrev pub to_survivor : String → String × String → String × String
to_survivor survivor k = (survivor, k.1)

abbrev pub repoint_edge : String → String → EdgeKey → EdgeKey
repoint_edge survivor loser k = (repointed survivor loser k.0, repointed survivor loser k.1, k.2)

-- One of the two ends of the edge.
abbrev pub ends_in : String → EdgeKey → Bool
ends_in id k = (k.0 == id) || (k.1 == id)

unfoldable pub merge_assertion_rows :
    String
    → String
    → Map (String × String) NodeAssertionRow
    → Map (String × String) NodeAssertionRow
unfolding move_all newer
merge_assertion_rows survivor loser m =
    move_all (to_survivor survivor) newer (filter (λ k. k.0 == loser) (keys m)) m

unfoldable pub merge_edges :
    String → String → Map EdgeKey EdgeAssertions → Map EdgeKey EdgeAssertions
unfolding move_all fold_edges
merge_edges survivor loser m =
    move_all (repoint_edge survivor loser) fold_edges (filter (ends_in loser) (keys m)) m

unfoldable pub merge_artifacts :
    String → String → Map (String × String) (List Artifact) → Map (String × String) (List Artifact)
unfolding move_all fold_artifacts
merge_artifacts survivor loser m =
    move_all (to_survivor survivor) fold_artifacts (filter (λ k. k.0 == loser) (keys m)) m

unfoldable pub merge : CanonicalId → CanonicalId → Exec MemStoreInner Unit
merge survivor loser s = (
  ok tt,
  record {
    nodes = redirect loser survivor s.nodes;
    aliases = map_values (repointed survivor loser) s.aliases;
    node_assertions = merge_assertion_rows survivor loser s.node_assertions;
    edges = merge_edges survivor loser s.edges;
    artifacts = merge_artifacts survivor loser s.artifacts;
  },
)
