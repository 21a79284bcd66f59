-- ===== src/MemStore/Delete.antt =====
-- Deletion of a work with everything that was merged into it: `network_ids_mem`,
-- `plan_delete_work` and `delete_work_network`.
pub mod Network
pub mod Closure
pub mod Tables
pub mod Keeps
use braincrawl.Base.{
  ℕ, zero, suc, ◌+◌, String, Bool, true, false, not, Option, none, some, List, [], ◌∷◌, ◌++◌, map,
  length, count, contains, ◌&&◌, ◌||◌, string_eq, pair_eq, triple_eq, if◌then◌else◌,
}
use braincrawl.Base.Map.{Map, entries, retain}
use braincrawl.Types.{CanonicalId, Artifact, DeletePlan}
use braincrawl.Exec.{Result, ok, err, stuck, Exec}
use braincrawl.MemStore.{NodeRow, MemStoreInner}

-- One node of the inner loop: what is merged into the frontier and was not seen is pushed.
unfoldable pub scan_node :
    List String → String × NodeRow → List String × List String → List String × List String
scan_node frontier (cid, row) (seen, next) = elim row.merged_into [
  | none ↦ (seen, next)
  | some m ↦
      if contains frontier m && not (contains seen cid)
      then (seen ++ cid ∷ [], next ++ cid ∷ [])
      else (seen, next)
]

unfoldable pub scan :
    List String → List (String × NodeRow) → List String × List String → List String × List String
scan frontier [] acc = acc
scan frontier (e ∷ rest) acc = scan frontier rest (scan_node frontier e acc)

-- The outer loop, until the frontier is empty.
unfoldable pub network_from :
    ℕ → List (String × NodeRow) → List String → List String → Result (List String)
network_from zero nodes seen frontier = stuck
network_from (suc fuel) nodes seen [] = ok seen
network_from (suc fuel) nodes seen (f ∷ frontier) =
    let acc = scan (f ∷ frontier) nodes (seen, []) in network_from fuel nodes acc.0 acc.1

-- A round that goes on has seen one more node, so two rounds more than there are nodes are enough.
unfoldable pub network_ids : Map String NodeRow → String → Result (List String)
unfolding network_from
network_ids nodes root =
    network_from (suc (suc (length nodes))) (entries nodes) (root ∷ []) (root ∷ [])

-- The rows of the network in the artifact table, in the order of the table.
unfoldable pub network_rows : List String → List ((String × String) × List Artifact) → List Artifact
network_rows net [] = []
network_rows net ((key, rows) ∷ rest) =
    let later = network_rows net rest in if contains net key.0 then rows ++ later else later

abbrev pub keys_of_rows : List Artifact → List String
keys_of_rows rows = map (λ (d : Artifact). d.r2_key) rows

unfoldable pub plan_of : MemStoreInner → List String → DeletePlan
unfolding network_rows
plan_of s net = record {
  network = net;
  alias_count = count (λ (e : (String × String) × String). contains net e.1) (entries s.aliases);
  artifact_count = length (network_rows net (entries s.artifacts));
  edge_count = count (λ e. contains net (e.0).0 || contains net (e.0).1) (entries s.edges);
  r2_keys = keys_of_rows (network_rows net (entries s.artifacts));
}

abbrev pub planned : MemStoreInner → Result (List String) → Result DeletePlan × MemStoreInner
planned s (ok net) = (ok (plan_of s net), s)
planned s (err e) = (err e, s)
planned s stuck = (stuck, s)

unfoldable pub plan_delete_work : CanonicalId → Exec MemStoreInner DeletePlan
unfolding plan_of
plan_delete_work id s = planned s (network_ids s.nodes id)

-- The tables without the rows of the network.
unfoldable pub without_network : List String → MemStoreInner → MemStoreInner
without_network net s = record {
  nodes = retain (λ cid _. not (contains net cid)) s.nodes;
  aliases = retain (λ _ cid. not (contains net cid)) s.aliases;
  node_assertions = retain (λ k _. not (contains net k.0)) s.node_assertions;
  edges = retain (λ k _. not (contains net k.0) && not (contains net k.1)) s.edges;
  artifacts = retain (λ k _. not (contains net k.0)) s.artifacts;
}

abbrev pub deleted : MemStoreInner → Result (List String) → Result (List String) × MemStoreInner
deleted s (ok net) =
    (ok (keys_of_rows (network_rows net (entries s.artifacts))), without_network net s)
deleted s (err e) = (err e, s)
deleted s stuck = (stuck, s)

unfoldable pub delete_work_network : CanonicalId → Exec MemStoreInner (List String)
unfolding network_rows without_network
delete_work_network id s = deleted s (network_ids s.nodes id)
