-- ===== src/MemStore.antt =====
-- The in-memory backend, crates/backends/store-mem/src/lib.rs: its tables, and the operations on
-- nodes, aliases, assertions and edges. `merge`, deletion, artifacts and pages are in child modules.
pub mod Invariant
pub mod Resolve
pub mod Repoint
pub mod Merge
pub mod Artifacts
pub mod Basics
pub mod Delete
pub mod Edges
pub mod Backend
pub mod Examples
use braincrawl.Base.{
  is_some, ℕ, zero, suc, String, Bool, true, false, Option, none, some, List, [], ◌∷◌, ◌++◌,
  string_eq, pair_eq, triple_eq, length, filter,
}
use braincrawl.Base.Map.{Map, get, insert}
use braincrawl.Types.{CanonicalId, Alias, NodeKind, Artifact, Json, not_found}
use braincrawl.Exec.{Result, ok, err, stuck, Exec}

pub record NodeRow : Type 0 where
  pub kind : NodeKind
  pub created_at : String
  pub merged_into : Option CanonicalId

pub record NodeAssertionRow : Type 0 where
  pub attrs : Json
  pub fetched_at : String

pub record EdgeAssertionRow : Type 0 where
  pub attrs : Option Json
  pub fetched_at : String

abbrev pub EdgeAssertions : Type 0
EdgeAssertions = Map String EdgeAssertionRow

abbrev pub EdgeKey : Type 0
EdgeKey = String × String × String

pub record MemStoreInner : Type 0 where
  pub nodes : Map String NodeRow
  pub aliases : Map (String × String) String
  pub node_assertions : Map (String × String) NodeAssertionRow
  pub edges : Map EdgeKey EdgeAssertions
  pub artifacts : Map (String × String) (List Artifact)

abbrev pub new : MemStoreInner
new = record { nodes = []; aliases = []; node_assertions = []; edges = []; artifacts = [] }

-- `get_mut(id)`, then `merged_into = Some(target)`.
unfoldable pub redirect : String → String → Map String NodeRow → Map String NodeRow
redirect id target nodes = elim (get id nodes) [
  | none ↦ nodes
  | some row ↦ insert id (record row { merged_into = some target }) nodes
]

-- The loop of `resolve_live_sync`: the live node, and the nodes passed on the way.
unfoldable pub walk : ℕ → Map String NodeRow → String → List String → Result (String × List String)
walk zero nodes cur chain = stuck
walk (suc fuel) nodes cur chain = elim (get cur nodes) [
  | none ↦ err not_found
  | some row ↦ elim row.merged_into [
    | none ↦ ok (cur, chain)
    | some next ↦ walk fuel nodes next (chain ++ cur ∷ [])
  ]
]

-- The path compression.
unfoldable pub compress : String → List String → Map String NodeRow → Map String NodeRow
compress root [] nodes = nodes
compress root (c ∷ chain) nodes = compress root chain (redirect c root nodes)

abbrev pub compressed :
    MemStoreInner → Result (String × List String) → Result CanonicalId × MemStoreInner
compressed s (ok (root, chain)) = (ok root, record s { nodes = compress root chain s.nodes })
compressed s (err e) = (err e, s)
compressed s stuck = (stuck, s)

-- Each round leaves one more node behind, so one round more than there are nodes is enough.
unfoldable pub resolve_live : CanonicalId → Exec MemStoreInner CanonicalId
resolve_live id s = compressed s (walk (suc (length s.nodes)) s.nodes id [])

abbrev pub alias_key : Alias → String × String
alias_key a = (a.scheme, a.value)

unfoldable pub get_alias : Alias → Exec MemStoreInner (Option CanonicalId)
get_alias a s = (ok (get (alias_key a) s.aliases), s)

unfoldable pub get_or_create_alias : Alias → CanonicalId → Exec MemStoreInner CanonicalId
get_or_create_alias a candidate s = elim (get (alias_key a) s.aliases) [
  | some existing ↦ (ok existing, s)
  | none ↦ (ok candidate, record s { aliases = insert (alias_key a) candidate s.aliases })
]

unfoldable pub create_node : CanonicalId → NodeKind → String → Exec MemStoreInner Unit
create_node id kind created_at s = elim (get id s.nodes) [
  | some row ↦ (ok tt, s)
  | none ↦ (
    ok tt,
    record s {
      nodes =
          insert id (record { kind = kind; created_at = created_at; merged_into = none }) s.nodes;
    },
  )
]

unfoldable pub upsert_node_assertion :
    CanonicalId → String → Json → String → Exec MemStoreInner Unit
upsert_node_assertion id source attrs fetched_at s = (
  ok tt,
  record s {
    node_assertions =
        insert (id, source) (record { attrs = attrs; fetched_at = fetched_at }) s.node_assertions;
  },
)

-- `entry(key).or_default()`
abbrev pub or_default {ℓ} : {A : Type ℓ} → Option (List A) → List A
or_default none = []
or_default (some xs) = xs

unfoldable pub put_edge :
    CanonicalId → CanonicalId → String → String → Option Json → String → Exec MemStoreInner Unit
put_edge src dst relation source attrs fetched_at s =
    let row : EdgeAssertionRow = record { attrs = attrs; fetched_at = fetched_at } in
    let assertions = insert source row (or_default (get (src, dst, relation) s.edges)) in
    (ok tt, record s { edges = insert (src, dst, relation) assertions s.edges })

unfoldable pub present_aliases : List Alias → Exec MemStoreInner (List Alias)
present_aliases wanted s = (ok (filter (λ a. is_some (get (alias_key a) s.aliases)) wanted), s)
