-- ===== src/Store/Citations/Kept.antt =====
-- `put_edges` on the in-memory backend: what it leaves of the store, and that every edge is there.
use braincrawl.Base.{
  ℕ, ◌+◌, String, true, none, some, List, length, is_some, Elem, string_eq, pair_eq, triple_eq, ◌≡◌,
}
use braincrawl.Base.Map.{get}
use braincrawl.Types.{CanonicalId, EdgeInput}
use braincrawl.Exec.{ok}
use braincrawl.MemStore.{MemStoreInner, EdgeKey, alias_key}
use braincrawl.MemStore.Backend.{mem_store}
use braincrawl.MemStore.Invariant.{IsValid}
use braincrawl.Store.{Outside}
use braincrawl.Store.Citations.{put_edges_from, put_edges}

-- A new id is that of no node.
abbrev pub IsFresh : Outside MemStoreInner → Type 0
IsFresh outside = (s : MemStoreInner) → get (outside.new_guid s) s.nodes ≡ none

-- The edge is there between the nodes that its aliases name.
abbrev pub Holds : MemStoreInner → EdgeInput → Type 0
Holds s e =
    (a : CanonicalId) × (b : CanonicalId) × (get (alias_key e.src) s.aliases ≡ some a)
    × (get (alias_key e.dst) s.aliases ≡ some b)
    × (is_some (get (a, b, e.relation) s.edges) ≡ true)

-- Aliases and edges that are there stay.
pub record Keeps (s t : MemStoreInner) : Type 0 where
  pub aliases :
      (k : String × String) (g : CanonicalId) → get k s.aliases ≡ some g → get k t.aliases ≡ some g
  pub edges : (k : EdgeKey) → is_some (get k s.edges) ≡ true → is_some (get k t.edges) ≡ true

pub record Writes (outside : Outside MemStoreInner) (count : ℕ) (edges : List EdgeInput)
    (s : MemStoreInner) : Type 0 where
  pub after : MemStoreInner
  pub returns : put_edges_from mem_store outside count edges s ≡ (ok (count + length edges), after)
  pub valid : IsValid after
  pub keeps : Keeps s after
  pub holds : (e : EdgeInput) → Elem e edges → Holds after e

-- What `put_edges` returns and leaves.
pub record PutsEdges (outside : Outside MemStoreInner) (edges : List EdgeInput) (s : MemStoreInner)
    : Type 0 where
  pub after : MemStoreInner
  pub returns : put_edges mem_store outside edges s ≡ (ok (length edges), after)
  pub valid : IsValid after
  pub keeps : Keeps s after
  pub holds : (e : EdgeInput) → Elem e edges → Holds after e
