-- ===== src/MemStore/Edges.antt =====
-- `read_node` and the pages of `read_edges`.
use braincrawl.Base.{
  ℕ, ◌+◌, ◌^◌, min, String, Bool, Option, none, some, List, map, filter, length, take, drop, ◌==◌,
  string_eq, pair_eq, triple_eq, if◌then◌else◌, ◌||◌, ◌&&◌, str_lt, ltb,
}
use braincrawl.Base.Decimal.{to_decimal, parse_unsigned}
use braincrawl.Base.Text.{codes}
use braincrawl.Base.Map.{get, entries}
use braincrawl.Base.Sort.{sort_by}
use braincrawl.Types.{
  CanonicalId, Alias, NodeKind, Json, str, obj, field, end, EdgeDir, forward, backward, EdgeView,
}
use braincrawl.Exec.{ok, Exec}
use braincrawl.MemStore.{NodeAssertionRow, EdgeAssertionRow, EdgeAssertions, EdgeKey, MemStoreInner}

abbrev pub assertion_of : (String × String) × NodeAssertionRow → String × Json × String
assertion_of e = ((e.0).1, (e.1).attrs, (e.1).fetched_at)

abbrev pub alias_of : (String × String) × String → Alias
alias_of e = record { scheme = (e.0).0; value = (e.0).1 }

-- The rows of a live node: its assertions as (source, attrs, fetched_at), and its aliases.
unfoldable pub node_rows : CanonicalId → MemStoreInner → List (String × Json × String) × List Alias
node_rows id s = (
  map assertion_of (filter (λ e. (e.0).0 == id) (entries s.node_assertions)),
  map alias_of (filter (λ e. e.1 == id) (entries s.aliases)),
)

unfoldable pub read_node :
    CanonicalId
    → Exec MemStoreInner (Option (NodeKind × List (String × Json × String) × List Alias))
unfolding node_rows
read_node id s = elim (get id s.nodes) [
  | none ↦ (ok none, s)
  | some row ↦ elim row.merged_into [
    | some target ↦ (ok none, s)
    | none ↦
        let (assertions, aliases) = node_rows id s in (ok (some (row.kind, assertions, aliases)), s)
  ]
]

abbrev pub EdgeRow : Type 0
EdgeRow = EdgeKey × EdgeAssertions

abbrev pub touches : EdgeDir → CanonicalId → EdgeRow → Bool
touches forward id e = (e.0).0 == id
touches backward id e = (e.0).1 == id

abbrev pub other_end : EdgeDir → EdgeRow → String
other_end forward e = (e.0).1
other_end backward e = (e.0).0

-- Ascending other end, then ascending relation.
unfoldable pub edge_order : EdgeDir → EdgeRow → EdgeRow → Bool
edge_order dir a b =
    str_lt (other_end dir a) (other_end dir b)
    || ((other_end dir a == other_end dir b) && str_lt (a.0).2 (b.0).2)

unfoldable pub matching : EdgeDir → CanonicalId → MemStoreInner → List EdgeRow
unfolding edge_order
matching dir id s = sort_by (edge_order dir) (filter (touches dir id) (entries s.edges))

unfoldable pub by_source : String × EdgeAssertionRow → String × EdgeAssertionRow → Bool
by_source a b = str_lt a.0 b.0

-- The object of one assertion: `attrs` is left out where there is none. A `serde_json::Map` lists
-- its keys in order.
unfoldable pub assertion_json : String × EdgeAssertionRow → Json
assertion_json (source, row) = elim row.attrs [
  | none ↦ obj (field "fetched_at" (str row.fetched_at) (field "source" (str source) end))
  | some a ↦
      obj (
        field "attrs" a (field "fetched_at" (str row.fetched_at) (field "source" (str source) end)))
]

unfoldable pub edge_view : EdgeRow → EdgeView
unfolding by_source assertion_json
edge_view (key, assertions) = record {
  src = key.0;
  dst = key.1;
  relation = key.2;
  assertions = map assertion_json (sort_by by_source (entries assertions));
}

-- `cursor.and_then(|c| c.parse().ok()).unwrap_or(0)`
unfoldable pub offset_of : Option String → ℕ
unfolding parse_unsigned
offset_of none = 0
offset_of (some c) = elim (parse_unsigned (2 ^ 64) (codes c)) [ none ↦ 0 | some n ↦ n ]

-- The page at an offset, and the cursor of the next one. `offset + limit` is the sum of two `usize`,
-- which does not wrap: a page follows only where the table holds more rows than that.
unfoldable pub page_at : {A : Type 0} → ℕ → ℕ → List A → List A × Option String
unfolding to_decimal
page_at offset limit rows =
    let page = drop (min offset (length rows)) rows in
    let next = if ltb limit (length page) then some (to_decimal (offset + limit)) else none in
    (take (min (length page) limit) page, next)

unfoldable pub read_edges :
    CanonicalId → EdgeDir → Option String → ℕ → Exec MemStoreInner (List EdgeView × Option String)
unfolding matching offset_of page_at edge_view
read_edges id dir cursor limit s =
    let (page, next) = page_at (offset_of cursor) limit (matching dir id s) in
    (ok (map edge_view page, next), s)
