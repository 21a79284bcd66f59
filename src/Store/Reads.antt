-- ===== src/Store/Reads.antt =====
-- `get_work`, and `merge_assertions`, which makes one view of what the sources assert.
pub mod Newest
mod Examples
use braincrawl.Base.{
  ℕ, String, Bool, true, false, Option, none, some, List, [], ◌∷◌, ◌==◌, string_eq, ◌||◌, ◌&&◌,
  if◌then◌else◌, is_some, str_lt,
}
use braincrawl.Base.Map.{Map, get, insert}
use braincrawl.Base.Sort.{sort_by}
use braincrawl.Types.{Alias, Json, Fields, obj, str, field, end, WorkView}
use braincrawl.Exec.{Exec, pure, ◌>>=◌}
use braincrawl.Store.{MetadataStore}

-- What one source asserts, and when it was fetched.
abbrev pub Assertion : Type 0
Assertion = String × Json × String

-- Newest first, then the smallest source.
unfoldable pub by_newest : Assertion → Assertion → Bool
by_newest a b = str_lt b.2 a.2 || ((a.2 == b.2) && str_lt a.0 b.0)

abbrev pub pairs_of : Fields → Map String Json
pairs_of end = []
pairs_of (field k v rest) = (k, v) ∷ pairs_of rest

-- `if let Value::Object(map)`: another value has no fields. A `serde_json::Map` holds a key once.
abbrev pub fields_of : Json → Map String Json
fields_of (obj fields) = pairs_of fields
fields_of _ = []

abbrev pub origin : Assertion → Json
origin a = obj (field "fetched_at" (str a.2) (field "source" (str a.0) end))

abbrev pub Views : Type 0
Views = Map String Json × Map String Json

-- The inner loop: a field that is not there yet is taken, with its provenance.
unfoldable pub take_fields : Json → List (String × Json) → Views → Views
take_fields from [] views = views
take_fields from ((k, v) ∷ rest) (attrs, provenance) = take_fields from rest (
    if is_some (get k attrs)
    then (attrs, provenance)
    else (insert k v attrs, insert k from provenance))

unfoldable pub take_all_fields : List Assertion → Views → Views
unfolding take_fields
take_all_fields [] views = views
take_all_fields (a ∷ rest) views =
    take_all_fields rest (take_fields (origin a) (fields_of a.1) views)

unfoldable pub merged_views : List Assertion → Views
unfolding by_newest take_all_fields
merged_views assertions = take_all_fields (sort_by by_newest assertions) ([], [])

abbrev pub to_fields : List (String × Json) → Fields
to_fields [] = end
to_fields ((k, v) ∷ rest) = field k v (to_fields rest)

abbrev pub by_key : String × Json → String × Json → Bool
by_key a b = str_lt a.0 b.0

-- A `serde_json::Map` lists its keys in order.
unfoldable pub object_of : Map String Json → Json
object_of m = obj (to_fields (sort_by by_key m))

unfoldable pub merge_assertions : List Assertion → Json × Json
unfolding merged_views object_of
merge_assertions assertions =
    let (attrs, provenance) = merged_views assertions in (object_of attrs, object_of provenance)

module _ {S : Type 0} (m : MetadataStore S) where
  unfoldable pub get_work : Alias → Exec S (Option WorkView)
  unfolding merge_assertions
  get_work alias = do
    found ← m.get_alias alias
    elim found [
      | none ↦ pure none
      | some raw ↦ do
        canonical ← m.resolve_live raw
        node ← m.read_node canonical
        elim node [
          | none ↦ pure none
          | some n ↦
              let (attrs, provenance) = merge_assertions n.1 in
              let view : WorkView = record {
                canonical_id = canonical;
                kind = n.0;
                attrs = attrs;
                provenance = provenance;
                aliases = n.2;
              } in
              pure (some view)
        ]
    ]
