-- ===== src/L3/Temporary.antt =====
-- Temporary anchors `^t-…`, crates/l3/src/assign.rs: their substitution, the run over a store's
-- pages, and the references that nothing defines. A page is its path, slug and text; the files'
-- reading and writing are the caller's.
pub mod Tokens
use braincrawl.Base.{
  ℕ, Bool, true, false, List, [], ◌∷◌, ◌++◌, Option, none, some, if◌then◌else◌, ◌==◌, ◌&&◌, ◌||◌,
  list_eq, nat_eq, nat_beq, leb, contains, not, filter, codes_lt,
}
use braincrawl.Base.Text.{codes}
use braincrawl.Base.Optional.{◌>>=◌}
use braincrawl.Base.Scan.{Text, starts_with}
use braincrawl.Base.Map.{Map, get, insert, empty, entries, keys}
use braincrawl.Base.Sort.{sort_by}
use braincrawl.L3.Ids.{new_id}
use braincrawl.L3.Model.{Node, Link, Endpoint, node, catalog}
use braincrawl.L3.Parse.{parse_sources}
use braincrawl.L3.Assign.{Assigned, assign_ids_source, collect_anchors, node_ids, title_of}
use braincrawl.L3.Normalize.{dedup}

unfoldable pub is_anchor_char : ℕ → Bool
is_anchor_char c =
    ((leb b'a' c && leb c b'z') || (leb b'A' c && leb c b'Z'))
    || ((leb b'0' c && leb c b'9') || nat_beq c b'-')

unfoldable pub real_of : Map Text Text → Text → Text
real_of mapping token = elim (get token mapping) [ none ↦ token | some real ↦ real ]

-- The two loops: outside of a token, or inside with what was read of it.
unfoldable pub substitute : Map Text Text → Option Text → Text → Text
unfolding is_anchor_char real_of
substitute mapping none [] = []
substitute mapping (some token) [] = real_of mapping token
substitute mapping none (c ∷ s) =
    let inside = substitute mapping (some []) s in
    let outside = substitute mapping none s in if nat_beq c b'^' then c ∷ inside else c ∷ outside
substitute mapping (some token) (c ∷ s) =
    let longer = substitute mapping (some (token ++ c ∷ [])) s in
    let inside = substitute mapping (some []) s in
    let outside = substitute mapping none s in
    if is_anchor_char c
    then longer
    else real_of mapping token ++ (if nat_beq c b'^' then c ∷ inside else c ∷ outside)

unfoldable pub resolve_temp_ids_source : Text → Map Text Text → Text
unfolding substitute
resolve_temp_ids_source content mapping = substitute mapping none content

pub record DefinedTemp : Type 0 where
  pub doc : Text
  pub heading_line : ℕ
  pub title : Text

-- An `Err`, with the anchor and the two pages that define it.
pub data AssignError : Type 0 where
  duplicate_temporary : Text → Text → Text → AssignError

pub data AssignResult (A : Type 0) : Type 0 where
  ok : A → AssignResult A
  error : AssignError → AssignResult A

is_temp : Text → Bool
is_temp id = starts_with id (codes "t-")

unfoldable pub collect_temps :
    List Node → Map Text DefinedTemp → AssignResult (Map Text DefinedTemp)
unfolding is_temp title_of
collect_temps [] defined = ok defined
collect_temps (n ∷ nodes) defined = elim n.id [
  | none ↦ collect_temps nodes defined
  | some id ↦
      let doc = n.provenance.doc in
      let more = collect_temps nodes (
        insert id
          (record { doc = doc; heading_line = n.provenance.heading_line; title = title_of n })
          defined) in
      let skip = collect_temps nodes defined in
      if is_temp id
      then elim (get id defined) [
        | some prev ↦ error (duplicate_temporary id prev.doc doc)
        | none ↦ more
      ]
      else skip
]

unfoldable pub map_temps :
    List Text → List Text → List (List ℕ) → Option (Map Text Text × List Text × List (List ℕ))
map_temps [] existing draws = some (empty, existing, draws)
map_temps (slug ∷ slugs) existing draws = do
  (id, left) ← new_id existing draws
  (mapping, taken, rest) ← map_temps slugs (id ∷ existing) left
  some (insert slug id mapping, taken, rest)

-- The temporary anchors of one page, in the order of a `BTreeMap`.
temps_of : Text → Text → Map Text Text → List Text → Map Text DefinedTemp → List Assigned
temps_of path slug mapping [] defined = []
temps_of path slug mapping (t_slug ∷ t_slugs) defined =
    let rest = temps_of path slug mapping t_slugs defined in
    elim (get t_slug defined) [
      | none ↦ rest
      | some info ↦
          if info.doc == slug
          then record {
            doc = slug;
            path = path;
            heading_line = info.heading_line;
            id = real_of mapping t_slug;
            title = info.title;
            temp = some t_slug;
          }
            ∷ rest
          else rest
    ]

set_path : Text → List Assigned → List Assigned
set_path path [] = []
set_path path (item ∷ items) = record item { path = path } ∷ set_path path items

-- The assignments and the writes of the loop over the pages.
unfoldable pub assign_pages :
    Bool
    → Map Text Text
    → List Text
    → Map Text DefinedTemp
    → List (Text × Text × Text)
    → List Text
    → List (List ℕ)
    → Option (List Assigned × List (Text × Text))
unfolding resolve_temp_ids_source temps_of set_path
assign_pages dry_run mapping slugs defined [] existing draws = some ([], [])
assign_pages dry_run mapping slugs defined ((path, slug, content) ∷ docs) existing draws = do
  (new_content, doc_assigned, taken, left) ←
      assign_ids_source (resolve_temp_ids_source content mapping) existing draws
  (assigned, writes) ← assign_pages dry_run mapping slugs defined docs taken left
  some (
    temps_of path slug mapping slugs defined ++ set_path path doc_assigned ++ assigned,
    if dry_run || (new_content == content) then writes else (path, new_content) ∷ writes,
  )

sources_of : List (Text × Text × Text) → List (Text × Text)
sources_of [] = []
sources_of ((path, slug, content) ∷ docs) = (slug, content) ∷ sources_of docs

-- With the result, the files that the run writes.
unfoldable pub assign_ids :
    List (Text × Text × Text)
    → Bool
    → List (List ℕ)
    → Option (AssignResult (List Assigned × List (Text × Text)))
unfolding collect_temps map_temps assign_pages sources_of
assign_ids docs dry_run draws =
    let sources = sources_of docs in
    let (graph, warnings) = parse_sources sources in
    elim (collect_temps graph.nodes empty) [
      | error e ↦ some (error e)
      | ok defined ↦ do
        let slugs = sort_by codes_lt (keys defined)
        (mapping, taken, left) ← map_temps slugs (collect_anchors sources) draws
        r ← assign_pages dry_run mapping slugs defined docs taken left
        some (ok r)
    ]

temp_end : Endpoint → List Text
temp_end (catalog scheme value) = []
temp_end (node id) = if starts_with id (codes "t-") then id ∷ [] else []

unfoldable pub temp_ends : List Link → List Text
unfolding temp_end
temp_ends [] = []
temp_ends (l ∷ links) = temp_end l.source ++ temp_end l.target ++ temp_ends links

unfoldable pub dangling_temp_refs : List (Text × Text) → List Text
unfolding temp_ends dedup node_ids
dangling_temp_refs sources =
    let (graph, warnings) = parse_sources sources in
    let defined = filter (λ id. starts_with id (codes "t-")) (node_ids graph.nodes) in
    filter (λ id. not (contains defined id)) (sort_by codes_lt (dedup (temp_ends graph.links)))
