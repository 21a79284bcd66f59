-- ===== src/L3/Assign.antt =====
-- The assignment of anchors, crates/l3/src/assign.rs: to the headings of one text that have none,
-- and the substitution of temporary anchors. `none` is a run that used up its random draws, or,
-- for `append_anchors`, an index out of range, which is a panic.
pub mod Edited
pub mod Kept
pub mod Reread
use braincrawl.Base.{
  ℕ, zero, suc, ◌+◌, ◌-◌, Bool, true, false, List, [], ◌∷◌, ◌++◌, Option, none, some, if◌then◌else◌,
  ◌==◌, ◌&&◌, ◌||◌, list_eq, nat_eq, nat_beq, leb, last, contains, not, filter, codes_lt,
}
use braincrawl.Base.Text.{codes}
use braincrawl.Base.Optional.{◌>>=◌}
use braincrawl.Base.Scan.{Text, lines, join_lines, starts_with}
use braincrawl.Base.Map.{Map, get, insert, empty}
use braincrawl.Base.Sort.{sort_by}
use braincrawl.L3.Ids.{new_id}
use braincrawl.L3.Model.{Node, Link, Endpoint, node, catalog, Value, str, object, at}
use braincrawl.L3.Parse.{parse_one, parse_sources}

pub record Assigned : Type 0 where
  pub doc : Text
  pub path : Text
  pub heading_line : ℕ
  pub id : Text
  pub title : Text
  pub temp : Option Text

unfoldable pub node_ids : List Node → List Text
node_ids [] = []
node_ids (n ∷ nodes) = elim n.id [ none ↦ node_ids nodes | some id ↦ id ∷ node_ids nodes ]

unfoldable pub collect_anchors : List (Text × Text) → List Text
unfolding node_ids
collect_anchors sources = let (graph, warnings) = parse_sources sources in node_ids graph.nodes

text_of : Option Value → Text
text_of none = []
text_of (some (str s)) = s
text_of (some (object m)) = []

unfoldable pub title_of : Node → Text
unfolding text_of
title_of n = text_of (get (codes "title") n.properties)

-- The loop over the nodes, with the anchors that are taken and the random draws left.
unfoldable pub assign_nodes :
    Text
    → Text
    → List Node
    → List Text
    → List (List ℕ)
    → Option (List Assigned × List Text × List (List ℕ))
unfolding title_of
assign_nodes doc path [] existing draws = some ([], existing, draws)
assign_nodes doc path (n ∷ nodes) existing draws = elim n.id [
  | some id ↦ assign_nodes doc path nodes existing draws
  | none ↦ do
    (id, left) ← new_id existing draws
    (assigned, taken, rest) ← assign_nodes doc path nodes (id ∷ existing) left
    some (
      record {
        doc = doc;
        path = path;
        heading_line = n.provenance.heading_line;
        id = id;
        title = title_of n;
        temp = none;
      }
          ∷ assigned,
      taken,
      rest,
    )
]

-- `lines[idx]` with ` ^id` after it; `none` is the panic out of range.
unfoldable pub append_at : ℕ → Text → List Text → Option (List Text)
append_at idx id [] = none
append_at zero id (l ∷ ls) = some ((l ++ codes " ^" ++ id) ∷ ls)
append_at (suc idx) id (l ∷ ls) = do rest ← append_at idx id ls; some (l ∷ rest)

unfoldable pub append_each : List Assigned → List Text → Option (List Text)
unfolding append_at
append_each [] ls = some ls
append_each (item ∷ items) ls = do
  after ← append_at (item.heading_line - 1) item.id ls
  append_each items after

unfoldable pub ends_with_newline : Option ℕ → Bool
ends_with_newline none = false
ends_with_newline (some c) = nat_beq c 10

-- The lines joined again, with the newline at the end that the text had.
unfoldable pub rejoin : Text → List Text → Text
unfolding ends_with_newline
rejoin content ls =
    if ends_with_newline (last content) then join_lines ls ++ 10 ∷ [] else join_lines ls

unfoldable pub append_anchors : Text → List Assigned → Option Text
unfolding append_each rejoin
append_anchors content items = do ls ← append_each items (lines content); some (rejoin content ls)

unfoldable pub first_doc : List Node → Text
first_doc [] = []
first_doc (n ∷ nodes) = n.provenance.doc

unfoldable pub assign_ids_source :
    Text → List Text → List (List ℕ) → Option (Text × List Assigned × List Text × List (List ℕ))
unfolding assign_nodes append_anchors first_doc
assign_ids_source content existing draws =
    let (nodes, links, warnings) = parse_one [] (codes "unknown.l3.md") content in
    let doc = first_doc nodes in
    do
      (assigned, taken, left) ← assign_nodes doc (doc ++ codes ".l3.md") nodes existing draws
      text ← append_anchors content assigned
      some (text, assigned, taken, left)
