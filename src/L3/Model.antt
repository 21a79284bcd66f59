-- ===== src/L3/Model.antt =====
-- The research graph's types, crates/l3/src/model.rs. Texts are code points; a value is a string
-- or a flat map of strings, the two forms that the parser makes.
pub mod Ends
pub mod Lookups
use braincrawl.Base.{
  ℕ, zero, suc, ◌+◌, Bool, true, false, List, [], ◌∷◌, ◌++◌, Option, none, some, if◌then◌else◌,
  ◌==◌, ◌&&◌, ◌||◌, not, list_eq, nat_eq, ltb, leb, nat_beq, codes_lt,
}
use braincrawl.Base.Text.{codes}
use braincrawl.Base.Optional.{◌>>=◌}
use braincrawl.Base.Scan.{Text, split_once, strip_prefix}
use braincrawl.Base.Map.{Map, empty, get, insert}
use braincrawl.Base.Sort.{sort_by}

pub data Endpoint : Type 0 where
  node : Text → Endpoint
  catalog : Text → Text → Endpoint

unfoldable pub is_scheme : Text → Bool
is_scheme [] = true
is_scheme (c ∷ cs) =
    ((leb b'a' c && leb c b'z') || ((leb b'0' c && leb c b'9') || nat_beq c b'_')) && is_scheme cs

split_alias : Option (Text × Text) → Option (Text × Text)
unfolding is_scheme
split_alias none = none
split_alias (some (ns, [])) = none
split_alias (some (ns, c ∷ value)) = if is_scheme ns then some (ns, c ∷ value) else none

unfoldable pub parse_alias : Text → Option (Text × Text)
unfolding split_alias
parse_alias s = split_alias (split_once b':' s)

unfoldable pub resolve : Text → Endpoint
unfolding parse_alias
resolve target = elim (strip_prefix (codes "^") target) [
  | some anchor ↦ node anchor
  | none ↦ elim (parse_alias target) [
    | some a ↦ catalog a.0 a.1
    | none ↦ node (codes "doc:" ++ target)
  ]
]

unfoldable pub serialize : Endpoint → Text
serialize (node id) = codes "node:" ++ id
serialize (catalog scheme value) = scheme ++ codes ":" ++ value

unfoldable pub deserialize : Text → Endpoint
unfolding parse_alias
deserialize s = elim (strip_prefix (codes "node:") s) [
  | some rest ↦ node rest
  | none ↦ elim (parse_alias s) [ some a ↦ catalog a.0 a.1 | none ↦ catalog [] s ]
]

pub record Provenance : Type 0 where
  pub doc : Text
  pub path : Text
  pub order : ℕ
  pub heading_line : ℕ

pub data Value : Type 0 where
  str : Text → Value
  object : Map Text Text → Value

pub record Node : Type 0 where
  pub id : Option Text
  pub labels : List Text
  pub properties : Map Text Value
  pub provenance : Provenance

pub record Link : Type 0 where
  pub source : Endpoint
  pub kind : Text
  pub target : Endpoint
  pub properties : Map Text Text
  pub recorded_in : Option Text

pub record Warning : Type 0 where
  pub doc : Text
  pub path : Text
  pub line : ℕ
  pub message : Text

pub record Graph : Type 0 where
  pub nodes : List Node
  pub links : List Link
  pub by_id : Map Text ℕ
  pub by_label : Map Text (List ℕ)
  pub adjacency : Map Text (List ℕ)

-- `cmp` by document, `then` by order, is `Less`.
unfoldable pub node_lt : Node → Node → Bool
node_lt a b =
    let p = a.provenance in
    let q = b.provenance in codes_lt p.doc q.doc || (p.doc == q.doc && ltb p.order q.order)

-- `entry(k).or_default().push(i)`
unfoldable pub push_at : Text → ℕ → Map Text (List ℕ) → Map Text (List ℕ)
push_at k i m = elim (get k m) [ none ↦ insert k (i ∷ []) m | some is ↦ insert k (is ++ i ∷ []) m ]

unfoldable pub push_labels : List Text → ℕ → Map Text (List ℕ) → Map Text (List ℕ)
unfolding push_at
push_labels [] i m = m
push_labels (label ∷ labels) i m = push_labels labels i (push_at label i m)

unfoldable pub push_end : Endpoint → ℕ → Map Text (List ℕ) → Map Text (List ℕ)
unfolding push_at
push_end (node id) i m = push_at id i m
push_end (catalog scheme value) i m = m

unfoldable index_id : ℕ → Option Text → Map Text ℕ → Map Text ℕ
index_id i none m = m
index_id i (some id) m = insert id i m

unfoldable pub index_ids : ℕ → List Node → Map Text ℕ → Map Text ℕ
unfolding index_id
index_ids i [] m = m
index_ids i (n ∷ nodes) m = index_ids (suc i) nodes (index_id i n.id m)

unfoldable pub index_labels : ℕ → List Node → Map Text (List ℕ) → Map Text (List ℕ)
unfolding push_labels
index_labels i [] m = m
index_labels i (n ∷ nodes) m = index_labels (suc i) nodes (push_labels n.labels i m)

unfoldable pub index_links : ℕ → List Link → Map Text (List ℕ) → Map Text (List ℕ)
unfolding push_end
index_links i [] m = m
index_links i (l ∷ links) m =
    index_links (suc i) links (push_end l.target i (push_end l.source i m))

unfoldable pub build : List Node → List Link → Graph
unfolding node_lt index_ids index_labels index_links
build nodes links =
    let sorted = sort_by node_lt nodes in
    record {
      nodes = sorted;
      links = links;
      by_id = index_ids 0 sorted empty;
      by_label = index_labels 0 sorted empty;
      adjacency = index_links 0 links empty;
    }

-- `v[i]`, with `none` for the panic out of range.
unfoldable pub at : {A : Type 0} → ℕ → List A → Option A
at i [] = none
at zero (x ∷ xs) = some x
at (suc i) (x ∷ xs) = at i xs

-- `iter().map(|i| &v[i]).collect()`, with `none` for a panic.
unfoldable pub pick_all : {A : Type 0} → List ℕ → List A → Option (List A)
unfolding at
pick_all [] xs = some []
pick_all (i ∷ is) xs = do x ← at i xs; rest ← pick_all is xs; some (x ∷ rest)

-- The three lookups; the outer `none` is a panic.
unfoldable pub node_by_id : Graph → Text → Option (Option Node)
unfolding at
node_by_id g id = elim (get id g.by_id) [
  | none ↦ some none
  | some i ↦ do n ← at i g.nodes; some (some n)
]

unfoldable pub nodes_by_label : Graph → Text → Option (List Node)
unfolding pick_all
nodes_by_label g label = elim (get label g.by_label) [
  | none ↦ some []
  | some is ↦ pick_all is g.nodes
]

unfoldable pub links_touching : Graph → Text → Option (List Link)
unfolding pick_all
links_touching g id = elim (get id g.adjacency) [ none ↦ some [] | some is ↦ pick_all is g.links ]
