-- ===== src/L3/Parse.antt =====
-- The block grammar of a page, crates/l3/src/parse.rs: `parse_body` line by line, `parse_one`, and
-- `parse_sources` over pages held in memory. `parse` and `parse_file` read the same from files.
pub mod Headings
use braincrawl.Base.{
  ℕ, suc, ◌+◌, Bool, true, false, List, [], ◌∷◌, ◌++◌, map, Option, none, some, if◌then◌else◌, ◌==◌,
  list_eq, nat_eq, length, codes_lt,
}
use braincrawl.Base.Text.{codes}
use braincrawl.Base.Scan.{
  Text, trim, trim_start, strip_prefix, lines, is_whitespace, contains_text, split_whitespace,
  trim_char,
}
use braincrawl.Base.Map.{Map, empty, insert}
use braincrawl.Base.Sort.{sort_by}
use braincrawl.L3.Front.{split_frontmatter, fm_get}
use braincrawl.L3.Model.{
  Endpoint, node, resolve, Value, str, Node, Link, Warning, Graph, build, Provenance,
}
use braincrawl.L3.Bullets.{
  split_anchor, try_explicit_link, try_implicit_link, split_bullet_key, link_properties,
  parse_value,
}

pub record OpenNode : Type 0 where
  pub id : Option Text
  pub title : Text
  pub labels : List Text
  pub properties : Map Text Value
  pub heading_line : ℕ

pub record Bullet : Type 0 where
  pub text : Text
  pub line : ℕ

-- The variables of the loop, with the three lists that it fills.
pub record Scan : Type 0 where
  pub nodes : List Node
  pub links : List Link
  pub warnings : List Warning
  pub order : ℕ
  pub current : Option OpenNode
  pub bullet : Option Bullet

abbrev pub scan_start : List Warning → Scan
scan_start before = record {
  nodes = [];
  links = [];
  warnings = before;
  order = 0;
  current = none;
  bullet = none;
}

module _ (doc path : Text) where
  abbrev pub warning : ℕ → Text → Warning
  warning line message = record { doc = doc; path = path; line = line; message = message }

  unfoldable pub finish_node : OpenNode → ℕ → Node
  finish_node n order = record {
    id = n.id;
    labels = n.labels;
    properties = insert (codes "title") (str n.title) n.properties;
    provenance = record { doc = doc; path = path; order = order; heading_line = n.heading_line };
  }

  -- A warning of a malformed flow map.
  warn_if : Bool → ℕ → List Warning
  warn_if malformed line = if malformed then warning line (codes "malformed flow map") ∷ [] else []

  -- The source of an implicit link: the enclosing node, or the empty id.
  own_end : Option Text → Endpoint
  own_end none = node []
  own_end (some id) = node id

  unfoldable link_warn :
      OpenNode → ℕ → Endpoint → Text → Endpoint → Text → OpenNode × List Link × List Warning
  unfolding warn_if
  link_warn n line source kind target rest =
      let p = link_properties rest in
      (
        n,
        record {
          source = source;
          kind = kind;
          target = target;
          properties = p.0;
          recorded_in = n.id;
        }
            ∷ [],
        warn_if p.1 line,
      )

  unfoldable keyed : OpenNode → ℕ → Text → Text → OpenNode × List Link × List Warning
  unfolding warn_if
  keyed n line key raw_value =
      if key == codes "tags"
      then (
        record n { labels = n.labels ++ map (trim_char b'#') (split_whitespace raw_value) },
        [],
        [],
      )
      else let v = parse_value raw_value in
        (record n { properties = insert key v.0 n.properties }, [], warn_if v.1 line)

  -- The branches: an explicit link, an implicit one, a key with its value, or none of these.
  unfoldable classify :
      Bullet
      → OpenNode
      → Text
      → Option (Text × Text × Text × Text)
      → Option (Text × Text × Text)
      → Option (Text × Text)
      → OpenNode × List Link × List Warning
  unfolding link_warn keyed own_end
  classify b n text (some (source, kind, target, rest)) implicit key =
      link_warn n b.line (resolve source) kind (resolve target) rest
  classify b n text none (some (kind, target, rest)) key =
      link_warn n b.line (own_end n.id) kind (resolve target) rest
  classify b n text none none (some (key, raw_value)) = keyed n b.line key raw_value
  classify b n text none none none = (
    n,
    [],
    if contains_text text (codes "[[")
        then warning b.line (codes "link line that parses as neither form") ∷ []
        else [],
  )

  -- With the node, the links and the warnings that the bullet adds.
  unfoldable pub classify_bullet : Bullet → OpenNode → OpenNode × List Link × List Warning
  unfolding classify
  classify_bullet b n =
      let text = trim b.text in
      classify b n text (try_explicit_link text) (try_implicit_link text) (split_bullet_key text)

  -- `if let Some(b) = bullet.take()`
  unfoldable pub flush_bullet : Scan → Scan
  unfolding classify_bullet
  flush_bullet s = elim s.bullet [
    | none ↦ s
    | some b ↦ elim s.current [
      | none ↦ record s { bullet = none }
      | some n ↦
          let r = classify_bullet b n in
          record s {
            current = some r.0;
            bullet = none;
            links = s.links ++ r.1;
            warnings = s.warnings ++ r.2;
          }
    ]
  ]

  -- `if let Some(node) = current.take()`
  unfoldable pub flush_node : Scan → Scan
  unfolding finish_node
  flush_node s = elim s.current [
    | none ↦ record s { current = none }
    | some n ↦ record s {
      nodes = s.nodes ++ finish_node n s.order ∷ [];
      current = none;
      order = s.order + 1;
    }
  ]

  unfoldable open_node : Text × Option Text → ℕ → OpenNode
  open_node p line_no = record {
    id = p.1;
    title = p.0;
    labels = [];
    properties = empty;
    heading_line = line_no;
  }

  heading_warnings : Option Text → ℕ → List Warning
  heading_warnings none line_no = warning line_no (codes "heading without anchor") ∷ []
  heading_warnings (some a) line_no = []

  unfoldable pub open_heading : ℕ → Text → Scan → Scan
  unfolding open_node heading_warnings flush_bullet flush_node
  open_heading line_no heading s =
      let t = flush_node (flush_bullet s) in
      let p = split_anchor heading in
      record t {
        warnings = t.warnings ++ heading_warnings p.1 line_no;
        current = some (open_node p line_no);
      }

  starts_blank : Text → Bool
  starts_blank [] = false
  starts_blank (c ∷ s) = is_whitespace c

  -- A continuation folds into the bullet before it.
  fold_line : Text → Option Bullet → Option Bullet
  fold_line trimmed none = none
  fold_line trimmed (some b) = some (record b { text = b.text ++ b' ' ∷ trimmed })

  -- A bullet, a continuation, or a line that is neither.
  unfoldable bullet_line : ℕ → Text → Scan → Text → Option Text → Scan
  unfolding starts_blank fold_line flush_bullet
  bullet_line line_no raw s [] bullet = s
  bullet_line line_no raw s (c ∷ trimmed) (some rest) = record (flush_bullet s) {
    bullet = some (record { text = rest; line = line_no });
  }
  bullet_line line_no raw s (c ∷ trimmed) none = record s {
    bullet = if starts_blank raw then fold_line (c ∷ trimmed) s.bullet else s.bullet;
  }

  unfoldable pub body_line : ℕ → Text → Scan → Scan
  unfolding bullet_line
  body_line line_no raw s =
      let trimmed = trim_start raw in
      bullet_line line_no raw s trimmed (strip_prefix (codes "- ") trimmed)

  -- Before the first heading a line is not of a node.
  unfoldable line_of : ℕ → Text → Scan → Option Text → Option OpenNode → Scan
  unfolding open_heading body_line
  line_of line_no raw s (some heading) current = open_heading line_no heading s
  line_of line_no raw s none none = s
  line_of line_no raw s none (some n) = body_line line_no raw s

  -- One line of the loop.
  unfoldable pub parse_line : ℕ → Text → Scan → Scan
  unfolding line_of
  parse_line line_no raw s = line_of line_no raw s (strip_prefix (codes "## ") raw) s.current

  unfoldable pub scan_lines : ℕ → List Text → Scan → Scan
  unfolding parse_line
  scan_lines line_no [] s = s
  scan_lines line_no (l ∷ ls) s = scan_lines (suc line_no) ls (parse_line line_no l s)

  unfoldable pub parse_body : ℕ → Text → List Warning → Scan
  unfolding scan_lines flush_bullet flush_node
  parse_body body_offset body before =
      flush_node (flush_bullet (scan_lines (body_offset + 1) (lines body) (scan_start before)))

-- The warning of a page without frontmatter, and the number of lines before the body.
unfoldable pub front_warnings : Text → Text → List Text → List Warning
front_warnings doc path [] = warning doc path 0 (codes "no YAML frontmatter block") ∷ []
front_warnings doc path (l ∷ fm) = []

unfoldable pub body_offset_of : List Text → ℕ
body_offset_of [] = 0
body_offset_of (l ∷ fm) = length (l ∷ fm) + 2

unfoldable pub doc_of : Option Text → Text → Text
doc_of none doc_hint = doc_hint
doc_of (some doc) doc_hint = doc

unfoldable pub parse_one : Text → Text → Text → List Node × List Link × List Warning
unfolding parse_body front_warnings body_offset_of doc_of
parse_one doc_hint path content =
    let (fm, body) = split_frontmatter content in
    let doc = doc_of (fm_get fm (codes "doc")) doc_hint in
    let r = parse_body doc path (body_offset_of fm) body (front_warnings doc path fm) in
    (r.nodes, r.links, r.warnings)

parse_each : List (Text × Text) → List Node × List Link × List Warning
unfolding parse_one
parse_each [] = ([], [], [])
parse_each ((slug, content) ∷ sources) =
    let (n, l, w) = parse_one slug (slug ++ codes ".l3.md") content in
    let (ns, ls, ws) = parse_each sources in (n ++ ns, l ++ ls, w ++ ws)

-- Pages `(slug, text)` in memory, in the order of their slugs.
unfoldable pub parse_sources : List (Text × Text) → Graph × List Warning
unfolding parse_each build
parse_sources sources =
    let r = parse_each (sort_by (λ a b. codes_lt a.0 b.0) sources) in (build r.0 r.1, r.2)
