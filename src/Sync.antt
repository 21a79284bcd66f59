-- ===== src/Sync.antt =====
-- The rules of synchronisation of research pages, crates/l3-sync/src/lib.rs. A page is text; a text
-- is a list of code points. SHA-256 of a text's UTF-8 is a parameter.
pub mod Rendered
pub mod Files
pub mod Union
pub mod Merge
pub mod Plan
pub mod Session
pub mod Diff
mod Examples
use braincrawl.Base.{
  ℕ, Bool, true, false, List, [], ◌∷◌, ◌++◌, Option, none, some, if◌then◌else◌, ◌==◌, list_eq,
  nat_eq,
}
use braincrawl.Base.Map.{Map}
use braincrawl.Base.Text.{codes}
use braincrawl.Base.Scan.{
  Text, lines, trim_end, starts_with, strip_prefix, rsplit_once, is_whitespace, terminated,
}
use braincrawl.Auth.{hex_bytes}
use braincrawl.L3.Bullets.{caret}

pub record NodeUnit : Type 0 where
  pub anchor : Option Text
  pub heading : Text
  pub body : List Text

pub record DocUnits : Type 0 where
  pub frontmatter : List Text
  pub prologue : List Text
  pub nodes : List NodeUnit

-- `rsplit(char::is_whitespace).next()`
last_word : Text → Option (Text × Text) → Text
last_word s none = s
last_word s (some p) = p.1

unfoldable pub heading_anchor : Text → Option Text
unfolding last_word caret
heading_anchor heading =
    let trimmed = trim_end heading in caret (last_word trimmed (rsplit_once trimmed))

without_anchor : Text → Option (Text × Text) → Text
unfolding caret
without_anchor text none = text
without_anchor text (some p) = elim (caret p.1) [ some a ↦ trim_end p.0 | none ↦ text ]

-- The heading without `## `, where it has this; the text stays as it is where it has not.
heading_text : Text → Text
heading_text heading = elim (strip_prefix (codes "## ") (trim_end heading)) [
  | some text ↦ text
  | none ↦ heading
]

unfoldable pub heading_title : Text → Text
unfolding heading_text without_anchor
heading_title heading = let text = heading_text heading in without_anchor text (rsplit_once text)

unfoldable pub add_to_last : Text → List NodeUnit → List NodeUnit
add_to_last l [] = []
add_to_last l (n ∷ []) = record n { body = n.body ++ l ∷ [] } ∷ []
add_to_last l (n ∷ m ∷ ns) = n ∷ add_to_last l (m ∷ ns)

-- A line that is no heading: of the last node, or of the prologue before the first.
unfoldable pub plain_line : Text → DocUnits → List NodeUnit → DocUnits
unfolding add_to_last
plain_line l u [] = record u { prologue = u.prologue ++ l ∷ [] }
plain_line l u (n ∷ ns) = record u { nodes = add_to_last l (n ∷ ns) }

unfoldable pub push_line : DocUnits → Text → DocUnits
unfolding plain_line heading_anchor starts_with
push_line u l =
    if starts_with l (codes "## ")
    then record u {
      nodes = u.nodes ++ record { anchor = heading_anchor l; heading = l; body = [] } ∷ [];
    }
    else plain_line l u u.nodes

unfoldable pub push_lines : DocUnits → List Text → DocUnits
unfolding push_line
push_lines u [] = u
push_lines u (l ∷ ls) = push_lines (push_line u l) ls

abbrev pub no_units : DocUnits
no_units = record { frontmatter = []; prologue = []; nodes = [] }

unfoldable pub split_body : List Text → DocUnits
unfolding push_lines
split_body = push_lines no_units

abbrev pub page_fence : Text
page_fence = codes "---"

-- The lines through the closing fence, and those behind it.
unfoldable pub through_fence : List Text → Option (List Text × List Text)
through_fence [] = none
through_fence (l ∷ ls) =
    let rest = through_fence ls in
    if l == page_fence
    then some (l ∷ [], ls)
    else elim rest [ none ↦ none | some p ↦ some (l ∷ p.0, p.1) ]

unfoldable pub split_fenced : Text → List Text → Option (List Text × List Text) → DocUnits
unfolding split_body
split_fenced l ls none = split_body (l ∷ ls)
split_fenced l ls (some p) = record (split_body p.1) { frontmatter = l ∷ p.0 }

unfoldable pub split_lines : List Text → DocUnits
unfolding split_fenced through_fence
split_lines [] = split_body []
split_lines (l ∷ ls) =
    if l == page_fence then split_fenced l ls (through_fence ls) else split_body (l ∷ ls)

unfoldable pub split_doc : Text → DocUnits
unfolding split_lines
split_doc text = split_lines (lines text)

unfoldable pub render_nodes : List NodeUnit → Text
unfolding terminated
render_nodes [] = []
render_nodes (n ∷ ns) = (n.heading ++ 10 ∷ terminated n.body) ++ render_nodes ns

unfoldable pub render_doc : DocUnits → Text
unfolding render_nodes
render_doc u = terminated (u.frontmatter ++ u.prologue) ++ render_nodes u.nodes

push_trimmed : Text → List Text → List Text
push_trimmed [] [] = []
push_trimmed [] (m ∷ ls) = [] ∷ m ∷ ls
push_trimmed (c ∷ l) ls = (c ∷ l) ∷ ls

-- The lines without white space at their ends, and without the empty lines at the end.
unfoldable pub normal_lines : List Text → List Text
unfolding push_trimmed
normal_lines [] = []
normal_lines (l ∷ ls) = push_trimmed (trim_end l) (normal_lines ls)

module _ (sha256 : Text → List ℕ) where
  unfoldable pub node_hash : NodeUnit → Text
  unfolding normal_lines terminated hex_bytes
  node_hash n = hex_bytes (sha256 (trim_end n.heading ++ 10 ∷ terminated (normal_lines n.body)))

  -- Of the frontmatter and the prologue.
  unfoldable pub meta_hash : DocUnits → Text
  unfolding normal_lines terminated hex_bytes
  meta_hash u = hex_bytes (sha256 (terminated (normal_lines (u.frontmatter ++ u.prologue))))

  -- Of an opaque file.
  unfoldable pub content_hash : Text → Text
  unfolding hex_bytes
  content_hash content = hex_bytes (sha256 content)

-- A page's slug and its text; a file's name and its text.
abbrev pub Texts : Type 0
Texts = Map Text Text

-- Where a node lives.
pub record NodeRef : Type 0 where
  pub doc : Text
  pub anchor : Text
  pub title : Text
