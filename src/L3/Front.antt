-- ===== src/L3/Front.antt =====
-- Frontmatter blocks: `split_frontmatter` and `fm_get` of crates/l3/src/parse.rs, and the upsert of
-- crates/l3/src/frontmatter.rs, whose `split_frontmatter` has the same body.
pub mod Blocks
pub mod Upserts
use braincrawl.Base.{
  ℕ, Bool, List, [], ◌∷◌, ◌++◌, Option, none, some, if◌then◌else◌, ◌==◌, ◌||◌, list_eq, nat_eq,
}
use braincrawl.Base.Text.{codes}
use braincrawl.Base.Scan.{Text, lines, join_lines, strip_prefix, starts_with, trim}

abbrev pub fence : Text
fence = codes "---"

-- The loop after the first line: the lines up to the closing fence, and those after it; `none`
-- when no fence closes the block.
unfoldable pub split_fence : List Text → Option (List Text × List Text)
split_fence [] = none
split_fence (l ∷ ls) =
    let later = split_fence ls in
    if l == fence then some ([], ls) else elim later [ none ↦ none | some p ↦ some (l ∷ p.0, p.1) ]

-- `join("\n")`, with a newline after what is not empty.
unfoldable pub body_text : List Text → Text
body_text rest = elim (join_lines rest) [ [] ↦ [] | c ∷ s ↦ (c ∷ s) ++ 10 ∷ [] ]

unfoldable pub split_block : List Text → Option (List Text × Text)
unfolding split_fence body_text
split_block [] = none
split_block (l ∷ ls) = elim (split_fence ls) [
  | none ↦ none
  | some p ↦ if l == fence then some (p.0, body_text p.1) else none
]

unfoldable pub split_frontmatter : Text → List Text × Text
unfolding split_block
split_frontmatter content = elim (split_block (lines content)) [ none ↦ ([], content) | some p ↦ p ]

-- A bare, folded or literal value reads as empty.
unfoldable pub value_of : Text → Text
value_of v = if (v == codes ">") || (v == codes "|") then [] else v

unfoldable pub fm_get : List Text → Text → Option Text
unfolding value_of
fm_get [] key = none
fm_get (line ∷ fm) key =
    let later = fm_get fm key in
    elim (strip_prefix (key ++ codes ":") line) [
      | none ↦ later
      | some rest ↦
          if starts_with line (key ++ codes ": ") || (line == (key ++ codes ":"))
          then some (value_of (trim rest))
          else later
    ]

unfoldable pub upsert_key : List Text → Text → Text → List Text
upsert_key [] key value = (key ++ codes ": " ++ value) ∷ []
upsert_key (line ∷ fm) key value =
    let later = upsert_key fm key value in
    if starts_with line (key ++ codes ": ") || (line == (key ++ codes ":"))
    then (key ++ codes ": " ++ value) ∷ fm
    else line ∷ later

unfoldable pub upsert_frontmatter_key : Text → Text → Text → Text
unfolding upsert_key split_frontmatter
upsert_frontmatter_key content key value =
    let (fm, body) = split_frontmatter content in
    codes "---\n" ++ join_lines (upsert_key fm key value) ++ codes "\n---\n" ++ body
