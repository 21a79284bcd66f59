-- ===== src/Sync/Union.antt =====
-- The union of two versions of a node, `union_body` of crates/l3-sync/src/lib.rs.
pub mod Blanks
pub mod Missing
pub mod Lines
use braincrawl.Base.{
  ℕ, zero, suc, ◌+◌, ◌-◌, Bool, true, false, not, List, [], ◌∷◌, ◌++◌, map, if◌then◌else◌, list_eq,
  nat_eq, length, filter, contains,
}
use mathlib.Core.List.{reverse}
use braincrawl.Base.Scan.{Text, trim_end}
use braincrawl.Auth.{is_empty}
use braincrawl.Sync.{NodeUnit}

-- `trim_end().is_empty()`
unfoldable pub is_blank : Text → Bool
unfolding is_empty
is_blank l = is_empty (trim_end l)

-- The source's lines that the destination lacks, blank ones left out.
unfoldable pub missing_lines : List Text → List Text → List Text
unfolding is_blank
missing_lines dest source =
    filter (λ l. not (contains (map trim_end dest) (trim_end l)))
      (filter (λ l. not (is_blank l)) source)

leading_blanks : List Text → ℕ
leading_blanks [] = 0
leading_blanks (l ∷ ls) = let rest = leading_blanks ls in if is_blank l then suc rest else 0

-- The loop from the end of the body.
unfoldable pub tail_blanks : List Text → ℕ
unfolding leading_blanks
tail_blanks body = leading_blanks (reverse body)

-- `Vec::insert`
unfoldable pub insert_line : ℕ → Text → List Text → List Text
insert_line zero l body = l ∷ body
insert_line (suc i) l [] = []
insert_line (suc i) l (m ∷ body) = m ∷ insert_line i l body

unfoldable pub insert_lines : ℕ → List Text → List Text → List Text
unfolding insert_line
insert_lines i [] body = body
insert_lines i (l ∷ ls) body = insert_lines (i + 1) ls (insert_line i l body)

unfoldable pub united : NodeUnit → List Text → NodeUnit × Bool
unfolding tail_blanks insert_lines
united dest [] = (dest, false)
united dest (l ∷ ls) = (
  record dest { body = insert_lines (length dest.body - tail_blanks dest.body) (l ∷ ls) dest.body },
  true,
)

-- The new node, and whether it changed.
unfoldable pub union_body : NodeUnit → NodeUnit → NodeUnit × Bool
unfolding missing_lines united
union_body dest source = united dest (missing_lines dest.body source.body)
