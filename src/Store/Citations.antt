-- ===== src/Store/Citations.antt =====
-- The use cases on edges and aliases: `put_edges`, `get_edges`, `have`.
pub mod Edges
pub mod Kept
mod Fresh
mod Examples
use braincrawl.Base.{ℕ, ◌+◌, String, Option, none, some, List, [], ◌∷◌}
use braincrawl.Types.{Alias, EdgeDir, EdgeInput, EdgeView}
use braincrawl.Exec.{Exec, pure, ◌>>=◌, ◌>>◌}
use braincrawl.Store.{MetadataStore, Outside}
use braincrawl.Store.Works.{resolve_or_create_stub}

module _ {S : Type 0} (m : MetadataStore S) (outside : Outside S) where
  unfoldable pub put_edges_from : ℕ → List EdgeInput → Exec S ℕ
  unfolding resolve_or_create_stub
  put_edges_from count [] = pure count
  put_edges_from count (edge ∷ edges) = do
    src ← resolve_or_create_stub m outside edge.src
    dst ← resolve_or_create_stub m outside edge.dst
    m.put_edge src dst edge.relation edge.source edge.attrs edge.fetched_at
    put_edges_from (count + 1) edges

  unfoldable pub put_edges : List EdgeInput → Exec S ℕ
  unfolding put_edges_from
  put_edges edges = put_edges_from 0 edges

  unfoldable pub get_edges :
      Alias → EdgeDir → Option String → ℕ → Exec S (List EdgeView × Option String)
  get_edges alias dir cursor limit = do
    found ← m.get_alias alias
    elim found [
      | none ↦ pure ([], none)
      | some raw ↦ do canonical ← m.resolve_live raw; m.read_edges canonical dir cursor limit
    ]

  unfoldable pub have : List Alias → Exec S (List Alias)
  have aliases = m.present_aliases aliases
