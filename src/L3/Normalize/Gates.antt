-- ===== src/L3/Normalize/Gates.antt =====
-- The outcomes of a page's write.
use braincrawl.Base.{
  ℕ, List, [], ◌∷◌, ◌++◌, Option, some, ◌≡◌, ◌⊎◌, ◌↔◌, Elem, filter, contains, list_eq, nat_eq,
}
use braincrawl.Base.Scan.{Text}
use braincrawl.L3.Model.{Warning}
use braincrawl.L3.Parse.{parse_sources}
use braincrawl.L3.Assign.{node_ids}
use braincrawl.L3.Normalize.{NormalizeOutcome, anchor_conflicts, is_blocking, dedup, assign_rest}

abbrev pub conflicts_of : List Text → List Text → List Text
conflicts_of incoming other = filter (contains other) (dedup incoming)

-- The second gate: the conflicts, of which there is one, or the assignment where there is none.
abbrev pub Gated : Text → List Text → List Text → List (List ℕ) → Option NormalizeOutcome → Type 0
Gated body incoming other draws outcome =
    ((x : Text) × (l : List Text) × (outcome ≡ some (anchor_conflicts l))
      × Elem x l
      × ((y : Text) → Elem y l ↔ (Elem y incoming × Elem y other)))
    ⊎ (((x : Text) → Elem x incoming → ¬ Elem x other)
        × (outcome ≡ assign_rest body (incoming ++ other) draws))

module _ (slug body : Text) (other_docs : List (Text × Text)) where
  abbrev pub incoming_ids : List Text
  incoming_ids = node_ids (parse_sources ((slug, body) ∷ [])).0.nodes

  abbrev pub blocking_of : List Warning
  blocking_of = filter is_blocking (parse_sources ((slug, body) ∷ [])).1
