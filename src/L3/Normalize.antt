-- ===== src/L3/Normalize.antt =====
-- The write of a page, `normalize_doc` of crates/l3/src/normalize.rs.
pub mod Gates
use braincrawl.Base.{
  ℕ, Bool, true, false, List, [], ◌∷◌, ◌++◌, Option, none, some, if◌then◌else◌, ◌==◌, not, filter,
  contains, list_eq, nat_eq, codes_lt,
}
use braincrawl.Base.Text.{codes}
use braincrawl.Base.Optional.{◌>>=◌}
use braincrawl.Base.Scan.{Text}
use braincrawl.Base.Sort.{sort_by}
use braincrawl.L3.Model.{Warning}
use braincrawl.L3.Parse.{parse_sources}
use braincrawl.L3.Assign.{Assigned, assign_ids_source, collect_anchors, node_ids}

pub data NormalizeOutcome : Type 0 where
  normalized : Text → List Assigned → NormalizeOutcome
  blocking_warnings : List Warning → NormalizeOutcome
  anchor_conflicts : List Text → NormalizeOutcome

abbrev pub is_blocking : Warning → Bool
is_blocking w = not (w.message == codes "heading without anchor")

-- A hash set, as the list of its elements without duplicates.
unfoldable pub dedup : List Text → List Text
dedup [] = []
dedup (x ∷ xs) = let rest = dedup xs in if contains rest x then rest else x ∷ rest

unfoldable pub assign_rest : Text → List Text → List (List ℕ) → Option NormalizeOutcome
assign_rest body anchors draws = do
  (content, assigned, taken, left) ← assign_ids_source body anchors draws
  some (normalized content assigned)

unfoldable check_conflicts :
    List Text → Text → List Text → List Text → List (List ℕ) → Option NormalizeOutcome
unfolding assign_rest
check_conflicts [] body other incoming draws = assign_rest body (incoming ++ other) draws
check_conflicts (c ∷ conflicts) body other incoming draws =
    some (anchor_conflicts (sort_by codes_lt (c ∷ conflicts)))

-- The first gate, which `force` opens.
unfoldable gate : List Warning → Bool → Option NormalizeOutcome → Option NormalizeOutcome
gate [] force rest = rest
gate (w ∷ ws) force rest = if force then rest else some (blocking_warnings (w ∷ ws))

unfoldable pub normalize_doc :
    Text → Text → List (Text × Text) → Bool → List (List ℕ) → Option NormalizeOutcome
unfolding check_conflicts dedup gate
normalize_doc slug body other_docs force draws =
    let (graph, warnings) = parse_sources ((slug, body) ∷ []) in
    let blocking = filter is_blocking warnings in
    let other = collect_anchors other_docs in
    let incoming = node_ids graph.nodes in
    let conflicts = filter (contains other) (dedup incoming) in
    gate blocking force (check_conflicts conflicts body other incoming draws)
