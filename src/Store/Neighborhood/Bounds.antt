-- ===== src/Store/Neighborhood/Bounds.antt =====
-- The bound on the nodes of a neighborhood.
use braincrawl.Base.{
  ℕ, ◌+◌, ◌≤◌, ◌<◌, ◌%◌, ◌^◌, String, List, [], ◌∷◌, length, any, ltb, ltb→lt, is_some, ◌==◌,
  string_eq, triple_eq, ◌≡◌, inl, inr, refl, sym, subst, arith, Bool-cases,
}
use braincrawl.Base.Map.{Map, get, insert}
use braincrawl.Types.{EdgeDir, EdgeView}
use braincrawl.Store.Neighborhood.{Traversal, discover, neighbor_of, reach, visit, visit_all}

pub length-insert : (k : String) (v : ℕ) (m : Map String ℕ) → length (insert k v m) ≤ length m + 1
unfolding insert
length-insert k v [] = omega arith
length-insert k v ((j, w) ∷ m) = elim (Bool-cases (j == k)) [
  | inl t ↦ rw t (omega arith)
  | inr f ↦ rw f (omega (arith, length-insert k v m))
]

discover_visited : (ev : EdgeView) (t : Traversal) → (discover ev t).visited ≡ t.visited
discover_visited ev t =
    elim (Bool-cases (
      any (λ (k : String × String × String). k == (ev.src, ev.dst, ev.relation))
        t.discovered_edges)) [ inl q ↦ rw q refl | inr q ↦ rw q refl ]

reach_bound :
    (depth max_nodes : ℕ) (id : String) (t : Traversal)
    → max_nodes < 2 ^ 32
    → length t.visited ≤ max_nodes
    → length (reach depth max_nodes id t).visited ≤ max_nodes
reach_bound depth max_nodes id t m h =
    let small : length t.visited % 2 ^ 32 ≡ length t.visited = omega arith in
    elim (Bool-cases (is_some (get id t.visited))) [
      | inl q ↦ rw q h
      | inr q ↦ elim (Bool-cases (ltb (length t.visited % 2 ^ 32) max_nodes)) [
        | inl room ↦
            rw (q, room)
              (omega (
                arith,
                length-insert id (depth + 1) t.visited,
                ltb→lt (length t.visited % 2 ^ 32) max_nodes room,
                small,
              ))
        | inr full ↦ rw (q, full) h
      ]
    ]

-- A traversal with no more visited nodes than the maximum, a `u32`, has no more after it visits a list of edges.
pub visit_all_bound :
    (dir : EdgeDir) (depth max_nodes : ℕ) (edges : List EdgeView) (t : Traversal)
    → max_nodes < 2 ^ 32
    → length t.visited ≤ max_nodes
    → length (visit_all (visit dir depth max_nodes) t edges).visited ≤ max_nodes
unfolding visit
visit_all_bound dir depth max_nodes [] t m h = h
visit_all_bound dir depth max_nodes (ev ∷ edges) t m h =
    visit_all_bound dir depth max_nodes edges
      (reach depth max_nodes (neighbor_of dir ev) (discover ev t)) m
      (reach_bound depth max_nodes (neighbor_of dir ev) (discover ev t) m
        (subst (λ m. length m ≤ max_nodes) (sym (discover_visited ev t)) h))
