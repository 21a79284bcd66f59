-- ===== src/Store/Neighborhood/Rounds/Seeds.antt =====
-- How many nodes the seeds of a neighborhood leave.
use braincrawl.Base.{
  ℕ, ◌%◌, ◌^◌, ◌<◌, ◌≤◌, String, Bool, true, [], ◌∷◌, length, take, ltb, contains, string_eq,
  str_lt, ◌≡◌, ◌==◌, inl, inr, refl, arith, Bool-cases, Elem, All, length-take,
}
use braincrawl.Base.Distinct.{Distinct}
use braincrawl.Base.Distinct.Counts.{pigeonhole}
use braincrawl.Base.Map.{Map, remove, retain, keys, keys_of}
use braincrawl.Base.Sort.{sort_by}
use braincrawl.Store.Neighborhood.Rounds.{trim_seeds}

module _ {V : Type 0} where
  remove-absent : (k : String) (m : Map String V) → ¬ Elem k (keys_of (remove k m))
  unfolding remove
  remove-absent k [] h = h
  remove-absent k ((j, v) ∷ m) h = elim (Bool-cases (j == k)) [
    | inl t ↦ remove-absent k m (rw t at h)
    | inr f ↦ elim (rw f at h) [
      | inl q ↦ ground (arith, string_eq.beq_iff j k)
      | inr r ↦ remove-absent k m r
    ]
  ]

  remove-was :
      (k j : String) (m : Map String V) → Elem j (keys_of (remove k m)) → Elem j (keys_of m)
  unfolding remove
  remove-was k j [] h = h
  remove-was k j ((i, v) ∷ m) h = elim (Bool-cases (i == k)) [
    | inl t ↦ inr (remove-was k j m (rw t at h))
    | inr f ↦ elim (rw f at h) [ inl q ↦ inl q | inr r ↦ inr (remove-was k j m r) ]
  ]

  remove-Distinct :
      (k : String) (m : Map String V) → Distinct (keys_of m) → Distinct (keys_of (remove k m))
  unfolding remove
  remove-Distinct k [] d = d
  remove-Distinct k ((j, v) ∷ m) (out, d) = elim (Bool-cases (j == k)) [
    | inl t ↦ rw t (remove-Distinct k m d)
    | inr f ↦ rw f (λ h. out (remove-was k j m h), remove-Distinct k m d)
  ]

  retain-Distinct : (p : String → V → Bool) (m : Map String V) → Distinct (keys_of (retain p m))
  unfolding retain
  retain-Distinct p [] = tt
  retain-Distinct p ((k, v) ∷ m) = elim (Bool-cases (p k v)) [
    | inl t ↦
        rw t (remove-absent k (retain p m), remove-Distinct k (retain p m) (retain-Distinct p m))
    | inr f ↦ rw f (remove-Distinct k (retain p m) (retain-Distinct p m))
  ]

  remove-All :
      (P : String → Type 0) (k : String) (m : Map String V)
      → All P (keys_of m)
      → All P (keys_of (remove k m))
  unfolding remove
  remove-All P k [] h = h
  remove-All P k ((j, v) ∷ m) (h, hs) = elim (Bool-cases (j == k)) [
    | inl t ↦ rw t (remove-All P k m hs)
    | inr f ↦ rw f (h, remove-All P k m hs)
  ]

  retain-All :
      (p : String → Bool) (m : Map String V)
      → All (λ k. p k ≡ true) (keys_of (retain (λ k _. p k) m))
  unfolding retain
  retain-All p [] = tt
  retain-All p ((k, v) ∷ m) = elim (Bool-cases (p k)) [
    | inl t ↦ rw t (t, remove-All (λ k. p k ≡ true) k (retain (λ k _. p k) m) (retain-All p m))
    | inr f ↦ rw f (remove-All (λ k. p k ≡ true) k (retain (λ k _. p k) m) (retain-All p m))
  ]

  pub length-keys_of : (m : Map String V) → length (keys_of m) ≡ length m
  length-keys_of [] = refl
  length-keys_of (p ∷ m) = omega (arith, length-keys_of m)

-- After the trim of fewer than 2 ^ 32 seeds there are no more seeds than the maximum.
pub trim_seeds_bound :
    (max_nodes : ℕ) (visited : Map String ℕ)
    → length visited < 2 ^ 32
    → length (trim_seeds max_nodes visited).0 ≤ max_nodes
unfolding trim_seeds
trim_seeds_bound max_nodes visited few =
    let small : length visited % 2 ^ 32 ≡ length visited = omega (arith, few) in
    let kept = take max_nodes (sort_by str_lt (keys visited)) in
    let left = retain (λ k _. contains kept k) visited in
    elim (Bool-cases (ltb max_nodes (length visited % 2 ^ 32))) [
      | inl t ↦ rw t (
          omega (
            arith,
            length-keys_of left,
            length-take max_nodes (sort_by str_lt (keys visited)),
            pigeonhole (keys_of left) kept (retain-Distinct (λ k _. contains kept k) visited)
                (retain-All (contains kept) visited),
          ))
      | inr f ↦ rw f (ground arith)
    ]
