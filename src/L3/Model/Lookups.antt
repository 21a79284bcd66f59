-- ===== src/L3/Model/Lookups.antt =====
-- The lookup of a node by its anchor.
use braincrawl.Base.{
  ℕ, zero, suc, ◌+◌, List, [], ◌∷◌, Option, none, some, ◌≡◌, ◌≢◌, ◌⊎◌, refl, ap, subst, sym, ◌∙◌,
  Elem, All, Bool-cases, Option-cases, inl, inr, arith, ◌==◌, list_eq, nat_eq, eq_of_beq, beq_refl,
}
use braincrawl.Base.Scan.{Text}
use braincrawl.Base.Map.{Map, get, empty, get-insert}
use braincrawl.Base.Sort.{sort_by, Elem-sort_by}
use braincrawl.L3.Model.{Node, Link, at, index_id, index_ids, build, node_by_id, node_lt}

-- An index that the map holds is that of a node with the id.
abbrev Points : Text → ℕ → ℕ → List Node → Type 0
Points id j i nodes = (k : ℕ) × (n : Node) × (j ≡ i + k) × (at k nodes ≡ some n) × (n.id ≡ some id)

index_id_lem :
    (id : Text) (j i : ℕ) (own : Option Text) (m : Map Text ℕ)
    → get id (index_id i own m) ≡ some j
    → (get id m ≡ some j) ⊎ ((j ≡ i) × (own ≡ some id))
unfolding index_id
index_id_lem id j i none m h = inl h
index_id_lem id j i (some own) m h = elim (Bool-cases (own == id)) [
  | inl t ↦ inr (cc (rw (get-insert own id i m, t) at h), ap some (eq_of_beq own id t))
  | inr f ↦ inl (rw (get-insert own id i m, f) at h)
]

index_ids-Points :
    (id : Text) (j i : ℕ) (nodes : List Node) (m : Map Text ℕ)
    → get id (index_ids i nodes m) ≡ some j
    → (get id m ≡ some j) ⊎ Points id j i nodes
unfolding index_ids at
index_ids-Points id j i [] m h = inl h
index_ids-Points id j i (n ∷ nodes) m h =
    elim (index_ids-Points id j (suc i) nodes (index_id i n.id m) h) [
      | inl here ↦ elim (index_id_lem id j i n.id m here) [
        | inl before ↦ inl before
        | inr (same, own) ↦ inr (0, n, omega arith, refl, own)
      ]
      | inr (k, p, e, a, own) ↦ inr (suc k, p, omega arith, a, own)
    ]

index_id-stays :
    (id : Text) (i : ℕ) (own : Option Text) (m : Map Text ℕ)
    → get id (index_id i own m) ≡ none
    → (own ≢ some id) × (get id m ≡ none)
unfolding index_id
index_id-stays id i none m h = (λ q. cc, h)
index_id-stays id i (some own) m h = elim (Bool-cases (own == id)) [
  | inl t ↦ cc (rw (get-insert own id i m, t) at h)
  | inr f ↦ (λ q. cc (f, beq_refl own, q), rw (get-insert own id i m, f) at h)
]

index_ids-none :
    (id : Text) (i : ℕ) (nodes : List Node) (m : Map Text ℕ)
    → get id (index_ids i nodes m) ≡ none
    → (get id m ≡ none) × All (λ n. n.id ≢ some id) nodes
unfolding index_ids
index_ids-none id i [] m h = (h, tt)
index_ids-none id i (n ∷ nodes) m h =
    let (before, rest) = index_ids-none id (suc i) nodes (index_id i n.id m) h in
    let (own, first) = index_id-stays id i n.id m before in (first, (own, rest))

at-Elem : (k : ℕ) (nodes : List Node) (n : Node) → at k nodes ≡ some n → Elem n nodes
unfolding at
at-Elem k [] n h = cc
at-Elem zero (x ∷ nodes) n h = inl (cc h)
at-Elem (suc k) (x ∷ nodes) n h = inr (at-Elem k nodes n h)

Elem-All : (P : Node → Type 0) (nodes : List Node) (n : Node) → All P nodes → Elem n nodes → P n
Elem-All P [] n h e = absurd e
Elem-All P (x ∷ nodes) n (p, h) (inl q) = subst P (sym q) p
Elem-All P (x ∷ nodes) n (p, h) (inr e) = Elem-All P nodes n h e

nowhere : (id : Text) (j : ℕ) → ¬ (get id (empty {K = Text} {V = ℕ}) ≡ some j)
unfolding get
nowhere id j h = cc

-- The lookup in a graph that `build` makes reads within the nodes: it gives one of the nodes, with
-- the id, or nothing, and then none of the nodes has the id.
pub node_by_id-build :
    (nodes : List Node) (links : List Link) (id : Text)
    → ((n : Node) × (node_by_id (build nodes links) id ≡ some (some n))
        × (n.id ≡ some id)
        × Elem n nodes)
      ⊎ ((node_by_id (build nodes links) id ≡ some none)
          × ((n : Node) → Elem n nodes → n.id ≢ some id))
unfolding node_by_id build
node_by_id-build nodes links id =
    let sorted = sort_by node_lt nodes in
    elim (Option-cases (get id (index_ids 0 sorted empty))) [
      | inl e ↦ inr (
        rw (node_by_id, e) refl,
        λ n h.
            Elem-All (λ m. m.id ≢ some id) sorted n (index_ids-none id 0 sorted empty e).1
              ((Elem-sort_by node_lt n nodes).1 h),
      )
      | inr (j, e) ↦ elim (index_ids-Points id j 0 sorted empty e) [
        | inl before ↦ absurd (nowhere id j before)
        | inr (k, n, same, a, own) ↦
            let index : j ≡ k = omega arith in
            inl (
              n,
              rw (node_by_id, e) (rw (ap (λ i. at i sorted) index ∙ a) refl),
              own,
              (Elem-sort_by node_lt n nodes).0 (at-Elem k sorted n a),
            )
      ]
    ]
