-- ===== src/MemStore/Delete/Network.antt =====
-- The network that a deletion walks: the loop ends, with exactly the nodes that lead to the root.
use braincrawl.Base.{
  String, Option, some, List, [], ◌∷◌, ◌++◌, contains, string_eq, ◌≡◌, ◌⊎◌, inl, inr, refl, sym, ap,
  subst, Option-cases, Bool-cases, Elem, Elem-append, Elem-append_left, Elem-append_right,
  Elem-contains, contains-Elem, not-Elem,
}
use braincrawl.MemStore.{NodeRow}
use braincrawl.MemStore.Delete.{scan_node, scan}

-- What one node of the scan does.
data NodeStep (f : List String) (cid : String) (merged : Option String) (seen next : List String)
    : List String × List String → Type 0 where
  skip : NodeStep f cid merged seen next (seen, next)
  push :
      (m : String)
      → merged ≡ some m
      → Elem m f
      → ¬ Elem cid seen
      → NodeStep f cid merged seen next (seen ++ cid ∷ [], next ++ cid ∷ [])

scan_node-NodeStep :
    (f : List String) (cid : String) (row : NodeRow) (seen next : List String)
    → NodeStep f cid row.merged_into seen next (scan_node f (cid, row) (seen, next))
unfolding scan_node
scan_node-NodeStep f cid row seen next = elim (Option-cases row.merged_into) [
  | inl live ↦ rw live skip
  | inr (m, e) ↦ elim (Bool-cases (contains f m)) [
    | inr out ↦ rw (e, scan_node) (rw out skip)
    | inl inside ↦ elim (Bool-cases (contains seen cid)) [
      | inl old ↦ rw (e, scan_node) (rw (inside, old) skip)
      | inr new ↦
          rw (e, scan_node)
            (rw (inside, new) (push m refl (Elem-contains f m inside) (not-Elem seen cid new)))
    ]
  ]
]

scan_node_finds :
    (f : List String) (cid : String) (row : NodeRow) (seen next : List String) (m : String)
    → row.merged_into ≡ some m
    → Elem m f
    → Elem cid (scan_node f (cid, row) (seen, next)).0
unfolding scan_node
scan_node_finds f cid row seen next m e inside = elim (Bool-cases (contains seen cid)) [
  | inl old ↦ rw (e, scan_node) (rw (contains-Elem f m inside, old) (Elem-contains seen cid old))
  | inr new ↦
      rw (e, scan_node)
        (rw (contains-Elem f m inside, new) (Elem-append_right cid seen (cid ∷ []) (inl refl)))
]

abbrev Acc : Type 0
Acc = List String × List String

module _ {f : List String} {cid : String} {merged : Option String} {seen next : List String} where
  NodeStep-grows :
      (x : String) {acc : Acc} → NodeStep f cid merged seen next acc → Elem x seen → Elem x acc.0
  NodeStep-grows x skip h = h
  NodeStep-grows x (push m e inside new) h = Elem-append_left x seen (cid ∷ []) h

  -- What is in the next frontier was there before, or is newly seen.
  NodeStep-fresh :
      (x : String) {acc : Acc}
      → NodeStep f cid merged seen next acc
      → Elem x acc.1
      → Elem x next ⊎ ((¬ Elem x seen) × Elem x acc.0)
  NodeStep-fresh x skip h = inl h
  NodeStep-fresh x (push m e inside new) h = elim (Elem-append x next (cid ∷ []) h) [
    | inl old ↦ inl old
    | inr (inl q) ↦
        inr (subst (λ y. ¬ Elem y seen) (sym q) new, Elem-append_right x seen (cid ∷ []) (inl q))
    | inr (inr e') ↦ absurd e'
  ]

  -- What is seen was seen before, or is newly in the next frontier and merged into this one.
  NodeStep-source :
      (x : String) {acc : Acc}
      → NodeStep f cid merged seen next acc
      → Elem x acc.0
      → Elem x seen ⊎ ((x ≡ cid) × Elem x acc.1 × (m : String) × (merged ≡ some m) × Elem m f)
  NodeStep-source x skip h = inl h
  NodeStep-source x (push m e inside new) h = elim (Elem-append x seen (cid ∷ []) h) [
    | inl old ↦ inl old
    | inr (inl q) ↦ inr (q, Elem-append_right x next (cid ∷ []) (inl q), m, e, inside)
    | inr (inr e') ↦ absurd e'
  ]

  NodeStep-next :
      (x : String) {acc : Acc} → NodeStep f cid merged seen next acc → Elem x next → Elem x acc.1
  NodeStep-next x skip h = h
  NodeStep-next x (push m e inside new) h = Elem-append_left x next (cid ∷ []) h

module _ (f : List String) where
  abbrev step :
      (cid : String) (row : NodeRow) (acc : Acc)
      → NodeStep f cid row.merged_into acc.0 acc.1 (scan_node f (cid, row) acc)
  step cid row (seen, next) = scan_node-NodeStep f cid row seen next

  pub scan_grows :
      (l : List (String × NodeRow)) (acc : Acc) (x : String)
      → Elem x acc.0
      → Elem x (scan f l acc).0
  unfolding scan
  scan_grows [] acc x h = h
  scan_grows ((cid, row) ∷ l) acc x h =
      scan_grows l (scan_node f (cid, row) acc) x (NodeStep-grows x (step cid row acc) h)

  scan_next :
      (l : List (String × NodeRow)) (acc : Acc) (x : String)
      → Elem x acc.1
      → Elem x (scan f l acc).1
  unfolding scan
  scan_next [] acc x h = h
  scan_next ((cid, row) ∷ l) acc x h =
      scan_next l (scan_node f (cid, row) acc) x (NodeStep-next x (step cid row acc) h)

  pub scan_fresh :
      (l : List (String × NodeRow)) (acc : Acc) (x : String)
      → Elem x (scan f l acc).1
      → Elem x acc.1 ⊎ ((¬ Elem x acc.0) × Elem x (scan f l acc).0)
  unfolding scan
  scan_fresh [] acc x h = inl h
  scan_fresh ((cid, row) ∷ l) acc x h =
      let acc' = scan_node f (cid, row) acc in
      elim (scan_fresh l acc' x h) [
        | inr (new, there) ↦ inr (λ old. new (NodeStep-grows x (step cid row acc) old), there)
        | inl old ↦ elim (NodeStep-fresh x (step cid row acc) old) [
          | inl older ↦ inl older
          | inr (new, there) ↦ inr (new, scan_grows l acc' x there)
        ]
      ]

  pub scan_source :
      (l : List (String × NodeRow)) (acc : Acc) (x : String)
      → Elem x (scan f l acc).0
      → Elem x acc.0
        ⊎ (Elem x (scan f l acc).1
            × (row : NodeRow) × (m : String) × Elem (x, row) l
            × (row.merged_into ≡ some m)
            × Elem m f)
  unfolding scan
  scan_source [] acc x h = inl h
  scan_source ((cid, row) ∷ l) acc x h =
      let acc' = scan_node f (cid, row) acc in
      elim (scan_source l acc' x h) [
        | inr (new, row', m, here, e, inside) ↦ inr (new, row', m, inr here, e, inside)
        | inl old ↦ elim (NodeStep-source x (step cid row acc) old) [
          | inl older ↦ inl older
          | inr (q, new, m, e, inside) ↦
              inr (scan_next l acc' x new, row, m, inl (ap (λ y. (y, row)) q), e, inside)
        ]
      ]

  pub scan_finds :
      (l : List (String × NodeRow)) (acc : Acc) (cid m : String) (row : NodeRow)
      → Elem (cid, row) l
      → row.merged_into ≡ some m
      → Elem m f
      → Elem cid (scan f l acc).0
  unfolding scan
  scan_finds [] acc cid m row h e inside = absurd h
  scan_finds ((cid', row') ∷ l) acc cid m row (inl q) e inside =
      scan_grows l (scan_node f (cid', row') acc) cid (
        subst (λ (p : String × NodeRow). Elem cid (scan_node f p acc).0) q
          (scan_node_finds f cid row acc.0 acc.1 m e inside))
  scan_finds ((cid', row') ∷ l) acc cid m row (inr r) e inside =
      scan_finds l (scan_node f (cid', row') acc) cid m row r e inside
