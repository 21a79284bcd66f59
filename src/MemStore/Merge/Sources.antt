-- ===== src/MemStore/Merge/Sources.antt =====
-- What the fold of two edges' assertions holds of each source.
use braincrawl.Base.{
  String, false, Option, none, some, List, [], ◌∷◌, ◌==◌, string_eq, ◌≡◌, ◌⊎◌, inl, inr, refl, sym,
  ap, ◌∙◌, subst, Elem, Bool-cases, Option-cases, str_lt, str_lt_irrefl, str_lt_trans, eq_of_beq,
}
use braincrawl.Base.Sort.{str_lt-IsOrder}
use braincrawl.Base.Map.{get, insert, get-insert, entries, get_of_Elem, Elem-of_get}
use braincrawl.MemStore.{EdgeAssertionRow, EdgeAssertions, or_default}
use braincrawl.MemStore.Merge.{newer_edge, add_assertions, fold_edges}

-- The source is there with this assertion.
abbrev pub Asserts : String → EdgeAssertionRow → EdgeAssertions → Type 0
Asserts source row rows = get source rows ≡ some row

-- The source is there with an assertion that was not fetched before this time.
abbrev pub AssertsSince : String → String → EdgeAssertions → Type 0
AssertsSince source at rows =
    (row : EdgeAssertionRow) × (get source rows ≡ some row) × (str_lt row.fetched_at at ≡ false)

newer_since :
    (old row : EdgeAssertionRow) (at : String)
    → str_lt old.fetched_at at ≡ false
    → str_lt (newer_edge (some old) row).fetched_at at ≡ false
unfolding newer_edge
newer_since old row at h = elim (Bool-cases (str_lt old.fetched_at row.fetched_at)) [
  | inr f ↦ rw f h
  | inl t ↦ rw t (elim (Bool-cases (str_lt row.fetched_at at)) [
    | inr g ↦ g
    | inl u ↦ cc (str_lt_trans old.fetched_at row.fetched_at at t u, h)
  ])
]

newer_itself :
    (old : Option EdgeAssertionRow) (row : EdgeAssertionRow)
    → str_lt (newer_edge old row).fetched_at row.fetched_at ≡ false
unfolding newer_edge
newer_itself none row = str_lt_irrefl row.fetched_at
newer_itself (some old) row = elim (Bool-cases (str_lt old.fetched_at row.fetched_at)) [
  | inl t ↦ rw t (str_lt_irrefl row.fetched_at)
  | inr f ↦ rw f f
]

add_grows :
    (source at : String) (l : List (String × EdgeAssertionRow)) (target : EdgeAssertions)
    → AssertsSince source at target
    → AssertsSince source at (add_assertions target l)
unfolding add_assertions
add_grows source at [] target h = h
add_grows source at ((src, row) ∷ l) target (old, there, h) =
    let new = newer_edge (get src target) row in
    add_grows source at l (insert src new target) (elim (Bool-cases (src == source)) [
      | inr f ↦ (old, get-insert src source new target ∙ rw f there, h)
      | inl t ↦
          let found : get src target ≡ some old =
            ap (λ x. get x target) (eq_of_beq src source t) ∙ there in
          (
            new,
            get-insert src source new target ∙ rw t refl,
            subst (λ x. str_lt (newer_edge x row).fetched_at at ≡ false) (sym found)
                (newer_since old row at h),
          )
    ])

add_joins :
    (source : String) (row : EdgeAssertionRow) (l : List (String × EdgeAssertionRow))
    (target : EdgeAssertions)
    → Elem (source, row) l
    → AssertsSince source row.fetched_at (add_assertions target l)
unfolding add_assertions
add_joins source row [] target e = absurd e
add_joins source row ((src, r) ∷ l) target (inr e) =
    add_joins source row l (insert src (newer_edge (get src target) r) target) e
add_joins source row ((src, r) ∷ l) target (inl q) =
    let new = newer_edge (get src target) r in
    let here : source ≡ src = ap (λ (x : String × EdgeAssertionRow). x.0) q in
    let same : row ≡ r = ap (λ (x : String × EdgeAssertionRow). x.1) q in
    add_grows source row.fetched_at l (insert src new target) (
      new,
      get-insert src source new target ∙ rw ((string_eq.beq_iff src source).1 (sym here)) refl,
      subst (λ (x : EdgeAssertionRow). str_lt new.fetched_at x.fetched_at ≡ false) (sym same)
          (newer_itself (get src target) r),
    )

newer_either :
    (old : Option EdgeAssertionRow) (row : EdgeAssertionRow)
    → (newer_edge old row ≡ row) ⊎ (old ≡ some (newer_edge old row))
unfolding newer_edge
newer_either none row = inl refl
newer_either (some old) row = elim (Bool-cases (str_lt old.fetched_at row.fetched_at)) [
  | inl t ↦ inl (rw t refl)
  | inr f ↦ inr (rw f refl)
]

add_splits :
    (source : String) (row : EdgeAssertionRow) (l : List (String × EdgeAssertionRow))
    (target : EdgeAssertions)
    → Asserts source row (add_assertions target l)
    → Asserts source row target ⊎ Elem (source, row) l
unfolding add_assertions
add_splits source row [] target h = inl h
add_splits source row ((src, r) ∷ l) target h =
    let new = newer_edge (get src target) r in
    elim (add_splits source row l (insert src new target) h) [
      | inr e ↦ inr (inr e)
      | inl g ↦ elim (Bool-cases (src == source)) [
        | inr f ↦ inl (rw f at (sym (get-insert src source new target) ∙ g))
        | inl t ↦
            let here : src ≡ source = eq_of_beq src source t in
            let is : some new ≡ some row = rw t at (sym (get-insert src source new target) ∙ g) in
            elim (newer_either (get src target) r) [
              | inl q ↦ inr (inl (cc (here, is, q)))
              | inr q ↦ inl (ap (λ x. get x target) (sym here) ∙ q ∙ is)
            ]
      ]
    ]

module _ (source : String) where
  pub fold_edges-grows :
      (at : String) (w row : EdgeAssertions)
      → AssertsSince source at w
      → AssertsSince source at (fold_edges (some w) row)
  unfolding fold_edges
  fold_edges-grows at w row h = add_grows source at (entries row) w h

  pub fold_edges-joins :
      (at : String) (old : Option EdgeAssertions) (row : EdgeAssertions)
      → AssertsSince source at row
      → AssertsSince source at (fold_edges old row)
  unfolding fold_edges
  fold_edges-joins at old row (r, there, h) =
      let (x, found, since) =
        add_joins source r (entries row) (or_default old) (Elem-of_get source r row there) in
      (x, found, str_lt-IsOrder.neg_trans at r.fetched_at x.fetched_at h since)

  pub fold_edges-splits :
      (r : EdgeAssertionRow) (old : Option EdgeAssertions) (row : EdgeAssertions)
      → Asserts source r (fold_edges old row)
      → Asserts source r row ⊎ ((w : EdgeAssertions) × (old ≡ some w) × Asserts source r w)
  unfolding fold_edges get
  fold_edges-splits r old row h = elim (add_splits source r (entries row) (or_default old) h) [
    | inr e ↦ inl (get_of_Elem source r row e)
    | inl g ↦ elim (Option-cases old) [
      | inl q ↦ cc (rw q at g)
      | inr (w, q) ↦ inr (w, q, rw q at g)
    ]
  ]
