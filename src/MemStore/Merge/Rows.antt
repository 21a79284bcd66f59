-- ===== src/MemStore/Merge/Rows.antt =====
-- Where `merge` leaves the rows of each table.
use braincrawl.Base.{
  String, str_lt, str_lt_irrefl, subst, Bool, true, false, Option, none, some, List, ◌==◌,
  string_eq, pair_eq, triple_eq, ◌≡◌, ◌≢◌, ◌⊎◌, inl, inr, refl, sym, ap, ap₂, ◌∙◌, arith,
  Option-cases, Bool-cases, Elem, Elem-filter, filter, eq_of_beq, ne_of_beq, beq_refl,
}
use braincrawl.Base.Map.{Map, get, keys, Elem-keys}
use braincrawl.MemStore.{EdgeAssertionRow, EdgeAssertions, EdgeKey}
use braincrawl.MemStore.Repoint.{
  moved, move_all, stays_gone, stays_present, move_all_present, move_all-none, move_all_origin,
  move_all_one, move_all_other,
}
use braincrawl.MemStore.Merge.Sources.{
  Asserts, AssertsSince, fold_edges-grows, fold_edges-joins, fold_edges-splits,
}
use braincrawl.MemStore.Merge.{
  repointed, to_survivor, repoint_edge, ends_in, merge_edges, fold_edges,
}

-- The keys of the loser, for the tables whose keys begin with the owner.
module _ {V : Type 0} (survivor loser : String) (ne : survivor ≢ loser) (fold : Option V → V → V)
    (m : Map (String × String) V) where
  abbrev owned : List (String × String)
  owned = filter (λ k. k.0 == loser) (keys m)

  owned_loser : (k : String × String) → Elem k owned → k.0 ≡ loser
  owned_loser k h = eq_of_beq k.0 loser ((Elem-filter (λ x. x.0 == loser) k (keys m)).0 h).1

  owned_away : (k : String × String) → Elem k owned → to_survivor survivor k ≢ k
  owned_away k h q = ne (ap (λ x. x.0) q ∙ owned_loser k h)

  owned_all : (name : String) → Elem (loser, name) owned ⊎ (get (loser, name) m ≡ none)
  owned_all name = elim (Option-cases (get (loser, name) m)) [
    | inl gone ↦ inr gone
    | inr (row, found) ↦ inl (
        (Elem-filter (λ x. x.0 == loser) (loser, name) (keys m)).1
          (Elem-keys (loser, name) row m found, beq_refl loser))
  ]

  pub owned_gone :
      (name : String) → get (loser, name) (move_all (to_survivor survivor) fold owned m) ≡ none
  owned_gone name = elim (owned_all name) [
    | inl there ↦
        move_all-none (to_survivor survivor) fold (λ k. refl) owned (loser, name) m owned_away there
    | inr gone ↦
        stays_gone (to_survivor survivor) fold (λ k. refl) owned (loser, name) m owned_away
          (λ q. ne (ap (λ x. x.0) q)) gone
  ]

  pub owned-moved :
      (name : String)
      → get (survivor, name) (move_all (to_survivor survivor) fold owned m)
        ≡ moved (to_survivor survivor) fold (get (survivor, name) m) (get (loser, name) m)
  owned-moved name =
      move_all_one (to_survivor survivor) fold (λ k. refl) owned (survivor, name) (loser, name) m
        owned_away (λ k h q. ap₂ (λ x y. (x, y)) (owned_loser k h) (ap (λ x. x.1) q)) refl
        (λ q. ne (ap (λ x. x.0) q)) (owned_all name)

  pub owned_other :
      (id name : String)
      → id ≢ survivor
      → id ≢ loser
      → get (id, name) (move_all (to_survivor survivor) fold owned m) ≡ get (id, name) m
  owned_other id name p q =
      move_all_other (to_survivor survivor) fold (λ k. refl) owned (id, name) m owned_away
        (λ k h. (λ t. q (sym (ap (λ x. x.0) t) ∙ owned_loser k h), λ t. p (sym (ap (λ x. x.0) t))))

-- Where rows are after the moves, they were the survivor's, the loser's, or that owner's before.
module _ {V : Type 0} (survivor loser : String) (ne : survivor ≢ loser) (fold : Option V → V → V)
    (m : Map (String × String) V) where
  pub owned_origin :
      (id name : String) (v : V)
      → get (id, name) (move_all (to_survivor survivor) fold (owned survivor loser ne fold m) m)
        ≡ some v
      → (id ≡ survivor) ⊎ ((id ≢ loser) × (w : V) × (get (id, name) m ≡ some w))
  owned_origin id name v h = elim (Bool-cases (id == loser)) [
    | inl q ↦
        let same = ap (λ x. get (x, name) after) (eq_of_beq id loser q) in
        cc (h, same, owned_gone survivor loser ne fold m name)
    | inr q ↦ elim (Bool-cases (id == survivor)) [
      | inl p ↦ inl (eq_of_beq id survivor p)
      | inr p ↦
          let not_loser = ne_of_beq id loser q in
          let same =
            owned_other survivor loser ne fold m id name (ne_of_beq id survivor p) not_loser in
          inr (not_loser, v, sym same ∙ h)
    ]
  ]
    where
      after : Map (String × String) V
      after = move_all (to_survivor survivor) fold (owned survivor loser ne fold m) m

-- An end after the merge: the survivor's in place of the loser's.
abbrev pub EndOf : String → String → String → String → Type 0
EndOf survivor loser u w = ((u ≡ loser) × (w ≡ survivor)) ⊎ ((u ≢ loser) × (w ≡ u))

-- What an edge becomes.
abbrev pub Becomes : String → String → EdgeKey → EdgeKey → Type 0
Becomes survivor loser i k =
    EndOf survivor loser i.0 k.0 × EndOf survivor loser i.1 k.1 × (k.2 ≡ i.2)

-- The edges before and after a merge.
pub record MergesEdges (survivor loser : String) (m after : Map EdgeKey EdgeAssertions)
    : Type 0 where
  pub gone : (a b r : String) → (a ≡ loser) ⊎ (b ≡ loser) → get (a, b, r) after ≡ none
  pub present :
      (i k : EdgeKey) (rows : EdgeAssertions)
      → Becomes survivor loser i k
      → get i m ≡ some rows
      → (rows' : EdgeAssertions) × (get k after ≡ some rows')
  pub since :
      (i k : EdgeKey) (rows : EdgeAssertions) (source : String) (row : EdgeAssertionRow)
      → Becomes survivor loser i k
      → get i m ≡ some rows
      → get source rows ≡ some row
      → (rows' : EdgeAssertions) × (row' : EdgeAssertionRow) × (get k after ≡ some rows')
        × (get source rows' ≡ some row')
        × (str_lt row'.fetched_at row.fetched_at ≡ false)
  pub origin :
      (k : EdgeKey) (rows : EdgeAssertions)
      → get k after ≡ some rows
      → (i : EdgeKey) × (rows' : EdgeAssertions) × Becomes survivor loser i k
        × (get i m ≡ some rows')
  pub asserted :
      (k : EdgeKey) (rows : EdgeAssertions) (source : String) (row : EdgeAssertionRow)
      → get k after ≡ some rows
      → get source rows ≡ some row
      → (i : EdgeKey) × (rows' : EdgeAssertions) × Becomes survivor loser i k
        × (get i m ≡ some rows')
        × (get source rows' ≡ some row)

-- The edges: each end that was the loser is the survivor.
module _ (survivor loser : String) (ne : survivor ≢ loser) (m : Map EdgeKey EdgeAssertions) where
  abbrev rename : EdgeKey → EdgeKey
  rename = repoint_edge survivor loser

  abbrev touches : EdgeKey → Bool
  touches k = ends_in loser k

  repointed_twice :
      (id : String)
      → repointed survivor loser (repointed survivor loser id) ≡ repointed survivor loser id
  repointed_twice id = ground (arith, string_eq.beq_iff id loser, string_eq.beq_iff survivor loser)

  repointed_changes : (id : String) → (id == loser) ≡ true → repointed survivor loser id ≢ id
  repointed_changes id h q = ne (ground (arith, string_eq.beq_iff id loser))

  settled : (k : EdgeKey) → rename (rename k) ≡ rename k
  settled (a, b, r) = cc (repointed_twice a, repointed_twice b)

  touched_moves : (k : EdgeKey) → touches k ≡ true → rename k ≢ k
  touched_moves (a, b, r) h q = elim (Bool-cases (a == loser)) [
    | inl t ↦ repointed_changes a t (ap (λ x. x.0) q)
    | inr f ↦ repointed_changes b (ground arith) (ap (λ x. x.1) q)
  ]

  untouched_stays : (k : EdgeKey) → touches k ≡ false → rename k ≡ k
  untouched_stays (a, b, r) h = ground arith

  abbrev touched : List EdgeKey
  touched = filter touches (keys m)

  away : (k : EdgeKey) → Elem k touched → rename k ≢ k
  away k h = touched_moves k ((Elem-filter touches k (keys m)).0 h).1

  is_touched :
      (k : EdgeKey) (row : EdgeAssertions) → get k m ≡ some row → touches k ≡ true → Elem k touched
  is_touched k row found h = (Elem-filter touches k (keys m)).1 (Elem-keys k row m found, h)

  -- No edge ends in the loser any more.
  pub merge_edges_gone :
      (k : EdgeKey) → touches k ≡ true → get k (merge_edges survivor loser m) ≡ none
  unfolding merge_edges
  merge_edges_gone k h = elim (Option-cases (get k m)) [
    | inl gone ↦ stays_gone rename fold_edges settled touched k m away (touched_moves k h) gone
    | inr (row, found) ↦
        move_all-none rename fold_edges settled touched k m away (is_touched k row found h)
  ]

  -- What holds of a row, and is kept by the fold, holds of the row between the merged ends.
  edges_present :
      (P : EdgeAssertions → Type 0)
      → ((old : Option EdgeAssertions) (row : EdgeAssertions) → P row → P (fold_edges old row))
      → ((w row : EdgeAssertions) → P w → P (fold_edges (some w) row))
      → (k : EdgeKey) (row : EdgeAssertions) → get k m ≡ some row
      → P row
      → (row' : EdgeAssertions) × (get (rename k) (merge_edges survivor loser m) ≡ some row')
        × P row'
  unfolding merge_edges
  edges_present P joins grows k row h p = elim (Bool-cases (touches k)) [
    | inl t ↦
        move_all_present rename fold_edges settled P joins grows touched k m row away
          (is_touched k row h t) h p
    | inr f ↦
        stays_present rename fold_edges settled P joins grows touched (rename k) m row away
          (settled k) (ap (λ x. get x m) (untouched_stays k f) ∙ h) p
  ]

  -- An edge that is there was there, between ends that are now merged; and what the fold takes from
  -- one of two rows was in a row there.
  edges_origin :
      (Q : EdgeAssertions → Type 0)
      → ((old : Option EdgeAssertions) (row : EdgeAssertions)
          → Q (fold_edges old row)
          → Q row ⊎ ((w : EdgeAssertions) × (old ≡ some w) × Q w))
      → (k : EdgeKey) (row : EdgeAssertions) → get k (merge_edges survivor loser m) ≡ some row
      → Q row
      → (i : EdgeKey) × (row' : EdgeAssertions) × (get i m ≡ some row') × Q row' × (rename i ≡ k)
  unfolding merge_edges
  edges_origin Q splits k row h hv =
      let (i, w, found, hw, way) =
        move_all_origin rename fold_edges settled Q splits touched k m row away h hv in
      (
        i,
        w,
        found,
        hw,
        elim way [ inr q ↦ q | inl q ↦ ap rename q ∙ untouched_stays k (untouched k row h) ],
      )
    where
      untouched :
          (k : EdgeKey) (row : EdgeAssertions)
          → get k (merge_edges survivor loser m) ≡ some row
          → touches k ≡ false
      untouched k row h = elim (Bool-cases (touches k)) [
        | inl t ↦ cc (merge_edges_gone k t)
        | inr f ↦ f
      ]

  pub merge_edges_origin :
      (k : EdgeKey) (row : EdgeAssertions)
      → get k (merge_edges survivor loser m) ≡ some row
      → (i : EdgeKey) × (row' : EdgeAssertions) × (get i m ≡ some row') × (rename i ≡ k)
  merge_edges_origin k row h =
      let (i, w, found, u, q) = edges_origin (λ x. Unit) (λ old x y. inl tt) k row h tt in
      (i, w, found, q)

  becomes-rename : (i k : EdgeKey) → Becomes survivor loser i k → rename i ≡ k
  becomes-rename (a, b, r) (x, y, z) (p, q, e) = cc (end-renamed a x p, end-renamed b y q, e)
    where
      end-renamed : (u w : String) → EndOf survivor loser u w → repointed survivor loser u ≡ w
      end-renamed u w h = ground (arith, string_eq.beq_iff u loser)

  rename-Becomes : (i : EdgeKey) → Becomes survivor loser i (rename i)
  rename-Becomes (a, b, r) = (end_of a, end_of b, refl)
    where
      end_of : (u : String) → EndOf survivor loser u (repointed survivor loser u)
      end_of u = elim (Bool-cases (u == loser)) [
        | inl t ↦ inl (eq_of_beq u loser t, rw t refl)
        | inr f ↦ inr (ne_of_beq u loser f, rw f refl)
      ]

  -- What a merge of two different nodes does to the edges: none ends in the loser any more. Between the
  -- merged ends of an edge that was there is one with all its sources, each with an assertion that is
  -- no older. And an edge that is there was there, between ends that are now merged, and each of its
  -- assertions was that of such an edge.
  pub merge_edges_lem : MergesEdges survivor loser m (merge_edges survivor loser m)
  merge_edges_lem = record {
    gone = λ a b r e.
        merge_edges_gone (a, b, r)
          (elim e [
            | inl q ↦ ground (arith, string_eq.beq_iff a loser)
            | inr q ↦ ground (arith, string_eq.beq_iff b loser)
          ]);
    present = λ i k rows way found.
        let (rows', there, u) =
          edges_present (λ x. Unit) (λ old x y. tt) (λ w x y. tt) i rows found tt in
        (
          rows',
          ap (λ x. get x (merge_edges survivor loser m)) (sym (becomes-rename i k way)) ∙ there,
        );
    since = λ i k rows source row way found has.
        let (rows', there, (row', is, old)) =
          edges_present (AssertsSince source row.fetched_at)
            (fold_edges-joins source row.fetched_at) (fold_edges-grows source row.fetched_at) i rows
            found (row, has, str_lt_irrefl row.fetched_at) in
        (
          rows',
          row',
          ap (λ x. get x (merge_edges survivor loser m)) (sym (becomes-rename i k way)) ∙ there,
          is,
          old,
        );
    origin = λ k rows there.
        let (i, rows', found, q) = merge_edges_origin k rows there in
        (i, rows', subst (Becomes survivor loser i) q (rename-Becomes i), found);
    asserted = λ k rows source row there has.
        let (i, rows', found, is, q) =
          edges_origin (Asserts source row) (fold_edges-splits source row) k rows there has in
        (i, rows', subst (Becomes survivor loser i) q (rename-Becomes i), found, is);
  }
