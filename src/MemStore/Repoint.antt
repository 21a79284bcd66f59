-- ===== src/MemStore/Repoint.antt =====
-- The moves of `merge`: the rows of some keys go to other keys, and are folded there with what
-- those hold.
use mathlib.Core.Option.{some-injective}
use braincrawl.Base.{
  false, Option, none, some, List, [], ◌∷◌, ◌==◌, Eq, ◌≡◌, ◌≢◌, ◌⊎◌, inl, inr, refl, sym, ap, ◌∙◌,
  ap₂, subst, arith, Option-cases, Bool-cases, if◌then◌else◌, Elem,
}
use braincrawl.Base.Map.{Map, get, insert, remove, get-insert, get-remove}

module _ {K V : Type 0} ⦃e : Eq K⦄ (rename : K → K) (fold : Option V → V → V) where
  -- One round: `remove(&key).unwrap()`, then the fold into the new key. The keys of the loop come
  -- from the map and differ, so the key is there; were it not, the source would panic.
  unfoldable pub move : K → Map K V → Map K V
  move key m = elim (get key m) [
    | none ↦ m
    | some row ↦ let m' = remove key m in insert (rename key) (fold (get (rename key) m') row) m'
  ]

  unfoldable pub move_all : List K → Map K V → Map K V
  move_all [] m = m
  move_all (k ∷ ks) m = move_all ks (move k m)

  abbrev pub moved : Option V → Option V → Option V
  moved old none = old
  moved old (some row) = some (fold old row)

  get-move :
      (k j : K) (m : Map K V)
      → rename k ≢ k
      → get j (move k m)
        ≡ (if k == j then none else if rename k == j then moved (get j m) (get k m) else get j m)
  unfolding move
  get-move k j m ne = elim (Option-cases (get k m)) [
    | inl gone ↦ rw (gone, move) (ground (arith, e.beq_iff k j))
    | inr (row, found) ↦
        rw (found, move)
          (let m' = remove k m in
            ground (
              arith,
              e.beq_iff k j,
              e.beq_iff k (rename k),
              e.beq_iff (rename k) j,
              get-remove k j m,
              get-remove k (rename k) m,
              get-insert (rename k) j (fold (get (rename k) m') row) m',
            ))
  ]

  move_here : (k : K) (m : Map K V) → rename k ≢ k → get k (move k m) ≡ none
  move_here k m ne = ground (arith, get-move k k m ne, e.beq_iff k k)

  move_target :
      (k j : K) (m : Map K V)
      → rename k ≢ k
      → rename k ≡ j
      → get j (move k m) ≡ moved (get j m) (get k m)
  move_target k j m ne q = ground (
    arith,
    get-move k j m ne,
    e.beq_iff k j,
    e.beq_iff (rename k) j,
    λ (p : k ≡ j). ne (q ∙ sym p),
  )

  move_elsewhere :
      (k j : K) (m : Map K V) → rename k ≢ k → k ≢ j → rename k ≢ j → get j (move k m) ≡ get j m
  move_elsewhere k j m ne p q =
      ground (arith, get-move k j m ne, e.beq_iff k j, e.beq_iff (rename k) j)

  -- What holds of every row, and is kept by the fold, holds of every row after the moves.
  pub move_all_keeps :
      (P : V → Type 0)
      → ((old : Option V) (row : V) → ((w : V) → old ≡ some w → P w) → P row → P (fold old row))
      → (ks : List K) (m : Map K V) → ((k : K) (v : V) → get k m ≡ some v → P v)
      → (k : K) (v : V) → get k (move_all ks m) ≡ some v
      → P v
  unfolding move_all move
  move_all_keeps P keeps [] m all j v h = all j v h
  move_all_keeps P keeps (k ∷ ks) m all i u g = move_all_keeps P keeps ks (move k m) one i u g
    where
      one : (j : K) (v : V) → get j (move k m) ≡ some v → P v
      one j v h = elim (Option-cases (get k m)) [
        | inl gone ↦ all j v (rw (gone, move) at h)
        | inr (row, found) ↦ elim (Bool-cases (rename k == j)) [
          | inl q ↦
              let old = get (rename k) (remove k m) in
              let same : fold old row ≡ v =
                ground (arith, get-insert (rename k) j (fold old row) (remove k m)) in
              subst P same (
                keeps old row (λ w e. all (rename k) w (ground (arith, get-remove k (rename k) m)))
                  (all k row found))
          | inr q ↦
              let old = get (rename k) (remove k m) in
              all j v (
                ground
                  (arith, get-remove k j m, get-insert (rename k) j (fold old row) (remove k m)))
        ]
      ]

  module _ (settled : (k : K) → rename (rename k) ≡ rename k) where
    -- A key that moves away does not come back.
    pub stays_gone :
        (ks : List K) (j : K) (m : Map K V)
        → ((k : K) → Elem k ks → rename k ≢ k)
        → rename j ≢ j
        → get j m ≡ none
        → get j (move_all ks m) ≡ none
    unfolding move_all
    stays_gone [] j m away ne h = h
    stays_gone (k ∷ ks) j m away ne h =
        stays_gone ks j (move k m) (λ i r. away i (inr r)) ne
          (ground (
            arith,
            get-move k j m (away k (inl refl)),
            e.beq_iff (rename k) j,
            settled k,
            λ (q : rename k ≡ j). ne (subst (λ x. rename x ≡ x) q (settled k)),
          ))

    pub move_all-none :
        (ks : List K) (j : K) (m : Map K V)
        → ((k : K) → Elem k ks → rename k ≢ k)
        → Elem j ks
        → get j (move_all ks m) ≡ none
    unfolding move_all
    move_all-none [] j m away h = absurd h
    move_all-none (k ∷ ks) j m away (inl q) =
        stays_gone ks j (move k m) (λ i r. away i (inr r))
          (subst (λ x. rename x ≢ x) (sym q) (away k (inl refl)))
          (subst (λ x. get x (move k m) ≡ none) (sym q) (move_here k m (away k (inl refl))))
    move_all-none (k ∷ ks) j m away (inr r) =
        move_all-none ks j (move k m) (λ i s. away i (inr s)) r

    -- What is there after the moves was there before, at the same key or at one that moved, and what
    -- holds of a folded row only where it holds of one of the two held of it.
    pub move_all_origin :
        (Q : V → Type 0)
        → ((old : Option V) (row : V) → Q (fold old row) → Q row ⊎ ((w : V) × (old ≡ some w) × Q w))
        → (ks : List K) (j : K) (m : Map K V) (v : V) → ((k : K) → Elem k ks → rename k ≢ k)
        → get j (move_all ks m) ≡ some v
        → Q v
        → (i : K) × (w : V) × (get i m ≡ some w) × Q w × ((i ≡ j) ⊎ (rename i ≡ j))
    unfolding move_all
    move_all_origin Q splits [] j m v away h hv = (j, v, h, hv, inl refl)
    move_all_origin Q splits (k ∷ ks) j m v away h hv =
        let (i, w, found, hw, way) =
          move_all_origin Q splits ks j (move k m) v (λ x r. away x (inr r)) h hv in
        let ne = away k (inl refl) in
        elim (Bool-cases (k == i)) [
          | inl q ↦ absurd (ground (arith, get-move k i m ne))
          | inr p ↦ elim (Bool-cases (rename k == i)) [
            | inr q ↦ (i, w, ground (arith, get-move k i m ne), hw, way)
            | inl q ↦
                let target : rename k ≡ i = (e.beq_iff (rename k) i).0 q in
                elim (Option-cases (get k m)) [
                  | inl gone ↦ (i, w, ground (arith, get-move k i m ne), hw, way)
                  | inr (u, there) ↦
                      let same : w ≡ fold (get i m) u =
                        some-injective w (fold (get i m) u)
                          (sym found ∙ move_target k i m ne target ∙ ap (moved (get i m)) there) in
                      elim (splits (get i m) u (subst Q same hw)) [
                        | inl hu ↦ (k, u, there, hu, inr (arrives i target way))
                        | inr (x, was, hx) ↦ (i, x, was, hx, way)
                      ]
                ]
          ]
        ]
      where
        arrives : (i : K) → rename k ≡ i → (i ≡ j) ⊎ (rename i ≡ j) → rename k ≡ j
        arrives i t (inl q) = t ∙ q
        arrives i t (inr q) = sym (settled k) ∙ ap rename t ∙ q

    -- A key that one other key moves to.
    pub move_all_one :
        (ks : List K) (j from : K) (m : Map K V)
        → ((k : K) → Elem k ks → rename k ≢ k)
        → ((k : K) → Elem k ks → rename k ≡ j → k ≡ from)
        → rename from ≡ j
        → j ≢ from
        → Elem from ks ⊎ (get from m ≡ none)
        → get j (move_all ks m) ≡ moved (get j m) (get from m)
    unfolding move_all
    move_all_one [] j from m away one goes ne (inl h) = absurd h
    move_all_one [] j from m away one goes ne (inr h) = rw h
    move_all_one (k ∷ ks) j from m away one goes ne h = elim (Bool-cases (k == from)) [
      | inl q ↦
          let here : k ≡ from = (e.beq_iff k from).0 q in
          let gone : get from (move k m) ≡ none =
            subst (λ x. get x (move k m) ≡ none) here (move_here k m (away k (inl refl))) in
          move_all_one ks j from (move k m) (λ i r. away i (inr r)) (λ i r. one i (inr r)) goes ne
            (inr gone)
          ∙ rw gone (
              move_target k j m (away k (inl refl)) (ap rename here ∙ goes)
              ∙ ap (λ x. moved (get j m) (get x m)) here)
      | inr q ↦
          let differ : k ≢ from = ground (arith, e.beq_iff k from) in
          let misses : rename k ≢ j = λ t. differ (one k (inl refl) t) in
          let rests : rename j ≡ j = subst (λ x. rename x ≡ x) goes (settled from) in
          let apart : k ≢ j = λ t. away k (inl refl) (subst (λ x. rename x ≡ x) (sym t) rests) in
          let other : rename k ≢ from =
            λ t. ne (sym goes ∙ subst (λ x. rename x ≡ x) t (settled k)) in
          let same = move_elsewhere k from m (away k (inl refl)) differ other in
          let IH =
            move_all_one ks j from (move k m) (λ i r. away i (inr r)) (λ i r. one i (inr r)) goes
              ne in
          IH (still q same h)
          ∙ ap₂ moved (move_elsewhere k j m (away k (inl refl)) apart misses) same
    ]
      where
        still :
            (k == from) ≡ false
            → get from (move k m) ≡ get from m
            → Elem from (k ∷ ks) ⊎ (get from m ≡ none)
            → Elem from ks ⊎ (get from (move k m) ≡ none)
        still q same (inl (inl p)) = absurd (ground (arith, e.beq_iff k from))
        still q same (inl (inr r)) = inl r
        still q same (inr g) = inr (same ∙ g)

    pub move_all_other :
        (ks : List K) (j : K) (m : Map K V)
        → ((k : K) → Elem k ks → rename k ≢ k)
        → ((k : K) → Elem k ks → (k ≢ j) × (rename k ≢ j))
        → get j (move_all ks m) ≡ get j m
    unfolding move_all
    move_all_other [] j m away other = refl
    move_all_other (k ∷ ks) j m away other =
        move_all_other ks j (move k m) (λ i r. away i (inr r)) (λ i r. other i (inr r))
        ∙ move_elsewhere k j m (away k (inl refl)) (other k (inl refl)).0 (other k (inl refl)).1

    module _ (P : V → Type 0) (joins : (old : Option V) (row : V) → P row → P (fold old row))
        (grows : (w row : V) → P w → P (fold (some w) row)) where
      -- A row at a key that does not move stays, folded or not.
      pub stays_present :
          (ks : List K) (j : K) (m : Map K V) (v : V)
          → ((k : K) → Elem k ks → rename k ≢ k)
          → rename j ≡ j
          → get j m ≡ some v
          → P v
          → (w : V) × (get j (move_all ks m) ≡ some w) × P w
      unfolding move_all
      stays_present [] j m v away fixed h hv = (v, h, hv)
      stays_present (k ∷ ks) j m v away fixed h hv =
          let ne = away k (inl refl) in
          let apart : k ≢ j = λ q. ne (subst (λ x. rename x ≡ x) (sym q) fixed) in
          let (u, still, hu) = present k ne apart in
          stays_present ks j (move k m) u (λ i r. away i (inr r)) fixed still hu
        where
          present : (k : K) → rename k ≢ k → k ≢ j → (u : V) × (get j (move k m) ≡ some u) × P u
          present k ne apart = elim (Bool-cases (rename k == j)) [
            | inr q ↦
                (v, move_elsewhere k j m ne apart (ground (arith, e.beq_iff (rename k) j)) ∙ h, hv)
            | inl q ↦ elim (Option-cases (get k m)) [
              | inl gone ↦ (v, ground (arith, move_target k j m ne, e.beq_iff (rename k) j), hv)
              | inr (row, there) ↦ (
                fold (some v) row,
                ground (arith, move_target k j m ne, e.beq_iff (rename k) j),
                grows v row hv,
              )
            ]
          ]

      -- A row that was there is there at the key that its own moves to.
      pub move_all_present :
          (ks : List K) (i : K) (m : Map K V) (v : V)
          → ((k : K) → Elem k ks → rename k ≢ k)
          → Elem i ks
          → get i m ≡ some v
          → P v
          → (w : V) × (get (rename i) (move_all ks m) ≡ some w) × P w
      unfolding move_all
      move_all_present [] i m v away here h hv = absurd here
      move_all_present (k ∷ ks) i m v away here h hv = elim (Bool-cases (k == i)) [
        | inl q ↦
            let same : k ≡ i = (e.beq_iff k i).0 q in
            let goes = move_target k (rename i) m (away k (inl refl)) (ap rename same) in
            stays_present ks (rename i) (move k m) (fold (get (rename i) m) v)
              (λ x r. away x (inr r)) (settled i)
              (goes ∙ ap (moved (get (rename i) m)) (ap (λ x. get x m) same ∙ h))
              (joins (get (rename i) m) v hv)
        | inr q ↦
            let differ : k ≢ i = ground (arith, e.beq_iff k i) in
            let away_i : rename i ≢ i = away i here in
            let misses : rename k ≢ i = λ t. away_i (subst (λ x. rename x ≡ x) t (settled k)) in
            move_all_present ks i (move k m) v (λ x r. away x (inr r)) (later q here)
              (move_elsewhere k i m (away k (inl refl)) differ misses ∙ h) hv
      ]
        where
          later : (k == i) ≡ false → Elem i (k ∷ ks) → Elem i ks
          later q (inl p) = absurd (ground (arith, e.beq_iff k i))
          later q (inr r) = r
