-- ===== src/MemStore/Delete/Closure.antt =====
-- The loop of the deletion ends, with exactly the nodes that lead to the root.
use braincrawl.Base.{
  ℕ, zero, suc, ◌<◌, String, Bool, true, not, some, List, [], ◌∷◌, length, contains, string_eq, ◌≡◌,
  ◌⊎◌, inl, inr, refl, sym, subst, arith, Bool-cases, Elem, Elem-contains, contains-Elem,
  not-contains,
}
use braincrawl.Base.Map.{
  Map, get, entries, get_of_Elem, Elem-of_get, count_keys, count_keys-le-length, count_keys-lt,
}
use braincrawl.Exec.{ok}
use braincrawl.MemStore.{NodeRow}
use braincrawl.MemStore.Invariant.{IsLive, IsNode, Leads, stop, hop}
use braincrawl.MemStore.Delete.{scan, network_from, network_ids}
use braincrawl.MemStore.Delete.Network.{scan_grows, scan_fresh, scan_source, scan_finds}

List-cases : (xs : List String) → (xs ≡ []) ⊎ ((x : String) × Elem x xs)
List-cases [] = inl refl
List-cases (x ∷ xs) = inr (x, inl refl)

abbrev unseen : List String → String → Bool
unseen seen k = not (contains seen k)

module _ (nodes : Map String NodeRow) (root : String) where
  -- What holds between the rounds.
  record Rounds (seen frontier : List String) : Type 0 where
    has_root : Elem root seen
    in_seen : (x : String) → Elem x frontier → Elem x seen
    closing :
        (id n : String) (row : NodeRow)
        → get id nodes ≡ some row
        → row.merged_into ≡ some n
        → Elem n seen
        → Elem id seen ⊎ Elem n frontier
    sound : (x : String) → Elem x seen → Leads nodes x root

  -- What the loop returns: the nodes that lead to the root, and no others.
  pub record IsNetwork (net : List String) : Type 0 where
    pub sound : (x : String) → Elem x net → Leads nodes x root
    pub complete : (x : String) → Leads nodes x root → Elem x net

  complete_of_closed :
      (net : List String)
      → Elem root net
      → ((id n : String) (row : NodeRow)
          → get id nodes ≡ some row
          → row.merged_into ≡ some n
          → Elem n net
          → Elem id net)
      → {x top : String} → Leads nodes x top
      → top ≡ root
      → Elem x net
  complete_of_closed net r c (stop l) q = subst (λ y. Elem y net) (sym q) r
  complete_of_closed net r c {x} (hop {n = n} row e m rest) q =
      c x n row e m (complete_of_closed net r c rest q)

  -- A round keeps the invariant.
  round :
      (seen frontier : List String)
      → Rounds seen frontier
      → let acc = scan frontier (entries nodes) (seen, []) in Rounds acc.0 acc.1
  round seen frontier i = record {
    has_root = scan_grows frontier l start root i.has_root;
    in_seen = λ x h. elim (scan_fresh frontier l start x h) [
      | inl e ↦ absurd e
      | inr (new, there) ↦ there
    ];
    closing = λ id n row e m h. elim (scan_source frontier l start n h) [
      | inr (new, row', m', here, e', inside) ↦ inr new
      | inl old ↦ elim (i.closing id n row e m old) [
        | inl seen_id ↦ inl (scan_grows frontier l start id seen_id)
        | inr in_frontier ↦
            inl (scan_finds frontier l start id n row (Elem-of_get id row nodes e) m in_frontier)
      ]
    ];
    sound = λ x h. elim (scan_source frontier l start x h) [
      | inl old ↦ i.sound x old
      | inr (new, row, m, here, e, inside) ↦
          hop row (get_of_Elem x row nodes here) e (i.sound m (i.in_seen m inside))
    ];
  }
    where
      l : List (String × NodeRow)
      l = entries nodes

      start : List String × List String
      start = (seen, [])

  -- A round that finds something leaves fewer nodes unseen.
  fewer :
      (seen frontier : List String) (x : String)
      → Rounds seen frontier
      → Elem x (scan frontier (entries nodes) (seen, [])).1
      → IsNode nodes x
      → count_keys (unseen (scan frontier (entries nodes) (seen, [])).0) nodes
        < count_keys (unseen seen) nodes
  fewer seen frontier x i h (row, e) =
      let l = entries nodes in
      let seen' = (scan frontier l (seen, [])).0 in
      elim (scan_fresh frontier l (seen, []) x h) [
        | inl e' ↦ absurd e'
        | inr (new, there) ↦
            count_keys-lt (unseen seen') (unseen seen) nodes x row shrinks e
              (rw (contains-Elem seen' x there)) (rw (not-contains seen x new))
      ]
    where
      shrinks :
          (k : String)
          → unseen (scan frontier (entries nodes) (seen, [])).0 k ≡ true
          → unseen seen k ≡ true
      shrinks k out = elim (Bool-cases (contains seen k)) [
        | inr f ↦ rw f
        | inl t ↦ cc (
          out,
          contains-Elem (scan frontier (entries nodes) (seen, [])).0 k
              (scan_grows frontier (entries nodes) (seen, []) k (Elem-contains seen k t)),
        )
      ]

  is_node : {x : String} → Leads nodes x root → IsNode nodes x
  is_node (stop (row, e, m)) = (row, e)
  is_node (hop row e m rest) = (row, e)

  network_from_lem :
      (fuel : ℕ) (seen frontier : List String)
      → Rounds seen frontier
      → (frontier ≡ []) × (0 < fuel) ⊎ (suc (count_keys (unseen seen) nodes) < fuel)
      → (net : List String) × (network_from fuel (entries nodes) seen frontier ≡ ok net)
        × IsNetwork net
  unfolding network_from
  network_from_lem zero seen frontier i enough = absurd (ground arith)
  network_from_lem (suc fuel) seen [] i enough = (
    seen,
    refl,
    record {
      sound = i.sound;
      complete = λ x l. complete_of_closed seen i.has_root (closed i) l refl;
    },
  )
    where
      closed :
          Rounds seen []
          → (id n : String) (row : NodeRow) → get id nodes ≡ some row
          → row.merged_into ≡ some n
          → Elem n seen
          → Elem id seen
      closed i id n row e m h = elim (i.closing id n row e m h) [
        | inl in_seen ↦ in_seen
        | inr e' ↦ absurd e'
      ]
  network_from_lem (suc fuel) seen (f ∷ frontier) i enough =
      let acc = scan (f ∷ frontier) (entries nodes) (seen, []) in
      network_from_lem fuel acc.0 acc.1 next (elim (List-cases acc.1) [
        | inl q ↦ inl (q, ground arith)
        | inr (x, h) ↦ inr (
            ground
              (arith, fewer seen (f ∷ frontier) x i h (is_node (next.sound x (next.in_seen x h)))))
      ])
    where
      next :
          Rounds
            (scan (f ∷ frontier) (entries nodes) (seen, [])).0
            (scan (f ∷ frontier) (entries nodes) (seen, [])).1
      next = round seen (f ∷ frontier) i

-- From a live node, the walk of the deletion ends, and finds exactly the nodes that lead to it.
pub network_ids-IsNetwork :
    (nodes : Map String NodeRow) (root : String)
    → IsLive nodes root
    → (net : List String) × (network_ids nodes root ≡ ok net) × IsNetwork nodes root net
unfolding network_ids
network_ids-IsNetwork nodes root l =
    network_from_lem nodes root (suc (suc (length nodes))) (root ∷ []) (root ∷ [])
      (record {
        has_root = inl refl;
        in_seen = λ x h. h;
        closing = λ id n row e m h. inr h;
        sound = λ x h. elim h [
          | inl q ↦ subst (λ y. Leads nodes y root) (sym q) (stop l)
          | inr e ↦ absurd e
        ];
      })
      (inr (omega (arith, count_keys-le-length (unseen (root ∷ [])) nodes)))
