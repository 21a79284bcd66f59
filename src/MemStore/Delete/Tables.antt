-- ===== src/MemStore/Delete/Tables.antt =====
-- The rows that a deletion removes, and what its plan counts, by the one live node of the network.
use braincrawl.Base.{
  String, Bool, true, not, none, some, List, [], ◌∷◌, contains, ◌&&◌, ◌||◌, ◌==◌, string_eq,
  pair_eq, triple_eq, if◌then◌else◌, ◌≡◌, ◌↔◌, inl, inr, refl, sym, ap, ◌∙◌, arith, Option-cases,
  Bool-cases, Elem, Elem-append, Elem-append_left, Elem-append_right, count, subst,
}
use braincrawl.Base.Map.{get, get-retain, entries, get_of_Elem, Elem-of_get}
use braincrawl.Types.{Artifact, CanonicalId}
use braincrawl.MemStore.{EdgeKey, EdgeAssertions, MemStoreInner}
use braincrawl.MemStore.Invariant.{IsLive, IsValid}
use braincrawl.MemStore.Delete.{network_rows, keys_of_rows, plan_of, without_network}

-- Tests that agree on a list count the same.
count_same :
    {A : Type 0} (p q : A → Bool) (l : List A)
    → ((x : A) → Elem x l → p x ≡ q x)
    → count p l ≡ count q l
count_same p q [] h = refl
count_same p q (x ∷ l) h =
    let here = h x (inl refl) in
    let later = count_same p q l (λ y e. h y (inr e)) in
    elim (Bool-cases (q x)) [
      | inl t ↦ rw (here ∙ t, t) (omega (arith, later))
      | inr f ↦ rw (here ∙ f, f) later
    ]

-- The descriptors of the rows whose node is in the network.
network_rows_iff :
    (net : List String) (d : Artifact) (l : List ((String × String) × List Artifact))
    → Elem d (network_rows net l) ↔ (
        (key : String × String) × (rows : List Artifact) × Elem (key, rows) l
        × (contains net key.0 ≡ true)
        × Elem d rows)
unfolding network_rows
network_rows_iff net d [] = (λ e. absurd e, λ h. absurd h.2)
network_rows_iff net d ((key, rows) ∷ l) = elim (Bool-cases (contains net key.0)) [
  | inl t ↦ rw t (
    λ e. elim (Elem-append d rows (network_rows net l) e) [
      | inl here ↦ (key, rows, inl refl, t, here)
      | inr later ↦ let (k, r, w, c, f) = (network_rows_iff net d l).0 later in (k, r, inr w, c, f)
    ],
    λ h.
        let (k, r, w, c, g) = h in
        elim w [
          | inl q ↦
              Elem-append_left d rows (network_rows net l)
                (subst (λ (x : (String × String) × List Artifact). Elem d x.1) q g)
          | inr w' ↦
              Elem-append_right d rows (network_rows net l)
                ((network_rows_iff net d l).1 (k, r, w', c, g))
        ],
  )
  | inr f ↦ rw f (
    λ e. let (k, r, w, c, g) = (network_rows_iff net d l).0 e in (k, r, inr w, c, g),
    λ h.
        let (k, r, w, c, g) = h in
        elim w [
          | inl q ↦
              cc (f, c, ap (λ (x : (String × String) × List Artifact). contains net (x.0).0) q)
          | inr w' ↦ (network_rows_iff net d l).1 (k, r, w', c, g)
        ],
  )
]

map-Elem_iff :
    (key : String) (rows : List Artifact)
    → Elem key (keys_of_rows rows) ↔ ((d : Artifact) × Elem d rows × (d.r2_key ≡ key))
map-Elem_iff key [] = (λ e. absurd e, λ h. absurd h.1)
map-Elem_iff key (r ∷ rows) = (
  λ e. elim e [
    | inl q ↦ (r, inl refl, sym q)
    | inr l ↦ let (d, w, q) = (map-Elem_iff key rows).0 l in (d, inr w, q)
  ],
  λ h. elim h.1 [
    | inl same ↦ inl (sym h.2 ∙ ap (λ (x : Artifact). x.r2_key) same)
    | inr w ↦ inr ((map-Elem_iff key rows).1 (h.0, w, h.2))
  ],
)

module _ (s : MemStoreInner) (v : IsValid s) (id : CanonicalId) (net : List String)
    (has : contains net id ≡ true)
    (lives : (cid : String) → IsLive s.nodes cid → contains net cid ≡ (cid == id)) where
  abbrev after : MemStoreInner
  after = without_network net s

  pub assertions_left :
      (j source : String)
      → get (j, source) after.node_assertions
        ≡ (if j == id then none else get (j, source) s.node_assertions)
  unfolding without_network
  assertions_left j source =
      get-retain (λ (k : String × String) _. not (contains net k.0)) (j, source) s.node_assertions
      ∙ elim (Option-cases (get (j, source) s.node_assertions)) [
        | inl gone ↦ rw gone (ground arith)
        | inr (row, e) ↦
            let same = lives j (v.owners.assertions j source row e) in rw (e, same) (ground arith)
      ]

  pub artifacts_left :
      (j role : String)
      → get (j, role) after.artifacts ≡ (if j == id then none else get (j, role) s.artifacts)
  unfolding without_network
  artifacts_left j role =
      get-retain (λ (k : String × String) _. not (contains net k.0)) (j, role) s.artifacts
      ∙ elim (Option-cases (get (j, role) s.artifacts)) [
        | inl gone ↦ rw gone (ground arith)
        | inr (rows, e) ↦
            let same = lives j (v.owners.artifacts j role rows e) in rw (e, same) (ground arith)
      ]

  pub edges_left :
      (a b r : String)
      → get (a, b, r) after.edges ≡ (if (a == id) || (b == id) then none else get (a, b, r) s.edges)
  unfolding without_network
  edges_left a b r =
      get-retain (λ (k : EdgeKey) _. not (contains net k.0) && not (contains net k.1)) (a, b, r)
        s.edges
      ∙ elim (Option-cases (get (a, b, r) s.edges)) [
        | inl gone ↦ rw gone (ground arith)
        | inr (row, e) ↦
            let (l, m) = v.owners.edges a b r row e in rw (e, lives a l, lives b m) (ground arith)
      ]

  pub aliases_counted :
      (plan_of s net).alias_count
      ≡ count (λ (e : (String × String) × String). e.1 == id) (entries s.aliases)
  unfolding plan_of
  aliases_counted =
      count_same (λ (e : (String × String) × String). contains net e.1)
        (λ (e : (String × String) × String). e.1 == id) (entries s.aliases)
        (λ e l. lives e.1 (v.owners.aliases e.0 e.1 (get_of_Elem e.0 e.1 s.aliases l)))

  pub edges_counted :
      (plan_of s net).edge_count
      ≡ count (λ (e : EdgeKey × EdgeAssertions). (e.0.0 == id) || (e.0.1 == id)) (entries s.edges)
  unfolding plan_of
  edges_counted =
      count_same (λ (e : EdgeKey × EdgeAssertions). contains net (e.0).0 || contains net (e.0).1)
        (λ (e : EdgeKey × EdgeAssertions). (e.0.0 == id) || (e.0.1 == id)) (entries s.edges)
        (λ e l.
          let (m, n) = v.owners.edges e.0.0 e.0.1 e.0.2 e.1 (get_of_Elem e.0 e.1 s.edges l) in
          rw (lives e.0.0 m, lives e.0.1 n) refl)

  -- The keys are those of the work's own files.
  pub keys_listed :
      (key : String)
      → Elem key (plan_of s net).r2_keys ↔ (
          (role : String) × (rows : List Artifact) × (d : Artifact) × (get (id, role) s.artifacts
            ≡ some rows)
          × Elem d rows
          × (d.r2_key ≡ key))
  unfolding plan_of
  keys_listed key =
      let all = network_rows net (entries s.artifacts) in
      (
        λ e.
            let (d, w, q) = (map-Elem_iff key all).0 e in
            let (k, rows, there, c, f) = (network_rows_iff net d (entries s.artifacts)).0 w in
            let found = get_of_Elem k rows s.artifacts there in
            let same : k.0 ≡ id =
              (string_eq.beq_iff k.0 id).0
                (sym (lives k.0 (v.owners.artifacts k.0 k.1 rows found)) ∙ c) in
            (k.1, rows, d, ap (λ x. get (x, k.1) s.artifacts) (sym same) ∙ found, f, q),
        λ h.
            let (role, rows, d, found, w, q) = h in
            (map-Elem_iff key all).1 (
              d,
              (network_rows_iff net d (entries s.artifacts)).1
                  ((id, role), rows, Elem-of_get (id, role) rows s.artifacts found, has, w),
              q,
            ),
      )
