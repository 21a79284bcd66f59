-- ===== src/MemStore/Basics.antt =====
-- The plain writes keep the store valid, and what they write is read back.
use braincrawl.Base.{
  String, Option, none, some, ◌==◌, string_eq, pair_eq, triple_eq, ◌≡◌, ◌≢◌, inl, inr, refl, ap,
  subst, arith, Option-cases, Bool-cases, eq_of_beq,
}
use braincrawl.Base.Map.{Map, get, insert, get-insert}
use braincrawl.Types.{CanonicalId, Alias, NodeKind, Json, Artifact, as_str}
use braincrawl.MemStore.{
  NodeRow, EdgeKey, EdgeAssertions, MemStoreInner, alias_key, get_or_create_alias, create_node,
  upsert_node_assertion, put_edge,
}
use braincrawl.MemStore.Invariant.{IsLive, IsNode, RedirectsDown, OwnersLive-grow, IsValid}
use braincrawl.MemStore.Artifacts.{record_artifact}

-- Adding a row whose owner is live.
insert_owned :
    {V : Type 0} (nodes : Map String NodeRow) (m : Map (String × String) V) (k : String × String)
    (v : V)
    → IsLive nodes k.0
    → ((id name : String) (w : V) → get (id, name) m ≡ some w → IsLive nodes id)
    → (id name : String) (w : V) → get (id, name) (insert k v m) ≡ some w
    → IsLive nodes id
insert_owned nodes m k v l o id name w h = elim (Bool-cases (k == (id, name))) [
  | inl q ↦ subst (λ (x : String × String). IsLive nodes x.0) (eq_of_beq k (id, name) q) l
  | inr q ↦ o id name w (ground (arith, get-insert k (id, name) v m))
]

insert_edge :
    (nodes : Map String NodeRow) (m : Map EdgeKey EdgeAssertions) (key : EdgeKey)
    (v : EdgeAssertions)
    → IsLive nodes key.0 × IsLive nodes key.1
    → ((a b r : String) (w : EdgeAssertions)
        → get (a, b, r) m ≡ some w
        → IsLive nodes a × IsLive nodes b)
    → (k : EdgeKey) (w : EdgeAssertions) → get k (insert key v m) ≡ some w
    → IsLive nodes k.0 × IsLive nodes k.1
insert_edge nodes m key v l o k w h = elim (Bool-cases (key == k)) [
  | inl q ↦ subst (λ (x : EdgeKey). IsLive nodes x.0 × IsLive nodes x.1) (eq_of_beq key k q) l
  | inr q ↦ o k.0 k.1 k.2 w (ground (arith, get-insert key k v m))
]

-- A new node, not merged into any.
module _ (nodes : Map String NodeRow) (id : String) (row : NodeRow) (new : get id nodes ≡ none)
    (live : row.merged_into ≡ none) where
  insert-IsNode : (j : String) → IsNode nodes j → IsNode (insert id row nodes) j
  insert-IsNode j (old, e) = elim (Bool-cases (id == j)) [
    | inl q ↦ (row, ground (arith, get-insert id j row nodes))
    | inr q ↦ (old, ground (arith, get-insert id j row nodes))
  ]

  insert-IsLive : (j : String) → IsLive nodes j → IsLive (insert id row nodes) j
  insert-IsLive j (old, e, m) =
      let ne : id ≢ j = λ q. cc (new, e, ap (λ x. get x nodes) q) in
      (old, ground (arith, get-insert id j row nodes, string_eq.beq_iff id j), m)

  insert-RedirectsDown : RedirectsDown nodes → RedirectsDown (insert id row nodes)
  insert-RedirectsDown r = record {
    down = λ j n old e m. r.down j n old (before j n old e m) m;
    target = λ j n old e m. insert-IsNode n (r.target j n old (before j n old e m) m);
  }
    where
      before :
          (j n : String) (old : NodeRow)
          → get j (insert id row nodes) ≡ some old
          → old.merged_into ≡ some n
          → get j nodes ≡ some old
      before j n old e m = ground (arith, get-insert id j row nodes)

  insert_node-IsLive : IsLive (insert id row nodes) id
  insert_node-IsLive =
      (row, ground (arith, get-insert id id row nodes, string_eq.beq_iff id id), live)

module _ (s : MemStoreInner) (v : IsValid s) where
  pub get_or_create_alias-IsValid :
      (a : Alias) (id : CanonicalId) → IsLive s.nodes id → IsValid (get_or_create_alias a id s).1
  unfolding get_or_create_alias
  get_or_create_alias-IsValid a id l = elim (Option-cases (get (alias_key a) s.aliases)) [
    | inr (old, there) ↦ rw (there, get_or_create_alias) v
    | inl gone ↦
        rw (gone, get_or_create_alias)
          (record {
            redirects = v.redirects;
            owners = record {
              aliases = λ k j h. elim (Bool-cases (alias_key a == k)) [
                | inl q ↦
                    subst (IsLive s.nodes) (ground (arith, get-insert (alias_key a) k id s.aliases))
                      l
                | inr q ↦
                    v.owners.aliases k j (ground (arith, get-insert (alias_key a) k id s.aliases))
              ];
              assertions = v.owners.assertions;
              edges = v.owners.edges;
              artifacts = v.owners.artifacts;
            };
          })
  ]

  pub upsert_node_assertion-IsValid :
      (id : CanonicalId) (source : String) (attrs : Json) (fetched_at : String)
      → IsLive s.nodes id
      → IsValid (upsert_node_assertion id source attrs fetched_at s).1
  unfolding upsert_node_assertion
  upsert_node_assertion-IsValid id source attrs fetched_at l = record {
    redirects = v.redirects;
    owners = record {
      aliases = v.owners.aliases;
      assertions = insert_owned s.nodes s.node_assertions (id, source) _ l v.owners.assertions;
      edges = v.owners.edges;
      artifacts = v.owners.artifacts;
    };
  }

  pub record_artifact-IsValid :
      (d : Artifact) → IsLive s.nodes d.canonical_id → IsValid (record_artifact d s).1
  unfolding record_artifact
  record_artifact-IsValid d l = record {
    redirects = v.redirects;
    owners = record {
      aliases = v.owners.aliases;
      assertions = v.owners.assertions;
      edges = v.owners.edges;
      artifacts =
          insert_owned s.nodes s.artifacts (d.canonical_id, as_str d.role) _ l v.owners.artifacts;
    };
  }

  pub put_edge-IsValid :
      (src dst : CanonicalId) (relation source : String) (attrs : Option Json) (fetched_at : String)
      → IsLive s.nodes src
      → IsLive s.nodes dst
      → IsValid (put_edge src dst relation source attrs fetched_at s).1
  unfolding put_edge
  put_edge-IsValid src dst relation source attrs fetched_at l k = record {
    redirects = v.redirects;
    owners = record {
      aliases = v.owners.aliases;
      assertions = v.owners.assertions;
      edges = λ a b r.
          insert_edge s.nodes s.edges (src, dst, relation) _ (l, k) v.owners.edges (a, b, r);
      artifacts = v.owners.artifacts;
    };
  }

  pub create_node-IsValid :
      (id : CanonicalId) (kind : NodeKind) (created_at : String)
      → IsValid (create_node id kind created_at s).1
  unfolding create_node
  create_node-IsValid id kind created_at = elim (Option-cases (get id s.nodes)) [
    | inr (old, there) ↦ rw (there, create_node) v
    | inl gone ↦
        let row : NodeRow = record { kind = kind; created_at = created_at; merged_into = none } in
        rw (gone, create_node)
          (record {
            redirects = insert-RedirectsDown s.nodes id row gone refl v.redirects;
            owners =
                OwnersLive-grow s (insert id row s.nodes) (insert-IsLive s.nodes id row gone refl)
                  v.owners;
          })
  ]

  -- A node that was not there is live once it is created.
  pub create_node-IsLive :
      (id : CanonicalId) (kind : NodeKind) (created_at : String)
      → get id s.nodes ≡ none
      → IsLive (create_node id kind created_at s).1.nodes id
  unfolding create_node
  create_node-IsLive id kind created_at gone =
      let row : NodeRow = record { kind = kind; created_at = created_at; merged_into = none } in
      rw (gone, create_node) (insert_node-IsLive s.nodes id row gone refl)

  pub create_node_keeps_IsLive :
      (id : CanonicalId) (kind : NodeKind) (created_at : String) (j : String)
      → IsLive s.nodes j
      → IsLive (create_node id kind created_at s).1.nodes j
  unfolding create_node
  create_node_keeps_IsLive id kind created_at j l = elim (Option-cases (get id s.nodes)) [
    | inr (old, there) ↦ rw (there, create_node) l
    | inl gone ↦
        let row : NodeRow = record { kind = kind; created_at = created_at; merged_into = none } in
        rw (gone, create_node) (insert-IsLive s.nodes id row gone refl j l)
  ]
