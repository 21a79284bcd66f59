-- ===== src/Store/Works/Collect.antt =====
-- The first and the last loop of `put_work` on the in-memory backend: which nodes the aliases of a
-- record name, and what attaching the aliases leaves.
use braincrawl.Base.{
  String, true, false, some, List, [], ◌∷◌, ◌++◌, any, ◌==◌, string_eq, pair_eq, ◌≡◌, ◌⊎◌, inl, inr,
  refl, sym, ap, subst, arith, Option-cases, Bool-cases, All, Elem, Elem-append, Elem-append_left,
  Elem-append_right, eq_of_beq,
}
use braincrawl.Base.Distinct.{Distinct, Distinct-append}
use braincrawl.Base.Map.{get}
use braincrawl.Types.{Alias, CanonicalId}
use braincrawl.Exec.{ok}
use braincrawl.MemStore.{MemStoreInner, alias_key, get_alias}
use braincrawl.MemStore.Backend.{mem_store}
use braincrawl.MemStore.Invariant.{IsLive, IsValid}
use braincrawl.MemStore.Resolve.{resolve_live-live}
use braincrawl.Store.Works.{push_new, collect}

-- One of the aliases names the node.
abbrev pub Names : MemStoreInner → List Alias → CanonicalId → Type 0
Names s aliases id = (a : Alias) × Elem a aliases × (get (alias_key a) s.aliases ≡ some id)

-- What the list of nodes holds after the loop.
pub record Collects (s : MemStoreInner) (aliases : List Alias) (guids : List CanonicalId)
    : Type 0 where
  pub out : List CanonicalId
  pub returns : collect mem_store aliases guids s ≡ (ok out, s)
  pub live : All (IsLive s.nodes) out
  pub distinct : Distinct out
  pub grows : (g : CanonicalId) → Elem g guids → Elem g out
  pub finds : (g : CanonicalId) → Names s aliases g → Elem g out
  pub sound : (g : CanonicalId) → Elem g out → Elem g guids ⊎ Names s aliases g

any-Elem : (g : String) (guids : List String) → any (λ x. x == g) guids ≡ true → Elem g guids
any-Elem g [] h = absurd cc
any-Elem g (x ∷ xs) h = elim (Bool-cases (x == g)) [
  | inl t ↦ inl (sym (eq_of_beq x g t))
  | inr f ↦ inr (any-Elem g xs (ground arith))
]

not_any-Elem : (g : String) (guids : List String) → any (λ x. x == g) guids ≡ false → ¬ Elem g guids
not_any-Elem g [] h e = e
not_any-Elem g (x ∷ xs) h (inl q) = ground (arith, string_eq.beq_iff x g)
not_any-Elem g (x ∷ xs) h (inr e) = not_any-Elem g xs (ground arith) e

-- Pushing a live node.
record Pushes (s : MemStoreInner) (g : CanonicalId) (guids : List CanonicalId) : Type 0 where
  live : All (IsLive s.nodes) (push_new mem_store g guids)
  distinct : Distinct (push_new mem_store g guids)
  grows : (x : CanonicalId) → Elem x guids → Elem x (push_new mem_store g guids)
  there : Elem g (push_new mem_store g guids)
  sound : (x : CanonicalId) → Elem x (push_new mem_store g guids) → Elem x guids ⊎ (x ≡ g)

All-append :
    (P : String → Type 0) (xs : List String) (x : String) → All P xs → P x → All P (xs ++ x ∷ [])
All-append P [] x h p = (p, tt)
All-append P (y ∷ ys) x (h, hs) p = (h, All-append P ys x hs p)

pushes :
    (s : MemStoreInner) (g : CanonicalId) (guids : List CanonicalId)
    → IsLive s.nodes g
    → All (IsLive s.nodes) guids
    → Distinct guids
    → Pushes s g guids
pushes s g guids l ls d = elim (Bool-cases (any (λ x. x == g) guids)) [
  | inl t ↦ record {
    live = rw t ls;
    distinct = rw t d;
    grows = λ x h. rw t h;
    there = rw t (any-Elem g guids t);
    sound = λ x h. inl (rw t at h);
  }
  | inr f ↦ record {
    live = rw f (All-append (IsLive s.nodes) guids g ls l);
    distinct = rw f (Distinct-append guids g (not_any-Elem g guids f) d);
    grows = λ x h. rw f (Elem-append_left x guids (g ∷ []) h);
    there = rw f (Elem-append_right g guids (g ∷ []) (inl refl));
    sound = λ x h. elim (Elem-append x guids (g ∷ []) (rw f at h)) [
      | inl old ↦ inl old
      | inr (inl q) ↦ inr q
      | inr (inr e) ↦ absurd e
    ];
  }
]

-- In a valid store the loop ends without a failure and without a change.
pub collect-Collects :
    (s : MemStoreInner) (aliases : List Alias) (guids : List CanonicalId)
    → IsValid s
    → All (IsLive s.nodes) guids
    → Distinct guids
    → Collects s aliases guids
unfolding collect get_alias
collect-Collects s [] guids v ls d = record {
  out = guids;
  returns = refl;
  live = ls;
  distinct = d;
  grows = λ g h. h;
  finds = λ g n. absurd n.1;
  sound = λ g h. inl h;
}
collect-Collects s (a ∷ rest) guids v ls d = elim (Option-cases (get (alias_key a) s.aliases)) [
  | inl gone ↦
      let later = collect-Collects s rest guids v ls d in
      record {
        out = later.out;
        returns = rw (gone, get_alias) later.returns;
        live = later.live;
        distinct = later.distinct;
        grows = later.grows;
        finds = λ g n. later.finds g (elim n.1 [
          | inl q ↦ absurd (cc (gone, n.2, ap (λ x. get (alias_key x) s.aliases) q))
          | inr e ↦ (n.0, e, n.2)
        ]);
        sound =
            λ g h. elim (later.sound g h) [ inl old ↦ inl old | inr n ↦ inr (n.0, inr n.1, n.2) ];
      }
  | inr (g, found) ↦
      let l = v.owners.aliases (alias_key a) g found in
      let p = pushes s g guids l ls d in
      let later = collect-Collects s rest (push_new mem_store g guids) v p.live p.distinct in
      record {
        out = later.out;
        returns = rw (found, get_alias) (rw (resolve_live-live s g l) later.returns);
        live = later.live;
        distinct = later.distinct;
        grows = λ x h. later.grows x (p.grows x h);
        finds = λ x n. elim n.1 [
          | inl q ↦
              let same : g ≡ x =
                ground (arith, found, n.2, ap (λ y. get (alias_key y) s.aliases) q) in
              subst (λ y. Elem y later.out) same (later.grows g p.there)
          | inr e ↦ later.finds x (n.0, e, n.2)
        ];
        sound = λ x h. elim (later.sound x h) [
          | inr n ↦ inr (n.0, inr n.1, n.2)
          | inl now ↦ elim (p.sound x now) [
            | inl old ↦ inl old
            | inr q ↦ inr (a, inl refl, rw q found)
          ]
        ];
      }
]
