-- ===== src/MemStore/Resolve.antt =====
-- `resolve_live`: it ends, it finds the live representative, and the path compression changes no
-- node's representative.
use braincrawl.Base.{
  ℕ, zero, suc, ◌<◌, String, Bool, true, none, some, List, [], ◌∷◌, ◌++◌, ◌==◌, string_eq, pair_eq,
  triple_eq, string_ord, ◌≡◌, ◌≢◌, ◌⊎◌, inl, inr, refl, ap, ◌∙◌, subst, append-nil, append_assoc,
  arith, Option-cases, Bool-cases, str_lt, str_lt_trans, str_lt_irrefl, length, All, eq_of_beq,
}
use braincrawl.Base.Map.{Map, get, count_keys, count_keys-le-length, count_keys-lt}
use braincrawl.Base.Sort.{All-weaken}
use braincrawl.Types.{CanonicalId, not_found}
use braincrawl.Exec.{ok, err}
use braincrawl.MemStore.{NodeRow, MemStoreInner, redirect, walk, compress, compressed, resolve_live}
use braincrawl.MemStore.Invariant.{
  IsLive, IsNode, RedirectsDown, IsValid, OwnersLive-grow, Leads, stop, hop, get-redirect,
  redirected, redirect-IsLive, redirect-IsNode_back, redirect-RedirectsDown, Leads-IsLive,
}

-- What the walk passes on its way to the root: nodes above the root that lead there.
abbrev PassesTo : Map String NodeRow → String → List String → Type 0
PassesTo nodes root chain = All (λ c. (str_lt root c ≡ true) × Leads nodes c root) chain

abbrev below : String → String → Bool
below id k = str_lt k id

module _ (nodes : Map String NodeRow) (fuel : ℕ) (id : String) where
  walk_stop :
      (chain : List String) (row : NodeRow)
      → get id nodes ≡ some row
      → row.merged_into ≡ none
      → walk (suc fuel) nodes id chain ≡ ok (id, chain)
  unfolding walk
  walk_stop chain row e m = rw (e, walk) (rw m)

  walk_hop :
      (n : String) (chain : List String) (row : NodeRow)
      → get id nodes ≡ some row
      → row.merged_into ≡ some n
      → walk (suc fuel) nodes id chain ≡ walk fuel nodes n (chain ++ id ∷ [])
  unfolding walk
  walk_hop n chain row e m = rw (e, walk) (rw m)

-- A node has one live representative.
pub Leads-unique :
    {nodes : Map String NodeRow} {id a b : String} → Leads nodes id a → Leads nodes id b → a ≡ b
Leads-unique (stop l) (stop k) = refl
Leads-unique (stop (row, e, m)) (hop row' e' m' rest) = cc
Leads-unique (hop row e m rest) (stop (row', e', m')) = cc
Leads-unique {nodes} {b = b} (hop {n = n} row e m rest) (hop {n = n'} row' e' m' rest') =
    let same : n' ≡ n = ground arith in Leads-unique rest (subst (λ x. Leads nodes x b) same rest')

module _ (nodes : Map String NodeRow) (r : RedirectsDown nodes) where
  -- A redirect leaves fewer nodes below.
  fewer_below :
      (id n : String) (row : NodeRow)
      → get id nodes ≡ some row
      → row.merged_into ≡ some n
      → count_keys (below n) nodes < count_keys (below id) nodes
  fewer_below id n row e m =
      let (target, found) = r.target id n row e m in
      count_keys-lt (below n) (below id) nodes n target
        (λ k h. str_lt_trans k n id h (r.down id n row e m)) found (str_lt_irrefl n)
        (r.down id n row e m)

  -- Every node leads to a live one; the redirects cannot go round.
  pub Leads-total :
      (fuel : ℕ) (id : String)
      → IsNode nodes id
      → count_keys (below id) nodes < fuel
      → (root : String) × Leads nodes id root
  Leads-total zero id h lt = absurd (omega arith)
  Leads-total (suc fuel) id (row, e) lt = elim (Option-cases row.merged_into) [
    | inl live ↦ (id, stop (row, e, live))
    | inr (n, m) ↦
        let (root, rest) =
          Leads-total fuel n (r.target id n row e m) (omega (arith, fewer_below id n row e m)) in
        (root, hop row e m rest)
  ]

  pub Leads-down : {id root : String} → Leads nodes id root → (id ≡ root) ⊎ (str_lt root id ≡ true)
  Leads-down (stop l) = inl refl
  Leads-down {id = id} {root = root} (hop {n = n} row e m rest) = elim (Leads-down rest) [
    | inl q ↦ inr (rw (← q) (r.down id n row e m))
    | inr lt ↦ inr (str_lt_trans root n id lt (r.down id n row e m))
  ]

  root_below :
      (id : String) {n root : String}
      → Leads nodes n root
      → (row : NodeRow) → get id nodes ≡ some row
      → row.merged_into ≡ some n
      → str_lt root id ≡ true
  root_below id {n} {root} rest row e m = elim (Leads-down rest) [
    | inl q ↦ rw (← q) (r.down id n row e m)
    | inr lt ↦ str_lt_trans root n id lt (r.down id n row e m)
  ]

  walk_lem :
      (fuel : ℕ) (id root : String) (chain : List String)
      → Leads nodes id root
      → count_keys (below id) nodes < fuel
      → (passed : List String) × (walk fuel nodes id chain ≡ ok (root, chain ++ passed))
        × PassesTo nodes root passed
  walk_lem zero id root chain l lt = absurd (omega arith)
  walk_lem (suc fuel) id root chain (stop (row, e, m)) lt =
      ([], rw (append-nil chain) (walk_stop nodes fuel id chain row e m), tt)
  walk_lem (suc fuel) id root chain (hop {n = n} row e m rest) lt =
      let (passed, returns, pass) =
        walk_lem fuel n root (chain ++ id ∷ []) rest (omega (arith, fewer_below id n row e m)) in
      (
        id ∷ passed,
        walk_hop nodes fuel id n chain row e m
            ∙ returns
            ∙ ap (λ c. ok (root, c)) (append_assoc chain (id ∷ []) passed),
        ((root_below id rest row e m, hop row e m rest), pass),
      )

-- `after` holds the nodes of `before`, with the same live representatives.
pub record SameLeads (before after : Map String NodeRow) : Type 0 where
  pub live : (j : String) → IsLive before j → IsLive after j
  pub leads : (j root : String) → Leads before j root → Leads after j root
  pub node : (j : String) → IsNode after j → IsNode before j

module _ (nodes : Map String NodeRow) (c root : String) (lt : str_lt root c ≡ true)
    (to : Leads nodes c root) where
  not_live : (j : String) → IsLive nodes j → j ≢ c
  not_live j l q =
      let same : root ≡ c = Leads-unique to (stop (subst (IsLive nodes) q l)) in
      cc (str_lt_irrefl c, ap (λ x. str_lt x c) same)

  still-IsLive : (j : String) → IsLive nodes j → IsLive (redirect c root nodes) j
  still-IsLive j l = redirect-IsLive nodes c root j (not_live j l) l

  still-Leads : {j top : String} → Leads nodes j top → Leads (redirect c root nodes) j top
  still-Leads (stop l) = stop (still-IsLive _ l)
  still-Leads {j} {top} (hop {n = n} row e m rest) = elim (Bool-cases (c == j)) [
    | inl q ↦
        let here : c ≡ j = eq_of_beq c j q in
        let same : top ≡ root =
          Leads-unique (hop row e m rest) (subst (λ x. Leads nodes x root) here to) in
        hop (redirected root row) (ground (arith, get-redirect c root j nodes)) refl (
          subst (λ x. Leads (redirect c root nodes) x top) same
            (stop (still-IsLive top (Leads-IsLive rest))))
    | inr q ↦ hop row (ground (arith, get-redirect c root j nodes)) m (still-Leads rest)
  ]

-- Compression of nodes that lead to `root` keeps every node's representative.
compress_lem :
    (root : String) (chain : List String) (nodes : Map String NodeRow)
    → RedirectsDown nodes
    → IsLive nodes root
    → PassesTo nodes root chain
    → RedirectsDown (compress root chain nodes) × SameLeads nodes (compress root chain nodes)
unfolding compress
compress_lem root [] nodes r l p =
    (r, record { live = λ j h. h; leads = λ j t h. h; node = λ j h. h })
compress_lem root (c ∷ chain) nodes r (row, e, m) ((lt, to), p) =
    let nodes' = redirect c root nodes in
    let kept : PassesTo nodes' root chain =
      All-weaken (λ x. (str_lt root x ≡ true) × Leads nodes x root) str_lt chain
        (λ x h. (h.0, still-Leads nodes c root lt to h.1)) p in
    let (r', same) =
      compress_lem root chain nodes' (redirect-RedirectsDown nodes c root r lt (row, e))
        (still-IsLive nodes c root lt to root (row, e, m)) kept in
    (
      r',
      record {
        live = λ j h. same.live j (still-IsLive nodes c root lt to j h);
        leads = λ j t h. same.leads j t (still-Leads nodes c root lt to h);
        node = λ j h. redirect-IsNode_back nodes c root j (same.node j h);
      },
    )

-- `resolve_live` of a node in a valid store: what it returns and what it leaves.
pub record Resolves (s : MemStoreInner) (id : CanonicalId) : Type 0 where
  pub root : CanonicalId
  pub leads : Leads s.nodes id root
  pub nodes : Map String NodeRow
  pub returns : resolve_live id s ≡ (ok root, record s { nodes = nodes })
  pub same : SameLeads s.nodes nodes
  pub redirects : RedirectsDown nodes

-- Where redirects lead down, `resolve_live` of a node ends and returns the live node that it
-- leads to; it changes the redirects alone, still down, and each live node stays live, each node
-- leads where it led, and no node is added.
pub resolve_live-Resolves :
    (s : MemStoreInner) (id : CanonicalId)
    → RedirectsDown s.nodes
    → IsNode s.nodes id
    → Resolves s id
unfolding resolve_live
resolve_live-Resolves s id r h =
    let fits = count_keys-le-length (below id) s.nodes in
    let fuel = suc (length s.nodes) in
    let (root, l) = Leads-total s.nodes r fuel id h (omega arith) in
    let (passed, walked, pass) = walk_lem s.nodes r fuel id root [] l (omega arith) in
    let (r', same) = compress_lem root passed s.nodes r (Leads-IsLive l) pass in
    record {
      root = root;
      leads = l;
      nodes = compress root passed s.nodes;
      returns = ap (compressed s) walked;
      same = same;
      redirects = r';
    }

-- A live node is its own representative, and the store stays as it is.
pub resolve_live-live :
    (s : MemStoreInner) (id : CanonicalId) → IsLive s.nodes id → resolve_live id s ≡ (ok id, s)
unfolding resolve_live compress
resolve_live-live s id (row, e, m) =
    ap (compressed s) (walk_stop s.nodes (length s.nodes) id [] row e m)

-- An id that is no node is not found.
pub resolve_live-none :
    (s : MemStoreInner) (id : CanonicalId)
    → get id s.nodes ≡ none
    → resolve_live id s ≡ (err not_found, s)
unfolding resolve_live walk
resolve_live-none s id e = rw (e, walk)

-- Resolving keeps the store valid.
pub resolve_live-IsValid :
    (s : MemStoreInner) (id : CanonicalId)
    → IsNode s.nodes id
    → IsValid s
    → IsValid (resolve_live id s).1
resolve_live-IsValid s id h v =
    let r = resolve_live-Resolves s id v.redirects h in
    rw r.returns
      (record { redirects = r.redirects; owners = OwnersLive-grow s r.nodes r.same.live v.owners })
