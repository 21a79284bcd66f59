-- ===== src/MemStore/Merge/Keeps.antt =====
-- `merge` of one live node into a smaller one keeps the store valid.
use mathlib.Core.Option
use braincrawl.Base.{
  String, true, some, ◌==◌, string_eq, pair_eq, triple_eq, ◌≡◌, ◌≢◌, ◌⊎◌, inl, inr, refl, sym, ap,
  subst, arith, Option-cases, Bool-cases, str_lt, str_lt_irrefl, ne_of_beq,
}
use braincrawl.Base.Map.{Map, get, get-map_values}
use braincrawl.MemStore.{NodeRow, MemStoreInner, redirect}
use braincrawl.MemStore.Invariant.{
  IsLive, OwnersLive, IsValid, redirect-IsLive, redirect-RedirectsDown, Leads, stop, hop,
  redirected, get-redirect,
}
use braincrawl.MemStore.Merge.{
  newer, fold_artifacts, repointed, merge, merge_assertion_rows, merge_artifacts,
}
use braincrawl.MemStore.Merge.Rows.{owned_origin, merge_edges_origin}

-- When the use case calls `merge`: two live nodes, the survivor the smaller.
pub record CanMerge (s : MemStoreInner) (survivor loser : String) : Type 0 where
  pub survivor_live : IsLive s.nodes survivor
  pub loser_live : IsLive s.nodes loser
  pub smaller : str_lt survivor loser ≡ true

pub ne_of_lt : (a b : String) → str_lt a b ≡ true → a ≢ b
ne_of_lt a b lt q = cc (str_lt_irrefl b, ap (λ x. str_lt x b) q)

module _ (s : MemStoreInner) (survivor loser : String) (c : CanMerge s survivor loser) where
  differ : survivor ≢ loser
  differ = ne_of_lt survivor loser c.smaller

  abbrev after : Map String NodeRow
  after = redirect loser survivor s.nodes

  pub IsLive-after : (id : String) → id ≢ loser → IsLive s.nodes id → IsLive after id
  IsLive-after id ne l = redirect-IsLive s.nodes loser survivor id ne l

  pub survivor_after : IsLive after survivor
  survivor_after = IsLive-after survivor differ c.survivor_live

  repointed_after : (id : String) → IsLive s.nodes id → IsLive after (repointed survivor loser id)
  repointed_after id l = elim (Bool-cases (id == loser)) [
    | inl q ↦ rw q survivor_after
    | inr q ↦ rw q (IsLive-after id (ne_of_beq id loser q) l)
  ]

  pub get-merge_aliases :
      (k : String × String)
      → get k (merge survivor loser s).1.aliases
        ≡ Option.map (repointed survivor loser) (get k s.aliases)
  unfolding merge
  get-merge_aliases k = get-map_values (repointed survivor loser) k s.aliases

  alias_after :
      (k : String × String) (id : String)
      → get k (merge survivor loser s).1.aliases ≡ some id
      → OwnersLive s
      → IsLive after id
  alias_after k id h o = elim (Option-cases (get k s.aliases)) [
    | inl gone ↦ absurd (ground (arith, get-merge_aliases k))
    | inr (old, found) ↦
        let same : repointed survivor loser old ≡ id = ground (arith, get-merge_aliases k) in
        subst (IsLive after) same (repointed_after old (o.aliases k old found))
  ]

  -- A row of a table keyed by its owner.
  owned_after :
      {V : Type 0} (id name : String) (m : Map (String × String) V)
      → ((w : V) → get (id, name) m ≡ some w → IsLive s.nodes id)
      → (id ≡ survivor) ⊎ ((id ≢ loser) × (w : V) × (get (id, name) m ≡ some w))
      → IsLive after id
  owned_after id name m o (inl q) = subst (IsLive after) (sym q) survivor_after
  owned_after id name m o (inr (ne, w, found)) = IsLive-after id ne (o w found)

  merge-OwnersLive : OwnersLive s → OwnersLive (merge survivor loser s).1
  unfolding merge merge_assertion_rows merge_artifacts
  merge-OwnersLive o = record {
    aliases = λ k id h. alias_after k id h o;
    assertions = λ id source row h.
        owned_after id source s.node_assertions (o.assertions id source)
          (owned_origin survivor loser differ newer s.node_assertions id source row h);
    edges = λ a b r row h.
        let ((i, j, t), row', found, q) =
          merge_edges_origin survivor loser differ s.edges (a, b, r) row h in
        let (l, k) = o.edges i j t row' found in
        (
          subst (IsLive after) (ap (λ x. x.0) q) (repointed_after i l),
          subst (IsLive after) (ap (λ x. x.1) q) (repointed_after j k),
        );
    artifacts = λ id role rows h.
        owned_after id role s.artifacts (o.artifacts id role)
          (owned_origin survivor loser differ fold_artifacts s.artifacts id role rows h);
  }

  -- A merge of two live nodes, the survivor the smaller, keeps the store valid: redirects lead
  -- down and to nodes, and every alias, assertion, edge and artifact belongs to a live node.
  pub merge-IsValid : IsValid s → IsValid (merge survivor loser s).1
  unfolding merge
  merge-IsValid v = record {
    redirects =
        redirect-RedirectsDown s.nodes loser survivor v.redirects c.smaller
          (c.survivor_live.0, c.survivor_live.1);
    owners = merge-OwnersLive v.owners;
  }

  still_there :
      (j n : String) (row : NodeRow)
      → get j s.nodes ≡ some row
      → row.merged_into ≡ some n
      → get j after ≡ some row
  still_there j n row e m =
      let ne : j ≢ loser =
        λ q. cc (c.loser_live.1, c.loser_live.2, e, m, ap (λ x. get x s.nodes) q) in
      ground (arith, get-redirect loser survivor j s.nodes, string_eq.beq_iff loser j)

  -- After a merge of two live nodes, the survivor the smaller, what led to the loser leads to the
  -- survivor, and every other node leads where it led.
  pub merge-Leads :
      {j root : String}
      → Leads s.nodes j root
      → Leads (merge survivor loser s).1.nodes j (repointed survivor loser root)
  unfolding merge
  merge-Leads (stop {id = j} (row, e, m)) = elim (Bool-cases (j == loser)) [
    | inl q ↦ rw q (
        let found : get j after ≡ some (redirected survivor row) = ground (
          arith,
          get-redirect loser survivor j s.nodes,
          string_eq.beq_iff loser j,
          string_eq.beq_iff j loser,
        ) in
        hop (redirected survivor row) found refl (stop survivor_after))
    | inr q ↦ rw q (stop (IsLive-after j (ne_of_beq j loser q) (row, e, m)))
  ]
  merge-Leads (hop {id = j} {n = n} row e m rest) =
      hop row (still_there j n row e m) m (merge-Leads rest)
