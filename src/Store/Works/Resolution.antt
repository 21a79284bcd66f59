-- ===== src/Store/Works/Resolution.antt =====
-- `put_work` on the in-memory backend.
use braincrawl.Base.{
  String, Option, none, some, [], string_eq, pair_eq, ◌≡◌, inl, inr, refl, Elem, beq_refl,
}
use braincrawl.Base.Map.{get, get-insert}
use braincrawl.Types.{Alias, CanonicalId, WorkRecord}
use braincrawl.Exec.{ok}
use braincrawl.MemStore.{MemStoreInner, NodeAssertionRow, alias_key, upsert_node_assertion}
use braincrawl.MemStore.Backend.{mem_store}
use braincrawl.MemStore.Invariant.{IsLive, IsValid, Leads}
use braincrawl.MemStore.Basics.{upsert_node_assertion-IsValid}
use braincrawl.Store.{Outside}
use braincrawl.Store.Works.{strongest_alias_key, put_work, or_now}
use braincrawl.Store.Works.Collect.{Names, collect-Collects}
use braincrawl.Store.Works.Picks.{pick}

-- What `put_work` returns and leaves.
pub record Puts (outside : Outside MemStoreInner) (r : WorkRecord) (s : MemStoreInner)
    : Type 0 where
  pub canonical : CanonicalId
  pub after : MemStoreInner
  pub returns : put_work mem_store outside r s ≡ (ok canonical, after)
  pub valid : IsValid after
  pub live : IsLive after.nodes canonical
  pub named : (a : Alias) → Elem a r.aliases → get (alias_key a) after.aliases ≡ some canonical
  pub joined :
      (j root : String)
      → Leads s.nodes j root
      → Names s r.aliases root
      → Leads after.nodes j canonical
  pub others :
      (j root : String) → Leads s.nodes j root → ¬ Names s r.aliases root → Leads after.nodes j root
  pub keeps :
      (k : String × String) (g : CanonicalId)
      → get k s.aliases ≡ some g
      → ¬ Names s r.aliases g
      → get k after.aliases ≡ some g
  pub asserted :
      (row : NodeAssertionRow) × (get (canonical, r.source) after.node_assertions ≡ some row)
      × (row.attrs ≡ r.attrs)

or_now-returns :
    (outside : Outside MemStoreInner) (fetched_at : Option String) (s : MemStoreInner)
    → (at : String) × (or_now mem_store outside fetched_at s ≡ (ok at, s))
or_now-returns outside none s = (outside.now_rfc3339 s, refl)
or_now-returns outside (some at) s = (at, refl)

-- In a valid store, with a new id that is no node's and a lock that is granted without a change,
-- `put_work` ends without a failure: it leaves a valid store, in which the node that it returns is
-- live, is named by every alias of the record, and holds the record's attributes for its source.
-- What led to a node that the record's aliases named now leads to that node; every other node leads
-- where it led, and every alias of another node still names it.
pub put_work-Puts :
    (outside : Outside MemStoreInner) (r : WorkRecord) (s : MemStoreInner)
    → IsValid s
    → get (outside.new_guid s) s.nodes ≡ none
    → outside.with_lock (strongest_alias_key r.aliases) s ≡ (ok tt, s)
    → Puts outside r s
unfolding put_work upsert_node_assertion
put_work-Puts outside r s v fresh lock =
    let found = collect-Collects s r.aliases [] v tt tt in
    let p =
      pick outside r s v found.out fresh found.live found.distinct
        (λ a g e h. found.finds g (a, e, h)) in
    let (at, stamped) = or_now-returns outside r.fetched_at p.after in
    let row : NodeAssertionRow = record { attrs = r.attrs; fetched_at = at } in
    let named_only : (g : CanonicalId) → Elem g found.out → Names s r.aliases g =
      λ g e. elim (found.sound g e) [ inl e' ↦ absurd e' | inr n ↦ n ] in
    record {
      canonical = p.canonical;
      after = (upsert_node_assertion p.canonical r.source r.attrs at p.after).1;
      returns = rw lock (rw found.returns (rw p.returns (rw stamped refl)));
      valid = upsert_node_assertion-IsValid p.after p.valid p.canonical r.source r.attrs at p.live;
      live = p.live;
      named = p.named;
      joined = λ j root x n. p.joined j root x (found.finds root n);
      others = λ j root x n. p.others j root x (λ e. n (named_only root e));
      keeps = λ k g e n. p.keeps k g e (λ h. n (named_only g h));
      asserted = (
        row,
        rw
            (
              get-insert (p.canonical, r.source) (p.canonical, r.source) row
                  p.after.node_assertions,
              beq_refl {A = String × String} (p.canonical, r.source),
            )
            refl,
        refl,
      );
    }
