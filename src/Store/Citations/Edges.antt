-- ===== src/Store/Citations/Edges.antt =====
-- `put_edges` on the in-memory backend.
use braincrawl.Base.{
  String, none, some, [], ◌∷◌, string_eq, pair_eq, ◌≡◌, inl, inr, refl, ap, subst, sym,
  Option-cases,
}
use braincrawl.Base.Map.{get}
use braincrawl.Types.{Alias, CanonicalId, work}
use braincrawl.Exec.{ok}
use braincrawl.MemStore.{MemStoreInner, alias_key, get_alias, create_node}
use braincrawl.MemStore.Backend.{mem_store}
use braincrawl.MemStore.Invariant.{IsLive, IsValid}
use braincrawl.MemStore.Resolve.{resolve_live-live}
use braincrawl.MemStore.Basics.{
  create_node-IsValid, create_node-IsLive, create_node_keeps_IsLive, get_or_create_alias-IsValid,
}
use braincrawl.Store.{Outside}
use braincrawl.Store.Works.{resolve_or_create_stub}
use braincrawl.Store.Works.Picks.{create_node-returns, create_node-aliases, create_node-edges}
use braincrawl.Store.Works.Attach.{NamesOnly, attach_one}

-- The node of an alias, made where the alias is unknown.
pub record Stubs (outside : Outside MemStoreInner) (alias : Alias) (s : MemStoreInner)
    : Type 0 where
  pub id : CanonicalId
  pub after : MemStoreInner
  pub returns : resolve_or_create_stub mem_store outside alias s ≡ (ok id, after)
  pub valid : IsValid after
  pub live : IsLive after.nodes id
  pub keeps_live : (j : String) → IsLive s.nodes j → IsLive after.nodes j
  pub named : get (alias_key alias) after.aliases ≡ some id
  pub known :
      (k : String × String) (g : CanonicalId)
      → get k s.aliases ≡ some g
      → get k after.aliases ≡ some g
  pub edges : after.edges ≡ s.edges

-- In a valid store, and with a new id that is no node's, resolving an alias or making a stub ends
-- without a failure and leaves a valid store: the node that is returned is live and is the one that
-- the alias names, the live nodes stay live, and the known aliases name what they named.
pub resolve_or_create_stub-Stubs :
    (outside : Outside MemStoreInner) (alias : Alias) (s : MemStoreInner)
    → IsValid s
    → get (outside.new_guid s) s.nodes ≡ none
    → Stubs outside alias s
unfolding resolve_or_create_stub get_alias
resolve_or_create_stub-Stubs outside alias s v fresh =
    elim (Option-cases (get (alias_key alias) s.aliases)) [
      | inr (g, found) ↦
          let l = v.owners.aliases (alias_key alias) g found in
          record {
            id = g;
            after = s;
            returns = rw (found, get_alias) (resolve_live-live s g l);
            valid = v;
            live = l;
            keeps_live = λ j h. h;
            named = found;
            known = λ k j e. e;
            edges = refl;
          }
      | inl gone ↦
          let id = outside.new_guid s in
          let now = outside.now_rfc3339 s in
          let created : MemStoreInner = (create_node id work now s).1 in
          let same = create_node-aliases s id work now fresh in
          let l = create_node-IsLive s v id work now fresh in
          let unknown : NamesOnly created (alias ∷ []) id = λ a g e h. elim e [
            | inl q ↦ absurd (
                cc (
                  gone,
                  ap (λ m. get (alias_key alias) m) same,
                  ap (λ x. get (alias_key x) created.aliases) q,
                  h,
                ))
            | inr e' ↦ absurd e'
          ] in
          let one = attach_one created alias id unknown in
          record {
            id = id;
            after = record created { aliases = one.table };
            returns =
                rw (gone, get_alias)
                  (rw (create_node-returns s id work now fresh) (rw one.returns refl));
            valid =
                subst (λ x. IsValid x.1) one.returns
                  (get_or_create_alias-IsValid created (create_node-IsValid s v id work now) alias
                    id l);
            live = l;
            keeps_live = create_node_keeps_IsLive s v id work now;
            named = one.named;
            known = λ k g e. one.keeps k g (subst (λ m. get k m ≡ some g) (sym same) e);
            edges = create_node-edges s id work now fresh;
          }
    ]
