-- ===== src/Store/Works/Attach.antt =====
-- The last loop of `put_work` on the in-memory backend: every alias of the record names the node.
use braincrawl.Base.{
  String, some, List, [], ◌∷◌, ◌==◌, string_eq, pair_eq, ◌≡◌, ◌⊎◌, inl, inr, refl, ap, ◌∙◌, subst,
  arith, Option-cases, Bool-cases, Elem, eq_of_beq, beq_refl,
}
use braincrawl.Base.Map.{Map, get, insert, get-insert}
use braincrawl.Types.{Alias, CanonicalId}
use braincrawl.Exec.{ok}
use braincrawl.MemStore.{MemStoreInner, alias_key, get_or_create_alias}
use braincrawl.MemStore.Backend.{mem_store}
use braincrawl.MemStore.Invariant.{IsLive, IsValid}
use braincrawl.MemStore.Basics.{get_or_create_alias-IsValid}
use braincrawl.Store.Works.{attach}

-- An alias that is known names the node.
abbrev pub NamesOnly : MemStoreInner → List Alias → CanonicalId → Type 0
NamesOnly s aliases id =
    (a : Alias) (g : CanonicalId) → Elem a aliases → get (alias_key a) s.aliases ≡ some g → g ≡ id

pub record Attaches (s : MemStoreInner) (aliases : List Alias) (id : CanonicalId) : Type 0 where
  pub table : Map (String × String) String
  pub returns : attach mem_store aliases id s ≡ (ok tt, record s { aliases = table })
  pub valid : IsValid (record s { aliases = table })
  pub named : (a : Alias) → Elem a aliases → get (alias_key a) table ≡ some id
  pub keeps :
      (k : String × String) (g : CanonicalId) → get k s.aliases ≡ some g → get k table ≡ some g

-- One alias.
pub record AttachesOne (s : MemStoreInner) (a : Alias) (id : CanonicalId) : Type 0 where
  pub table : Map (String × String) String
  pub returns : get_or_create_alias a id s ≡ (ok id, record s { aliases = table })
  pub named : get (alias_key a) table ≡ some id
  pub keeps :
      (k : String × String) (g : CanonicalId) → get k s.aliases ≡ some g → get k table ≡ some g
  pub only :
      (k : String × String) (g : CanonicalId)
      → get k table ≡ some g
      → (g ≡ id) ⊎ (get k s.aliases ≡ some g)

pub attach_one :
    (s : MemStoreInner) (a : Alias) (id : CanonicalId)
    → NamesOnly s (a ∷ []) id
    → AttachesOne s a id
unfolding get_or_create_alias
attach_one s a id n = elim (Option-cases (get (alias_key a) s.aliases)) [
  | inr (g, found) ↦
      let same : g ≡ id = n a g (inl refl) found in
      record {
        table = s.aliases;
        returns = rw (found, get_or_create_alias) (ap (λ x. (ok x, s)) same);
        named = found ∙ ap some same;
        keeps = λ k x e. e;
        only = λ k x e. inr e;
      }
  | inl gone ↦ record {
    table = insert (alias_key a) id s.aliases;
    returns = rw (gone, get_or_create_alias) refl;
    named = rw (get-insert (alias_key a) (alias_key a) id s.aliases, beq_refl (alias_key a)) refl;
    keeps = λ k x e. elim (Bool-cases (alias_key a == k)) [
      | inl q ↦ absurd (cc (gone, e, ap (λ y. get y s.aliases) (eq_of_beq (alias_key a) k q)))
      | inr q ↦ ground (arith, get-insert (alias_key a) k id s.aliases)
    ];
    only = λ k x e. elim (Bool-cases (alias_key a == k)) [
      | inl q ↦ inl (ground (arith, get-insert (alias_key a) k id s.aliases))
      | inr q ↦ inr (ground (arith, get-insert (alias_key a) k id s.aliases))
    ];
  }
]

pub attach-Attaches :
    (s : MemStoreInner) (aliases : List Alias) (id : CanonicalId)
    → IsValid s
    → IsLive s.nodes id
    → NamesOnly s aliases id
    → Attaches s aliases id
unfolding attach
attach-Attaches s [] id v l n = record {
  table = s.aliases;
  returns = refl;
  valid = v;
  named = λ a e. absurd e;
  keeps = λ k g e. e;
}
attach-Attaches s (a ∷ rest) id v l n =
    let one = attach_one s a id (λ b g e. n b g (elim e [ inl q ↦ inl q | inr e' ↦ absurd e' ])) in
    let next : MemStoreInner = record s { aliases = one.table } in
    let valid : IsValid next =
      subst (λ x. IsValid x.1) one.returns (get_or_create_alias-IsValid s v a id l) in
    let later =
      attach-Attaches next rest id valid l (λ b g e h. elim (one.only (alias_key b) g h) [
        | inl q ↦ q
        | inr old ↦ n b g (inr e) old
      ]) in
    record {
      table = later.table;
      returns = rw one.returns later.returns;
      valid = later.valid;
      named = λ b e. elim e [
        | inl q ↦ rw q (later.keeps (alias_key a) id one.named)
        | inr h ↦ later.named b h
      ];
      keeps = λ k g e. later.keeps k g (one.keeps k g e);
    }
