-- ===== src/Store/Works/Picks.antt =====
-- The match of `put_work` on the number of nodes found, on the in-memory backend.
use braincrawl.Base.{
  String, false, none, some, List, [], ◌∷◌, ◌==◌, string_eq, pair_eq, ◌≡◌, inl, inr, refl, sym, ap,
  ◌∙◌, subst, arith, Option-cases, Bool-cases, All, Elem, str_lt, str_lt_total, eq_of_beq,
}
use braincrawl.Base.Distinct.{Distinct, sort_by-Distinct}
use braincrawl.Base.Map.{get, insert, get-insert}
use braincrawl.Base.Sort.{
  sort_by, Elem-sort_by, All-sort_by, IsSorted, sort_by-IsSorted, str_lt-IsOrder,
}
use braincrawl.Types.{Alias, CanonicalId, NodeKind, WorkRecord}
use braincrawl.Exec.{ok}
use braincrawl.MemStore.{MemStoreInner, NodeRow, alias_key, create_node}
use braincrawl.MemStore.Backend.{mem_store}
use braincrawl.MemStore.Invariant.{IsLive, IsValid, Leads, stop, hop}
use braincrawl.MemStore.Basics.{create_node-IsValid, create_node-IsLive, create_node_keeps_IsLive}
use braincrawl.Store.{Outside}
use braincrawl.Store.Works.{merge_into_first, canonical_of}
use braincrawl.Store.Works.Attach.{NamesOnly, attach-Attaches}
use braincrawl.Store.Works.Merging.{
  Loses, merge_losers-Merges, repoint_all, repoint_all-survivor, repoint_all_in, repoint_all_out,
}

-- The node that stands for the record, and what becomes of the nodes that were found.
pub record Picks (outside : Outside MemStoreInner) (r : WorkRecord) (guids : List CanonicalId)
    (s : MemStoreInner) : Type 0 where
  pub canonical : CanonicalId
  pub after : MemStoreInner
  pub returns : canonical_of mem_store outside r guids s ≡ (ok canonical, after)
  pub valid : IsValid after
  pub live : IsLive after.nodes canonical
  pub named : (a : Alias) → Elem a r.aliases → get (alias_key a) after.aliases ≡ some canonical
  pub joined :
      (j root : String) → Leads s.nodes j root → Elem root guids → Leads after.nodes j canonical
  pub others :
      (j root : String) → Leads s.nodes j root → ¬ Elem root guids → Leads after.nodes j root
  pub keeps :
      (k : String × String) (g : CanonicalId)
      → get k s.aliases ≡ some g
      → ¬ Elem g guids
      → get k after.aliases ≡ some g

-- The known aliases name nodes of the list.
abbrev pub Known : MemStoreInner → List Alias → List CanonicalId → Type 0
Known s aliases guids =
    (a : Alias) (g : CanonicalId)
    → Elem a aliases
    → get (alias_key a) s.aliases ≡ some g
    → Elem g guids

-- A new node leaves the others' representatives.
create_node-Leads :
    (s : MemStoreInner) (v : IsValid s) (id : CanonicalId) (r : WorkRecord) (now : String)
    → get id s.nodes ≡ none
    → {j root : String} → Leads s.nodes j root
    → Leads (create_node id r.kind now s).1.nodes j root
unfolding create_node
create_node-Leads s v id r now gone (stop {id = j} l) =
    stop (create_node_keeps_IsLive s v id r.kind now j l)
create_node-Leads s v id r now gone (hop {id = j} row e m rest) =
    hop row (rw (gone, create_node) (kept j row e)) m (create_node-Leads s v id r now gone rest)
  where
    new : NodeRow
    new = record { kind = r.kind; created_at = now; merged_into = none }

    kept :
        (j : String) (row : NodeRow)
        → get j s.nodes ≡ some row
        → get j (insert id new s.nodes) ≡ some row
    kept j row e = elim (Bool-cases (id == j)) [
      | inl q ↦ absurd (cc (gone, e, ap (λ x. get x s.nodes) (eq_of_beq id j q)))
      | inr q ↦ ground (arith, get-insert id j new s.nodes)
    ]

pub create_node-aliases :
    (s : MemStoreInner) (id : CanonicalId) (kind : NodeKind) (now : String)
    → get id s.nodes ≡ none
    → (create_node id kind now s).1.aliases ≡ s.aliases
unfolding create_node
create_node-aliases s id kind now gone = rw (gone, create_node) refl

pub create_node-edges :
    (s : MemStoreInner) (id : CanonicalId) (kind : NodeKind) (now : String)
    → get id s.nodes ≡ none
    → (create_node id kind now s).1.edges ≡ s.edges
unfolding create_node
create_node-edges s id kind now gone = rw (gone, create_node) refl

pub create_node-returns :
    (s : MemStoreInner) (id : CanonicalId) (kind : NodeKind) (now : String)
    → get id s.nodes ≡ none
    → create_node id kind now s ≡ (ok tt, (create_node id kind now s).1)
unfolding create_node
create_node-returns s id kind now gone = rw (gone, create_node) refl

module _ (outside : Outside MemStoreInner) (r : WorkRecord) (s : MemStoreInner)
    (v : IsValid s) where
  -- No node was found: a new one.
  pick_new : get (outside.new_guid s) s.nodes ≡ none → Known s r.aliases [] → Picks outside r [] s
  unfolding canonical_of
  pick_new gone known =
      let id = outside.new_guid s in
      let now = outside.now_rfc3339 s in
      let created : MemStoreInner = (create_node id r.kind now s).1 in
      let same = create_node-aliases s id r.kind now gone in
      let known_now : NamesOnly created r.aliases id =
        λ a g e h. absurd (known a g e (subst (λ m. get (alias_key a) m ≡ some g) same h)) in
      let l = create_node-IsLive s v id r.kind now gone in
      let t =
        attach-Attaches created r.aliases id (create_node-IsValid s v id r.kind now) l known_now in
      record {
        canonical = id;
        after = record created { aliases = t.table };
        returns = rw (create_node-returns s id r.kind now gone) (rw t.returns refl);
        valid = t.valid;
        live = l;
        named = t.named;
        joined = λ j root x e. absurd e;
        others = λ j root x e. create_node-Leads s v id r now gone x;
        keeps = λ k g e out. t.keeps k g (subst (λ m. get k m ≡ some g) (sym same) e);
      }

  -- One was found.
  pick_one :
      (id : CanonicalId)
      → IsLive s.nodes id
      → Known s r.aliases (id ∷ [])
      → Picks outside r (id ∷ []) s
  unfolding canonical_of
  pick_one id l known =
      let only : NamesOnly s r.aliases id =
        λ a g e h. elim (known a g e h) [ inl q ↦ q | inr e' ↦ absurd e' ] in
      let t = attach-Attaches s r.aliases id v l only in
      record {
        canonical = id;
        after = record s { aliases = t.table };
        returns = rw t.returns refl;
        valid = t.valid;
        live = l;
        named = t.named;
        joined = λ j root x e. elim e [
          | inl q ↦ subst (λ y. Leads s.nodes j y) q x
          | inr e' ↦ absurd e'
        ];
        others = λ j root x e. x;
        keeps = λ k g e out. t.keeps k g e;
      }

  -- Several were found: the smallest takes the others.
  pick_first :
      (first : CanonicalId) (losers : List CanonicalId)
      → All (IsLive s.nodes) (first ∷ losers)
      → All (Loses s first) losers
      → Distinct (first ∷ losers)
      → Known s r.aliases (first ∷ losers)
      → (after : MemStoreInner) × (merge_into_first mem_store r.aliases (first ∷ losers) s
          ≡ (ok first, after))
        × IsValid after
        × IsLive after.nodes first
        × ((a : Alias) → Elem a r.aliases → get (alias_key a) after.aliases ≡ some first)
        × ((j root : String)
            → Leads s.nodes j root
            → Leads after.nodes j (repoint_all first losers root))
        × ((k : String × String) (g : CanonicalId)
            → get k s.aliases ≡ some g
            → ¬ Elem g (first ∷ losers)
            → get k after.aliases ≡ some g)
  unfolding merge_into_first
  pick_first first losers (l, ls) h (out, d) known =
      let w = merge_losers-Merges s first losers v l h d in
      let only : NamesOnly w.after r.aliases first = λ a g e q.
        elim (Option-cases (get (alias_key a) s.aliases)) [
          | inl gone ↦ absurd (cc (gone, q, w.aliases (alias_key a)))
          | inr (old, found) ↦
              let now : g ≡ repoint_all first losers old =
                ground (arith, w.aliases (alias_key a)) in
              now ∙ lands old (known a old e found)
        ] in
      let t = attach-Attaches w.after r.aliases first w.valid w.live only in
      (
        record w.after { aliases = t.table },
        rw w.returns (rw t.returns refl),
        t.valid,
        w.live,
        t.named,
        w.leads,
        λ k g e away.
            t.keeps k g
              (w.aliases k ∙ rw e (ap some (repoint_all_out first losers g (λ i. away (inr i))))),
      )
    where
      lands : (old : CanonicalId) → Elem old (first ∷ losers) → repoint_all first losers old ≡ first
      lands old (inl q) = rw q (repoint_all-survivor first losers)
      lands old (inr e) = repoint_all_in first losers old e

  -- After the first, which is the smallest, come the losers.
  follow :
      (first : CanonicalId) (losers : List CanonicalId)
      → All (λ y. str_lt y first ≡ false) losers
      → All (IsLive s.nodes) losers
      → ¬ Elem first losers
      → All (Loses s first) losers
  follow first [] h l out = tt
  follow first (x ∷ xs) (h, hs) (l, ls) out = (
    (
      l,
      elim (Bool-cases (str_lt first x)) [
        | inl t ↦ t
        | inr f ↦ absurd (out (inl (str_lt_total first x f h)))
      ],
    ),
    follow first xs hs ls (λ e. out (inr e)),
  )

  pick_sorted :
      (a b : CanonicalId) (rest sorted : List CanonicalId)
      → sort_by str_lt (a ∷ b ∷ rest) ≡ sorted
      → ((x : CanonicalId) → Elem x sorted → Elem x (a ∷ b ∷ rest))
      → ((x : CanonicalId) → Elem x (a ∷ b ∷ rest) → Elem x sorted)
      → All (IsLive s.nodes) sorted
      → Distinct sorted
      → IsSorted str_lt sorted
      → Known s r.aliases (a ∷ b ∷ rest)
      → Picks outside r (a ∷ b ∷ rest) s
  unfolding canonical_of
  pick_sorted a b rest [] q back forth l d i known = absurd (forth a (inl refl))
  pick_sorted a b rest (first ∷ losers) q back forth l d i known =
      let (after, returns, valid, live, named, leads, keeps) =
        pick_first first losers l (follow first losers i.0 l.1 d.0) d
          (λ x g e h. forth g (known x g e h)) in
      record {
        canonical = first;
        after = after;
        returns = rw q returns;
        valid = valid;
        live = live;
        named = named;
        joined = λ j root x e.
            subst (λ y. Leads after.nodes j y) (lands root (forth root e)) (leads j root x);
        others = λ j root x e.
            subst (λ y. Leads after.nodes j y)
              (repoint_all_out first losers root (λ h. e (back root (inr h)))) (leads j root x);
        keeps = λ k g e away. keeps k g e (λ h. away (back g h));
      }
    where
      lands : (old : CanonicalId) → Elem old (first ∷ losers) → repoint_all first losers old ≡ first
      lands old (inl p) = rw p (repoint_all-survivor first losers)
      lands old (inr e) = repoint_all_in first losers old e

  -- Whatever was found.
  pub pick :
      (guids : List CanonicalId)
      → get (outside.new_guid s) s.nodes ≡ none
      → All (IsLive s.nodes) guids
      → Distinct guids
      → Known s r.aliases guids
      → Picks outside r guids s
  pick [] fresh l d known = pick_new fresh known
  pick (id ∷ []) fresh l d known = pick_one id l.0 known
  pick (a ∷ b ∷ rest) fresh l d known =
      let sorted = sort_by str_lt (a ∷ b ∷ rest) in
      pick_sorted a b rest sorted refl (λ x. (Elem-sort_by str_lt x (a ∷ b ∷ rest)).0)
        (λ x. (Elem-sort_by str_lt x (a ∷ b ∷ rest)).1)
        (All-sort_by (IsLive s.nodes) str_lt (a ∷ b ∷ rest) l)
        (sort_by-Distinct str_lt (a ∷ b ∷ rest) d)
        (sort_by-IsSorted str_lt str_lt-IsOrder (a ∷ b ∷ rest)) known
