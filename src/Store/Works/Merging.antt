-- ===== src/Store/Works/Merging.antt =====
-- The merges of `put_work` on the in-memory backend: every other node goes into the smallest.
use mathlib.Core.Option
use braincrawl.Base.{
  String, true, Option, none, some, List, [], ◌∷◌, ◌==◌, string_eq, pair_eq, ◌≡◌, inl, inr, refl,
  sym, ap, ◌∙◌, arith, Option-cases, Bool-cases, All, Elem, str_lt, eq_of_beq, beq_refl,
}
use braincrawl.Base.Distinct.{Distinct}
use braincrawl.Base.Map.{get}
use braincrawl.Types.{CanonicalId}
use braincrawl.Exec.{ok}
use braincrawl.MemStore.{MemStoreInner}
use braincrawl.MemStore.Backend.{mem_store}
use braincrawl.MemStore.Invariant.{IsLive, IsValid, Leads}
use braincrawl.MemStore.Merge.{merge, repointed}
use braincrawl.MemStore.Merge.Keeps.{
  CanMerge, merge-IsValid, merge-Leads, get-merge_aliases, survivor_after, IsLive-after,
}
use braincrawl.Store.Works.{merge_losers}

-- Where a node is after all the merges.
abbrev pub repoint_all : CanonicalId → List CanonicalId → CanonicalId → CanonicalId
repoint_all survivor [] id = id
repoint_all survivor (loser ∷ losers) id = repoint_all survivor losers (repointed survivor loser id)

pub repoint_all-survivor :
    (survivor : CanonicalId) (losers : List CanonicalId)
    → repoint_all survivor losers survivor ≡ survivor
repoint_all-survivor survivor [] = refl
repoint_all-survivor survivor (l ∷ ls) =
    let same : repointed survivor l survivor ≡ survivor = ground arith in
    ap (repoint_all survivor ls) same ∙ repoint_all-survivor survivor ls

-- A loser ends in the survivor.
pub repoint_all_in :
    (survivor : CanonicalId) (losers : List CanonicalId) (id : CanonicalId)
    → Elem id losers
    → repoint_all survivor losers id ≡ survivor
repoint_all_in survivor [] id e = absurd e
repoint_all_in survivor (l ∷ ls) id (inl q) = rw (q, beq_refl l) (repoint_all-survivor survivor ls)
repoint_all_in survivor (l ∷ ls) id (inr e) = elim (Bool-cases (id == l)) [
  | inl t ↦ rw t (repoint_all-survivor survivor ls)
  | inr f ↦ rw f (repoint_all_in survivor ls id e)
]

-- Every other node stays where it is.
pub repoint_all_out :
    (survivor : CanonicalId) (losers : List CanonicalId) (id : CanonicalId)
    → ¬ Elem id losers
    → repoint_all survivor losers id ≡ id
repoint_all_out survivor [] id out = refl
repoint_all_out survivor (l ∷ ls) id out = elim (Bool-cases (id == l)) [
  | inl t ↦ absurd (out (inl (eq_of_beq id l t)))
  | inr f ↦ rw f (repoint_all_out survivor ls id (λ e. out (inr e)))
]

-- A live node that may be merged into the survivor.
abbrev pub Loses : MemStoreInner → CanonicalId → CanonicalId → Type 0
Loses s survivor id = IsLive s.nodes id × (str_lt survivor id ≡ true)

pub record Merges (s : MemStoreInner) (survivor : CanonicalId) (losers : List CanonicalId)
    : Type 0 where
  pub after : MemStoreInner
  pub returns : merge_losers mem_store survivor losers s ≡ (ok tt, after)
  pub valid : IsValid after
  pub live : IsLive after.nodes survivor
  pub aliases :
      (k : String × String)
      → get k after.aliases ≡ Option.map (repoint_all survivor losers) (get k s.aliases)
  pub leads :
      (j root : String)
      → Leads s.nodes j root
      → Leads after.nodes j (repoint_all survivor losers root)

map-map :
    (f g : String → String) (o : Option String)
    → Option.map g (Option.map f o) ≡ Option.map (λ x. g (f x)) o
map-map f g none = refl
map-map f g (some x) = refl

module _ (s : MemStoreInner) (survivor : CanonicalId) where
  still_Loses :
      (loser : CanonicalId) (c : CanMerge s survivor loser) (losers : List CanonicalId)
      → ¬ Elem loser losers
      → All (Loses s survivor) losers
      → All (Loses (merge survivor loser s).1 survivor) losers
  unfolding merge
  still_Loses loser c [] out h = tt
  still_Loses loser c (x ∷ xs) out ((l, lt), h) = (
    (IsLive-after s survivor loser c x (λ q. out (inl (sym q))) l, lt),
    still_Loses loser c xs (λ e. out (inr e)) h,
  )

  merged-IsLive :
      (loser : CanonicalId)
      → CanMerge s survivor loser
      → IsLive (merge survivor loser s).1.nodes survivor
  unfolding merge
  merged-IsLive loser c = survivor_after s survivor loser c

  merge_first :
      (loser : CanonicalId) (losers : List CanonicalId)
      → merge_losers mem_store survivor (loser ∷ losers) s
        ≡ merge_losers mem_store survivor losers (merge survivor loser s).1
  unfolding merge_losers merge
  merge_first loser losers = refl

pub merge_losers-Merges :
    (s : MemStoreInner) (survivor : CanonicalId) (losers : List CanonicalId)
    → IsValid s
    → IsLive s.nodes survivor
    → All (Loses s survivor) losers
    → Distinct losers
    → Merges s survivor losers
unfolding merge_losers
merge_losers-Merges s survivor [] v l h d = record {
  after = s;
  returns = refl;
  valid = v;
  live = l;
  aliases = λ k. elim (Option-cases (get k s.aliases)) [
    | inl gone ↦ rw gone refl
    | inr (x, e) ↦ rw e refl
  ];
  leads = λ j root x. x;
}
merge_losers-Merges s survivor (loser ∷ losers) v l ((ll, lt), h) (out, d) =
    let c : CanMerge s survivor loser = record {
      survivor_live = l;
      loser_live = ll;
      smaller = lt;
    } in
    let next : MemStoreInner = (merge survivor loser s).1 in
    let later =
      merge_losers-Merges next survivor losers (merge-IsValid s survivor loser c v)
        (merged-IsLive s survivor loser c) (still_Loses s survivor loser c losers out h) d in
    record {
      after = later.after;
      returns = merge_first s survivor loser losers ∙ later.returns;
      valid = later.valid;
      live = later.live;
      aliases = λ k.
          later.aliases k
          ∙ ap (Option.map (repoint_all survivor losers)) (get-merge_aliases s survivor loser c k)
          ∙ map-map (repointed survivor loser) (repoint_all survivor losers) (get k s.aliases);
      leads = λ j root x.
          later.leads j (repointed survivor loser root) (merge-Leads s survivor loser c x);
    }
