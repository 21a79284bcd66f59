-- ===== src/Sync/Plan/Start.antt =====
-- The index of the destination before the merge.
use mathlib.Core.Option.{some-injective}
use braincrawl.Base.{
  ℕ, true, List, [], ◌∷◌, Option, none, some, if◌then◌else◌, list_eq, nat_eq, ◌≡◌, refl, sym, ap,
  ◌∙◌, ◌⊎◌, inl, inr, arith, Bool-cases, Option-cases, is_some, Elem, is_some_of,
}
use braincrawl.Base.Map.{Map, get, entries, get_of_Elem, Elem-of_get, get-insert}
use braincrawl.Base.Scan.{Text}
use braincrawl.Sync.{NodeUnit, DocUnits, Texts}
use braincrawl.Sync.Merge.{
  anchor_is, find_node, index_node, index_nodes, index_units, units_of, merge_start,
}
use braincrawl.Sync.Merge.Effects.{in_page, IsIndexed}
use braincrawl.Sync.Merge.Sound.{IsSound}
use braincrawl.Sync.Merge.Steps.{Alike-refl}

get-index_node :
    (a slug : Text) (o : Option Text) (m : Map Text Text)
    → get a (index_node slug o m) ≡ (if anchor_is o a then some slug else get a m)
unfolding index_node anchor_is
get-index_node a slug none m = refl
get-index_node a slug (some b) m = get-insert b a slug m

get-index_nodes :
    (a slug : Text) (ns : List NodeUnit) (m : Map Text Text)
    → get a (index_nodes slug ns m) ≡ (if is_some (find_node a ns) then some slug else get a m)
unfolding index_nodes find_node
get-index_nodes a slug [] m = refl
get-index_nodes a slug (n ∷ ns) m = ground (
  arith,
  get-index_nodes a slug ns (index_node slug n.anchor m),
  get-index_node a slug n.anchor m,
)

index_units_sound :
    (a s : Text) (docs : List (Text × DocUnits)) (m : Map Text Text)
    → get a (index_units docs m) ≡ some s
    → (get a m ≡ some s)
      ⊎ ((u : DocUnits) × Elem (s, u) docs × (is_some (find_node a u.nodes) ≡ true))
unfolding index_units
index_units_sound a s [] m e = inl e
index_units_sound a s ((slug, u) ∷ docs) m e =
    elim (index_units_sound a s docs (index_nodes slug u.nodes m) e) [
      | inr (v, l, f) ↦ inr (v, inr l, f)
      | inl q ↦ elim (Bool-cases (is_some (find_node a u.nodes))) [
        | inl t ↦ inr (
          u,
          inl (
              ap (λ x. (x, u))
                (sym
                  (some-injective slug s (rw t at (sym (get-index_nodes a slug u.nodes m) ∙ q))))),
          t,
        )
        | inr f ↦ inl (rw f at (sym (get-index_nodes a slug u.nodes m) ∙ q))
      ]
    ]

index_units_some :
    (a : Text) (docs : List (Text × DocUnits)) (m : Map Text Text)
    → is_some (get a m) ≡ true
    → is_some (get a (index_units docs m)) ≡ true
unfolding index_units
index_units_some a [] m h = h
index_units_some a ((slug, u) ∷ docs) m h =
    index_units_some a docs (index_nodes slug u.nodes m)
      (rw (get-index_nodes a slug u.nodes m) (ground arith))

index_units_complete :
    (a s : Text) (u : DocUnits) (docs : List (Text × DocUnits)) (m : Map Text Text)
    → Elem (s, u) docs
    → is_some (find_node a u.nodes) ≡ true
    → is_some (get a (index_units docs m)) ≡ true
unfolding index_units
index_units_complete a s u [] m e f = absurd e
index_units_complete a s u ((slug, v) ∷ docs) m (inr e) f =
    index_units_complete a s u docs (index_nodes slug v.nodes m) e f
index_units_complete a s u ((slug, v) ∷ docs) m (inl q) f =
    index_units_some a docs (index_nodes slug v.nodes m) (
      rw (get-index_nodes a slug v.nodes m)
        (rw (ap (λ (p : Text × DocUnits). is_some (find_node a p.1.nodes)) (sym q) ∙ f) refl))

start-IsIndexed : (dest : Texts) → IsIndexed (merge_start dest)
unfolding merge_start
start-IsIndexed dest = record {
  indexed = λ a s e. elim (index_units_sound a s (entries (units_of dest)) [] e) [
    | inl q ↦ unfold get in cc
    | inr (u, l, f) ↦
        let (n, g) = is_some_of (find_node a u.nodes) f in
        (n, ap (in_page a) (get_of_Elem s u (units_of dest) l) ∙ g)
  ];
  covered = λ a s h. elim (Option-cases (get s (units_of dest))) [
    | inl q ↦ cc (ap (λ o. is_some (in_page a o)) (sym q) ∙ h)
    | inr (u, q) ↦
        index_units_complete a s u (entries (units_of dest)) [] (Elem-of_get s u (units_of dest) q)
          (ap (λ o. is_some (in_page a o)) (sym q) ∙ h)
  ];
  pages = λ s h. unfold get in cc;
}

pub start-IsSound :
    (sha256 : Text → List ℕ) (base : Map Text Text) (source : List NodeUnit) (dest : Texts)
    → IsSound sha256 base source (merge_start dest) (merge_start dest)
start-IsSound sha256 base source dest = record {
  indexed = start-IsIndexed dest;
  recorded = λ b h e. unfold merge_start get in cc;
  docs = λ b s e. e;
  marks = λ s. inr refl;
  untouched = λ b d out e. (d, e, Alike-refl d);
  kept = λ b d e. (d, e, inr (refl, λ l h. h));
}
