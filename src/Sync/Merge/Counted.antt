-- ===== src/Sync/Merge/Counted.antt =====
-- The pages that the merge marks as changed are no more than the changes that its plan counts.
use braincrawl.Base.{
  ℕ, ◌+◌, ◌≤◌, Bool, false, true, List, [], ◌∷◌, Option, none, some, ◌==◌, list_eq, nat_eq, ◌≡◌,
  inl, inr, arith, length, Bool-cases, Option-cases, is_some, subst,
}
use braincrawl.Base.Map.{Map, get}
use braincrawl.Base.Ordered.{length-put}
use braincrawl.Base.Scan.{Text, trim_end}
use braincrawl.Sync.{NodeUnit, DocUnits, node_hash}
use braincrawl.Sync.Files.{recorded_as}
use braincrawl.Sync.Union.{union_body}
use braincrawl.Sync.Merge.{
  MergePlan, Merging, find_node, add_node, absent_node, rewrite_node, unite_node, reconcile,
  same_doc, known_node, anchored_node, merge_node, merge_nodes, merge_docs,
}

-- The changes that a plan counts.
abbrev pub changes : MergePlan → ℕ
changes p = p.nodes_added + p.nodes_updated + p.nodes_line_union + p.meta_updated

abbrev pub IsCounted : Merging → Type 0
IsCounted st = length st.changed ≤ changes st.plan

-- A step, if it does not panic.
abbrev Counts : Option Merging → Type 0
Counts none = Unit
Counts (some st) = IsCounted st

module _ (sha256 : Text → List ℕ) (base : Map Text Text) (slug : Text) where
  absent_node-IsCounted :
      (s_units : DocUnits) (s_node : NodeUnit) (anchor : Text) (st : Merging)
      → IsCounted st
      → IsCounted (absent_node sha256 base slug s_units s_node anchor st)
  unfolding absent_node add_node
  absent_node-IsCounted s_units s_node anchor st h = elim (Bool-cases (is_some (get anchor base))) [
    | inl t ↦ rw t h
    | inr f ↦ rw f (omega (arith, h, length-put slug true st.changed))
  ]

  unite_node-IsCounted :
      (units : DocUnits) (anchor : Text) (r : NodeUnit × Bool) (st : Merging)
      → IsCounted st
      → IsCounted (unite_node sha256 base slug units anchor r st)
  unfolding unite_node rewrite_node
  unite_node-IsCounted units anchor (node, false) st h = h
  unite_node-IsCounted units anchor (node, true) st h =
      omega (arith, h, length-put slug true st.changed)

  reconcile-IsCounted :
      (units : DocUnits) (d_node s_node : NodeUnit) (anchor : Text) (st : Merging)
      → IsCounted st
      → IsCounted (reconcile sha256 base slug units d_node s_node anchor st)
  unfolding reconcile rewrite_node
  reconcile-IsCounted units d s anchor st h =
      elim (Bool-cases (node_hash sha256 d == node_hash sha256 s)) [
        | inl t ↦ rw t h
        | inr f ↦ rw f (elim (Bool-cases (recorded_as (get anchor base) (node_hash sha256 d))) [
          | inl t ↦ rw t (omega (arith, h, length-put slug true st.changed))
          | inr g ↦ rw g (elim (Bool-cases (recorded_as (get anchor base) (node_hash sha256 s))) [
            | inl t ↦ rw t h
            | inr k ↦ rw k (elim (Bool-cases (trim_end d.heading == trim_end s.heading)) [
              | inl t ↦ rw t (unite_node-IsCounted units anchor (union_body d s) st h)
              | inr m ↦ rw m h
            ])
          ])
        ])
      ]

  same_doc-Counts :
      (s_node : NodeUnit) (anchor : Text) (st : Merging)
      → IsCounted st
      → Counts (same_doc sha256 base slug s_node anchor st)
  unfolding same_doc
  same_doc-Counts s_node anchor st h = elim (Option-cases (get slug st.dest_units)) [
    | inl gone ↦ rw gone tt
    | inr (units, page) ↦ rw page (elim (Option-cases (find_node anchor units.nodes)) [
      | inl gone ↦ rw gone tt
      | inr (d, found) ↦ rw found (reconcile-IsCounted units d s_node anchor st h)
    ])
  ]

  merge_node-Counts :
      (s_units : DocUnits) (s_node : NodeUnit) (o : Option Text) (st : Merging)
      → IsCounted st
      → Counts (merge_node sha256 base slug s_units s_node o st)
  unfolding merge_node anchored_node known_node
  merge_node-Counts s_units s_node none st h = h
  merge_node-Counts s_units s_node (some anchor) st h = home (get anchor st.dest_doc_of)
    where
      entered : Merging
      entered = record st { source_anchors = anchor ∷ st.source_anchors }

      home :
          (o : Option Text)
          → Counts (anchored_node sha256 base slug s_units s_node anchor o entered)
      home none = absent_node-IsCounted s_units s_node anchor entered h
      home (some d_slug) = elim (Bool-cases (d_slug == slug)) [
        | inl t ↦ rw t (same_doc-Counts s_node anchor entered h)
        | inr f ↦ rw f h
      ]

  merge_nodes-Counts :
      (s_units : DocUnits) (ns : List NodeUnit) (st : Merging)
      → IsCounted st
      → Counts (merge_nodes sha256 base slug s_units ns st)
  unfolding merge_nodes
  merge_nodes-Counts s_units [] st h = h
  merge_nodes-Counts s_units (n ∷ ns) st h =
      elim (Option-cases (merge_node sha256 base slug s_units n n.anchor st)) [
        | inl gone ↦ rw gone tt
        | inr (st', e) ↦ rw e (
            merge_nodes-Counts s_units ns st'
              (subst Counts e (merge_node-Counts s_units n n.anchor st h)))
      ]

pub merge_docs-Counts :
    (sha256 : Text → List ℕ) (base : Map Text Text) (docs : List (Text × DocUnits))
    (st out : Merging)
    → IsCounted st
    → merge_docs sha256 base docs st ≡ some out
    → IsCounted out
unfolding merge_docs
merge_docs-Counts sha256 base [] st out h e = subst Counts e h
merge_docs-Counts sha256 base ((slug, s_units) ∷ docs) st out h e =
    elim (Option-cases (merge_nodes sha256 base slug s_units s_units.nodes st)) [
      | inl gone ↦ cc (rw gone at e)
      | inr (st', q) ↦
          merge_docs-Counts sha256 base docs st' out
            (subst Counts q (merge_nodes-Counts sha256 base slug s_units s_units.nodes st h))
            (rw q at e)
    ]
