-- ===== src/Sync/Merge/Loop.antt =====
-- The loop over the source's nodes: it ends without a panic, and what it records is true.
use braincrawl.Base.{
  ℕ, List, [], ◌∷◌, ◌++◌, none, some, ◌==◌, list_eq, nat_eq, ◌≡◌, refl, sym, ap, ◌∙◌, inl, inr,
  Bool-cases, Option-cases, is_some, eq_of_beq,
}
use braincrawl.Base.Map.{Map, get}
use braincrawl.Base.Scan.{Text}
use braincrawl.Sync.{NodeUnit, DocUnits}
use braincrawl.Sync.Merge.{
  Merging, node_ref, absent_node, add_node, known_node, same_doc, anchored_node, merge_node,
  find_node, reconcile,
}
use braincrawl.Sync.Merge.Effects.{in_page, in_doc, IsIndexed}
use braincrawl.Sync.Merge.Added.{add_node-Writes, add_node-marks}
use braincrawl.Sync.Merge.Nodes.{
  Merges, entered, entered-IsIndexed, idle, written, reconcile-Merges,
}

module _ (sha256 : Text → List ℕ) (base : Map Text Text) where
  module _ (slug : Text) (s_units : DocUnits) (s_node : NodeUnit) (anchor : Text) (st : Merging)
      (own : s_node.anchor ≡ some anchor) (inv : IsIndexed st) where
    same_doc-Merges :
        get anchor st.dest_doc_of ≡ some slug
        → (st' : Merging) × (same_doc sha256 base slug s_node anchor (entered anchor st) ≡ some st')
          × Merges sha256 base s_node anchor st st'
    unfolding same_doc
    same_doc-Merges home =
        let (d, q) = inv.indexed anchor slug home in
        elim (Option-cases (get slug st.dest_units)) [
          | inl e ↦ cc (ap (in_page anchor) (sym e) ∙ q)
          | inr (units, e) ↦
              let found : find_node anchor units.nodes ≡ some d = ap (in_page anchor) (sym e) ∙ q in
              (
                reconcile sha256 base slug units d s_node anchor (entered anchor st),
                rw e (rw found refl),
                reconcile-Merges sha256 base s_node anchor st inv slug own home units d e found,
              )
        ]

    absent-Merges :
        get anchor st.dest_doc_of ≡ none
        → Merges sha256 base s_node anchor st
            (absent_node sha256 base slug s_units s_node anchor (entered anchor st))
    unfolding absent_node
    absent-Merges absent = elim (Bool-cases (is_some (get anchor base))) [
      | inl t ↦ rw t (
          idle sha256 base s_node anchor st inv
            (record st.plan {
              deleted_on_dest =
                  st.plan.deleted_on_dest ++ node_ref sha256 base slug anchor s_node ∷ [];
            })
            refl)
      | inr f ↦ rw f (
          written sha256 base s_node anchor st inv slug s_node _
            (add_node-Writes sha256 base slug s_units s_node anchor (entered anchor st) own absent
              (entered-IsIndexed sha256 base s_node anchor st inv))
            (unfold add_node in refl)
            (add_node-marks sha256 base slug s_units s_node anchor (entered anchor st) own absent
              (entered-IsIndexed sha256 base s_node anchor st inv))
            (inl absent) (λ d e. cc (ap (λ o. in_doc anchor o st.dest_units) (sym absent) ∙ e))
            (unfold add_node in inr (refl, refl)))
    ]

    pub merge_node-Merges :
        (st' : Merging) × (merge_node sha256 base slug s_units s_node (some anchor) st ≡ some st')
        × Merges sha256 base s_node anchor st st'
    unfolding merge_node anchored_node known_node
    merge_node-Merges = elim (Option-cases (get anchor st.dest_doc_of)) [
      | inl e ↦ (
        absent_node sha256 base slug s_units s_node anchor (entered anchor st),
        rw e refl,
        absent-Merges e,
      )
      | inr (d_slug, e) ↦ elim (Bool-cases (d_slug == slug)) [
        | inl t ↦
            let (st', q, m) = same_doc-Merges (e ∙ ap some (eq_of_beq d_slug slug t)) in
            (st', rw e (rw t q), m)
        | inr f ↦ (
          record (entered anchor st) {
            plan = record st.plan {
              moved = st.plan.moved ++ node_ref sha256 base slug anchor s_node ∷ [];
            };
          },
          rw e (rw f refl),
          idle sha256 base s_node anchor st inv
              (record st.plan {
                moved = st.plan.moved ++ node_ref sha256 base slug anchor s_node ∷ [];
              })
              refl,
        )
      ]
    ]
