-- ===== src/Sync/Merge/Added.antt =====
-- What the merge does to the node of each anchor where it adds one.
use braincrawl.Base.{
  ℕ, true, List, [], ◌∷◌, ◌++◌, Option, none, some, if◌then◌else◌, ◌==◌, list_eq, nat_eq, ◌≡◌, refl,
  sym, ap, ◌∙◌, ◌⊎◌, inl, inr, arith, Bool-cases, Option-cases, is_some, beq_refl, eq_of_beq,
  list_beq_iff,
}
use braincrawl.Base.Map.{Map, get, get-insert}
use braincrawl.Base.Ordered.{get-put}
use braincrawl.Base.Scan.{Text}
use braincrawl.Sync.{NodeUnit, DocUnits}
use braincrawl.Sync.Merge.{Merging, find_node, with_blank, target_of, add_node}
use braincrawl.Sync.Merge.Steps.{
  anchor_is_iff, Alike, Alike-refl, find_node-with_blank, find_node-append,
}
use braincrawl.Sync.Merge.Effects.{in_page, IsIndexed, Writes, marked_page, put_marks, MarkedOrSame}

in_page-target_of :
    (b : Text) (o : Option DocUnits) (s_units : DocUnits)
    → in_page b o ≡ find_node b (target_of o s_units).nodes
unfolding target_of find_node
in_page-target_of b none s_units = refl
in_page-target_of b (some units) s_units = refl

module _ (sha256 : Text → List ℕ) (base : Map Text Text) (slug : Text) (s_units : DocUnits)
    (s_node : NodeUnit) (anchor : Text) (st : Merging) (own : s_node.anchor ≡ some anchor)
    (absent : get anchor st.dest_doc_of ≡ none) (inv : IsIndexed st) where
  abbrev added : Merging
  added = add_node sha256 base slug s_units s_node anchor st

  abbrev target : DocUnits
  target = target_of (get slug st.dest_units) s_units

  abbrev grown : List NodeUnit
  grown = with_blank target.nodes ++ s_node ∷ []

  add_page :
      (b s : Text)
      → in_page b (get s added.dest_units)
        ≡ (if slug == s then find_node b grown else in_page b (get s st.dest_units))
  unfolding add_node
  add_page b s =
      ap (in_page b) (get-put slug s (record target { nodes = grown }) st.dest_units)
      ∙ elim (Bool-cases (slug == s)) [ inl t ↦ rw t refl | inr f ↦ rw f refl ]

  -- A node that is there stays, but for blank lines at its end.
  grown_old :
      (b : Text) (n : NodeUnit)
      → find_node b target.nodes ≡ some n
      → (n' : NodeUnit) × (find_node b grown ≡ some n') × Alike n n'
  grown_old b n e =
      let (n', q, alike) = (find_node-with_blank b target.nodes).1 n e in
      (n', find_node-append b (with_blank target.nodes) s_node ∙ rw q refl, alike)

  grown_new :
      (b : Text)
      → find_node b target.nodes ≡ none
      → find_node b grown ≡ (if anchor == b then some s_node else none)
  grown_new b e =
      find_node-append b (with_blank target.nodes) s_node
      ∙ rw ((find_node-with_blank b target.nodes).0 e)
          (ground (arith, anchor_is_iff s_node.anchor b, list_beq_iff anchor b))

  no_own : find_node anchor target.nodes ≡ none
  no_own = elim (Option-cases (find_node anchor target.nodes)) [
    | inl e ↦ e
    | inr (n, e) ↦
        let there : is_some (in_page anchor (get slug st.dest_units)) ≡ true =
          ap is_some (in_page-target_of anchor (get slug st.dest_units) s_units ∙ e) in
        cc (sym (inv.covered anchor slug there) ∙ ap is_some absent)
  ]

  old_page :
      (b s : Text) → (slug == s) ≡ true → in_page b (get s st.dest_units) ≡ find_node b target.nodes
  old_page b s t =
      ap (λ x. in_page b (get x st.dest_units)) (sym (eq_of_beq slug s t))
      ∙ in_page-target_of b (get slug st.dest_units) s_units

  add_hit :
      (b s : Text) (n : NodeUnit)
      → in_page b (get s st.dest_units) ≡ some n
      → ((anchor ≡ b) × (slug ≡ s))
        ⊎ ((n' : NodeUnit) × (in_page b (get s added.dest_units) ≡ some n') × Alike n n')
  add_hit b s n e = elim (Bool-cases (slug == s)) [
    | inr f ↦ inr (n, add_page b s ∙ rw f e, Alike-refl n)
    | inl t ↦
        let (n', q, alike) = grown_old b n (sym (old_page b s t) ∙ e) in
        inr (n', add_page b s ∙ rw t q, alike)
  ]

  add_miss :
      (b s : Text)
      → is_some (in_page b (get s added.dest_units)) ≡ true
      → (anchor ≡ b) ⊎ (is_some (in_page b (get s st.dest_units)) ≡ true)
  add_miss b s e = elim (Bool-cases (slug == s)) [
    | inr f ↦ inr (rw f at (ap is_some (sym (add_page b s)) ∙ e))
    | inl t ↦ elim (Option-cases (find_node b target.nodes)) [
      | inr (n, q) ↦ inr (ap is_some (old_page b s t ∙ q))
      | inl q ↦ elim (Bool-cases (anchor == b)) [
        | inl same ↦ inl (eq_of_beq anchor b same)
        | inr f ↦ cc (
            rw f at
              (ap is_some (sym (grown_new b q)) ∙ (rw t at (ap is_some (sym (add_page b s)) ∙ e))))
      ]
    ]
  ]

  add_docs :
      (b : Text)
      → get b added.dest_doc_of ≡ (if anchor == b then some slug else get b st.dest_doc_of)
  unfolding add_node
  add_docs b = get-insert anchor b slug st.dest_doc_of

  add_marks :
      (s : Text) → is_some (get s added.changed) ≡ true → is_some (get s added.dest_units) ≡ true
  unfolding add_node
  add_marks s e =
      marked_page slug s true (record target { nodes = grown }) st.changed st.dest_units e
        (inv.pages s)

  pub add_node-Writes : Writes slug anchor s_node st added
  add_node-Writes = record {
    own_page =
        add_page anchor slug
        ∙ rw (beq_refl slug) (grown_new anchor no_own ∙ rw (beq_refl anchor) refl);
    hit = add_hit;
    miss = add_miss;
    docs = add_docs;
    marks = add_marks;
  }

  pub add_node-marks : (s : Text) → MarkedOrSame st added s
  unfolding add_node
  add_node-marks s = put_marks slug s (record target { nodes = grown }) st
