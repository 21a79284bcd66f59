-- ===== src/Sync/Plan/Recorded.antt =====
-- What a merge's plan records, keeps and writes.
use mathlib.Core.Option.{some-injective}
use braincrawl.Base.{
  ℕ, ◌≤◌, length, arith, Bool, true, false, List, [], ◌∷◌, Option, none, some, list_eq, nat_eq, ◌≡◌,
  refl, sym, ap, ap₂, ◌∙◌, ◌⊎◌, inl, inr, Bool-cases, is_some, Elem, is_some_of,
}
use braincrawl.Base.Distinct.{Distinct}
use braincrawl.Sync.Merge.Counted.{changes, IsCounted, merge_docs-Counts}
use braincrawl.Sync.Plan.Counted.{merge_metas-IsCounted, note_created-IsCounted, length-page_writes}
use braincrawl.Base.Map.{length-entries, Map, get, entries, get_of_Elem, Elem-of_get}
use braincrawl.Base.Scan.{Text}
use braincrawl.Sync.{NodeUnit, DocUnits, NodeRef, Texts, node_hash, render_doc}
use braincrawl.Sync.Merge.{Merging, units_of, merge_start, find_node}
use braincrawl.Sync.Merge.Effects.{in_page, in_doc, node_at}
use braincrawl.Sync.Merge.Nodes.{Kept}
use braincrawl.Sync.Merge.Sound.{nodes_of, anchors_of, HasNode, IsSound, merge_docs-IsSound}
use braincrawl.Sync.Plan.{
  lost_on_source, deleted_nodes, page_writes, finish_plan, merge_all, plan_merge, merge_metas,
  note_created, title_of_node,
}
use braincrawl.Sync.Plan.Metas.{IsNodeKey, Passes, metas-Passes}
use braincrawl.Sync.Plan.Start.{start-IsSound}

deleted_nodes-returns :
    (base : Map Text Text) (st : Merging) (l : List (Text × Text))
    → ((a s : Text) → Elem (a, s) l → is_some (get s st.dest_units) ≡ true)
    → (refs : List NodeRef) × (deleted_nodes base st l ≡ some refs)
unfolding deleted_nodes
deleted_nodes-returns base st [] h = ([], refl)
deleted_nodes-returns base st ((a, s) ∷ l) h =
    let (refs, e) = deleted_nodes-returns base st l (λ b t k. h b t (inr k)) in
    elim (Bool-cases (lost_on_source base st a)) [
      | inr f ↦ (refs, rw f e)
      | inl t ↦
          let (units, q) = is_some_of (get s st.dest_units) (h a s (inl refl)) in
          (
            record { doc = s; anchor = a; title = title_of_node (find_node a units.nodes) } ∷ refs,
            rw t (rw (q, e) refl),
          )
    ]

-- The texts that are written are those of the marked pages.
record WritesPages (st : Merging) (l : List (Text × Bool)) (writes : Texts) : Type 0 where
  sound :
      (s t : Text)
      → Elem (s, t) writes
      → (u : DocUnits) × (get s st.dest_units ≡ some u) × (t ≡ render_doc u)
  complete :
      (s : Text) (u : DocUnits)
      → Elem (s, true) l
      → get s st.dest_units ≡ some u
      → Elem (s, render_doc u) writes

page_writes-returns :
    (st : Merging) (l : List (Text × Bool))
    → ((s : Text) → Elem (s, true) l → is_some (get s st.dest_units) ≡ true)
    → (writes : Texts) × (page_writes st l ≡ some writes) × WritesPages st l writes
unfolding page_writes
page_writes-returns st [] h =
    ([], refl, record { sound = λ s t e. absurd e; complete = λ s u e q. absurd e })
page_writes-returns st ((s, false) ∷ l) h =
    let (writes, e, w) = page_writes-returns st l (λ t k. h t (inr k)) in
    (
      writes,
      e,
      record {
        sound = w.sound;
        complete = λ t u k q. elim k [
          | inl same ↦ cc (ap (λ (x : Text × Bool). x.1) same)
          | inr r ↦ w.complete t u r q
        ];
      },
    )
page_writes-returns st ((s, true) ∷ l) h =
    let (writes, e, w) = page_writes-returns st l (λ t k. h t (inr k)) in
    let (units, p) = is_some_of (get s st.dest_units) (h s (inl refl)) in
    (
      (s, render_doc units) ∷ writes,
      rw (p, e) refl,
      record {
        sound = λ t text k. elim k [
          | inl same ↦ (
            units,
            ap (λ (x : Text × Text). get x.0 st.dest_units) same ∙ p,
            ap (λ (x : Text × Text). x.1) same,
          )
          | inr r ↦ w.sound t text r
        ];
        complete = λ t u k q. elim k [
          | inl same ↦
              let slug : t ≡ s = ap (λ (x : Text × Bool). x.0) same in
              inl (
                ap₂ (λ x y. (x, render_doc y)) slug
                  (some-injective u units (sym q ∙ ap (λ x. get x st.dest_units) slug ∙ p)))
          | inr r ↦ inr (w.complete t u r q)
        ];
      },
    )

module _ (sha256 : Text → List ℕ) (source dest : Texts) (base : Map Text Text) where
  abbrev pub source_nodes : List NodeUnit
  source_nodes = nodes_of (entries (units_of source))

  pub record PlanHolds (st : Merging) : Type 0 where
    -- A recorded hash of a node is that of both sides.
    pub recorded :
        (b h : Text)
        → IsNodeKey b
        → get b st.plan.state_after ≡ some h
        → HasNode sha256 base source_nodes (merge_start dest) b h
          × ((n : NodeUnit) × (node_at b st ≡ some n) × (node_hash sha256 n ≡ h))
    -- A node of the destination stays in its page, and what is lost of it was recorded.
    pub docs :
        (b s : Text) → get b (merge_start dest).dest_doc_of ≡ some s → get b st.dest_doc_of ≡ some s
    pub kept :
        (b : Text) (d : NodeUnit)
        → node_at b (merge_start dest) ≡ some d
        → (n : NodeUnit) × (node_at b st ≡ some n) × Kept sha256 base b d n
    -- The texts to write are those of the merged pages, and every other page is as it was.
    pub written :
        (s t : Text)
        → Elem (s, t) st.plan.writes
        → (u : DocUnits) × (get s st.dest_units ≡ some u) × (t ≡ render_doc u)
    -- No more texts than counted changes.
    pub counted : length st.plan.writes ≤ changes st.plan
    pub unwritten :
        (s : Text) (u : DocUnits)
        → get s st.dest_units ≡ some u
        → Elem (s, render_doc u) st.plan.writes ⊎ (get s (units_of dest) ≡ some u)

  module _ (looped : Merging)
      (sound : IsSound sha256 base source_nodes (merge_start dest) looped) where
    abbrev passed : Merging
    passed =
        note_created sha256 base dest (entries (units_of source))
          (merge_metas sha256 base (entries (units_of source)) looped)

    passes : Passes looped passed
    passes = metas-Passes sha256 base dest (entries (units_of source)) looped

    passed-node_at : (b : Text) → node_at b passed ≡ node_at b looped
    passed-node_at b =
        ap (λ m. in_doc b (get b m) passed.dest_units) passes.docs ∙ same (get b looped.dest_doc_of)
      where
        same : (o : Option Text) → in_doc b o passed.dest_units ≡ in_doc b o looped.dest_units
        same none = refl
        same (some s) = passes.nodes b s

    indexed_page :
        (a s : Text)
        → Elem (a, s) (entries passed.dest_doc_of)
        → is_some (get s passed.dest_units) ≡ true
    indexed_page a s e =
        let home : get a looped.dest_doc_of ≡ some s =
          ap (get a) (sym passes.docs) ∙ get_of_Elem a s passed.dest_doc_of e in
        let (n, q) = sound.indexed.indexed a s home in
        there (get s passed.dest_units) n (passes.nodes a s ∙ q)
      where
        there : (o : Option DocUnits) (n : NodeUnit) → in_page a o ≡ some n → is_some o ≡ true
        there none n q = cc
        there (some u) n q = refl

    marked_page_there :
        (s : Text)
        → Elem (s, true) (entries passed.changed)
        → is_some (get s passed.dest_units) ≡ true
    marked_page_there s e =
        passes.marked_pages sound.indexed.pages s (ap is_some (get_of_Elem s true passed.changed e))

    left_alone :
        (s : Text)
        → (get s passed.changed ≡ some true)
          ⊎ (get s passed.dest_units ≡ get s (merge_start dest).dest_units)
    left_alone s = elim (passes.marks s) [
      | inl t ↦ inl t
      | inr (c, e) ↦ elim (sound.marks s) [ inl t ↦ inl (c ∙ t) | inr old ↦ inr (e ∙ old) ]
    ]

    holds :
        (deleted : List NodeRef) (writes : Texts)
        → WritesPages passed (entries passed.changed) writes
        → length writes ≤ changes passed.plan
        → PlanHolds (finish_plan passed deleted writes)
    unfolding finish_plan
    holds deleted writes w few = record {
      counted = few;
      recorded = λ b h k e.
          let (_, has, (n, q, m)) = sound.recorded b h (sym (passes.hashes b k) ∙ e) in
          (has, (n, passed-node_at b ∙ q, m));
      docs = λ b s e. ap (get b) passes.docs ∙ sound.docs b s e;
      kept = λ b d e. let (n, q, k) = sound.kept b d e in (n, passed-node_at b ∙ q, k);
      written = w.sound;
      unwritten = λ s u q. elim (left_alone s) [
        | inl t ↦ inl (w.complete s u (Elem-of_get s true passed.changed t) q)
        | inr same ↦ inr (unfold merge_start in sym same ∙ q)
      ];
    }

  -- Where the anchors of the source's pages are distinct, the plan of a merge is made without a
  -- panic, and with the destination's pages as it leaves them: each hash that it records of a node's
  -- anchor is that of a node of the source and of the destination's node; every anchored node that the
  -- index of the destination finds stays in its page, with its heading and all its lines, unless it
  -- was the recorded one; each text to write is that of a merged page, there are no more of them than
  -- the additions, updates and unions that the plan counts, and every page without one is as it was.
  pub plan_merge-PlanHolds :
      Distinct (anchors_of source_nodes)
      → (st : Merging) × (merge_all sha256 source dest base ≡ some st)
        × (plan_merge sha256 source dest base ≡ some st.plan)
        × PlanHolds st
  unfolding merge_all plan_merge
  plan_merge-PlanHolds distinct =
      let (looped, e, sound) =
        merge_docs-IsSound sha256 base source_nodes (merge_start dest) (entries (units_of source))
          (merge_start dest) (λ n l. l) (start-IsSound sha256 base source_nodes dest)
          (distinct, λ b l k. unfold merge_start in absurd k) in
      let docs = entries (units_of source) in
      let counted_start : IsCounted (merge_start dest) = unfold merge_start in omega arith in
      let st = passed looped sound in
      let (refs, q) =
        deleted_nodes-returns base st (entries st.dest_doc_of) (indexed_page looped sound) in
      let (writes, r, w) =
        page_writes-returns st (entries st.changed) (marked_page_there looped sound) in
      (
        finish_plan st refs writes,
        rw e (rw q (rw r refl)),
        rw e (rw q (rw r refl)),
        holds looped sound refs writes w (
            omega (
              arith,
              note_created-IsCounted sha256 base dest docs (merge_metas sha256 base docs looped) (
                  merge_metas-IsCounted sha256 base docs looped
                    (merge_docs-Counts sha256 base docs (merge_start dest) looped counted_start e)),
              length-page_writes st (entries st.changed) writes r,
              length-entries st.changed,
            )),
      )
