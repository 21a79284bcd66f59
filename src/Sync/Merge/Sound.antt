-- ===== src/Sync/Merge/Sound.antt =====
-- The loops over the source's pages and nodes, for a source whose anchors are distinct.
use braincrawl.Base.{
  ℕ, ◌+◌, true, List, [], ◌∷◌, ◌++◌, Option, none, some, ◌==◌, list_eq, nat_eq, ◌≡◌, ◌≢◌, refl, sym,
  ap, ◌∙◌, ◌⊎◌, inl, inr, Bool-cases, Elem, subst, eq_of_beq, ne_of_beq, Elem-append_left,
  Elem-append_right,
}
use braincrawl.Base.Distinct.{Distinct}
use braincrawl.Base.Map.{Map, get}
use braincrawl.Base.Scan.{Text}
use braincrawl.Sync.{NodeUnit, DocUnits, node_hash}
use braincrawl.Sync.Files.{recorded_as}
use braincrawl.Sync.Merge.{Merging, merge_node, merge_nodes, merge_docs}
use braincrawl.Sync.Merge.Steps.{Alike, Alike-trans, Alike-hash}
use braincrawl.Sync.Merge.Effects.{node_at, IsIndexed}
use braincrawl.Sync.Merge.Nodes.{Kept, Merges}
use braincrawl.Sync.Merge.Loop.{merge_node-Merges}

abbrev pub anchor_and : Option Text → List Text → List Text
anchor_and none rest = rest
anchor_and (some a) rest = a ∷ rest

abbrev pub anchors_of : List NodeUnit → List Text
anchors_of [] = []
anchors_of (n ∷ ns) = anchor_and n.anchor (anchors_of ns)

abbrev pub nodes_of : List (Text × DocUnits) → List NodeUnit
nodes_of [] = []
nodes_of ((slug, units) ∷ docs) = units.nodes ++ nodes_of docs

-- The anchors to come are distinct and none of them has been seen.
abbrev Unseen : List NodeUnit → Merging → Type 0
Unseen ns st =
    Distinct (anchors_of ns) × ((b : Text) → Elem b (anchors_of ns) → ¬ Elem b st.source_anchors)

module _ (sha256 : Text → List ℕ) (base : Map Text Text) (source : List NodeUnit)
    (start : Merging) where
  -- A node of the source has the anchor and the hash.
  abbrev pub HasNode : Text → Text → Type 0
  HasNode a h = (s : NodeUnit) × Elem s source × (s.anchor ≡ some a) × (node_hash sha256 s ≡ h)

  -- What is true all along the loops.
  pub record IsSound (st : Merging) : Type 0 where
    pub indexed : IsIndexed st
    pub recorded :
        (b h : Text)
        → get b st.plan.state_after ≡ some h
        → Elem b st.source_anchors
          × HasNode b h
          × ((n : NodeUnit) × (node_at b st ≡ some n) × (node_hash sha256 n ≡ h))
    pub docs : (b s : Text) → get b start.dest_doc_of ≡ some s → get b st.dest_doc_of ≡ some s
    pub marks :
        (s : Text) → (get s st.changed ≡ some true) ⊎ (get s st.dest_units ≡ get s start.dest_units)
    pub untouched :
        (b : Text) (d : NodeUnit)
        → ¬ Elem b st.source_anchors
        → node_at b start ≡ some d
        → (n : NodeUnit) × (node_at b st ≡ some n) × Alike d n
    pub kept :
        (b : Text) (d : NodeUnit)
        → node_at b start ≡ some d
        → (n : NodeUnit) × (node_at b st ≡ some n) × Kept sha256 base b d n

  Kept-after :
      (b : Text) {d n : NodeUnit} (k : NodeUnit)
      → Alike d n
      → Kept sha256 base b n k
      → Kept sha256 base b d k
  Kept-after b k alike (inl r) =
      inl (subst (λ h. recorded_as (get b base) h ≡ true) (Alike-hash sha256 alike) r)
  Kept-after b k alike (inr (heading, lines)) =
      inr (heading ∙ alike.same_heading, λ l e. lines l (alike.lines_kept l e))

  Kept-before :
      (b : Text) (d : NodeUnit) {n k : NodeUnit}
      → Kept sha256 base b d n
      → Alike n k
      → Kept sha256 base b d k
  Kept-before b d (inl r) alike = inl r
  Kept-before b d (inr (heading, lines)) alike =
      inr (alike.same_heading ∙ heading, λ l e. alike.lines_kept l (lines l e))

  module _ {s_node : NodeUnit} {anchor : Text} {st st' : Merging}
      (own : s_node.anchor ≡ some anchor) (member : Elem s_node source)
      (out : ¬ Elem anchor st.source_anchors) (sound : IsSound st)
      (m : Merges sha256 base s_node anchor st st') where
    step_recorded :
        (b h : Text)
        → get b st'.plan.state_after ≡ some h
        → Elem b st'.source_anchors
          × HasNode b h
          × ((n : NodeUnit) × (node_at b st' ≡ some n) × (node_hash sha256 n ≡ h))
    step_recorded b h e = elim (Bool-cases (anchor == b)) [
      | inr f ↦
          let (seen, has, (n, q, k)) =
            sound.recorded b h (sym (m.recorded_others b (ne_of_beq anchor b f)) ∙ e) in
          let (n', q', alike) = m.others b n (ne_of_beq anchor b f) q in
          (subst (Elem b) (sym m.seen) (inr seen), has, (n', q', Alike-hash sha256 alike ∙ k))
      | inl t ↦
          let same : anchor ≡ b = eq_of_beq anchor b t in
          elim (m.recorded_own h (ap (λ x. get x st'.plan.state_after) same ∙ e)) [
            | inl old ↦ absurd (out (sound.recorded anchor h old).0)
            | inr (k, (n, q, w)) ↦ (
              subst (Elem b) (sym m.seen) (inl (sym same)),
              (s_node, member, own ∙ ap some same, k),
              (n, ap (λ x. node_at x st') (sym same) ∙ q, w),
            )
          ]
    ]

    step_untouched :
        (b : Text) (d : NodeUnit)
        → ¬ Elem b st'.source_anchors
        → node_at b start ≡ some d
        → (n : NodeUnit) × (node_at b st' ≡ some n) × Alike d n
    step_untouched b d fresh e =
        let ne : anchor ≢ b = λ q. fresh (subst (Elem b) (sym m.seen) (inl (sym q))) in
        let (n, q, alike) =
          sound.untouched b d (λ x. fresh (subst (Elem b) (sym m.seen) (inr x))) e in
        let (n', q', alike') = m.others b n ne q in (n', q', Alike-trans alike alike')

    step_keeps :
        (b : Text) (d : NodeUnit)
        → node_at b start ≡ some d
        → (n : NodeUnit) × (node_at b st' ≡ some n) × Kept sha256 base b d n
    step_keeps b d e = elim (Bool-cases (anchor == b)) [
      | inr f ↦
          let (n, q, k) = sound.kept b d e in
          let (n', q', alike) = m.others b n (ne_of_beq anchor b f) q in
          (n', q', Kept-before b d k alike)
      | inl t ↦
          let same : b ≡ anchor = sym (eq_of_beq anchor b t) in
          subst (λ x. (n : NodeUnit) × (node_at x st' ≡ some n) × Kept sha256 base x d n) (sym same)
            (let (n, q, alike) =
                sound.untouched anchor d out (ap (λ x. node_at x start) (sym same) ∙ e) in
              let (n', q', k) = m.own n q in (n', q', Kept-after anchor n' alike k))
    ]

    step-IsSound : IsSound st'
    step-IsSound = record {
      indexed = m.indexed;
      recorded = step_recorded;
      marks = λ s. elim (m.marks s) [
        | inl t ↦ inl t
        | inr (c, q) ↦ elim (sound.marks s) [ inl t ↦ inl (c ∙ t) | inr old ↦ inr (q ∙ old) ]
      ];
      docs = λ b s e. m.docs b s (sound.docs b s e);
      untouched = step_untouched;
      kept = step_keeps;
    }

  unanchored-IsSound :
      {st : Merging}
      → IsSound st
      → IsSound (record st {
        plan = record st.plan { unanchored_source = st.plan.unanchored_source + 1 };
      })
  unanchored-IsSound sound = record {
    indexed = record {
      indexed = sound.indexed.indexed;
      covered = sound.indexed.covered;
      pages = sound.indexed.pages;
    };
    recorded = sound.recorded;
    docs = sound.docs;
    marks = sound.marks;
    untouched = sound.untouched;
    kept = sound.kept;
  }

  module _ (slug : Text) (s_units : DocUnits) where
    -- One node, and those that follow it.
    merge_node-IsSound :
        (n : NodeUnit) (o : Option Text) (rest : List NodeUnit) (st : Merging)
        → n.anchor ≡ o
        → Elem n source
        → IsSound st
        → Distinct (anchor_and o (anchors_of rest))
        → ((b : Text) → Elem b (anchor_and o (anchors_of rest)) → ¬ Elem b st.source_anchors)
        → (st' : Merging) × (merge_node sha256 base slug s_units n o st ≡ some st')
          × IsSound st'
          × Unseen rest st'
    merge_node-IsSound n none rest st own member sound d out = (
      record st { plan = record st.plan { unanchored_source = st.plan.unanchored_source + 1 } },
      unfold merge_node in refl,
      unanchored-IsSound sound,
      (d, out),
    )
    merge_node-IsSound n (some a) rest st own member sound (first, d) out =
        let (st', q, m) = merge_node-Merges sha256 base slug s_units n a st own sound.indexed in
        (
          st',
          q,
          step-IsSound own member (out a (inl refl)) sound m,
          (
            d,
            λ b e k. elim (subst (Elem b) m.seen k) [
              | inl same ↦ first (subst (λ x. Elem x (anchors_of rest)) same e)
              | inr old ↦ out b (inr e) old
            ],
          ),
        )

    merge_nodes-IsSound :
        (ns rest : List NodeUnit) (st : Merging)
        → ((n : NodeUnit) → Elem n ns → Elem n source)
        → IsSound st
        → Unseen (ns ++ rest) st
        → (st' : Merging) × (merge_nodes sha256 base slug s_units ns st ≡ some st')
          × IsSound st'
          × Unseen rest st'
    unfolding merge_nodes
    merge_nodes-IsSound [] rest st within sound unseen = (st, refl, sound, unseen)
    merge_nodes-IsSound (n ∷ ns) rest st within sound (d, out) =
        let (mid, q, sound', unseen) =
          merge_node-IsSound n n.anchor (ns ++ rest) st refl (within n (inl refl)) sound d out in
        let (st', q', sound'', unseen') =
          merge_nodes-IsSound ns rest mid (λ m e. within m (inr e)) sound' unseen in
        (st', rw q q', sound'', unseen')

  pub merge_docs-IsSound :
      (docs : List (Text × DocUnits)) (st : Merging)
      → ((n : NodeUnit) → Elem n (nodes_of docs) → Elem n source)
      → IsSound st
      → Unseen (nodes_of docs) st
      → (st' : Merging) × (merge_docs sha256 base docs st ≡ some st') × IsSound st'
  unfolding merge_docs
  merge_docs-IsSound [] st within sound unseen = (st, refl, sound)
  merge_docs-IsSound ((slug, units) ∷ docs) st within sound unseen =
      let (mid, q, sound', unseen') =
        merge_nodes-IsSound slug units units.nodes (nodes_of docs) st
          (λ m e. within m (Elem-append_left m units.nodes (nodes_of docs) e)) sound unseen in
      let (st', q', sound'') =
        merge_docs-IsSound docs mid
          (λ m e. within m (Elem-append_right m units.nodes (nodes_of docs) e)) sound' unseen' in
      (st', rw q q', sound'')
