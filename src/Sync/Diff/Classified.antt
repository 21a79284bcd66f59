-- ===== src/Sync/Diff/Classified.antt =====
-- `diff_collections` classifies every anchor of the two collections.
use mathlib.Core.Option.{some-injective}
use braincrawl.Base.{
  ℕ, ◌+◌, true, List, [], ◌∷◌, Option, none, some, ◌==◌, list_eq, nat_eq, ◌≡◌, refl, sym, ap, ◌∙◌,
  ◌⊎◌, inl, inr, arith, Bool-cases, is_some, Elem, subst, length, eq_of_beq, ne_of_beq,
}
use braincrawl.Base.Map.{Map, get, get-insert, entries}
use braincrawl.Base.Sort.{length-sort_by}
use braincrawl.Base.Scan.{Text}
use braincrawl.Sync.{NodeUnit, Texts, node_hash, heading_title, split_doc}
use braincrawl.Sync.Plan.{ref_lt}
use braincrawl.Sync.Diff.{
  Entry, Indexed, CollectionDiff, index_unit, index_each, index_pages, index_docs, compare_entries,
  sorted_diff, diff_indexed, diff_collections,
}
use braincrawl.Sync.Diff.Reports.{
  is_absent, is_elsewhere, is_differing, compare_entries-Compared, add_missing_lem, Lists, Absent,
  Elsewhere, Differs, Lists-refs, Absent-test, Elsewhere-test, Differs-test,
}

module _ (sha256 : Text → List ℕ) where
  -- The entry is that of a node of the collection.
  abbrev pub EntryOf : Texts → Text → Entry → Type 0
  EntryOf docs x e =
      (slug : Text) × (content : Text) × (n : NodeUnit) × Elem (slug, content) docs
      × Elem n (split_doc content).nodes
      × (n.anchor ≡ some x)
      × (e ≡ (slug, node_hash sha256 n, heading_title n.heading))

  unit_sound :
      (slug x : Text) (e : Entry) (n : NodeUnit) (o : Option Text) (ix : Indexed)
      → n.anchor ≡ o
      → get x (index_unit sha256 slug n o ix).by_anchor ≡ some e
      → (get x ix.by_anchor ≡ some e)
        ⊎ ((n.anchor ≡ some x) × (e ≡ (slug, node_hash sha256 n, heading_title n.heading)))
  unfolding index_unit
  unit_sound slug x e n none ix own h = inl h
  unit_sound slug x e n (some a) ix own h =
      let entry : Entry = (slug, node_hash sha256 n, heading_title n.heading) in
      elim (Bool-cases (a == x)) [
        | inr f ↦ inl (rw f at (sym (get-insert a x entry ix.by_anchor) ∙ h))
        | inl t ↦ inr (
          own ∙ ap some (eq_of_beq a x t),
          sym (some-injective entry e (rw t at (sym (get-insert a x entry ix.by_anchor) ∙ h))),
        )
      ]

  each_sound :
      (slug x : Text) (e : Entry) (ns : List NodeUnit) (ix : Indexed)
      → get x (index_each sha256 slug ns ix).by_anchor ≡ some e
      → (get x ix.by_anchor ≡ some e)
        ⊎ ((n : NodeUnit) × Elem n ns
            × (n.anchor ≡ some x)
            × (e ≡ (slug, node_hash sha256 n, heading_title n.heading)))
  unfolding index_each
  each_sound slug x e [] ix h = inl h
  each_sound slug x e (n ∷ ns) ix h =
      elim (each_sound slug x e ns (index_unit sha256 slug n n.anchor ix) h) [
        | inr (m, l, q, w) ↦ inr (m, inr l, q, w)
        | inl k ↦ elim (unit_sound slug x e n n.anchor ix refl k) [
          | inl old ↦ inl old
          | inr (q, w) ↦ inr (n, inl refl, q, w)
        ]
      ]

  pages_sound :
      (x : Text) (e : Entry) (docs : Texts) (ix : Indexed)
      → get x (index_pages sha256 docs ix).by_anchor ≡ some e
      → (get x ix.by_anchor ≡ some e) ⊎ EntryOf docs x e
  unfolding index_pages
  pages_sound x e [] ix h = inl h
  pages_sound x e ((slug, content) ∷ docs) ix h =
      elim (pages_sound x e docs (index_each sha256 slug (split_doc content).nodes ix) h) [
        | inr (s, c, n, l, k, q, w) ↦ inr (s, c, n, inr l, k, q, w)
        | inl k ↦ elim (each_sound slug x e (split_doc content).nodes ix k) [
          | inl old ↦ inl old
          | inr (n, l, q, w) ↦ inr (slug, content, n, inl refl, l, q, w)
        ]
      ]

  unit_keeps :
      (slug x : Text) (n : NodeUnit) (o : Option Text) (ix : Indexed)
      → (is_some (get x ix.by_anchor) ≡ true) ⊎ (o ≡ some x)
      → is_some (get x (index_unit sha256 slug n o ix).by_anchor) ≡ true
  unfolding index_unit
  unit_keeps slug x n none ix (inl h) = h
  unit_keeps slug x n none ix (inr q) = cc
  unit_keeps slug x n (some a) ix h =
      let entry : Entry = (slug, node_hash sha256 n, heading_title n.heading) in
      ap is_some (get-insert a x entry ix.by_anchor) ∙ elim (Bool-cases (a == x)) [
        | inl t ↦ rw t refl
        | inr f ↦
            rw f
              (elim h [ inl old ↦ old | inr q ↦ absurd (ne_of_beq a x f (some-injective a x q)) ])
      ]

  each_keeps :
      (slug x : Text) (ns : List NodeUnit) (ix : Indexed)
      → (is_some (get x ix.by_anchor) ≡ true) ⊎ ((n : NodeUnit) × Elem n ns × (n.anchor ≡ some x))
      → is_some (get x (index_each sha256 slug ns ix).by_anchor) ≡ true
  unfolding index_each
  each_keeps slug x [] ix (inl h) = h
  each_keeps slug x [] ix (inr h) = absurd h.1
  each_keeps slug x (n ∷ ns) ix (inl h) =
      each_keeps slug x ns (index_unit sha256 slug n n.anchor ix)
        (inl (unit_keeps slug x n n.anchor ix (inl h)))
  each_keeps slug x (n ∷ ns) ix (inr (m, inr l, q)) =
      each_keeps slug x ns (index_unit sha256 slug n n.anchor ix) (inr (m, l, q))
  each_keeps slug x (n ∷ ns) ix (inr (m, inl same, q)) =
      each_keeps slug x ns (index_unit sha256 slug n n.anchor ix) (
        inl
          (unit_keeps slug x n n.anchor ix (inr (ap (λ (u : NodeUnit). u.anchor) (sym same) ∙ q))))

  pages_keep :
      (x : Text) (docs : Texts) (ix : Indexed)
      → (is_some (get x ix.by_anchor) ≡ true) ⊎ ((e : Entry) × EntryOf docs x e)
      → is_some (get x (index_pages sha256 docs ix).by_anchor) ≡ true
  unfolding index_pages
  pages_keep x [] ix (inl h) = h
  pages_keep x [] ix (inr (e, (s, c, n, l, k, q, w))) = absurd l
  pages_keep x ((slug, content) ∷ docs) ix (inl h) =
      pages_keep x docs (index_each sha256 slug (split_doc content).nodes ix)
        (inl (each_keeps slug x (split_doc content).nodes ix (inl h)))
  pages_keep x ((slug, content) ∷ docs) ix (inr (e, (s, c, n, inr l, k, q, w))) =
      pages_keep x docs (index_each sha256 slug (split_doc content).nodes ix)
        (inr (e, (s, c, n, l, k, q, w)))
  pages_keep x ((slug, content) ∷ docs) ix (inr (e, (s, c, n, inl same, k, q, w))) =
      pages_keep x docs (index_each sha256 slug (split_doc content).nodes ix) (
        inl (
          each_keeps slug x (split_doc content).nodes ix
            (inr (n, subst (λ (p : Text × Text). Elem n (split_doc p.1).nodes) same k, q))))

  module _ (a b : Texts) where
    abbrev pub index_a : Map Text Entry
    index_a = (index_docs sha256 a).by_anchor

    abbrev pub index_b : Map Text Entry
    index_b = (index_docs sha256 b).by_anchor

    pub record Classifies (d : CollectionDiff) : Type 0 where
      pub sound_a : (x : Text) (e : Entry) → get x index_a ≡ some e → EntryOf a x e
      pub sound_b : (x : Text) (e : Entry) → get x index_b ≡ some e → EntryOf b x e
      pub complete_a : (x : Text) (e : Entry) → EntryOf a x e → is_some (get x index_a) ≡ true
      pub complete_b : (x : Text) (e : Entry) → EntryOf b x e → is_some (get x index_b) ≡ true
      pub only_a : Lists index_a (Absent index_b) d.only_in_a
      pub only_b : Lists index_b (Absent index_a) d.only_in_b
      pub changed_page : Lists index_a (Elsewhere index_b) d.moved
      pub changed_text : Lists index_a (Differs index_b) d.differing
      pub total :
          length d.only_in_a + length d.moved + length d.differing + d.in_sync
          ≡ length (entries index_a)

    index_sound :
        (docs : Texts) (x : Text) (e : Entry)
        → get x (index_docs sha256 docs).by_anchor ≡ some e
        → EntryOf docs x e
    unfolding index_docs
    index_sound docs x e h =
        elim (pages_sound x e docs (record { by_anchor = []; unanchored = 0 }) h) [
          | inl q ↦ unfold get in cc
          | inr k ↦ k
        ]

    index_complete :
        (docs : Texts) (x : Text) (e : Entry)
        → EntryOf docs x e
        → is_some (get x (index_docs sha256 docs).by_anchor) ≡ true
    unfolding index_docs
    index_complete docs x e h =
        pages_keep x docs (record { by_anchor = []; unanchored = 0 }) (inr (e, h))

    -- What two collections have of each anchor: an anchor's entry is that of one of its nodes, and every
    -- anchored node's anchor has one. The lists hold exactly the anchors of one side that the other
    -- lacks, has in another page, or has in the same page with another hash, each with its page and its
    -- title; and every anchor of the first side is counted once, the ones in sync included.
    pub diff_collections-Classifies : Classifies (diff_collections sha256 a b)
    unfolding diff_collections diff_indexed sorted_diff
    diff_collections-Classifies =
        let start : CollectionDiff = record {
          only_in_a = [];
          only_in_b = [];
          differing = [];
          moved = [];
          in_sync = 0;
          unanchored_a = (index_docs sha256 a).unanchored;
          unanchored_b = (index_docs sha256 b).unanchored;
        } in
        let c = compare_entries-Compared index_b (entries index_a) start in
        let mid = compare_entries index_b (entries index_a) start in
        rw (add_missing_lem index_a (entries index_b) mid) (record {
          sound_a = index_sound a;
          sound_b = index_sound b;
          complete_a = index_complete a;
          complete_b = index_complete b;
          only_a =
              rw c.absent
                (Lists-refs index_a (is_absent index_b) (Absent index_b) (Absent-test index_b));
          only_b =
              rw c.others
                (Lists-refs index_b (is_absent index_a) (Absent index_a) (Absent-test index_a));
          changed_page = rw c.moved (
              Lists-refs index_a (is_elsewhere index_b) (Elsewhere index_b)
                (Elsewhere-test index_b));
          changed_text =
              rw c.edited (
                Lists-refs index_a (is_differing index_b) (Differs index_b) (Differs-test index_b));
          total = omega (
            arith,
            c.counted,
            length-sort_by ref_lt mid.only_in_a,
            length-sort_by ref_lt mid.moved,
            length-sort_by ref_lt mid.differing,
          );
        })
