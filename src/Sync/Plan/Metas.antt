-- ===== src/Sync/Plan/Metas.antt =====
-- What the passes behind the node loop leave alone.
use braincrawl.Base.{
  ℕ, true, List, [], ◌∷◌, Option, none, some, if◌then◌else◌, ◌==◌, list_eq, nat_eq, ◌≡◌, ◌≢◌, refl,
  sym, ap, ◌∙◌, inl, inr, Bool-cases, is_some, eq_of_beq, beq_of_ne, any,
}
use braincrawl.Base.Map.{Map, get}
use braincrawl.Base.Ordered.{put, get-put}
use braincrawl.Base.Scan.{Text}
use braincrawl.Sync.{DocUnits, Texts, meta_hash}
use braincrawl.Sync.Files.{recorded_as}
use braincrawl.Sync.Merge.{Merging, doc_state_key}
use braincrawl.Sync.Merge.Effects.{in_page, MarkedOrSame, put_marks, marked_page}
use braincrawl.Sync.Plan.{note_hash, merge_front, merge_meta, merge_metas, note_created}

-- No key of a page's frontmatter.
abbrev pub IsNodeKey : Text → Type 0
IsNodeKey b = (slug : Text) → doc_state_key slug ≢ b

-- The nodes, their index and their hashes stay.
pub record Passes (st st' : Merging) : Type 0 where
  pub nodes : (b s : Text) → in_page b (get s st'.dest_units) ≡ in_page b (get s st.dest_units)
  pub docs : st'.dest_doc_of ≡ st.dest_doc_of
  pub seen : st'.source_anchors ≡ st.source_anchors
  pub hashes : (b : Text) → IsNodeKey b → get b st'.plan.state_after ≡ get b st.plan.state_after
  pub marked_pages :
      ((s : Text) → is_some (get s st.changed) ≡ true → is_some (get s st.dest_units) ≡ true)
      → (s : Text) → is_some (get s st'.changed) ≡ true
      → is_some (get s st'.dest_units) ≡ true
  pub marks : (s : Text) → MarkedOrSame st st' s

Passes-refl : (st : Merging) → Passes st st
Passes-refl st = record {
  nodes = λ b s. refl;
  docs = refl;
  seen = refl;
  hashes = λ b k. refl;
  marked_pages = λ h. h;
  marks = λ s. inr (refl, refl);
}

pub Passes-trans : {r s t : Merging} → Passes r s → Passes s t → Passes r t
Passes-trans p q = record {
  nodes = λ b s. q.nodes b s ∙ p.nodes b s;
  docs = q.docs ∙ p.docs;
  seen = q.seen ∙ p.seen;
  hashes = λ b k. q.hashes b k ∙ p.hashes b k;
  marked_pages = λ h. q.marked_pages (p.marked_pages h);
  marks = λ s. elim (q.marks s) [
    | inl t ↦ inl t
    | inr (c, e) ↦ elim (p.marks s) [ inl t ↦ inl (c ∙ t) | inr (c', e') ↦ inr (c ∙ c', e ∙ e') ]
  ];
}

put_node_key :
    (slug h b : Text) (m : Map Text Text)
    → IsNodeKey b
    → get b (put (doc_state_key slug) h m) ≡ get b m
put_node_key slug h b m k =
    get-put (doc_state_key slug) b h m ∙ rw (beq_of_ne (doc_state_key slug) b (k slug)) refl

module _ (sha256 : Text → List ℕ) (base : Map Text Text) where
  note_hash-Passes :
      (slug h : Text) (st : Merging) → Passes st (note_hash sha256 base (doc_state_key slug) h st)
  note_hash-Passes slug h st = record {
    nodes = λ b s. refl;
    docs = refl;
    seen = refl;
    hashes = λ b k. put_node_key slug h b st.plan.state_after k;
    marked_pages = λ e. e;
    marks = λ s. inr (refl, refl);
  }

  merge_front-Passes :
      (slug : Text) (s_units : DocUnits) (st : Merging) (d_units : DocUnits)
      → get slug st.dest_units ≡ some d_units
      → Passes st (merge_front sha256 base slug s_units st d_units)
  unfolding merge_front
  merge_front-Passes slug s_units st d_units page =
      elim (Bool-cases (meta_hash sha256 s_units == meta_hash sha256 d_units)) [
        | inl t ↦ rw t (note_hash-Passes slug (meta_hash sha256 s_units) st)
        | inr f ↦
            rw f
              (elim (Bool-cases
                (recorded_as (get (doc_state_key slug) base) (meta_hash sha256 d_units))) [
                  | inl t ↦ rw t (record {
                    nodes = λ b s. fronted b s;
                    docs = refl;
                    seen = refl;
                    hashes =
                        λ b k. put_node_key slug (meta_hash sha256 s_units) b st.plan.state_after k;
                    marked_pages =
                        λ h s e. marked_page slug s true new_units st.changed st.dest_units e (h s);
                    marks = λ s. put_marks slug s new_units st;
                  })
                  | inr g ↦
                      rw g
                        (elim (Bool-cases (
                          recorded_as (get (doc_state_key slug) base) (meta_hash sha256 s_units))) [
                            | inl t ↦ rw t (Passes-refl st)
                            | inr k ↦ rw k (record {
                              nodes = λ b s. refl;
                              docs = refl;
                              seen = refl;
                              hashes = λ b e. refl;
                              marked_pages = λ e. e;
                              marks = λ s. inr (refl, refl);
                            })
                          ])
                ])
      ]
    where
      new_units : DocUnits
      new_units = record d_units { frontmatter = s_units.frontmatter; prologue = s_units.prologue }

      fronted :
          (b s : Text)
          → in_page b (get s (put slug new_units st.dest_units)) ≡ in_page b (get s st.dest_units)
      fronted b s = elim (Bool-cases (slug == s)) [
        | inr f ↦ ap (in_page b) (get-put slug s new_units st.dest_units ∙ rw f refl)
        | inl t ↦
            let there : get s (put slug new_units st.dest_units) ≡ some new_units =
              get-put slug s new_units st.dest_units ∙ rw t refl in
            ap (in_page b) there
            ∙ sym (
                ap (λ x. in_page b (get x st.dest_units)) (sym (eq_of_beq slug s t))
                ∙ ap (in_page b) page)
      ]

  merge_metas-Passes :
      (docs : List (Text × DocUnits)) (st : Merging) → Passes st (merge_metas sha256 base docs st)
  unfolding merge_metas merge_meta
  merge_metas-Passes [] st = Passes-refl st
  merge_metas-Passes ((slug, s_units) ∷ docs) st =
      Passes-trans (one (get slug st.dest_units) refl)
        (merge_metas-Passes docs (merge_meta sha256 base slug s_units st (get slug st.dest_units)))
    where
      one :
          (o : Option DocUnits)
          → get slug st.dest_units ≡ o
          → Passes st (merge_meta sha256 base slug s_units st o)
      one none e = Passes-refl st
      one (some d_units) e = merge_front-Passes slug s_units st d_units e

  note_created-Passes :
      (dest : Texts) (docs : List (Text × DocUnits)) (st : Merging)
      → Passes st (note_created sha256 base dest docs st)
  unfolding note_created
  note_created-Passes dest [] st = Passes-refl st
  note_created-Passes dest ((slug, s_units) ∷ docs) st =
      Passes-trans one (note_created-Passes dest docs _)
    where
      one : Passes st (
          if any {A = Text × Text} (λ p. p.0 == slug) dest
          then st
          else if is_some (get slug st.dest_units)
          then note_hash sha256 base (doc_state_key slug) (meta_hash sha256 s_units) st
          else st)
      one = elim (Bool-cases (any {A = Text × Text} (λ p. p.0 == slug) dest)) [
        | inl t ↦ rw t (Passes-refl st)
        | inr f ↦ rw f (elim (Bool-cases (is_some (get slug st.dest_units))) [
          | inl t ↦ rw t (note_hash-Passes slug (meta_hash sha256 s_units) st)
          | inr g ↦ rw g (Passes-refl st)
        ])
      ]

  pub metas-Passes :
      (dest : Texts) (docs : List (Text × DocUnits)) (st : Merging)
      → Passes st (note_created sha256 base dest docs (merge_metas sha256 base docs st))
  metas-Passes dest docs st =
      Passes-trans (merge_metas-Passes docs st)
        (note_created-Passes dest docs (merge_metas sha256 base docs st))
