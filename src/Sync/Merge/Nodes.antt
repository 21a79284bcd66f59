-- ===== src/Sync/Merge/Nodes.antt =====
-- One node of the source is merged: no `expect` fails, the index stays right, no node of the
-- destination is lost, and a hash that is recorded is that of both sides.
use mathlib.Core.Option.{some-injective}
use braincrawl.Base.{
  ℕ, ◌+◌, Bool, true, false, List, [], ◌∷◌, ◌++◌, none, some, ◌==◌, list_eq, nat_eq, ◌≡◌, ◌≢◌, refl,
  sym, ap, ◌∙◌, ◌⊎◌, inl, inr, Bool-cases, Elem, Elem-append, Elem-append_left, Elem-append_right,
  subst, beq_refl, beq_of_ne, eq_of_beq,
}
use braincrawl.Base.Map.{Map, get}
use braincrawl.Base.Ordered.{put, get-put}
use braincrawl.Base.Scan.{Text, trim_end}
use braincrawl.Sync.{NodeUnit, DocUnits, node_hash}
use braincrawl.Sync.Files.{recorded_as}
use braincrawl.Sync.Union.{union_body}
use braincrawl.Sync.Union.Lines.{Unites, union_body-Unites}
use braincrawl.Sync.Merge.{
  MergePlan, Merging, find_node, node_ref, rewrite_node, unite_node, reconcile,
}
use braincrawl.Sync.Merge.Steps.{find_node-anchor, Alike, Alike-refl}
use braincrawl.Sync.Merge.Effects.{
  node_at, IsIndexed, Writes, Writes-node_at, Writes-others, Writes-docs, Writes-IsIndexed,
  rewrite_node-Writes, rewrite_node-marks, MarkedOrSame,
}

-- The heading and every line are still there.
abbrev pub KeepsLines : NodeUnit → NodeUnit → Type 0
KeepsLines d n = (n.heading ≡ d.heading) × ((l : Text) → Elem l d.body → Elem l n.body)

-- The node's anchor is noted.
abbrev pub entered : Text → Merging → Merging
entered anchor st = record st { source_anchors = anchor ∷ st.source_anchors }

placed_still :
    (l : Text) (before after added : List Text)
    → Elem l (before ++ after)
    → Elem l (before ++ (added ++ after))
placed_still l before after added e = elim (Elem-append l before after e) [
  | inl x ↦ Elem-append_left l before (added ++ after) x
  | inr x ↦ Elem-append_right l before (added ++ after) (Elem-append_right l added after x)
]

module _ (sha256 : Text → List ℕ) (base : Map Text Text) where
  -- The destination's node is the recorded one, which the source has edited, or nothing of it is lost.
  abbrev pub Kept : Text → NodeUnit → NodeUnit → Type 0
  Kept anchor d n = (recorded_as (get anchor base) (node_hash sha256 d) ≡ true) ⊎ KeepsLines d n

  pub record Merges (s_node : NodeUnit) (anchor : Text) (st st' : Merging) : Type 0 where
    pub indexed : IsIndexed st'
    pub seen : st'.source_anchors ≡ anchor ∷ st.source_anchors
    pub marks : (s : Text) → MarkedOrSame st st' s
    pub docs : (b s : Text) → get b st.dest_doc_of ≡ some s → get b st'.dest_doc_of ≡ some s
    pub others :
        (b : Text) (n : NodeUnit)
        → anchor ≢ b
        → node_at b st ≡ some n
        → (n' : NodeUnit) × (node_at b st' ≡ some n') × Alike n n'
    pub own :
        (d : NodeUnit)
        → node_at anchor st ≡ some d
        → (n : NodeUnit) × (node_at anchor st' ≡ some n) × Kept anchor d n
    pub recorded_others :
        (b : Text) → anchor ≢ b → get b st'.plan.state_after ≡ get b st.plan.state_after
    pub recorded_own :
        (h : Text)
        → get anchor st'.plan.state_after ≡ some h
        → (get anchor st.plan.state_after ≡ some h)
          ⊎ ((node_hash sha256 s_node ≡ h)
              × ((n : NodeUnit) × (node_at anchor st' ≡ some n) × (node_hash sha256 n ≡ h)))

  module _ (s_node : NodeUnit) (anchor : Text) (st : Merging) (inv : IsIndexed st) where
    pub entered-IsIndexed : IsIndexed (entered anchor st)
    entered-IsIndexed = record { indexed = inv.indexed; covered = inv.covered; pages = inv.pages }

    put_other : (b h : Text) (m : Map Text Text) → anchor ≢ b → get b (put anchor h m) ≡ get b m
    put_other b h m ne = get-put anchor b h m ∙ rw (beq_of_ne anchor b ne) refl

    put_own : (h k : Text) (m : Map Text Text) → get anchor (put anchor h m) ≡ some k → h ≡ k
    put_own h k m e =
        some-injective h k (rw (beq_refl anchor) at (sym (get-put anchor anchor h m) ∙ e))

    -- The pages stay, and nothing is recorded.
    pub idle :
        (p : MergePlan)
        → p.state_after ≡ st.plan.state_after
        → Merges s_node anchor st (record (entered anchor st) { plan = p })
    idle p same = record {
      indexed = record { indexed = inv.indexed; covered = inv.covered; pages = inv.pages };
      seen = refl;
      marks = λ s. inr (refl, refl);
      docs = λ b s e. e;
      others = λ b n ne e. (n, e, Alike-refl n);
      own = λ d e. (d, e, inr (refl, λ l h. h));
      recorded_others = λ b ne. ap (get b) same;
      recorded_own = λ h e. inl (ap (get anchor) (sym same) ∙ e);
    }

    -- The pages stay, and the hash is recorded, which both sides have.
    noted :
        (d : NodeUnit)
        → node_at anchor st ≡ some d
        → node_hash sha256 d ≡ node_hash sha256 s_node
        → Merges s_node anchor st (record (entered anchor st) {
          plan = record st.plan {
            state_after = put anchor (node_hash sha256 s_node) st.plan.state_after;
          };
        })
    noted d there same = record {
      indexed = record { indexed = inv.indexed; covered = inv.covered; pages = inv.pages };
      seen = refl;
      marks = λ s. inr (refl, refl);
      docs = λ b s e. e;
      others = λ b n ne e. (n, e, Alike-refl n);
      own = λ d' e. (d', e, inr (refl, λ l h. h));
      recorded_others = λ b ne. put_other b (node_hash sha256 s_node) st.plan.state_after ne;
      recorded_own = λ h e.
          let k = put_own (node_hash sha256 s_node) h st.plan.state_after e in
          inr (k, (d, there, same ∙ k));
    }

    -- The node is written.
    pub written :
        (slug : Text) (node : NodeUnit) (st' : Merging)
        → Writes slug anchor node (entered anchor st) st'
        → st'.source_anchors ≡ anchor ∷ st.source_anchors
        → ((s : Text) → MarkedOrSame (entered anchor st) st' s)
        → (get anchor st.dest_doc_of ≡ none) ⊎ (get anchor st.dest_doc_of ≡ some slug)
        → ((d : NodeUnit) → node_at anchor st ≡ some d → Kept anchor d node)
        → ((st'.plan.state_after ≡ st.plan.state_after)
            ⊎ ((st'.plan.state_after ≡ put anchor (node_hash sha256 s_node) st.plan.state_after)
                × (node ≡ s_node)))
        → Merges s_node anchor st st'
    written slug node st' w seen marks home kept state = record {
      indexed = Writes-IsIndexed w entered-IsIndexed;
      seen = seen;
      marks = marks;
      docs = λ b s e. Writes-docs w entered-IsIndexed b s home e;
      others = Writes-others w entered-IsIndexed;
      own = λ d e. (node, Writes-node_at w entered-IsIndexed, kept d e);
      recorded_others = λ b ne. elim state [
        | inl same ↦ ap (get b) same
        | inr (e, _) ↦ ap (get b) e ∙ put_other b (node_hash sha256 s_node) st.plan.state_after ne
      ];
      recorded_own = λ h e. elim state [
        | inl same ↦ inl (ap (get anchor) (sym same) ∙ e)
        | inr (q, is) ↦
            let k =
              put_own (node_hash sha256 s_node) h st.plan.state_after
                (ap (get anchor) (sym q) ∙ e) in
            inr (k, (node, Writes-node_at w entered-IsIndexed, ap (node_hash sha256) is ∙ k))
      ];
    }

    module _ (slug : Text) (own : s_node.anchor ≡ some anchor)
        (home : get anchor st.dest_doc_of ≡ some slug) where
      module _ (units : DocUnits) (d : NodeUnit) (page : get slug st.dest_units ≡ some units)
          (found : find_node anchor units.nodes ≡ some d) where
        there : node_at anchor st ≡ some d
        there = rw home (rw page found)

        is_it : (d' : NodeUnit) → node_at anchor st ≡ some d' → d ≡ d'
        is_it d' e = some-injective d d' (sym there ∙ e)

        rewrites :
            (node : NodeUnit) (p : MergePlan)
            → node.anchor ≡ some anchor
            → Kept anchor d node
            → ((p.state_after ≡ st.plan.state_after)
                ⊎ ((p.state_after ≡ put anchor (node_hash sha256 s_node) st.plan.state_after)
                    × (node ≡ s_node)))
            → Merges s_node anchor st
                (rewrite_node sha256 base slug units anchor node p (entered anchor st))
        unfolding rewrite_node
        rewrites node p its kept state =
            written slug node
              (rewrite_node sha256 base slug units anchor node p (entered anchor st))
              (rewrite_node-Writes sha256 base slug units anchor d node p (entered anchor st) page
                found its home entered-IsIndexed)
              refl
              (rewrite_node-marks sha256 base slug units anchor d node p (entered anchor st) page
                found its home (entered-IsIndexed))
              (inr home) (λ d' e. subst (λ x. Kept anchor x node) (is_it d' e) kept) state

        unites :
            (r : NodeUnit × Bool)
            → Unites d s_node r
            → Merges s_node anchor st
                (unite_node sha256 base slug units anchor r (entered anchor st))
        unfolding unite_node
        unites (node, false) u = idle st.plan refl
        unites (node, true) u =
            let (before, after, whole, added, now, _, _, _) = u.placed in
            rewrites node (record st.plan { nodes_line_union = st.plan.nodes_line_union + 1 })
              (u.same_anchor ∙ find_node-anchor anchor units.nodes d found)
              (inr (
                u.same_heading,
                λ l e.
                    subst (Elem l) (sym now)
                      (placed_still l before after _ (subst (Elem l) whole e)),
              ))
              (inl refl)

        pub reconcile-Merges :
            Merges s_node anchor st
              (reconcile sha256 base slug units d s_node anchor (entered anchor st))
        unfolding reconcile
        reconcile-Merges = elim (Bool-cases (node_hash sha256 d == node_hash sha256 s_node)) [
          | inl t ↦
              rw t (noted d there (eq_of_beq (node_hash sha256 d) (node_hash sha256 s_node) t))
          | inr f ↦ rw f (elim (Bool-cases (recorded_as (get anchor base) (node_hash sha256 d))) [
            | inl t ↦ rw t (
                rewrites s_node
                  (record st.plan {
                    nodes_updated = st.plan.nodes_updated + 1;
                    state_after = put anchor (node_hash sha256 s_node) st.plan.state_after;
                  })
                  own (inl t) (inr (refl, refl)))
            | inr g ↦
                rw g (elim (Bool-cases (recorded_as (get anchor base) (node_hash sha256 s_node))) [
                  | inl t ↦ rw t (idle st.plan refl)
                  | inr k ↦
                      rw k (elim (Bool-cases (trim_end d.heading == trim_end s_node.heading)) [
                        | inl t ↦ rw t (unites (union_body d s_node) (union_body-Unites d s_node))
                        | inr m ↦ rw m (
                            idle
                              (record st.plan {
                                conflicts =
                                    st.plan.conflicts
                                    ++ node_ref sha256 base slug anchor s_node ∷ [];
                              })
                              refl)
                      ])
                ])
          ])
        ]
