-- ===== src/Sync/Merge/Effects.antt =====
-- What the writes of the merge do to the node of each anchor.
use mathlib.Core.Option.{some-injective}
use braincrawl.Base.{
  ℕ, Bool, true, List, Option, none, some, if◌then◌else◌, ◌==◌, list_eq, nat_eq, ◌≡◌, ◌≢◌, refl,
  sym, ap, ◌∙◌, ◌⊎◌, inl, inr, Bool-cases, Option-cases, is_some, beq_refl, beq_of_ne, ne_of_beq,
  eq_of_beq, ap₂,
}
use braincrawl.Base.Map.{Map, get}
use braincrawl.Base.Ordered.{put, get-put}
use braincrawl.Base.Scan.{Text}
use braincrawl.Sync.{NodeUnit, DocUnits}
use braincrawl.Sync.Merge.{MergePlan, Merging, find_node, set_node, rewrite_node}
use braincrawl.Sync.Merge.Steps.{find_node-set_node, Alike, Alike-refl}

-- The node of an anchor in a page, if there is the page.
abbrev pub in_page : Text → Option DocUnits → Option NodeUnit
in_page a none = none
in_page a (some units) = find_node a units.nodes

abbrev pub in_doc : Text → Option Text → Map Text DocUnits → Option NodeUnit
in_doc a none pages = none
in_doc a (some slug) pages = in_page a (get slug pages)

-- The node of an anchor in the page under which it is indexed.
abbrev pub node_at : Text → Merging → Option NodeUnit
node_at a st = in_doc a (get a st.dest_doc_of) st.dest_units

-- Every indexed anchor has its node, every node of a page is indexed, and only pages that exist are
-- marked as changed.
pub record IsIndexed (st : Merging) : Type 0 where
  pub indexed :
      (a slug : Text)
      → get a st.dest_doc_of ≡ some slug
      → (n : NodeUnit) × (in_page a (get slug st.dest_units) ≡ some n)
  pub covered :
      (a slug : Text)
      → is_some (in_page a (get slug st.dest_units)) ≡ true
      → is_some (get a st.dest_doc_of) ≡ true
  pub pages :
      (slug : Text) → is_some (get slug st.changed) ≡ true → is_some (get slug st.dest_units) ≡ true

-- One node is written under its anchor, in the page of a slug; every other node stays as it was, but
-- for blank lines at its end.
pub record Writes (slug anchor : Text) (node : NodeUnit) (st st' : Merging) : Type 0 where
  pub own_page : in_page anchor (get slug st'.dest_units) ≡ some node
  pub hit :
      (b s : Text) (n : NodeUnit)
      → in_page b (get s st.dest_units) ≡ some n
      → ((anchor ≡ b) × (slug ≡ s))
        ⊎ ((n' : NodeUnit) × (in_page b (get s st'.dest_units) ≡ some n') × Alike n n')
  pub miss :
      (b s : Text)
      → is_some (in_page b (get s st'.dest_units)) ≡ true
      → (anchor ≡ b) ⊎ (is_some (in_page b (get s st.dest_units)) ≡ true)
  pub docs :
      (b : Text) → get b st'.dest_doc_of ≡ (if anchor == b then some slug else get b st.dest_doc_of)
  pub marks :
      (s : Text) → is_some (get s st'.changed) ≡ true → is_some (get s st'.dest_units) ≡ true

-- A page is marked as changed, or it and its mark are as they were.
abbrev pub MarkedOrSame : Merging → Merging → Text → Type 0
MarkedOrSame st st' s =
    (get s st'.changed ≡ some true)
    ⊎ ((get s st'.changed ≡ get s st.changed) × (get s st'.dest_units ≡ get s st.dest_units))

module _ {slug anchor : Text} {node : NodeUnit} {st st' : Merging}
    (w : Writes slug anchor node st st') (inv : IsIndexed st) where
  pub Writes-node_at : node_at anchor st' ≡ some node
  Writes-node_at =
      let home : get anchor st'.dest_doc_of ≡ some slug =
        w.docs anchor
        ∙ ap (λ b. if b then some slug else get anchor st.dest_doc_of) (beq_refl anchor) in
      ap (λ o. in_doc anchor o st'.dest_units) home ∙ w.own_page

  other_doc : (b : Text) → anchor ≢ b → get b st'.dest_doc_of ≡ get b st.dest_doc_of
  other_doc b ne = w.docs b ∙ rw (beq_of_ne anchor b ne) refl

  -- The node of any other anchor.
  pub Writes-others :
      (b : Text) (n : NodeUnit)
      → anchor ≢ b
      → node_at b st ≡ some n
      → (n' : NodeUnit) × (node_at b st' ≡ some n') × Alike n n'
  Writes-others b n ne e = elim (Option-cases (get b st.dest_doc_of)) [
    | inl q ↦ cc (ap (λ o. in_doc b o st.dest_units) (sym q) ∙ e)
    | inr (s, q) ↦ elim (w.hit b s n (ap (λ o. in_doc b o st.dest_units) (sym q) ∙ e)) [
      | inl (same, _) ↦ absurd (ne same)
      | inr (n', f, alike) ↦
          (n', ap (λ o. in_doc b o st'.dest_units) (other_doc b ne ∙ q) ∙ f, alike)
    ]
  ]

  -- An anchor keeps its page.
  pub Writes-docs :
      (b s : Text)
      → get anchor st.dest_doc_of ≡ none ⊎ (get anchor st.dest_doc_of ≡ some slug)
      → get b st.dest_doc_of ≡ some s
      → get b st'.dest_doc_of ≡ some s
  Writes-docs b s old e = elim (Bool-cases (anchor == b)) [
    | inr f ↦ w.docs b ∙ rw f e
    | inl t ↦
        let same : anchor ≡ b = eq_of_beq anchor b t in
        elim old [
          | inl q ↦ cc (sym q ∙ ap (λ x. get x st.dest_doc_of) same ∙ e)
          | inr q ↦ w.docs b ∙ rw t (sym q ∙ ap (λ x. get x st.dest_doc_of) same ∙ e)
        ]
  ]

  still_indexed :
      (b s : Text)
      → get b st'.dest_doc_of ≡ some s
      → (n : NodeUnit) × (in_page b (get s st'.dest_units) ≡ some n)
  still_indexed b s e = elim (Bool-cases (anchor == b)) [
    | inl t ↦
        let here : slug ≡ s = some-injective slug s (rw t at (sym (w.docs b) ∙ e)) in
        let same : anchor ≡ b = eq_of_beq anchor b t in
        (node, ap₂ (λ x y. in_page x (get y st'.dest_units)) (sym same) (sym here) ∙ w.own_page)
    | inr f ↦
        let (n, q) = inv.indexed b s (rw f at (sym (w.docs b) ∙ e)) in
        elim (w.hit b s n q) [
          | inl (same, here) ↦ (
            node,
            ap₂ (λ x y. in_page x (get y st'.dest_units)) (sym same) (sym here) ∙ w.own_page,
          )
          | inr (n', g, _) ↦ (n', g)
        ]
  ]

  still_covered :
      (b s : Text)
      → is_some (in_page b (get s st'.dest_units)) ≡ true
      → is_some (get b st'.dest_doc_of) ≡ true
  still_covered b s e = elim (Bool-cases (anchor == b)) [
    | inl t ↦ ap is_some (w.docs b) ∙ rw t refl
    | inr f ↦
        ap is_some (w.docs b)
        ∙ rw f (elim (w.miss b s e) [
          | inl same ↦ absurd (ne_of_beq anchor b f same)
          | inr old ↦ inv.covered b s old
        ])
  ]

  pub Writes-IsIndexed : IsIndexed st'
  Writes-IsIndexed = record { indexed = still_indexed; covered = still_covered; pages = w.marks }

pub put_marks :
    (slug s : Text) (units : DocUnits) (st : Merging)
    → (get s (put slug true st.changed) ≡ some true)
      ⊎ ((get s (put slug true st.changed) ≡ get s st.changed)
          × (get s (put slug units st.dest_units) ≡ get s st.dest_units))
put_marks slug s units st = elim (Bool-cases (slug == s)) [
  | inl t ↦ inl (get-put slug s true st.changed ∙ rw t refl)
  | inr f ↦
      inr
        (get-put slug s true st.changed ∙ rw f refl, get-put slug s units st.dest_units ∙ rw f refl)
]

pub marked_page :
    (slug s : Text) (mark : Bool) (units : DocUnits) (changed : Map Text Bool)
    (pages : Map Text DocUnits)
    → is_some (get s (put slug mark changed)) ≡ true
    → (is_some (get s changed) ≡ true → is_some (get s pages) ≡ true)
    → is_some (get s (put slug units pages)) ≡ true
marked_page slug s mark units changed pages e old = elim (Bool-cases (slug == s)) [
  | inl t ↦ rw (get-put slug s units pages) (rw t refl)
  | inr f ↦
      rw (get-put slug s units pages)
        (rw f (old (rw f at (ap is_some (sym (get-put slug s mark changed)) ∙ e))))
]

module _ (sha256 : Text → List ℕ) (base : Map Text Text) (slug : Text) (units : DocUnits)
    (anchor : Text) (d node : NodeUnit) (plan : MergePlan) (st : Merging)
    (page : get slug st.dest_units ≡ some units) (found : find_node anchor units.nodes ≡ some d)
    (own : node.anchor ≡ some anchor) (home : get anchor st.dest_doc_of ≡ some slug)
    (inv : IsIndexed st) where
  abbrev rewritten : Merging
  rewritten = rewrite_node sha256 base slug units anchor node plan st

  pub rewrite_node-marks : (s : Text) → MarkedOrSame st rewritten s
  unfolding rewrite_node
  rewrite_node-marks s =
      put_marks slug s (record units { nodes = set_node anchor node units.nodes }) st

  rewrite_page :
      (b s : Text)
      → in_page b (get s rewritten.dest_units) ≡ (
          if slug == s
          then (if anchor == b then some node else find_node b units.nodes)
          else in_page b (get s st.dest_units))
  unfolding rewrite_node
  rewrite_page b s = elim (Bool-cases (slug == s)) [
    | inl t ↦
        rw
          (get-put slug s (record units { nodes = set_node anchor node units.nodes }) st.dest_units)
          (rw t (find_node-set_node anchor b node units.nodes own ∙ rw found refl))
    | inr f ↦
        rw
          (get-put slug s (record units { nodes = set_node anchor node units.nodes }) st.dest_units)
          (rw f refl)
  ]

  pub rewrite_node-Writes : Writes slug anchor node st rewritten
  rewrite_node-Writes = record {
    own_page = rewrite_page anchor slug ∙ rw (beq_refl slug, beq_refl anchor) refl;
    hit = rewrite_hit;
    miss = rewrite_miss;
    docs = rewrite_docs;
    marks = rewrite_marks;
  }
    where
      old_page :
          (b s : Text)
          → (slug == s) ≡ true
          → in_page b (get s st.dest_units) ≡ find_node b units.nodes
      old_page b s t =
          ap (λ x. in_page b (get x st.dest_units)) (sym (eq_of_beq slug s t)) ∙ ap (in_page b) page

      rewrite_hit :
          (b s : Text) (n : NodeUnit)
          → in_page b (get s st.dest_units) ≡ some n
          → ((anchor ≡ b) × (slug ≡ s))
            ⊎ ((n' : NodeUnit) × (in_page b (get s rewritten.dest_units) ≡ some n') × Alike n n')
      rewrite_hit b s n e = elim (Bool-cases (slug == s)) [
        | inr f ↦ inr (n, rewrite_page b s ∙ rw f e, Alike-refl n)
        | inl t ↦ elim (Bool-cases (anchor == b)) [
          | inl q ↦ inl (eq_of_beq anchor b q, eq_of_beq slug s t)
          | inr f ↦ inr (n, rewrite_page b s ∙ rw (t, f) (sym (old_page b s t) ∙ e), Alike-refl n)
        ]
      ]

      rewrite_miss :
          (b s : Text)
          → is_some (in_page b (get s rewritten.dest_units)) ≡ true
          → (anchor ≡ b) ⊎ (is_some (in_page b (get s st.dest_units)) ≡ true)
      rewrite_miss b s e = elim (Bool-cases (slug == s)) [
        | inr f ↦ inr (rw f at (ap is_some (sym (rewrite_page b s)) ∙ e))
        | inl t ↦ elim (Bool-cases (anchor == b)) [
          | inl q ↦ inl (eq_of_beq anchor b q)
          | inr f ↦ inr (
              ap is_some (old_page b s t)
              ∙ (rw (t, f) at (ap is_some (sym (rewrite_page b s)) ∙ e)))
        ]
      ]

      rewrite_docs :
          (b : Text)
          → get b rewritten.dest_doc_of ≡ (if anchor == b then some slug else get b st.dest_doc_of)
      rewrite_docs b = elim (Bool-cases (anchor == b)) [
        | inl t ↦ rw t (
            unfold rewrite_node in
            ap (λ x. get x st.dest_doc_of) (sym (eq_of_beq anchor b t)) ∙ home)
        | inr f ↦ rw f (unfold rewrite_node in refl)
      ]

      rewrite_marks :
          (s : Text)
          → is_some (get s rewritten.changed) ≡ true
          → is_some (get s rewritten.dest_units) ≡ true
      rewrite_marks s e =
          unfold rewrite_node in
          marked_page slug s true (record units { nodes = set_node anchor node units.nodes })
            st.changed st.dest_units e (inv.pages s)
