-- ===== src/Sync/Session/Advances.antt =====
-- What the writes of a run leave in the recorded hashes.
use mathlib.Core.Option.{some-injective}
use braincrawl.Base.{
  ℕ, ◌+◌, true, List, [], ◌∷◌, ◌++◌, Option, none, some, ◌==◌, list_eq, nat_eq, ◌≡◌, ◌≢◌, refl, sym,
  ap, ◌∙◌, ◌⊎◌, inl, inr, arith, Bool-cases, Option-cases, is_some, Elem, subst, list_beq_iff,
  eq_of_beq, ne_of_beq, is_some_of, suc, length, length-append,
}
use braincrawl.Base.Map.{Map, get, get-remove}
use braincrawl.Base.Ordered.{get-put}
use braincrawl.Base.Text.{codes}
use braincrawl.Base.Scan.{Text}
use braincrawl.Sync.{NodeUnit, Texts, node_hash, split_doc}
use braincrawl.Sync.Session.{
  PutAnswer, accepted, warned, failed, Progress, drop_anchor, drop_anchors, drop_doc_anchors,
  note_node, note_stored, after_put, put_docs, add_error, rejected,
}

get-drop_anchor :
    (b : Text) (o : Option Text) (hashes : Map Text Text)
    → get b (drop_anchor o hashes) ≡ none
      ⊎ ((o ≢ some b) × (get b (drop_anchor o hashes) ≡ get b hashes))
unfolding drop_anchor
get-drop_anchor b none hashes = inr (λ e. cc, refl)
get-drop_anchor b (some a) hashes = elim (Bool-cases (a == b)) [
  | inl t ↦ inl (get-remove a b hashes ∙ rw t refl)
  | inr f ↦ inr (λ e. ground (arith, list_beq_iff a b), get-remove a b hashes ∙ rw f refl)
]

-- Dropping adds no hash, and drops that of every anchor.
get-drop_anchors :
    (b : Text) (ns : List NodeUnit) (hashes : Map Text Text)
    → (get b (drop_anchors ns hashes) ≡ none)
      ⊎ (((n : NodeUnit) → Elem n ns → n.anchor ≢ some b)
          × (get b (drop_anchors ns hashes) ≡ get b hashes))
unfolding drop_anchors
get-drop_anchors b [] hashes = inr (λ n e. absurd e, refl)
get-drop_anchors b (n ∷ ns) hashes = elim (get-drop_anchors b ns (drop_anchor n.anchor hashes)) [
  | inl e ↦ inl e
  | inr (out, e) ↦ elim (get-drop_anchor b n.anchor hashes) [
    | inl q ↦ inl (e ∙ q)
    | inr (ne, q) ↦ inr (
      λ m k. elim k [
        | inl same ↦ λ w. ne (ap (λ (x : NodeUnit). x.anchor) (sym same) ∙ w)
        | inr r ↦ out m r
      ],
      e ∙ q,
    )
  ]
]

accepted-injective : {t s : Text} → accepted t ≡ accepted s → t ≡ s
accepted-injective {t} {s} e = cc

-- No node of the list has the anchor.
abbrev pub Unnamed : List NodeUnit → Text → Type 0
Unnamed ns b = (n : NodeUnit) → Elem n ns → n.anchor ≢ some b

-- Dropping the anchors of a page leaves the others' hashes.
drop_anchors-same :
    (b : Text) (ns : List NodeUnit) (hashes : Map Text Text)
    → Unnamed ns b
    → get b (drop_anchors ns hashes) ≡ get b hashes
unfolding drop_anchors drop_anchor
drop_anchors-same b [] hashes out = refl
drop_anchors-same b (n ∷ ns) hashes out =
    drop_anchors-same b ns (drop_anchor n.anchor hashes) (λ m k. out m (inr k))
    ∙ one n.anchor (out n (inl refl))
  where
    one : (o : Option Text) → o ≢ some b → get b (drop_anchor o hashes) ≡ get b hashes
    one none ne = refl
    one (some a) ne = elim (Bool-cases (a == b)) [
      | inl t ↦ absurd (ne (ap some (eq_of_beq a b t)))
      | inr f ↦ get-remove a b hashes ∙ rw f refl
    ]

module _ (sha256 : Text → List ℕ) where
  -- A node of the list has the anchor and the hash.
  abbrev pub Noted : List NodeUnit → Text → Text → Type 0
  Noted ns b h = (n : NodeUnit) × Elem n ns × (n.anchor ≡ some b) × (node_hash sha256 n ≡ h)

  get-note_node :
      (b h : Text) (n : NodeUnit) (o : Option Text) (hashes : Map Text Text)
      → n.anchor ≡ o
      → get b (note_node sha256 o n hashes) ≡ some h
      → ((get b hashes ≡ some h) × (n.anchor ≢ some b))
        ⊎ ((is_some (get b hashes) ≡ true) × (n.anchor ≡ some b) × (node_hash sha256 n ≡ h))
  unfolding note_node
  get-note_node b h n none hashes own e = inl (e, λ q. cc (sym own ∙ q))
  get-note_node b h n (some a) hashes own e = elim (Bool-cases (is_some (get a hashes))) [
    | inr f ↦
        let there = rw f at e in
        inl (
          there,
          λ q.
              cc
                (f, ap is_some (ap (λ x. get x hashes) (some-injective a b (sym own ∙ q)) ∙ there)),
        )
    | inl t ↦ elim (Bool-cases (a == b)) [
      | inr f ↦ inl (
        rw f at (sym (get-put a b (node_hash sha256 n) hashes) ∙ (rw t at e)),
        λ q. ne_of_beq a b f (some-injective a b (sym own ∙ q)),
      )
      | inl q ↦
          let same : a ≡ b = eq_of_beq a b q in
          inr (
            ap (λ x. is_some (get x hashes)) (sym same) ∙ t,
            own ∙ ap some same,
            some-injective (node_hash sha256 n) h
                (rw q at (sym (get-put a b (node_hash sha256 n) hashes) ∙ (rw t at e))),
          )
    ]
  ]

  get-note_stored :
      (b h : Text) (ns : List NodeUnit) (hashes : Map Text Text)
      → get b (note_stored sha256 ns hashes) ≡ some h
      → (is_some (get b hashes) ≡ true) × (((get b hashes ≡ some h) × Unnamed ns b) ⊎ Noted ns b h)
  unfolding note_stored
  get-note_stored b h [] hashes e = (ap is_some e, inl (e, λ n k. absurd k))
  get-note_stored b h (n ∷ ns) hashes e =
      let (there, k) = get-note_stored b h ns (note_node sha256 n.anchor n hashes) e in
      let (v, q) = is_some_of (get b (note_node sha256 n.anchor n hashes)) there in
      (
        elim (get-note_node b v n n.anchor hashes refl q) [
          | inl w ↦ ap is_some w.0
          | inr (w, _, _) ↦ w
        ],
        elim k [
          | inr (m, l, x, y) ↦ inr (m, inr l, x, y)
          | inl (w, out) ↦ elim (get-note_node b h n n.anchor hashes refl w) [
            | inl (x, ne) ↦ inl (
              x,
              λ m k. elim k [
                | inl same ↦ λ q. ne (ap (λ (y : NodeUnit). y.anchor) (sym same) ∙ q)
                | inr r ↦ out m r
              ],
            )
            | inr (_, x, y) ↦ inr (n, inl refl, x, y)
          ]
        ],
      )

  -- Noting the nodes of a text drops no hash.
  note_stored-stays :
      (b : Text) (ns : List NodeUnit) (hashes : Map Text Text)
      → is_some (get b hashes) ≡ true
      → is_some (get b (note_stored sha256 ns hashes)) ≡ true
  unfolding note_stored note_node
  note_stored-stays b [] hashes h = h
  note_stored-stays b (n ∷ ns) hashes h =
      note_stored-stays b ns (note_node sha256 n.anchor n hashes) (one n.anchor)
    where
      one : (o : Option Text) → is_some (get b (note_node sha256 o n hashes)) ≡ true
      one none = h
      one (some a) = elim (Bool-cases (is_some (get a hashes))) [
        | inr f ↦ rw f h
        | inl t ↦ elim (Bool-cases (a == b)) [
          | inl q ↦ rw t (rw (get-put a b (node_hash sha256 n) hashes, q) refl)
          | inr q ↦ rw t (rw (get-put a b (node_hash sha256 n) hashes, q) h)
        ]
      ]

  -- The page was not stored.
  abbrev pub Fails : PutAnswer → Type 0
  Fails answer = (t : Text) → answer ≢ accepted t

  -- The page was not stored, or no node of the text that is stored has the anchor.
  abbrev pub Leaves : PutAnswer → Text → Type 0
  Leaves answer b = (t : Text) → answer ≡ accepted t → Unnamed (split_doc t).nodes b

  -- One write: what is recorded after it.
  record AfterPut (slug content : Text) (answer : PutAnswer) (p p' : Progress) : Type 0 where
    true_of :
        (b h : Text)
        → get b p'.hashes ≡ some h
        → (is_some (get b p.hashes) ≡ true)
          × (((get b p.hashes ≡ some h) × Leaves answer b)
              ⊎ ((t : Text) × (answer ≡ accepted t) × Noted (split_doc t).nodes b h))
    dropped :
        (b : Text) (n : NodeUnit)
        → Fails answer
        → Elem n (split_doc content).nodes
        → n.anchor ≡ some b
        → get b p'.hashes ≡ none
    stays :
        (b : Text)
        → is_some (get b p.hashes) ≡ true
        → (Fails answer → Unnamed (split_doc content).nodes b)
        → is_some (get b p'.hashes) ≡ true
    counted :
        p'.report.docs_written + length p'.report.errors
        ≡ suc (p.report.docs_written + length p.report.errors)

  put_failure :
      (slug content e : Text) (answer : PutAnswer) (p : Progress)
      → Fails answer
      → AfterPut slug content answer p
          (record { report = add_error e p.report; hashes = drop_doc_anchors p.hashes content })
  unfolding drop_doc_anchors add_error
  put_failure slug content e answer p fails = record {
    true_of = λ b h k. elim (get-drop_anchors b (split_doc content).nodes p.hashes) [
      | inl q ↦ cc (sym q ∙ k)
      | inr (_, q) ↦ (ap is_some (sym q ∙ k), inl (sym q ∙ k, λ t e. absurd (fails t e)))
    ];
    dropped = λ b n f l own. elim (get-drop_anchors b (split_doc content).nodes p.hashes) [
      | inl q ↦ q
      | inr (out, q) ↦ absurd (out n l own)
    ];
    stays = λ b h out.
        ap is_some (drop_anchors-same b (split_doc content).nodes p.hashes (out fails)) ∙ h;
    counted = omega (arith, length-append p.report.errors (e ∷ []));
  }

  after_put-AfterPut :
      (slug content : Text) (answer : PutAnswer) (p : Progress)
      → AfterPut slug content answer p (after_put sha256 slug content answer p)
  unfolding after_put
  after_put-AfterPut slug content (accepted t) p = record {
    true_of = λ b h k.
        let (there, w) = get-note_stored b h (split_doc t).nodes p.hashes k in
        (
          there,
          elim w [
            | inl (q, out) ↦
                inl
                  (q, λ s e. subst (λ x. Unnamed (split_doc x).nodes b) (accepted-injective e) out)
            | inr x ↦ inr (t, refl, x)
          ],
        );
    dropped = λ b n f l own. absurd (f t refl);
    stays = λ b h out. note_stored-stays b (split_doc t).nodes p.hashes h;
    counted = omega arith;
  }
  after_put-AfterPut slug content (warned w) p =
      put_failure slug content (rejected slug w) (warned w) p (λ t e. cc)
  after_put-AfterPut slug content (failed e) p =
      put_failure slug content (slug ++ codes ": " ++ e) (failed e) p (λ t q. cc)

  module _ (answer : Text → Text → PutAnswer) where
    pub record Advances (writes : Texts) (p p' : Progress) : Type 0 where
      pub planned : (b : Text) → is_some (get b p'.hashes) ≡ true → is_some (get b p.hashes) ≡ true
      pub true_of :
          (b h : Text)
          → get b p'.hashes ≡ some h
          → ((get b p.hashes ≡ some h)
              × ((slug content : Text)
                  → Elem (slug, content) writes
                  → Leaves (answer slug content) b))
            ⊎ ((slug : Text) × (content : Text) × (t : Text) × Elem (slug, content) writes
                × (answer slug content ≡ accepted t)
                × Noted (split_doc t).nodes b h)
      pub dropped :
          (slug content b : Text) (n : NodeUnit)
          → Elem (slug, content) writes
          → Fails (answer slug content)
          → Elem n (split_doc content).nodes
          → n.anchor ≡ some b
          → get b p'.hashes ≡ none
      pub stays :
          (b : Text)
          → is_some (get b p.hashes) ≡ true
          → ((slug content : Text)
              → Elem (slug, content) writes
              → Fails (answer slug content)
              → Unnamed (split_doc content).nodes b)
          → is_some (get b p'.hashes) ≡ true
      pub counted :
          p'.report.docs_written + length p'.report.errors
          ≡ p.report.docs_written + length p.report.errors + length writes

    -- The writes of a run: a hash is recorded behind them only where one was planned. It is that of a
    -- node of a text that the destination has stored, or the planned one where no text that was stored
    -- has a node of that anchor. Of a page whose write fails no anchor keeps a hash, and every other
    -- planned one stays recorded; and each write is counted once, as a page or as an error.
    pub put_docs-Advances :
        (writes : Texts) (p : Progress) → Advances writes p (put_docs sha256 answer writes p)
    unfolding put_docs
    put_docs-Advances [] p = record {
      planned = λ b h. h;
      true_of = λ b h e. inl (e, λ slug content k. absurd k);
      dropped = λ slug content b n l f k own. absurd l;
      stays = λ b h out. h;
      counted = omega arith;
    }
    put_docs-Advances ((slug, content) ∷ writes) p =
        let mid = after_put sha256 slug content (answer slug content) p in
        let one = after_put-AfterPut slug content (answer slug content) p in
        let rest = put_docs-Advances writes mid in
        record {
          planned = λ b h.
              let (v, e) = is_some_of (get b mid.hashes) (rest.planned b h) in
              (one.true_of b v e).0;
          true_of = λ b h e. elim (rest.true_of b h e) [
            | inr (s, c, t, l, q, x) ↦ inr (s, c, t, inr l, q, x)
            | inl (k, later) ↦ elim (one.true_of b h k).1 [
              | inl (q, now) ↦ inl (
                q,
                λ s c l. elim l [
                  | inl same ↦ subst (λ (x : Text × Text). Leaves (answer x.0 x.1) b) (sym same) now
                  | inr r ↦ later s c r
                ],
              )
              | inr (t, q, x) ↦ inr (slug, content, t, inl refl, q, x)
            ]
          ];
          dropped = λ s c b n l f k own. elim l [
            | inr r ↦ rest.dropped s c b n r f k own
            | inl same ↦ gone_on b (put_docs sha256 answer writes mid) mid rest (
                one.dropped b n (subst (λ (x : Text × Text). Fails (answer x.0 x.1)) same f)
                  (subst (λ (x : Text × Text). Elem n (split_doc x.1).nodes) same k) own)
          ];
          stays = λ b h out.
              rest.stays b (one.stays b h (out slug content (inl refl))) (λ s c l. out s c (inr l));
          counted = omega (arith, one.counted, rest.counted);
        }
      where
        gone_on :
            (b : Text) (p' mid : Progress)
            → Advances writes mid p'
            → get b mid.hashes ≡ none
            → get b p'.hashes ≡ none
        gone_on b p' mid rest e = elim (Option-cases (get b p'.hashes)) [
          | inl q ↦ q
          | inr (h, q) ↦ cc (ap is_some (sym e) ∙ rest.planned b (ap is_some q))
        ]
