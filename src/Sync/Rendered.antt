-- ===== src/Sync/Rendered.antt =====
-- `split_doc` and `render_doc` of crates/l3-sync/src/lib.rs: the text of a page comes back.
use braincrawl.Base.{
  List, [], ◌∷◌, ◌++◌, some, none, ◌≡◌, refl, sym, ap, ◌∙◌, ◌⊎◌, inl, inr, Bool-cases, Option-cases,
  append-nil, append_assoc, last, arith, ◌==◌, list_eq, nat_eq, Option,
}
use braincrawl.Base.Text.{codes}
use braincrawl.Base.Scan.{Text, lines, starts_with, terminated}
use braincrawl.Base.Scan.Lines.{NoReturn, terminated-lines}
use braincrawl.Sync.{
  NodeUnit, DocUnits, push_line, push_lines, plain_line, add_to_last, split_body, split_fenced,
  split_lines, split_doc, render_nodes, render_doc, through_fence, page_fence, no_units,
}

pub terminated-append : (xs ys : List Text) → terminated (xs ++ ys) ≡ terminated xs ++ terminated ys
unfolding terminated
terminated-append [] ys = refl
terminated-append (l ∷ xs) ys = simp (terminated-append xs ys, append_assoc)

render_nodes-append :
    (xs ys : List NodeUnit) → render_nodes (xs ++ ys) ≡ render_nodes xs ++ render_nodes ys
unfolding render_nodes
render_nodes-append [] ys = refl
render_nodes-append (n ∷ xs) ys = simp (render_nodes-append xs ys, append_assoc)

render_nodes-add_to_last :
    (l : Text) (n : NodeUnit) (ns : List NodeUnit)
    → render_nodes (add_to_last l (n ∷ ns)) ≡ render_nodes (n ∷ ns) ++ terminated (l ∷ [])
unfolding render_nodes add_to_last
render_nodes-add_to_last l n [] = simp (terminated-append, append_assoc, append-nil)
render_nodes-add_to_last l n (m ∷ ns) = simp (render_nodes-add_to_last l m ns, append_assoc)

-- The text of the body, without the frontmatter.
abbrev body_text : DocUnits → Text
body_text u = terminated u.prologue ++ render_nodes u.nodes

plain_line-text :
    (l : Text) (u : DocUnits) (ns : List NodeUnit)
    → u.nodes ≡ ns
    → body_text (plain_line l u ns) ≡ body_text u ++ terminated (l ∷ [])
unfolding plain_line
plain_line-text l u [] e =
    rw e (unfold render_nodes in simp (terminated-append, append_assoc, append-nil))
plain_line-text l u (n ∷ ns) e = rw (e, render_nodes-add_to_last l n ns) (simp (append_assoc))

push_line-text :
    (u : DocUnits) (l : Text) → body_text (push_line u l) ≡ body_text u ++ terminated (l ∷ [])
unfolding push_line
push_line-text u l = elim (Bool-cases (starts_with l (codes "## "))) [
  | inl t ↦ rw t (
      rw (render_nodes-append u.nodes)
        (unfold render_nodes terminated in simp (append_assoc, append-nil)))
  | inr f ↦ rw f (plain_line-text l u u.nodes refl)
]

push_lines-text :
    (ls : List Text) (u : DocUnits) → body_text (push_lines u ls) ≡ body_text u ++ terminated ls
unfolding push_lines
push_lines-text [] u = unfold terminated in sym (append-nil _)
push_lines-text (l ∷ ls) u =
    push_lines-text ls (push_line u l)
    ∙ ap (λ t. t ++ terminated ls) (push_line-text u l)
    ∙ append_assoc (body_text u) (terminated (l ∷ [])) (terminated ls)
    ∙ ap (λ t. body_text u ++ t) (sym (terminated-append (l ∷ []) ls))

split_body-text : (ls : List Text) → body_text (split_body ls) ≡ terminated ls
unfolding split_body terminated render_nodes
split_body-text ls = push_lines-text ls no_units

plain_line-frontmatter :
    (l : Text) (u : DocUnits) (ns : List NodeUnit) → (plain_line l u ns).frontmatter ≡ u.frontmatter
unfolding plain_line
plain_line-frontmatter l u [] = refl
plain_line-frontmatter l u (n ∷ ns) = refl

push_lines-frontmatter :
    (ls : List Text) (u : DocUnits) → (push_lines u ls).frontmatter ≡ u.frontmatter
unfolding push_lines push_line
push_lines-frontmatter [] u = refl
push_lines-frontmatter (l ∷ ls) u =
    push_lines-frontmatter ls (push_line u l) ∙ elim (Bool-cases (starts_with l (codes "## "))) [
      | inl t ↦ rw t refl
      | inr f ↦ rw f (plain_line-frontmatter l u u.nodes)
    ]

-- With no frontmatter, or with lines put before the body.
render_front :
    (front ls : List Text)
    → render_doc (record (split_body ls) { frontmatter = front }) ≡ terminated (front ++ ls)
unfolding render_doc
render_front front ls =
    ap (λ t. t ++ render_nodes (split_body ls).nodes)
      (terminated-append front (split_body ls).prologue)
    ∙ append_assoc (terminated front) (terminated (split_body ls).prologue)
        (render_nodes (split_body ls).nodes)
    ∙ ap (λ t. terminated front ++ t) (split_body-text ls)
    ∙ sym (terminated-append front ls)

render-split_body : (ls : List Text) → render_doc (split_body ls) ≡ terminated ls
unfolding split_body render_doc
render-split_body ls =
    ap (λ f. terminated (f ++ (split_body ls).prologue) ++ render_nodes (split_body ls).nodes)
      (push_lines-frontmatter ls no_units)
    ∙ split_body-text ls

through_fence-append :
    (ls : List Text) (p : List Text × List Text) → through_fence ls ≡ some p → p.0 ++ p.1 ≡ ls
unfolding through_fence
through_fence-append [] p e = cc
through_fence-append (l ∷ ls) p e = elim (Bool-cases (l == page_fence)) [
  | inl t ↦ ground arith
  | inr f ↦ elim (Option-cases (through_fence ls)) [
    | inl n ↦ ground arith
    | inr (q, s) ↦ ground (arith, through_fence-append ls q s)
  ]
]

split_fenced-text :
    (l : Text) (ls : List Text) (o : Option (List Text × List Text))
    → through_fence ls ≡ o
    → render_doc (split_fenced l ls o) ≡ terminated (l ∷ ls)
unfolding split_fenced
split_fenced-text l ls none e = render-split_body (l ∷ ls)
split_fenced-text l ls (some p) e =
    render_front (l ∷ p.0) p.1 ∙ ap (λ x. terminated (l ∷ x)) (through_fence-append ls p e)

split_lines-text : (ls : List Text) → render_doc (split_lines ls) ≡ terminated ls
unfolding split_lines
split_lines-text [] = render-split_body []
split_lines-text (l ∷ ls) = elim (Bool-cases (l == page_fence)) [
  | inl t ↦ rw t (split_fenced-text l ls (through_fence ls) refl)
  | inr f ↦ rw f (render-split_body (l ∷ ls))
]

-- The lines of any text are rendered, each with a line feed.
render-lines : (s : Text) → render_doc (split_doc s) ≡ terminated (lines s)
unfolding split_doc
render-lines s = split_lines-text (lines s)

-- A page without `\r` that is empty or ends with a line feed is rendered, from its parts, as it was.
pub render_doc-split_doc :
    (s : Text) → NoReturn s → (s ≡ []) ⊎ (last s ≡ some 10) → render_doc (split_doc s) ≡ s
render_doc-split_doc [] h e = render-lines [] ∙ unfold lines terminated in refl
render_doc-split_doc (c ∷ t) h (inl q) = cc
render_doc-split_doc (c ∷ t) h (inr q) = render-lines (c ∷ t) ∙ terminated-lines c t h q
