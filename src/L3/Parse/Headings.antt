-- ===== src/L3/Parse/Headings.antt =====
-- The nodes of a page are its headings.
use braincrawl.Base.{
  ℕ, suc, ◌+◌, List, [], ◌∷◌, ◌++◌, map, Option, none, some, ◌==◌, list_eq, nat_eq, ◌≡◌, refl, sym,
  ◌∙◌, Option-cases, Bool-cases, inl, inr, arith, append_assoc, append-nil,
}
use mathlib.Core.List.{map-append}
use braincrawl.Base.Text.{codes}
use braincrawl.Base.Scan.{Text, trim_start, trim, strip_prefix, lines}
use braincrawl.Base.Map.{get, get-insert}
use braincrawl.L3.Model.{Value, str, Node, Warning}
use braincrawl.L3.Bullets.{split_anchor, try_explicit_link, try_implicit_link, split_bullet_key}
use braincrawl.L3.Parse.{
  OpenNode, Bullet, Scan, classify_bullet, keyed, classify, link_warn, flush_bullet, flush_node,
  finish_node, open_heading, open_node, body_line, bullet_line, line_of, parse_line, scan_lines,
  scan_start, parse_body,
}

-- What a heading gives: the anchor, the title, the number of the node, the line.
abbrev pub Heading : Type 0
Heading = Option Text × Option Value × ℕ × ℕ

abbrev pub outline_of : Node → Heading
outline_of n =
    (n.id, get (codes "title") n.properties, n.provenance.order, n.provenance.heading_line)

abbrev pub outline_at : ℕ → ℕ → Text × Option Text → Heading
outline_at line order p = (p.1, some (str p.0), order, line)

abbrev pub entry : ℕ → ℕ → Option Text → List Heading
entry line order none = []
entry line order (some heading) = outline_at line order (split_anchor heading) ∷ []

abbrev pub numbered : ℕ → Option Text → ℕ
numbered order none = order
numbered order (some heading) = suc order

-- The headings of lines, from a line's number and a node's number on.
unfoldable pub headings : ℕ → ℕ → List Text → List Heading
headings line order [] = []
headings line order (l ∷ ls) =
    let heading = strip_prefix (codes "## ") l in
    entry line order heading ++ headings (suc line) (numbered order heading) ls

module _ (doc path : Text) where
  abbrev Keeps : OpenNode → OpenNode → Type 0
  Keeps n m = (m.id ≡ n.id) × (m.title ≡ n.title) × (m.heading_line ≡ n.heading_line)

  keyed-Keeps :
      (n : OpenNode) (line : ℕ) (key value : Text) → Keeps n (keyed doc path n line key value).0
  unfolding keyed
  keyed-Keeps n line key value = elim (Bool-cases (key == codes "tags")) [
    | inl t ↦ rw t (refl, refl, refl)
    | inr f ↦ rw f (refl, refl, refl)
  ]

  classify-Keeps :
      (b : Bullet) (n : OpenNode) (text : Text) (explicit : Option (Text × Text × Text × Text))
      (implicit : Option (Text × Text × Text)) (key : Option (Text × Text))
      → Keeps n (classify doc path b n text explicit implicit key).0
  unfolding classify link_warn
  classify-Keeps b n text (some (s, k, t, r)) implicit key = (refl, refl, refl)
  classify-Keeps b n text none (some (k, t, r)) key = (refl, refl, refl)
  classify-Keeps b n text none none (some (key, value)) = keyed-Keeps n b.line key value
  classify-Keeps b n text none none none = (refl, refl, refl)

  classify_bullet-Keeps : (b : Bullet) (n : OpenNode) → Keeps n (classify_bullet doc path b n).0
  unfolding classify_bullet
  classify_bullet-Keeps b n =
      let text = trim b.text in
      classify-Keeps b n text (try_explicit_link text) (try_implicit_link text)
        (split_bullet_key text)

  -- The outline so far, with the node that is open.
  abbrev pending : ℕ → Option OpenNode → List Heading
  pending order none = []
  pending order (some n) = (n.id, some (str n.title), order, n.heading_line) ∷ []

  abbrev following : ℕ → Option OpenNode → ℕ
  following order none = order
  following order (some n) = suc order

  abbrev outline : Scan → List Heading
  outline s = map outline_of s.nodes ++ pending s.order s.current

  abbrev next : Scan → ℕ
  next s = following s.order s.current

  abbrev Same : Scan → Scan → Type 0
  Same s t = (outline t ≡ outline s) × (next t ≡ next s)

  flush_bullet-Same : (s : Scan) → Same s (flush_bullet doc path s)
  unfolding flush_bullet
  flush_bullet-Same s = elim (Option-cases s.bullet) [
    | inl e ↦ rw e (refl, refl)
    | inr (b, e) ↦ elim (Option-cases s.current) [
      | inl f ↦ rw (e, f) (refl, refl)
      | inr (n, f) ↦
          let (i, t, h) = classify_bullet-Keeps b n in rw (e, f) (rw (i, t, h) (refl, refl))
    ]
  ]

  outline-finish_node :
      (n : OpenNode) (order : ℕ)
      → outline_of (finish_node doc path n order)
        ≡ (n.id, some (str n.title), order, n.heading_line)
  unfolding finish_node
  outline-finish_node n order =
      rw (get-insert (codes "title") (codes "title") (str n.title) n.properties) refl

  -- The state after the open node is closed.
  flush_node-Same : (s : Scan) → Same s (flush_node doc path s)
  unfolding flush_node
  flush_node-Same s = elim (Option-cases s.current) [
    | inl f ↦ rw f (refl, refl)
    | inr (n, f) ↦ rw f (
      rw
          (
            map-append outline_of s.nodes (finish_node doc path n s.order ∷ []),
            outline-finish_node n s.order,
          )
          (append-nil (map outline_of s.nodes ++ pending s.order (some n))),
      omega arith,
    )
  ]

  flush_node-closes : (s : Scan) → (flush_node doc path s).current ≡ none
  unfolding flush_node
  flush_node-closes s = elim (Option-cases s.current) [ inl f ↦ rw f refl | inr (n, f) ↦ rw f refl ]

  open_heading_lem :
      (line : ℕ) (heading : Text) (s : Scan)
      → (outline (open_heading doc path line heading s)
          ≡ outline s ++ outline_at line (next s) (split_anchor heading) ∷ [])
        × (next (open_heading doc path line heading s) ≡ suc (next s))
  unfolding open_heading open_node
  open_heading_lem line heading s =
      let t = flush_bullet doc path s in
      let (o, n) = flush_bullet-Same s in
      let (o', n') = flush_node-Same t in
      let c = flush_node-closes t in
      let closed : map outline_of (flush_node doc path t).nodes ≡ outline s =
        sym (append-nil _) ∙ (rw c at o') ∙ o in
      let order : (flush_node doc path t).order ≡ next s = (rw c at n') ∙ n in
      rw (closed, order) (refl, refl)

  bullet_line-Same :
      (line : ℕ) (raw : Text) (s : Scan) (trimmed : Text) (rest : Option Text)
      → Same s (bullet_line doc path line raw s trimmed rest)
  unfolding bullet_line
  bullet_line-Same line raw s [] rest = (refl, refl)
  bullet_line-Same line raw s (c ∷ trimmed) (some rest) = flush_bullet-Same s
  bullet_line-Same line raw s (c ∷ trimmed) none = (refl, refl)

  body_line-Same : (line : ℕ) (raw : Text) (s : Scan) → Same s (body_line doc path line raw s)
  unfolding body_line
  body_line-Same line raw s =
      let trimmed = trim_start raw in
      bullet_line-Same line raw s trimmed (strip_prefix (codes "- ") trimmed)

  line_of_lem :
      (line : ℕ) (raw : Text) (s : Scan) (heading : Option Text) (current : Option OpenNode)
      → let t = line_of doc path line raw s heading current in
        (outline t ≡ outline s ++ entry line (next s) heading)
        × (next t ≡ numbered (next s) heading)
  unfolding line_of
  line_of_lem line raw s (some heading) current = open_heading_lem line heading s
  line_of_lem line raw s none none = (sym (append-nil (outline s)), refl)
  line_of_lem line raw s none (some n) =
      let (o, k) = body_line-Same line raw s in (o ∙ sym (append-nil (outline s)), k)

  scan_lines_lem :
      (line : ℕ) (ls : List Text) (s : Scan)
      → outline (scan_lines doc path line ls s) ≡ outline s ++ headings line (next s) ls
  unfolding scan_lines headings parse_line
  scan_lines_lem line [] s = sym (append-nil (outline s))
  scan_lines_lem line (l ∷ ls) s =
      let heading = strip_prefix (codes "## ") l in
      let (o, k) = line_of_lem line l s heading s.current in
      rw (scan_lines_lem (suc line) ls (line_of doc path line l s heading s.current)) (
        rw (o, k)
          (append_assoc (outline s) (entry line (next s) heading)
            (headings (suc line) (numbered (next s) heading) ls)))

  -- The nodes of a body are its headings, in their order and numbered so from 0: each with the
  -- anchor and the title that `split_anchor` gives, and with the number of its line.
  pub parse_body-headings :
      (body_offset : ℕ) (body : Text) (before : List Warning)
      → map outline_of (parse_body doc path body_offset body before).nodes
        ≡ headings (body_offset + 1) 0 (lines body)
  unfolding parse_body
  parse_body-headings body_offset body before =
      let s = scan_lines doc path (body_offset + 1) (lines body) (scan_start before) in
      let t = flush_bullet doc path s in
      let (o, k) = flush_bullet-Same s in
      let (o', k') = flush_node-Same t in
      let c = flush_node-closes t in
      sym (append-nil _)
      ∙ (rw c at o')
      ∙ o
      ∙ scan_lines_lem (body_offset + 1) (lines body) (scan_start before)
