-- ===== src/L3/Assign/Reread.antt =====
-- A page after the assignment of anchors, read again.
use braincrawl.Base.{
  ℕ, ◌+◌, List, [], ◌∷◌, ◌++◌, map, none, some, ◌≡◌, ◌≢◌, refl, ap, sym, ◌∙◌, subst, All,
  All-append, All-left, All-right, Bool-cases, Option-cases, inl, inr, arith, nat_beq, nat_beq_iff,
  last, length, length-append, append_assoc,
}
use braincrawl.Base.Text.{codes}
use braincrawl.Base.Scan.{Text, strip_prefix, lines, join_lines}
use braincrawl.Base.Scan.Lines.{
  IsLine, NoReturn, lines-IsLine, lines-join, lines-join_newline, lines-last, lines-ne-nil,
}
use braincrawl.L3.Front.{fence, split_block, split_frontmatter, body_text}
use braincrawl.L3.Front.Blocks.{split_block_found, lines-body_text}
use braincrawl.L3.Parse.{parse_one, body_offset_of}
use braincrawl.L3.Parse.Headings.{Heading, outline_of, headings, parse_body-headings}
use braincrawl.L3.Assign.{
  Assigned, assign_nodes, append_each, append_anchors, rejoin, first_doc, ends_with_newline,
  assign_ids_source,
}
use braincrawl.L3.Assign.Edited.{Anchored, assign-Anchored}
use braincrawl.L3.Assign.Kept.{
  Anchored-IsLine, Anchored-last, AllAnchored, Anchored-headings, Anchored-no_block,
}

lines-join_open : (ms : List Text) → All IsLine ms → last ms ≢ some [] → lines (join_lines ms) ≡ ms
unfolding lines join_lines
lines-join_open [] h ne = refl
lines-join_open (m ∷ ms) h ne = lines-join m ms h ne

lines-join_closed :
    (ms : List Text) → All IsLine ms → ms ≢ [] → lines (join_lines ms ++ 10 ∷ []) ≡ ms
lines-join_closed [] h ne = absurd (ne refl)
lines-join_closed (m ∷ ms) h ne = lines-join_newline m ms h

-- Text joined from edited lines splits into them again.
lines-rejoin :
    (content : Text) (ms : List Text)
    → All IsLine ms
    → (last content ≢ some 10 → last ms ≢ some [])
    → (last content ≡ some 10 → ms ≢ [])
    → lines (rejoin content ms) ≡ ms
unfolding rejoin ends_with_newline
lines-rejoin content ms h open_end newline = elim (Option-cases (last content)) [
  | inl e ↦ rw e (lines-join_open ms h (open_end (λ q. cc (e, q))))
  | inr (c, e) ↦ elim (Bool-cases (nat_beq c 10)) [
    | inl t ↦
        let is_end : last content ≡ some 10 = e ∙ ap some ((nat_beq_iff c 10).0 t) in
        rw (e, t) (lines-join_closed ms h (newline is_end))
    | inr f ↦ rw (e, f) (lines-join_open ms h (open_end (λ q. ground (arith, e, q))))
  ]
]

-- The nodes of a page, by the lines of its body.
parse_one-headings :
    (doc_hint path content : Text)
    → map outline_of (parse_one doc_hint path content).0
      ≡ headings
          (body_offset_of (split_frontmatter content).0 + 1)
          0
          (lines (split_frontmatter content).1)
unfolding parse_one
parse_one-headings doc_hint path content = parse_body-headings _ _ _ _ _

body_text-headings :
    (k : ℕ) (rest : List Text)
    → All IsLine rest
    → headings k 0 (lines (body_text rest)) ≡ headings k 0 rest
unfolding headings strip_prefix
body_text-headings k rest h = elim (lines-body_text rest h) [
  | inl e ↦ ap (headings k 0) e
  | inr (e, r) ↦ rw (e, r) refl
]

-- The headings of a page's body, by the lines of the whole page.
abbrev page_headings : Text → List Heading
page_headings content =
    headings (body_offset_of (split_frontmatter content).0 + 1) 0
      (lines (split_frontmatter content).1)

-- The lines before the body, and those of the body, whatever they are changed to.
abbrev Layout : Text → List Text → List Text → Type 0
Layout content before ls =
    (lines content ≡ before ++ ls)
    × (page_headings content ≡ headings (length before + 1) 0 ls)
    × ((text : Text) (ms : List Text)
        → All IsLine ms
        → Anchored ls ms
        → lines text ≡ before ++ ms
        → page_headings text ≡ headings (length before + 1) 0 ms)

abbrev pub NoEmptyBlock : Text → Type 0
NoEmptyBlock content = (rest : List Text) → lines content ≢ fence ∷ fence ∷ rest

whole_body :
    (content : Text) → split_block (lines content) ≡ none → Layout content [] (lines content)
unfolding body_offset_of split_frontmatter headings
whole_body content e = (
  refl,
  rw (split_frontmatter, e) refl,
  λ text ms h a q.
      rw (split_frontmatter, ap split_block q ∙ Anchored-no_block (lines content) ms a e)
        (ap (headings 1 0) q),
)

under_block :
    (content f : Text) (fm : List Text) (body : Text)
    → All IsLine (lines content)
    → split_block (lines content) ≡ some (f ∷ fm, body)
    → (before : List Text) × (ls : List Text) × Layout content before ls
unfolding body_offset_of split_frontmatter headings
under_block content f fm body h e =
    let (ls, split, b, again) = split_block_found (lines content) (f ∷ fm) body e in
    let before = fence ∷ f ∷ fm ++ fence ∷ [] in
    let joined : (ms : List Text) → fence ∷ f ∷ fm ++ fence ∷ ms ≡ before ++ ms =
      λ ms. sym (append_assoc (fence ∷ f ∷ fm) (fence ∷ []) ms) in
    let offset : length (f ∷ fm) + 2 + 1 ≡ length before + 1 =
      omega (arith, length-append fm (fence ∷ [])) in
    let parts : lines content ≡ before ++ ls = split ∙ joined ls in
    let ls_lines : All IsLine ls = All-right IsLine before ls (subst (All IsLine) parts h) in
    (
      before,
      ls,
      (
        parts,
        rw (split_frontmatter, e, b, offset) (body_text-headings (length before + 1) ls ls_lines),
        λ text ms k a q.
            rw (split_frontmatter, ap split_block (q ∙ sym (joined ms)) ∙ again ms, offset)
              (body_text-headings (length before + 1) ms k),
      ),
    )

body_of :
    (content : Text)
    → All IsLine (lines content)
    → NoEmptyBlock content
    → (before : List Text) × (ls : List Text) × Layout content before ls
body_of content h full = elim (Option-cases (split_block (lines content))) [
  | inl e ↦ ([], lines content, whole_body content e)
  | inr (([], body), e) ↦
      let (rest, split, b, other) = split_block_found (lines content) [] body e in
      absurd (full rest split)
  | inr ((f ∷ fm, body), e) ↦ under_block content f fm body h e
]

extend-last :
    (before ls ms : List Text)
    → Anchored ls ms
    → last (before ++ ls) ≢ some []
    → last (before ++ ms) ≢ some []
extend-last [] ls ms a ne = Anchored-last ls ms a ne
extend-last (b ∷ []) [] [] a ne = ne
extend-last (b ∷ []) [] (m ∷ ms) a ne = absurd a
extend-last (b ∷ []) (l ∷ ls) [] a ne = absurd a
extend-last (b ∷ []) (l ∷ ls) (m ∷ ms) a ne = Anchored-last (l ∷ ls) (m ∷ ms) a ne
extend-last (b ∷ c ∷ before) ls ms a ne = extend-last (c ∷ before) ls ms a ne

extend-ne-nil : (before ls ms : List Text) → Anchored ls ms → before ++ ls ≢ [] → before ++ ms ≢ []
extend-ne-nil [] [] [] a ne = ne
extend-ne-nil [] [] (m ∷ ms) a ne = absurd a
extend-ne-nil [] (l ∷ ls) [] a ne = absurd a
extend-ne-nil [] (l ∷ ls) (m ∷ ms) a ne = λ q. cc
extend-ne-nil (b ∷ before) ls ms a ne = λ q. cc

lines-closed : (content : Text) → NoReturn content → last content ≡ some 10 → lines content ≢ []
lines-closed [] plain e = cc
lines-closed (c ∷ s) plain e = lines-ne-nil c s plain

-- The lines of the text that an assignment writes.
written_lines :
    (content : Text) (before ls ms : List Text)
    → NoReturn content
    → lines content ≡ before ++ ls
    → Anchored ls ms
    → All IsLine ms
    → lines (rejoin content (before ++ ms)) ≡ before ++ ms
written_lines content before ls ms plain parts edits ms_lines =
    lines-rejoin content (before ++ ms)
      (All-append IsLine before ms
        (All-left IsLine before ls (subst (All IsLine) parts (lines-IsLine content plain)))
        ms_lines)
      (λ open_end.
        extend-last before ls ms edits (λ q. lines-last content plain open_end (ap last parts ∙ q)))
      (λ closed.
        extend-ne-nil before ls ms edits (λ q. lines-closed content plain closed (parts ∙ q)))

-- What the run returns, what its text keeps of the page, and what is read from it.
abbrev pub Rereads :
    Text → List Text → List (List ℕ) → List Assigned → List Text → List (List ℕ) → Type 0
Rereads content existing draws assigned taken left =
    (text : Text) × (before : List Text) × (ls : List Text) × (ms : List Text) × (assign_ids_source
        content existing draws
      ≡ some (text, assigned, taken, left))
    × (lines content ≡ before ++ ls)
    × (lines text ≡ before ++ ms)
    × Anchored ls ms
    × ((doc_hint path : Text) → AllAnchored (map outline_of (parse_one doc_hint path text).0))

-- On a page without `\r` whose frontmatter block is not empty, where the draws give an anchor to
-- every node that has none: the lines before the body stay, of the body's lines only the headings
-- without an anchor change, each by ` ^id` with a token, no index is out of range, and of the nodes
-- that are then read from the text each has an anchor.
pub assign_ids_source-AllAnchored :
    (content : Text) (existing : List Text) (draws : List (List ℕ)) (assigned : List Assigned)
    (taken : List Text) (left : List (List ℕ))
    → NoReturn content
    → NoEmptyBlock content
    → (let nodes = (parse_one [] (codes "unknown.l3.md") content).0 in
        let doc = first_doc nodes in assign_nodes doc (doc ++ codes ".l3.md") nodes existing draws)
      ≡ some (assigned, taken, left)
    → Rereads content existing draws assigned taken left
unfolding assign_ids_source append_anchors
assign_ids_source-AllAnchored content existing draws assigned taken left plain full e =
    let content_lines = lines-IsLine content plain in
    let (before, ls, (parts, found, later)) = body_of content content_lines full in
    let (ms, each, edits) =
      assign-Anchored _ _ ls before 0 _ existing draws assigned taken left
        (parse_one-headings [] (codes "unknown.l3.md") content ∙ found) e in
    let text = rejoin content (before ++ ms) in
    let ls_lines = All-right IsLine before ls (subst (All IsLine) parts content_lines) in
    let ms_lines = Anchored-IsLine ls ms edits ls_lines in
    let text_lines = written_lines content before ls ms plain parts edits ms_lines in
    (
      text,
      before,
      ls,
      ms,
      rw (assign_ids_source, e) (rw (append_anchors, ap (append_each assigned) parts ∙ each) refl),
      parts,
      text_lines,
      edits,
      λ doc_hint path.
          subst AllAnchored
            (sym (parse_one-headings doc_hint path text ∙ later text ms ms_lines edits text_lines))
            (Anchored-headings (length before + 1) 0 ls ms edits),
    )
