-- ===== src/L3/Front/Blocks.antt =====
-- Where the frontmatter of a page stands among its lines.
use braincrawl.Base.{
  List, [], ◌∷◌, ◌++◌, Option, none, some, ◌≡◌, ◌⊎◌, refl, ap, sym, ◌∙◌, All, Bool-cases,
  Option-cases, inl, inr, ◌==◌, list_eq, nat_eq, eq_of_beq,
}
use braincrawl.Base.Scan.{Text, lines, join_lines}
use braincrawl.Base.Scan.Lines.{IsLine, lines-join_newline}
use braincrawl.L3.Front.{fence, split_fence, body_text, split_block}

abbrev pub fm_part : Option (List Text × List Text) → List Text
fm_part none = []
fm_part (some p) = p.0

abbrev rest_part : Option (List Text × List Text) → List Text
rest_part none = []
rest_part (some p) = p.1

-- The block is what stands before the first fence, whatever comes after it.
pub split_fence_lem :
    (ls fm rest : List Text)
    → split_fence ls ≡ some (fm, rest)
    → (ls ≡ fm ++ fence ∷ rest)
      × ((other : List Text) → split_fence (fm ++ fence ∷ other) ≡ some (fm, other))
unfolding split_fence
split_fence_lem [] fm rest h = cc
split_fence_lem (l ∷ ls) fm rest h = elim (Bool-cases (l == fence)) [
  | inl t ↦
      let f : fm ≡ [] = sym (ap fm_part (rw t at h)) in
      let r : ls ≡ rest = ap rest_part (rw t at h) in
      let same : l ≡ fence = eq_of_beq l fence t in rw (f, same, r) (refl, λ other. refl)
  | inr n ↦ elim (Option-cases (split_fence ls)) [
    | inl e ↦ cc (rw (n, e) at h)
    | inr ((fm', rest'), e) ↦
        let f : fm ≡ l ∷ fm' = sym (ap fm_part (rw (n, e) at h)) in
        let r : rest' ≡ rest = ap rest_part (rw (n, e) at h) in
        let (split, again) = split_fence_lem ls fm' rest' e in
        rw f (
          ap (λ t. l ∷ t) (split ∙ ap (λ t. fm' ++ fence ∷ t) r),
          λ other. rw (n, again other) refl,
        )
  ]
]

-- The lines of the body are those after the block, but for one empty line alone.
pub lines-body_text :
    (rest : List Text)
    → All IsLine rest
    → (lines (body_text rest) ≡ rest) ⊎ ((lines (body_text rest) ≡ []) × (rest ≡ [] ∷ []))
unfolding body_text join_lines lines
lines-body_text [] h = inl refl
lines-body_text ([] ∷ []) h = inr (refl, refl)
lines-body_text ((c ∷ l) ∷ []) h = inl (lines-join_newline (c ∷ l) [] h)
lines-body_text ([] ∷ m ∷ ls) h = inl (lines-join_newline [] (m ∷ ls) h)
lines-body_text ((c ∷ l) ∷ m ∷ ls) h = inl (lines-join_newline (c ∷ l) (m ∷ ls) h)

-- A block that is found: its fences, its lines and the rest.
pub split_block_found :
    (ls fm : List Text) (body : Text)
    → split_block ls ≡ some (fm, body)
    → (rest : List Text) × (ls ≡ fence ∷ fm ++ fence ∷ rest)
      × (body ≡ body_text rest)
      × ((other : List Text)
          → split_block (fence ∷ fm ++ fence ∷ other) ≡ some (fm, body_text other))
unfolding split_block
split_block_found [] fm body h = cc
split_block_found (l ∷ ls) fm body h = elim (Option-cases (split_fence ls)) [
  | inl e ↦ cc (rw (split_block, e) at h)
  | inr ((fm', rest), e) ↦ elim (Bool-cases (l == fence)) [
    | inr n ↦ cc (rw (split_block, e, n) at h)
    | inl t ↦
        let f : fm' ≡ fm = ap block_part (rw (split_block, e, t) at h) in
        let b : body ≡ body_text rest = sym (ap body_part (rw (split_block, e, t) at h)) in
        let (split, again) = split_fence_lem ls fm' rest e in
        let same : l ≡ fence = eq_of_beq l fence t in
        rw (sym f, same)
          (rest, ap (λ x. fence ∷ x) split, b, λ other. rw (split_block, again other) refl)
  ]
]
  where
    block_part : Option (List Text × Text) → List Text
    block_part none = []
    block_part (some p) = p.0

    body_part : Option (List Text × Text) → Text
    body_part none = []
    body_part (some p) = p.1
