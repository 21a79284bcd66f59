-- ===== src/L3/Assign/Edited.antt =====
-- The lines that an assignment of anchors changes, and how.
use braincrawl.Base.{
  ℕ, suc, ◌+◌, ◌-◌, List, [], ◌∷◌, ◌++◌, map, Option, none, some, ◌≡◌, refl, ap, sym, ◌∙◌, length,
  length-append, Option-cases, inl, inr, arith, append_assoc,
}
use braincrawl.Base.Text.{codes}
use braincrawl.Base.Scan.{Text, strip_prefix}
use braincrawl.L3.Bullets.{split_anchor}
use braincrawl.L3.Bullets.Anchors.{IsToken}
use braincrawl.L3.Ids.{new_id}
use braincrawl.L3.Ids.Fresh.{new_id-fresh}
use braincrawl.L3.Model.{Node}
use braincrawl.L3.Parse.Headings.{Heading, outline_of, outline_at, headings}
use braincrawl.L3.Assign.{Assigned, assign_nodes, append_at, append_each}

-- A heading line without an anchor.
abbrev pub Wants : Text → Type 0
Wants l = (h : Text) × (strip_prefix (codes "## ") l ≡ some h) × ((split_anchor h).1 ≡ none)

-- A line stays, unless it is a heading without an anchor: that gets ` ^id` with a token.
pub data Edited : Text → Text → Type 0 where
  kept : {l : Text} → ¬ Wants l → Edited l l
  gained : {l id : Text} → Wants l → IsToken id → Edited l (l ++ codes " ^" ++ id)

abbrev pub Anchored : List Text → List Text → Type 0
Anchored [] [] = Unit
Anchored [] (m ∷ ms) = ⊥
Anchored (l ∷ ls) [] = ⊥
Anchored (l ∷ ls) (m ∷ ms) = Edited l m × Anchored ls ms

append_at-here :
    (before : List Text) (l : Text) (ls : List Text) (id : Text)
    → append_at (length before) id (before ++ l ∷ ls)
      ≡ some (before ++ (l ++ codes " ^" ++ id) ∷ ls)
unfolding append_at
append_at-here [] l ls id = refl
append_at-here (b ∷ before) l ls id = rw (append_at-here before l ls id) refl

snoc-append :
    (before : List Text) (l : Text) (ls : List Text) → (before ++ l ∷ []) ++ ls ≡ before ++ l ∷ ls
snoc-append before l ls = append_assoc before (l ∷ []) ls

length-snoc : (before : List Text) (l : Text) → length (before ++ l ∷ []) ≡ suc (length before)
length-snoc before l = omega (arith, length-append before (l ∷ []))

abbrev Result : List Text → List Text → List Assigned → Type 0
Result before ls assigned =
    (ls' : List Text) × (append_each assigned (before ++ ls) ≡ some (before ++ ls'))
    × Anchored ls ls'

-- The rest of the lines, after one that stays or has changed.
onward :
    (before : List Text) (l m : Text) (ls : List Text) (assigned : List Assigned)
    → Edited l m
    → Result (before ++ m ∷ []) ls assigned
    → (ls' : List Text) × (append_each assigned (before ++ m ∷ ls) ≡ some (before ++ ls'))
      × Anchored (l ∷ ls) ls'
onward before l m ls assigned edit (ls', e, a) = (
  m ∷ ls',
  ap (append_each assigned) (sym (snoc-append before m ls))
      ∙ e
      ∙ ap some (snoc-append before m ls'),
  (edit, a),
)

abbrev tail_of : List Heading → List Heading
tail_of [] = []
tail_of (o ∷ os) = os

abbrev assigned_of : Option (List Assigned × List Text × List (List ℕ)) → List Assigned
assigned_of none = []
assigned_of (some r) = r.0

module _ (doc path : Text) where
  -- What is shown of the lines after those that are done.
  abbrev Goes : List Text → List Text → Type 0
  Goes before ls =
      (order : ℕ) (nodes : List Node) (existing : List Text) (draws : List (List ℕ))
      (assigned : List Assigned) (taken : List Text) (left : List (List ℕ))
      → map outline_of nodes ≡ headings (length before + 1) order ls
      → assign_nodes doc path nodes existing draws ≡ some (assigned, taken, left)
      → Result before ls assigned

  keep_line :
      (before : List Text) (l : Text) (ls : List Text)
      → Goes (before ++ l ∷ []) ls
      → ¬ Wants l
      → (order : ℕ) (nodes : List Node) (existing : List Text) (draws : List (List ℕ))
        (assigned : List Assigned) (taken : List Text) (left : List (List ℕ))
      → map outline_of nodes ≡ headings (suc (length before + 1)) order ls
      → assign_nodes doc path nodes existing draws ≡ some (assigned, taken, left)
      → Result before (l ∷ ls) assigned
  keep_line before l ls goes no_want order nodes existing draws assigned taken left o e =
      let line : suc (length before + 1) ≡ length (before ++ l ∷ []) + 1 =
        omega (arith, length-snoc before l) in
      onward before l l ls assigned (kept no_want) (
        goes order nodes existing draws assigned taken left (o ∙ ap (λ k. headings k order ls) line)
          e)

  change_line :
      (before : List Text) (l h : Text) (ls : List Text)
      → ((m : Text) → Goes (before ++ m ∷ []) ls)
      → strip_prefix (codes "## ") l ≡ some h
      → (order : ℕ) (n : Node) (nodes : List Node) (existing : List Text) (draws : List (List ℕ))
        (assigned : List Assigned) (taken : List Text) (left : List (List ℕ))
      → (split_anchor h).1 ≡ none
      → n.id ≡ none
      → n.provenance.heading_line ≡ length before + 1
      → map outline_of nodes ≡ headings (suc (length before + 1)) order ls
      → assign_nodes doc path (n ∷ nodes) existing draws ≡ some (assigned, taken, left)
      → Result before (l ∷ ls) assigned
  unfolding assign_nodes append_each
  change_line before l h ls goes s order n nodes existing draws assigned taken left a i k o e =
      elim (Option-cases (new_id existing draws)) [
        | inl f ↦ cc (rw (i, f) at e)
        | inr ((id, rest), f) ↦
            let token = (new_id-fresh existing draws id rest f).0 in
            elim (Option-cases (assign_nodes doc path nodes (id ∷ existing) rest)) [
              | inl g ↦ cc (rw (i, f, g) at e)
              | inr ((later, taken', left'), g) ↦
                  let m = l ++ codes " ^" ++ id in
                  let line : suc (length before + 1) ≡ length (before ++ m ∷ []) + 1 =
                    omega (arith, length-snoc before m) in
                  let (ls', each, edits) = onward before l m ls later (gained (h, s, a) token) (
                    goes m order nodes (id ∷ existing) rest later taken' left'
                      (o ∙ ap (λ j. headings j order ls) line) g) in
                  let index : n.provenance.heading_line - 1 ≡ length before = omega arith in
                  let here : append_at (n.provenance.heading_line - 1) id (before ++ l ∷ ls)
                      ≡ some (before ++ m ∷ ls) =
                    ap (λ j. append_at j id (before ++ l ∷ ls)) index
                    ∙ append_at-here before l ls id in
                  let items : assigned ≡ _ = sym (ap assigned_of (rw (i, f, g) at e)) in
                  rw items (ls', (rw here each), edits)
            ]
      ]

  heading_line :
      (before : List Text) (l h : Text) (ls : List Text)
      → ((m : Text) → Goes (before ++ m ∷ []) ls)
      → strip_prefix (codes "## ") l ≡ some h
      → (order : ℕ) (nodes : List Node) (existing : List Text) (draws : List (List ℕ))
        (assigned : List Assigned) (taken : List Text) (left : List (List ℕ))
      → map outline_of nodes
        ≡ outline_at (length before + 1) order (split_anchor h)
          ∷ headings (suc (length before + 1)) (suc order) ls
      → assign_nodes doc path nodes existing draws ≡ some (assigned, taken, left)
      → Result before (l ∷ ls) assigned
  unfolding assign_nodes
  heading_line before l h ls goes s order [] existing draws assigned taken left o e = cc
  heading_line before l h ls goes s order (n ∷ nodes) existing draws assigned taken left o e =
      let same : outline_of n ≡ outline_at (length before + 1) order (split_anchor h) = cc in
      let i : n.id ≡ (split_anchor h).1 = ap (λ x. x.0) same in
      let k : n.provenance.heading_line ≡ length before + 1 = ap (λ x. x.3) same in
      let later : map outline_of nodes ≡ headings (suc (length before + 1)) (suc order) ls =
        ap tail_of o in
      elim (Option-cases ((split_anchor h).1)) [
        | inl a ↦
            change_line before l h ls goes s (suc order) n nodes existing draws assigned taken left
              a (i ∙ a) k later e
        | inr (anchor, a) ↦
            keep_line before l ls (goes l) (λ (h', s', a'). cc (s, s', a, a')) (suc order) nodes
              existing draws assigned taken left later (rw (i ∙ a) at e)
      ]

  -- The assignment changes of the lines after `before` only the headings without an anchor.
  pub assign-Anchored : (ls before : List Text) → Goes before ls
  unfolding headings assign_nodes append_each
  assign-Anchored [] before order [] existing draws assigned taken left o e =
      let no_items : assigned ≡ [] = sym (ap assigned_of e) in rw no_items ([], refl, tt)
  assign-Anchored [] before order (n ∷ nodes) existing draws assigned taken left o e = cc
  assign-Anchored (l ∷ ls) before order nodes existing draws assigned taken left o e =
      elim (Option-cases (strip_prefix (codes "## ") l)) [
        | inl s ↦
            keep_line before l ls (assign-Anchored ls (before ++ l ∷ [])) (λ (h, s', a). cc (s, s'))
              order nodes existing draws assigned taken left (rw s at o) e
        | inr (h, s) ↦
            heading_line before l h ls (λ m. assign-Anchored ls (before ++ m ∷ [])) s order nodes
              existing draws assigned taken left (rw s at o) e
      ]
