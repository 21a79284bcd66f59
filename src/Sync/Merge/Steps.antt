-- ===== src/Sync/Merge/Steps.antt =====
-- Looking nodes up after the writes of the merge.
use braincrawl.Base.{
  Bool, true, false, List, [], ◌∷◌, ◌++◌, Option, none, some, if◌then◌else◌, ◌==◌, list_eq, nat_eq,
  ◌≡◌, refl, ap, ◌∙◌, ◌↔◌, inl, inr, arith, Bool-cases, Elem, Elem-append_left, list_beq_iff, last,
  is_some, subst, ℕ,
}
use mathlib.Core.Option.{some-injective}
use braincrawl.Base.Scan.{Text, trim_end}
use braincrawl.Sync.{NodeUnit, node_hash, normal_lines, push_trimmed}
use braincrawl.Sync.Merge.{anchor_is, find_node, set_node, with_blank, wants_blank}

pub anchor_is_iff : (o : Option Text) (a : Text) → (anchor_is o a ≡ true) ↔ (o ≡ some a)
unfolding anchor_is
anchor_is_iff none a = ground arith
anchor_is_iff (some b) a = ground (arith, list_beq_iff b a)

pub find_node-anchor :
    (a : Text) (ns : List NodeUnit) (n : NodeUnit) → find_node a ns ≡ some n → n.anchor ≡ some a
unfolding find_node
find_node-anchor a [] n e = cc
find_node-anchor a (m ∷ ns) n e = ground (arith, anchor_is_iff m.anchor a, find_node-anchor a ns n)

-- A node that is set is found, and no other is touched.
pub find_node-set_node :
    (a b : Text) (n' : NodeUnit) (ns : List NodeUnit)
    → n'.anchor ≡ some a
    → find_node b (set_node a n' ns)
      ≡ (if a == b then (if is_some (find_node a ns) then some n' else none) else find_node b ns)
unfolding find_node set_node
find_node-set_node a b n' [] e = ground arith
find_node-set_node a b n' (m ∷ ns) e = ground (
  arith,
  anchor_is_iff m.anchor a,
  anchor_is_iff m.anchor b,
  anchor_is_iff n'.anchor b,
  anchor_is_iff n'.anchor a,
  list_beq_iff a b,
  find_node-set_node a b n' ns e,
)

-- A node is kept but for blank lines at its end.
pub record Alike (d n : NodeUnit) : Type 0 where
  pub same_anchor : n.anchor ≡ d.anchor
  pub same_heading : n.heading ≡ d.heading
  pub same_body : normal_lines n.body ≡ normal_lines d.body
  pub lines_kept : (l : Text) → Elem l d.body → Elem l n.body

pub Alike-refl : (n : NodeUnit) → Alike n n
Alike-refl n = record {
  same_anchor = refl;
  same_heading = refl;
  same_body = refl;
  lines_kept = λ l e. e;
}

pub Alike-trans : {a b c : NodeUnit} → Alike a b → Alike b c → Alike a c
Alike-trans p q = record {
  same_anchor = q.same_anchor ∙ p.same_anchor;
  same_heading = q.same_heading ∙ p.same_heading;
  same_body = q.same_body ∙ p.same_body;
  lines_kept = λ l e. q.lines_kept l (p.lines_kept l e);
}

pub Alike-hash :
    (sha256 : Text → List ℕ) {d n : NodeUnit} → Alike d n → node_hash sha256 n ≡ node_hash sha256 d
unfolding node_hash
Alike-hash sha256 p = rw (p.same_heading, p.same_body) refl

normal_lines-blank : (body : List Text) → normal_lines (body ++ [] ∷ []) ≡ normal_lines body
unfolding normal_lines push_trimmed trim_end
normal_lines-blank [] = refl
normal_lines-blank (l ∷ body) = ap (push_trimmed (trim_end l)) (normal_lines-blank body)

blanked-Alike : (n : NodeUnit) → Alike n (record n { body = n.body ++ [] ∷ [] })
blanked-Alike n = record {
  same_anchor = refl;
  same_heading = refl;
  same_body = normal_lines-blank n.body;
  lines_kept = λ l e. Elem-append_left l n.body ([] ∷ []) e;
}

maybe_blanked :
    (b : Bool) (n : NodeUnit) → Alike n (if b then record n { body = n.body ++ [] ∷ [] } else n)
maybe_blanked true n = blanked-Alike n
maybe_blanked false n = Alike-refl n

-- What is found behind `with_blank`.
pub find_node-with_blank :
    (a : Text) (ns : List NodeUnit)
    → (find_node a ns ≡ none → find_node a (with_blank ns) ≡ none)
      × ((n : NodeUnit)
          → find_node a ns ≡ some n
          → (n' : NodeUnit) × (find_node a (with_blank ns) ≡ some n') × Alike n n')
unfolding find_node with_blank
find_node-with_blank a [] = (λ e. refl, λ n e. cc)
find_node-with_blank a (m ∷ []) =
    let blanked : NodeUnit =
      if wants_blank (last m.body) then record m { body = m.body ++ [] ∷ [] } else m in
    let alike : Alike m blanked = maybe_blanked (wants_blank (last m.body)) m in
    elim (Bool-cases (anchor_is m.anchor a)) [
      | inl t ↦ (
        λ e. cc (rw t at e),
        λ n e. (
          blanked,
          rw (alike.same_anchor, t) refl,
          subst (λ x. Alike x blanked) (some-injective m n (rw t at e)) alike,
        ),
      )
      | inr f ↦ (λ e. rw (alike.same_anchor, f) refl, λ n e. cc (rw f at e))
    ]
find_node-with_blank a (m ∷ k ∷ ns) =
    let (missed, found) = find_node-with_blank a (k ∷ ns) in
    elim (Bool-cases (anchor_is m.anchor a)) [
      | inl t ↦ (λ e. cc (rw t at e), λ n e. (n, rw t (rw t at e), Alike-refl n))
      | inr f ↦ (
        λ e. rw f (missed (rw f at e)),
        λ n e. let (n', q, r) = found n (rw f at e) in (n', rw f q, r),
      )
    ]

pub find_node-append :
    (a : Text) (ns : List NodeUnit) (n : NodeUnit)
    → find_node a (ns ++ n ∷ []) ≡ elim (find_node a ns) [
      | some m ↦ some m
      | none ↦ if anchor_is n.anchor a then some n else none
    ]
unfolding find_node
find_node-append a [] n = refl
find_node-append a (m ∷ ns) n = ground (arith, find_node-append a ns n)
