-- ===== src/Sync/Union/Missing.antt =====
-- The source's lines that the destination lacks.
use braincrawl.Base.{
  true, false, not, List, [], ◌∷◌, map, list_eq, nat_eq, filter, contains, ◌≡◌, refl, sym, ap, ◌∙◌,
  ◌⊎◌, inl, inr, arith, Elem, Elem-filter, Bool-cases, List-cases, contains-Elem, Elem-contains,
  ◌↔◌, subst,
}
use braincrawl.Base.Scan.{Text, trim_end}
use braincrawl.Sync.Union.{is_blank, missing_lines}

map-Elem : (l : Text) (ls : List Text) → Elem l ls → Elem (trim_end l) (map trim_end ls)
map-Elem l [] e = absurd e
map-Elem l (m ∷ ls) (inl q) = inl (ap trim_end q)
map-Elem l (m ∷ ls) (inr r) = inr (map-Elem l ls r)

map_Elem-back :
    (t : Text) (ls : List Text)
    → Elem t (map trim_end ls)
    → (l : Text) × Elem l ls × (t ≡ trim_end l)
map_Elem-back t [] e = absurd e
map_Elem-back t (m ∷ ls) (inl q) = (m, inl refl, q)
map_Elem-back t (m ∷ ls) (inr r) = let (l, e, q) = map_Elem-back t ls r in (l, inr e, q)

-- The destination has the line, but for white space at its end.
abbrev pub HasLine : Text → List Text → Type 0
HasLine l body = (m : Text) × Elem m body × (trim_end l ≡ trim_end m)

pub HasLine_lem :
    (l : Text) (body : List Text)
    → (contains (map trim_end body) (trim_end l) ≡ true) ↔ HasLine l body
HasLine_lem l body = (
  λ h. map_Elem-back (trim_end l) body (Elem-contains (map trim_end body) (trim_end l) h),
  λ h.
      let (m, e, q) = h in
      contains-Elem (map trim_end body) (trim_end l)
        (subst (λ t. Elem t (map trim_end body)) (sym q) (map-Elem m body e)),
)

pub missing_lines_lem :
    (l : Text) (dest source : List Text)
    → Elem l (missing_lines dest source)
      ↔ (Elem l source × (is_blank l ≡ false) × (contains (map trim_end dest) (trim_end l) ≡ false))
unfolding missing_lines
missing_lines_lem l dest source = (
  λ h.
      let (e, c) =
        (Elem-filter (λ x. not (contains (map trim_end dest) (trim_end x))) l
            (filter (λ x. not (is_blank x)) source)).0
          h in
      let (e', b) = (Elem-filter (λ x. not (is_blank x)) l source).0 e in
      (e', ground arith, ground arith),
  λ h.
      (Elem-filter (λ x. not (contains (map trim_end dest) (trim_end x))) l
          (filter (λ x. not (is_blank x)) source)).1
        ((Elem-filter (λ x. not (is_blank x)) l source).1 (h.0, rw h.1 refl), rw h.2 refl),
)

pub missing_none :
    (dest source : List Text)
    → ((l : Text) → Elem l source → is_blank l ≡ false → HasLine l dest)
    → missing_lines dest source ≡ []
missing_none dest source h = elim (List-cases (missing_lines dest source)) [
  | inl q ↦ q
  | inr (l, ls, q) ↦
      let (e, b, c) =
        (missing_lines_lem l dest source).0 (subst (λ x. Elem l x) (sym q) (inl refl)) in
      cc ((HasLine_lem l dest).1 (h l e b) ∙ refl, c)
]

-- Of the source's lines, in their order, those that are not blank and that the destination lacks.
abbrev pub Added : List Text → List Text → List Text → Type 0
Added dest [] added = added ≡ []
Added dest (l ∷ source) added =
    (((is_blank l ≡ true) ⊎ HasLine l dest) × Added dest source added)
    ⊎ ((is_blank l ≡ false)
        × ¬ HasLine l dest
        × (rest : List Text) × (added ≡ l ∷ rest)
        × Added dest source rest)

missing_lines-blank :
    (dest source : List Text) (l : Text)
    → is_blank l ≡ true
    → missing_lines dest (l ∷ source) ≡ missing_lines dest source
unfolding missing_lines
missing_lines-blank dest source l t = rw t refl

missing_lines-held :
    (dest source : List Text) (l : Text)
    → is_blank l ≡ false
    → contains (map trim_end dest) (trim_end l) ≡ true
    → missing_lines dest (l ∷ source) ≡ missing_lines dest source
unfolding missing_lines
missing_lines-held dest source l f t = rw f (rw t refl)

missing_lines-new :
    (dest source : List Text) (l : Text)
    → is_blank l ≡ false
    → contains (map trim_end dest) (trim_end l) ≡ false
    → missing_lines dest (l ∷ source) ≡ l ∷ missing_lines dest source
unfolding missing_lines
missing_lines-new dest source l f g = rw f (rw g refl)

pub missing_lines-Added : (dest source : List Text) → Added dest source (missing_lines dest source)
unfolding missing_lines
missing_lines-Added dest [] = refl
missing_lines-Added dest (l ∷ source) =
    let rest = missing_lines-Added dest source in
    let skip = λ (q : missing_lines dest (l ∷ source) ≡ missing_lines dest source).
      subst (Added dest source) (sym q) rest in
    elim (Bool-cases (is_blank l)) [
      | inl t ↦ inl (inl t, skip (missing_lines-blank dest source l t))
      | inr f ↦ elim (Bool-cases (contains (map trim_end dest) (trim_end l))) [
        | inl t ↦ inl (inr ((HasLine_lem l dest).0 t), skip (missing_lines-held dest source l f t))
        | inr g ↦ inr (
          f,
          λ h. cc (g, (HasLine_lem l dest).1 h),
          missing_lines dest source,
          missing_lines-new dest source l f g,
          rest,
        )
      ]
    ]
