-- ===== src/Sync/Union/Blanks.antt =====
-- The blank run at the end of a node's lines, and lines that are put before it.
use mathlib.Core.List.{reverse, reverse-cons, reverse-reverse, reverse-append}
use braincrawl.Base.{
  suc, ◌+◌, ◌-◌, true, false, List, [], ◌∷◌, ◌++◌, list_eq, nat_eq, length, ◌≡◌, refl, sym, ap, ◌∙◌,
  ◌⊎◌, inl, inr, arith, All, All-append, length-append, append_assoc, Bool-cases,
}
use braincrawl.Base.Scan.{Text}
use braincrawl.Sync.Union.{is_blank, leading_blanks, tail_blanks, insert_line, insert_lines}

insert_line-append :
    (l : Text) (before after : List Text)
    → insert_line (length before) l (before ++ after) ≡ before ++ l ∷ after
unfolding insert_line
insert_line-append l [] after = refl
insert_line-append l (m ∷ before) after = ap (λ b. m ∷ b) (insert_line-append l before after)

pub insert_lines-append :
    (ls before after : List Text)
    → insert_lines (length before) ls (before ++ after) ≡ before ++ (ls ++ after)
unfolding insert_lines
insert_lines-append [] before after = refl
insert_lines-append (l ∷ ls) before after =
    ap (insert_lines (length before + 1) ls)
      (insert_line-append l before after ∙ sym (append_assoc before (l ∷ []) after))
    ∙ ap (λ i. insert_lines i ls ((before ++ l ∷ []) ++ after))
        (sym (length-append before (l ∷ [])))
    ∙ insert_lines-append ls (before ++ l ∷ []) after
    ∙ append_assoc before (l ∷ []) (ls ++ after)

abbrev pub IsBlank : Text → Type 0
IsBlank l = is_blank l ≡ true

-- The first line is not blank, if there is one.
abbrev StartsInk : List Text → Type 0
StartsInk [] = Unit
StartsInk (l ∷ ls) = is_blank l ≡ false

-- The last line is not blank, if there is one.
abbrev pub EndsInk : List Text → Type 0
EndsInk ls =
    (ls ≡ []) ⊎ ((front : List Text) × (l : Text) × (ls ≡ front ++ l ∷ []) × (is_blank l ≡ false))

StartsInk-reverse : (ls : List Text) → StartsInk ls → EndsInk (reverse ls)
StartsInk-reverse [] h = inl refl
StartsInk-reverse (l ∷ ls) h = inr (reverse ls, l, reverse-cons l ls, h)

record Parted (r : List Text) : Type 0 where
  blanks : List Text
  others : List Text
  whole : r ≡ blanks ++ others
  counted : length blanks ≡ leading_blanks r
  all_blank : All IsBlank blanks
  starts : StartsInk others

parted : (r : List Text) → Parted r
unfolding leading_blanks
parted [] = record {
  blanks = [];
  others = [];
  whole = refl;
  counted = refl;
  all_blank = tt;
  starts = tt;
}
parted (l ∷ r) = elim (Bool-cases (is_blank l)) [
  | inr f ↦ record {
    blanks = [];
    others = l ∷ r;
    whole = refl;
    counted = rw f refl;
    all_blank = tt;
    starts = f;
  }
  | inl t ↦
      let p = parted r in
      record {
        blanks = l ∷ p.blanks;
        others = p.others;
        whole = ap (λ x. l ∷ x) p.whole;
        counted = rw t (ap suc p.counted);
        all_blank = (t, p.all_blank);
        starts = p.starts;
      }
]

All-reverse : (xs : List Text) → All IsBlank xs → All IsBlank (reverse xs)
All-reverse [] h = tt
All-reverse (x ∷ xs) (h, t) =
    rw (reverse-cons x xs) (All-append IsBlank (reverse xs) (x ∷ []) (All-reverse xs t) (h, tt))

length-reverse : (xs : List Text) → length (reverse xs) ≡ length xs
length-reverse [] = refl
length-reverse (x ∷ xs) =
    rw (reverse-cons x xs) (omega (arith, length-append (reverse xs) (x ∷ []), length-reverse xs))

-- The last line that is not blank, and what stands behind it.
pub split_blanks :
    (body : List Text)
    → (before : List Text) × (after : List Text) × (body ≡ before ++ after)
      × (length before ≡ length body - tail_blanks body)
      × All IsBlank after
      × EndsInk before
unfolding tail_blanks
split_blanks body =
    let p = parted (reverse body) in
    let whole : body ≡ reverse p.others ++ reverse p.blanks =
      sym (reverse-reverse body) ∙ ap reverse p.whole ∙ reverse-append p.blanks p.others in
    (
      reverse p.others,
      reverse p.blanks,
      whole,
      omega (
        arith,
        ap (length {A = Text}) whole,
        length-append (reverse p.others) (reverse p.blanks),
        length-reverse p.blanks,
        p.counted,
      ),
      All-reverse p.blanks p.all_blank,
      StartsInk-reverse p.others p.starts,
    )
