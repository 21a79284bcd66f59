-- ===== src/Sync/Union/Lines.antt =====
-- What the union of two versions of a node holds.
use braincrawl.Base.{
  ◌-◌, Bool, true, false, List, [], ◌∷◌, ◌++◌, map, list_eq, nat_eq, length, contains, ◌≡◌, refl,
  sym, ap, ◌∙◌, inl, inr, Elem, Elem-append, Elem-append_left, Elem-append_right, All, Bool-cases,
  List-cases, subst,
}
use braincrawl.Base.Scan.{Text, trim_end}
use braincrawl.Sync.{NodeUnit}
use braincrawl.Sync.Union.{is_blank, missing_lines, tail_blanks, insert_lines, united, union_body}
use braincrawl.Sync.Union.Blanks.{insert_lines-append, IsBlank, EndsInk, split_blanks}
use braincrawl.Sync.Union.Missing.{
  HasLine, HasLine_lem, missing_lines_lem, missing_none, Added, missing_lines-Added,
}

-- The added lines stand before the blank run at the end of the destination's, in their order: they
-- are the source's lines that are not blank and that the destination lacks. Nothing else changes.
pub record Unites (dest source : NodeUnit) (r : NodeUnit × Bool) : Type 0 where
  pub same_anchor : r.0.anchor ≡ dest.anchor
  pub same_heading : r.0.heading ≡ dest.heading
  pub placed :
      (before : List Text) × (after : List Text) × (dest.body ≡ before ++ after)
      × (added : List Text) × (r.0.body ≡ before ++ (added ++ after))
      × EndsInk before
      × All IsBlank after
      × Added dest.body source.body added
  pub covers : (l : Text) → Elem l source.body → is_blank l ≡ false → HasLine l r.0.body
  pub unchanged : r.1 ≡ false → r.0 ≡ dest
  pub changed :
      r.1 ≡ true → (l : Text) × Elem l source.body × (is_blank l ≡ false) × ¬ HasLine l dest.body
  pub again : union_body r.0 source ≡ (r.0, false)

union_body-none :
    (dest source : NodeUnit)
    → missing_lines dest.body source.body ≡ []
    → union_body dest source ≡ (dest, false)
unfolding union_body united
union_body-none dest source e = ap (united dest) e

module _ (dest source : NodeUnit) where
  united_covers :
      (before after : List Text)
      → dest.body ≡ before ++ after
      → (l : Text) → Elem l source.body
      → is_blank l ≡ false
      → HasLine l (before ++ (missing_lines dest.body source.body ++ after))
  united_covers before after e l h b =
      let added = missing_lines dest.body source.body in
      elim (Bool-cases (contains (map trim_end dest.body) (trim_end l))) [
        | inr f ↦ (
          l,
          Elem-append_right l before (added ++ after) (
              Elem-append_left l added after
                ((missing_lines_lem l dest.body source.body).1 (h, b, f))),
          refl,
        )
        | inl t ↦
            let (m, k, q) = (HasLine_lem l dest.body).0 t in
            (
              m,
              elim (Elem-append m before after (subst (Elem m) e k)) [
                | inl x ↦ Elem-append_left m before (added ++ after) x
                | inr x ↦
                    Elem-append_right m before (added ++ after) (Elem-append_right m added after x)
              ],
              q,
            )
      ]

  union_body-some :
      (l : Text) (ls before after : List Text)
      → missing_lines dest.body source.body ≡ l ∷ ls
      → dest.body ≡ before ++ after
      → length before ≡ length dest.body - tail_blanks dest.body
      → union_body dest source
        ≡ (record dest { body = before ++ (missing_lines dest.body source.body ++ after) }, true)
  unfolding union_body united
  union_body-some l ls before after e whole counted =
      ap (united dest) e
      ∙ ap (λ (b : List Text). (record dest { body = b }, true))
          (ap (λ i. insert_lines i (l ∷ ls) dest.body) (sym counted)
            ∙ ap (insert_lines (length before) (l ∷ ls)) whole
            ∙ insert_lines-append (l ∷ ls) before after
            ∙ ap (λ added. before ++ (added ++ after)) (sym e))

  -- Uniting a node with the source's version of it: the anchor and the heading stay, no line of the
  -- destination is lost or moved; each line of the source that is not blank is there, white space at
  -- its end aside, and the lines that were missing stand, in their order, before the blank run at the
  -- end. The node is reported as changed exactly where a line was missing, and a second union changes
  -- nothing.
  pub union_body-Unites : Unites dest source (union_body dest source)
  union_body-Unites =
      let (before, after, whole, counted, blank, ink) = split_blanks dest.body in
      elim (List-cases (missing_lines dest.body source.body)) [
        | inl e ↦ subst (Unites dest source) (sym (union_body-none dest source e)) (record {
          same_anchor = refl;
          same_heading = refl;
          placed = (
            before,
            after,
            whole,
            missing_lines dest.body source.body,
            rw e whole,
            ink,
            blank,
            missing_lines-Added dest.body source.body,
          );
          covers = λ l h b.
              subst (HasLine l) (rw e (sym whole)) (united_covers before after whole l h b);
          unchanged = λ h. refl;
          changed = λ h. cc;
          again = union_body-none dest source e;
        })
        | inr (l, ls, e) ↦
            let (found, seen, absent) =
              (missing_lines_lem l dest.body source.body).0 (subst (Elem l) (sym e) (inl refl)) in
            subst (Unites dest source) (sym (union_body-some l ls before after e whole counted))
              (record {
                same_anchor = refl;
                same_heading = refl;
                placed = (
                  before,
                  after,
                  whole,
                  missing_lines dest.body source.body,
                  refl,
                  ink,
                  blank,
                  missing_lines-Added dest.body source.body,
                );
                covers = united_covers before after whole;
                unchanged = λ h. cc;
                changed = λ h. (l, found, seen, λ k. cc ((HasLine_lem l dest.body).1 k, absent));
                again =
                    union_body-none
                      (record dest {
                        body = before ++ (missing_lines dest.body source.body ++ after);
                      })
                      source
                      (missing_none (before ++ (missing_lines dest.body source.body ++ after))
                        source.body (united_covers before after whole));
              })
      ]
