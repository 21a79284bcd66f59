-- ===== src/Base/Distinct.antt =====
-- Lists without duplicates.
pub mod Counts
use mathlib.Core.Path.{◌≡◌, sym}
use mathlib.Core.Logic.{inl, inr}
use mathlib.Core.Bool.{Bool, true, not, ◌&&◌}
use native.Mathlib.Omega.{arith}
use braincrawl.Base.Order.{Eq, contains, contains-Elem}
use mathlib.Core.List.{List, [], ◌∷◌, ◌++◌}
use braincrawl.Base.Tests.{Bool-cases}
use braincrawl.Base.Lists.{Elem, Elem-append}
use braincrawl.Base.Sort.{insert_sorted, sort_by, Elem-sort_by, insert_sorted-Elem}

abbrev pub Distinct : {A : Type 0} → List A → Type 0
Distinct [] = Unit
Distinct (x ∷ xs) = (¬ Elem x xs) × Distinct xs

module _ {A : Type 0} where
  pub Distinct-append : (xs : List A) (x : A) → ¬ Elem x xs → Distinct xs → Distinct (xs ++ x ∷ [])
  Distinct-append [] x out d = (λ h. h, tt)
  Distinct-append (y ∷ ys) x out (first, d) = (
    λ h. elim (Elem-append y ys (x ∷ []) h) [
      | inl e ↦ first e
      | inr (inl q) ↦ out (inl (sym q))
      | inr (inr e) ↦ e
    ],
    Distinct-append ys x (λ h. out (inr h)) d,
  )

  insert_sorted-Distinct :
      (less : A → A → Bool) (x : A) (xs : List A)
      → ¬ Elem x xs
      → Distinct xs
      → Distinct (insert_sorted less x xs)
  unfolding insert_sorted
  insert_sorted-Distinct less x [] out d = (λ h. h, tt)
  insert_sorted-Distinct less x (y ∷ ys) out d = elim (Bool-cases (less y x)) [
    | inl t ↦ rw t (
      λ h. elim (insert_sorted-Elem less y x ys h) [ inl q ↦ out (inl (sym q)) | inr e ↦ d.0 e ],
      insert_sorted-Distinct less x ys (λ h. out (inr h)) d.1,
    )
    | inr f ↦ rw f (out, d)
  ]

  -- Sorting makes no duplicates.
  pub sort_by-Distinct :
      (less : A → A → Bool) (xs : List A) → Distinct xs → Distinct (sort_by less xs)
  unfolding sort_by
  sort_by-Distinct less [] d = tt
  sort_by-Distinct less (x ∷ xs) (first, d) =
      insert_sorted-Distinct less x (sort_by less xs) (λ h. first ((Elem-sort_by less x xs).0 h))
        (sort_by-Distinct less xs d)

-- A test for data that are at hand.
module _ {A : Type 0} ⦃e : Eq A⦄ where
  abbrev pub distinct : List A → Bool
  distinct [] = true
  distinct (x ∷ xs) = not (contains xs x) && distinct xs

  pub distinct_lem : (xs : List A) → distinct xs ≡ true → Distinct xs
  distinct_lem [] h = tt
  distinct_lem (x ∷ xs) h =
      (λ k. ground (arith, contains-Elem xs x k), distinct_lem xs (ground arith))
