-- ===== src/Base/Distinct/Counts.antt =====
-- Lists without duplicates are no longer than a list that holds their elements.
use mathlib.Core.Path.{◌≡◌, sym, refl, ◌∙◌}
use mathlib.Core.Logic.{◌≢◌, inl, inr}
use mathlib.Core.Bool.{true, false}
use mathlib.Core.List.{List, [], ◌∷◌}
use Prim.Native.Nat.{suc, ◌≤◌}
use native.Mathlib.Omega.{arith}
use braincrawl.Base.Tests.{Bool-cases, if◌then◌else◌}
use braincrawl.Base.Order.{Eq, ◌==◌, contains, beq_of_ne, eq_of_beq}
use braincrawl.Base.Lists.{length, Elem, All}
use braincrawl.Base.Distinct.{Distinct}

module _ {A : Type 0} ⦃e : Eq A⦄ where
  -- A list without one of its elements.
  drop_one : A → List A → List A
  drop_one x [] = []
  drop_one x (y ∷ ys) = let rest = drop_one x ys in if y == x then ys else y ∷ rest

  length-drop_one :
      (x : A) (ys : List A) → contains ys x ≡ true → suc (length (drop_one x ys)) ≡ length ys
  unfolding drop_one
  length-drop_one x [] h = cc
  length-drop_one x (y ∷ ys) h = elim (Bool-cases (y == x)) [
    | inl t ↦ rw t refl
    | inr f ↦ rw f (omega (arith, length-drop_one x ys (rw f at h)))
  ]

  drop_one-contains :
      (x z : A) (ys : List A) → z ≢ x → contains ys z ≡ true → contains (drop_one x ys) z ≡ true
  unfolding drop_one
  drop_one-contains x z [] ne h = cc
  drop_one-contains x z (y ∷ ys) ne h = elim (Bool-cases (y == x)) [
    | inl t ↦
        let other : (y == z) ≡ false = beq_of_ne y z (λ q. ne (sym q ∙ eq_of_beq y x t)) in
        rw t (rw other at h)
    | inr f ↦ elim (Bool-cases (y == z)) [
      | inl s ↦ rw f (rw s refl)
      | inr s ↦ rw f (rw s (drop_one-contains x z ys ne (rw s at h)))
    ]
  ]

  drop_one-All :
      (x : A) (xs ys : List A)
      → ¬ Elem x xs
      → All (λ z. contains ys z ≡ true) xs
      → All (λ z. contains (drop_one x ys) z ≡ true) xs
  drop_one-All x [] ys out h = tt
  drop_one-All x (z ∷ xs) ys out (k, h) = (
    drop_one-contains x z ys (λ q. out (inl (sym q))) k,
    drop_one-All x xs ys (λ e. out (inr e)) h,
  )

  -- Distinct elements that are all in a list are no more than it has.
  pub pigeonhole :
      (xs ys : List A) → Distinct xs → All (λ x. contains ys x ≡ true) xs → length xs ≤ length ys
  pigeonhole [] ys d h = omega arith
  pigeonhole (x ∷ xs) ys (out, d) (k, h) =
      omega (
        arith,
        length-drop_one x ys k,
        pigeonhole xs (drop_one x ys) d (drop_one-All x xs ys out h),
      )
