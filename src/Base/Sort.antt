-- ===== src/Base/Sort.antt =====
-- `sort_by`: a stable sort by a strict test, as insertion.
use mathlib.Core.Path.{◌≡◌, refl, ap}
use mathlib.Core.Logic.{◌↔◌, ◌⊎◌, inl, inr}
use mathlib.Core.Bool.{Bool, true, false}
use mathlib.Core.List.{List, [], ◌∷◌}
use native.Mathlib.Omega.{arith}
use braincrawl.Base.Tests.{if◌then◌else◌, Bool-cases}
use braincrawl.Base.Order.{str_lt, str_lt_irrefl, str_lt_trans, str_lt_total}
use braincrawl.Base.Lists.{length, Elem, All}

module _ {ℓ} {A : Type ℓ} where
  -- `less a b` is `cmp(a, b) == Less`. An element goes before the first that is not less than it.
  unfoldable pub insert_sorted : (A → A → Bool) → A → List A → List A
  insert_sorted less x [] = x ∷ []
  insert_sorted less x (y ∷ ys) =
      let rest = insert_sorted less x ys in if less y x then y ∷ rest else x ∷ y ∷ ys

  unfoldable pub sort_by : (A → A → Bool) → List A → List A
  unfolding insert_sorted
  sort_by less [] = []
  sort_by less (x ∷ xs) = insert_sorted less x (sort_by less xs)

  -- No later element is less than an earlier one.
  abbrev pub IsSorted : (A → A → Bool) → List A → Type ℓ
  IsSorted less [] = Unit
  IsSorted less (x ∷ xs) = All (λ y. less y x ≡ false) xs × IsSorted less xs

  length-insert_sorted :
      (less : A → A → Bool) (x : A) (xs : List A)
      → length (insert_sorted less x xs) ≡ length (x ∷ xs)
  unfolding insert_sorted
  length-insert_sorted less x [] = refl
  length-insert_sorted less x (y ∷ ys) = ground (arith, length-insert_sorted less x ys)

  pub length-sort_by : (less : A → A → Bool) (xs : List A) → length (sort_by less xs) ≡ length xs
  unfolding sort_by
  length-sort_by less [] = refl
  length-sort_by less (x ∷ xs) =
      ground (arith, length-insert_sorted less x (sort_by less xs), length-sort_by less xs)

module _ {A : Type 0} (less : A → A → Bool) where
  pub insert_sorted-Elem :
      (a x : A) (xs : List A) → Elem a (insert_sorted less x xs) → (a ≡ x) ⊎ Elem a xs
  unfolding insert_sorted
  insert_sorted-Elem a x [] h = h
  insert_sorted-Elem a x (y ∷ ys) h = elim (Bool-cases (less y x)) [
    | inl t ↦ elim (rw t at h) [
      | inl q ↦ inr (inl q)
      | inr r ↦ elim (insert_sorted-Elem a x ys r) [ inl q ↦ inl q | inr s ↦ inr (inr s) ]
    ]
    | inr f ↦ rw f at h
  ]

  Elem-insert_sorted :
      (a x : A) (xs : List A) → (a ≡ x) ⊎ Elem a xs → Elem a (insert_sorted less x xs)
  unfolding insert_sorted
  Elem-insert_sorted a x [] h = h
  Elem-insert_sorted a x (y ∷ ys) h = elim (Bool-cases (less y x)) [
    | inl t ↦ rw t (elim h [
      | inl q ↦ inr (Elem-insert_sorted a x ys (inl q))
      | inr (inl q) ↦ inl q
      | inr (inr r) ↦ inr (Elem-insert_sorted a x ys (inr r))
    ])
    | inr f ↦ rw f h
  ]

  -- Sorting keeps the elements.
  pub Elem-sort_by : (a : A) (xs : List A) → Elem a (sort_by less xs) ↔ Elem a xs
  unfolding sort_by
  Elem-sort_by a [] = (λ h. h, λ h. h)
  Elem-sort_by a (x ∷ xs) = (
    λ h. elim (insert_sorted-Elem a x (sort_by less xs) h) [
      | inl q ↦ inl q
      | inr r ↦ inr ((Elem-sort_by a xs).0 r)
    ],
    λ h.
        Elem-insert_sorted a x (sort_by less xs)
          (elim h [ inl q ↦ inl q | inr r ↦ inr ((Elem-sort_by a xs).1 r) ]),
  )

module _ {ℓ κ} {A : Type ℓ} (P : A → Type κ) (less : A → A → Bool) where
  All-insert_sorted : (x : A) (xs : List A) → P x → All P xs → All P (insert_sorted less x xs)
  unfolding insert_sorted
  All-insert_sorted x [] h hs = (h, tt)
  All-insert_sorted x (y ∷ ys) h hs = elim (Bool-cases (less y x)) [
    | inl t ↦ rw t (hs.0, All-insert_sorted x ys h hs.1)
    | inr f ↦ rw f (h, hs)
  ]

  pub All-sort_by : (xs : List A) → All P xs → All P (sort_by less xs)
  unfolding sort_by
  All-sort_by [] hs = tt
  All-sort_by (x ∷ xs) hs = All-insert_sorted x (sort_by less xs) hs.0 (All-sort_by xs hs.1)

  pub All-weaken {μ} : {Q : A → Type μ} (xs : List A) → ((x : A) → P x → Q x) → All P xs → All Q xs
  All-weaken [] f hs = tt
  All-weaken (x ∷ xs) f hs = (f x hs.0, All-weaken xs f hs.1)

-- A strict weak order.
pub record IsOrder {ℓ} {A : Type ℓ} (less : A → A → Bool) : Type ℓ where
  pub asym : (a b : A) → less a b ≡ true → less b a ≡ false
  pub neg_trans : (a b c : A) → less b a ≡ false → less c b ≡ false → less c a ≡ false

module _ {ℓ} {A : Type ℓ} (less : A → A → Bool) (o : IsOrder less) where
  insert_sorted-IsSorted :
      (x : A) (xs : List A) → IsSorted less xs → IsSorted less (insert_sorted less x xs)
  unfolding insert_sorted
  insert_sorted-IsSorted x [] h = (tt, tt)
  insert_sorted-IsSorted x (y ∷ ys) h = elim (Bool-cases (less y x)) [
    | inl t ↦ rw t (
      All-insert_sorted (λ z. less z y ≡ false) less x ys (o.asym y x t) h.0,
      insert_sorted-IsSorted x ys h.1,
    )
    | inr f ↦
        rw f ((f, All-weaken (λ z. less z y ≡ false) less ys (λ z. o.neg_trans x y z f) h.0), h)
  ]

  pub sort_by-IsSorted : (xs : List A) → IsSorted less (sort_by less xs)
  unfolding sort_by
  sort_by-IsSorted [] = tt
  sort_by-IsSorted (x ∷ xs) = insert_sorted-IsSorted x (sort_by less xs) (sort_by-IsSorted xs)

-- The order of strings.
pub str_lt-IsOrder : IsOrder str_lt
str_lt-IsOrder = record {
  asym = λ a b h. elim (Bool-cases (str_lt b a)) [
    | inl k ↦ cc (str_lt_irrefl a, str_lt_trans a b a h k)
    | inr k ↦ k
  ];
  neg_trans = λ a b c h k. elim (Bool-cases (str_lt c a)) [
    | inr f ↦ f
    | inl t ↦ elim (Bool-cases (str_lt a b)) [
      | inl ab ↦ cc (str_lt_trans c a b t ab, k)
      | inr nab ↦ let q = str_lt_total a b nab h in cc (k, ap (λ x. str_lt c x) q)
    ]
  ];
}
