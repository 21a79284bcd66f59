-- ===== src/L3/Ids/Fresh.antt =====
-- Fresh anchors are tokens that were not taken, and enough draws give one.
use braincrawl.Base.{
  ℕ, zero, suc, true, false, List, [], ◌∷◌, ◌++◌, Option, none, some, ◌≡◌, refl, ap, sym, All, any,
  Bool-cases, inl, inr, arith, contains, list_eq, nat_eq, ◌<◌, length, Option-cases,
}
use braincrawl.Base.Text.{codes}
use braincrawl.Base.Scan.{Text, is_whitespace}
use braincrawl.L3.Bullets.Anchors.{IsToken}
use braincrawl.Base.Distinct.{Distinct}
use braincrawl.Base.Distinct.Counts.{pigeonhole}
use braincrawl.L3.Ids.{alphabet, char_at, random_suffix, new_id}

abbrev IsInk : ℕ → Type 0
IsInk c = is_whitespace c ≡ false

char_at-IsInk : (i : ℕ) (s : Text) → All IsInk s → IsInk (char_at i s)
unfolding char_at is_whitespace
char_at-IsInk i [] h = refl
char_at-IsInk zero (c ∷ s) (k, h) = k
char_at-IsInk (suc i) (c ∷ s) (k, h) = char_at-IsInk i s h

any-IsInk : (s : Text) → any is_whitespace s ≡ false → All IsInk s
any-IsInk [] h = tt
any-IsInk (c ∷ s) h = elim (Bool-cases (is_whitespace c)) [
  | inl t ↦ cc (rw t at h)
  | inr f ↦ (f, any-IsInk s (rw f at h))
]

alphabet-IsInk : All IsInk alphabet
unfolding is_whitespace
alphabet-IsInk = any-IsInk alphabet refl

random_suffix-IsInk : (draw : List ℕ) → All IsInk (random_suffix draw)
unfolding random_suffix
random_suffix-IsInk [] = tt
random_suffix-IsInk (i ∷ draw) = (char_at-IsInk i alphabet alphabet-IsInk, random_suffix-IsInk draw)

-- An anchor that `new_id` gives is a token, and was not taken.
pub new_id-fresh :
    (existing : List Text) (draws : List (List ℕ)) (id : Text) (left : List (List ℕ))
    → new_id existing draws ≡ some (id, left)
    → IsToken id × (contains existing id ≡ false)
unfolding new_id is_whitespace
new_id-fresh existing [] id left h = cc
new_id-fresh existing (draw ∷ draws) id left h =
    let fresh = codes "r-" ++ random_suffix draw in
    elim (Bool-cases (contains existing fresh)) [
      | inl t ↦ new_id-fresh existing draws id left (rw t at h)
      | inr f ↦
          let same : fresh ≡ id = ap first (rw f at h) in
          rw (sym same) (((refl, (refl, random_suffix-IsInk draw)), λ q. cc), f)
    ]
  where
    first : Option (Text × List (List ℕ)) → Text
    first none = []
    first (some p) = p.0

-- The anchors that draws stand for.
abbrev pub ids_of : List (List ℕ) → List Text
ids_of [] = []
ids_of (draw ∷ draws) = (codes "r-" ++ random_suffix draw) ∷ ids_of draws

-- Where no draw is left over, each of them was taken.
new_id-none :
    (existing : List Text) (draws : List (List ℕ))
    → new_id existing draws ≡ none
    → All (λ id. contains existing id ≡ true) (ids_of draws)
unfolding new_id
new_id-none existing [] h = tt
new_id-none existing (draw ∷ draws) h =
    let id = codes "r-" ++ random_suffix draw in
    elim (Bool-cases (contains existing id)) [
      | inl t ↦ (t, new_id-none existing draws (rw t at h))
      | inr f ↦ cc (rw f at h)
    ]

-- More draws of distinct anchors than there are taken give a fresh one: `new_id` returns.
pub new_id-returns :
    (existing : List Text) (draws : List (List ℕ))
    → Distinct (ids_of draws)
    → length existing < length (ids_of draws)
    → (id : Text) × (left : List (List ℕ)) × (new_id existing draws ≡ some (id, left))
      × (contains existing id ≡ false)
new_id-returns existing draws d enough = elim (Option-cases (new_id existing draws)) [
  | inl e ↦
      absurd (omega (arith, pigeonhole (ids_of draws) existing d (new_id-none existing draws e)))
  | inr ((id, left), e) ↦ (id, left, e, (new_id-fresh existing draws id left e).1)
]
