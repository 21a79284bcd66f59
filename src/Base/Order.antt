-- ===== src/Base/Order.antt =====
-- Equality tests and strict orders as interfaces, with the instances for the keys of the store.
-- `String`'s order in Rust compares bytes, which for UTF-8 is the order of the code points.
use Prim.Native.Char.{code}
use Prim.Native.Nat.{ℕ}
use Prim.Native.String.{String}
use mathlib.Core.Path.{◌≡◌, refl, sym}
use mathlib.Core.Logic.{◌↔◌, ◌≢◌, inl, inr}
use mathlib.Core.Bool.{Bool, true, false, ◌&&◌}
use mathlib.Core.List.{List, [], ◌∷◌}
use native.Mathlib.Omega.{arith}
use text.Mathlib.Text.{◌==◌ as str_beq}
use text.Mathlib.TextEquality.{eq_iff, Char-path}
use braincrawl.Base.Text.{codes}
use braincrawl.Base.Tests.{ltb, nat_beq, nat_beq_iff, if◌then◌else◌, Bool-cases}
use braincrawl.Base.Lists.{any, Elem}

pub record Eq {ℓ} (A : Type ℓ) : Type ℓ where
  pub beq : A → A → Bool
  pub beq_iff : (x y : A) → (beq x y ≡ true) ↔ (x ≡ y)

module _ {ℓ} {A : Type ℓ} ⦃e : Eq A⦄ where
  -- `==`
  infix 50 ◌==◌
  abbrev pub ◌==◌ : A → A → Bool
  ◌==◌ x y = e.beq x y

pub eq_of_beq {ℓ} : {A : Type ℓ} ⦃e : Eq A⦄ (a b : A) → (a == b) ≡ true → a ≡ b
eq_of_beq ⦃e⦄ a b h = (e.beq_iff a b).0 h

pub ne_of_beq {ℓ} : {A : Type ℓ} ⦃e : Eq A⦄ (a b : A) → (a == b) ≡ false → a ≢ b
ne_of_beq ⦃e⦄ a b h q = ground (arith, e.beq_iff a b)

pub beq_of_ne {ℓ} : {A : Type ℓ} ⦃e : Eq A⦄ (a b : A) → a ≢ b → (a == b) ≡ false
beq_of_ne ⦃e⦄ a b h = ground (arith, e.beq_iff a b)

pub beq_refl {ℓ} : {A : Type ℓ} ⦃e : Eq A⦄ (a : A) → (a == a) ≡ true
beq_refl ⦃e⦄ a = (e.beq_iff a a).1 refl

instance abbrev pub string_eq : Eq String
string_eq = record { beq = str_beq; beq_iff = eq_iff }

instance abbrev pub nat_eq : Eq ℕ
nat_eq = record { beq = nat_beq; beq_iff = nat_beq_iff }

module _ {ℓ} {A : Type ℓ} ⦃e : Eq A⦄ where
  abbrev pub list_beq : List A → List A → Bool
  list_beq [] [] = true
  list_beq [] (y ∷ ys) = false
  list_beq (x ∷ xs) [] = false
  list_beq (x ∷ xs) (y ∷ ys) = (x == y) && list_beq xs ys

  pub list_beq_iff : (xs ys : List A) → (list_beq xs ys ≡ true) ↔ (xs ≡ ys)
  list_beq_iff [] [] = ground arith
  list_beq_iff [] (y ∷ ys) = ground arith
  list_beq_iff (x ∷ xs) [] = ground arith
  list_beq_iff (x ∷ xs) (y ∷ ys) = ground (arith, e.beq_iff x y, list_beq_iff xs ys)

  instance abbrev pub list_eq : Eq (List A)
  list_eq = record { beq = list_beq; beq_iff = list_beq_iff }

module _ {ℓ} {A B : Type ℓ} ⦃e : Eq A⦄ ⦃f : Eq B⦄ where
  abbrev pub pair_beq : A × B → A × B → Bool
  pair_beq p q = (p.0 == q.0) && (p.1 == q.1)

  pub pair_beq_iff : (p q : A × B) → (pair_beq p q ≡ true) ↔ (p ≡ q)
  pair_beq_iff (a, b) (c, d) = ground (arith, e.beq_iff a c, f.beq_iff b d)

  instance abbrev pub pair_eq : Eq (A × B)
  pair_eq = record { beq = pair_beq; beq_iff = pair_beq_iff }

module _ {ℓ} {A B C : Type ℓ} ⦃e : Eq A⦄ ⦃f : Eq B⦄ ⦃g : Eq C⦄ where
  abbrev pub triple_beq : A × B × C → A × B × C → Bool
  triple_beq p q = (p.0 == q.0) && ((p.1 == q.1) && (p.2 == q.2))

  pub triple_beq_iff : (p q : A × B × C) → (triple_beq p q ≡ true) ↔ (p ≡ q)
  triple_beq_iff (a, b, x) (c, d, y) = ground (arith, e.beq_iff a c, f.beq_iff b d, g.beq_iff x y)

  instance abbrev pub triple_eq : Eq (A × B × C)
  triple_eq = record { beq = triple_beq; beq_iff = triple_beq_iff }

-- A strict total order.
pub record Ord {ℓ} (A : Type ℓ) : Type ℓ where
  pub lt : A → A → Bool
  pub lt_irrefl : (a : A) → lt a a ≡ false
  pub lt_trans : (a b c : A) → lt a b ≡ true → lt b c ≡ true → lt a c ≡ true
  pub lt_total : (a b : A) → lt a b ≡ false → lt b a ≡ false → a ≡ b

unfoldable pub codes_lt : List ℕ → List ℕ → Bool
codes_lt xs [] = false
codes_lt [] (y ∷ ys) = true
codes_lt (x ∷ xs) (y ∷ ys) =
    let rest = codes_lt xs ys in if ltb x y then true else if nat_beq x y then rest else false

codes_lt_irrefl : (xs : List ℕ) → codes_lt xs xs ≡ false
unfolding codes_lt
codes_lt_irrefl [] = refl
codes_lt_irrefl (x ∷ xs) = ground (arith, codes_lt_irrefl xs)

codes_lt_trans :
    (xs ys zs : List ℕ) → codes_lt xs ys ≡ true → codes_lt ys zs ≡ true → codes_lt xs zs ≡ true
unfolding codes_lt
codes_lt_trans xs [] zs h k = cc
codes_lt_trans xs (y ∷ ys) [] h k = cc
codes_lt_trans [] (y ∷ ys) (z ∷ zs) h k = refl
codes_lt_trans (x ∷ xs) (y ∷ ys) (z ∷ zs) h k = ground (arith, codes_lt_trans xs ys zs)

codes_lt_total :
    (s t : String)
    → codes_lt (codes s) (codes t) ≡ false
    → codes_lt (codes t) (codes s) ≡ false
    → s ≡ t
unfolding codes_lt
codes_lt_total String.[] String.[] h k = refl
codes_lt_total String.[] (String.◌∷◌ d t) h k = cc
codes_lt_total (String.◌∷◌ c s) String.[] h k = cc
codes_lt_total (String.◌∷◌ c s) (String.◌∷◌ d t) h k =
    let heads : code c ≡ code d = ground arith in
    let tails : s ≡ t = codes_lt_total s t (ground arith) (ground arith) in cc (Char-path c d heads)

-- `str::cmp` is `Less`.
unfoldable pub str_lt : String → String → Bool
unfolding codes_lt
str_lt s t = codes_lt (codes s) (codes t)

pub str_lt_irrefl : (s : String) → str_lt s s ≡ false
unfolding str_lt
str_lt_irrefl s = codes_lt_irrefl (codes s)

pub str_lt_trans : (s t u : String) → str_lt s t ≡ true → str_lt t u ≡ true → str_lt s u ≡ true
unfolding str_lt
str_lt_trans s t u = codes_lt_trans (codes s) (codes t) (codes u)

pub str_lt_total : (s t : String) → str_lt s t ≡ false → str_lt t s ≡ false → s ≡ t
unfolding str_lt
str_lt_total s t = codes_lt_total s t

instance abbrev pub string_ord : Ord String
string_ord = record {
  lt = str_lt;
  lt_irrefl = str_lt_irrefl;
  lt_trans = str_lt_trans;
  lt_total = str_lt_total;
}

-- `contains`
abbrev pub contains {ℓ} : {A : Type ℓ} ⦃e : Eq A⦄ → List A → A → Bool
contains xs x = any (λ y. y == x) xs

pub Elem-contains : {A : Type 0} ⦃e : Eq A⦄ (xs : List A) (x : A) → contains xs x ≡ true → Elem x xs
Elem-contains ⦃e⦄ [] x h = cc
Elem-contains ⦃e⦄ (y ∷ xs) x h = elim (Bool-cases (y == x)) [
  | inl q ↦ inl (sym (eq_of_beq y x q))
  | inr q ↦ inr (Elem-contains xs x (ground arith))
]

pub contains-Elem : {A : Type 0} ⦃e : Eq A⦄ (xs : List A) (x : A) → Elem x xs → contains xs x ≡ true
contains-Elem ⦃e⦄ [] x h = absurd h
contains-Elem ⦃e⦄ (y ∷ xs) x (inl q) = ground (arith, e.beq_iff y x)
contains-Elem ⦃e⦄ (y ∷ xs) x (inr r) = ground (arith, contains-Elem xs x r)

pub not-Elem : {A : Type 0} ⦃e : Eq A⦄ (xs : List A) (x : A) → contains xs x ≡ false → ¬ Elem x xs
not-Elem xs x h t = cc (contains-Elem xs x t)

pub not-contains :
    {A : Type 0} ⦃e : Eq A⦄ (xs : List A) (x : A) → ¬ Elem x xs → contains xs x ≡ false
not-contains xs x h = elim (Bool-cases (contains xs x)) [
  | inl t ↦ absurd (h (Elem-contains xs x t))
  | inr f ↦ f
]
