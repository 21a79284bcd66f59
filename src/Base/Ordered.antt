-- ===== src/Base/Ordered.antt =====
-- Rust's `BTreeMap` with texts as keys: an insertion puts a new key in the order of the keys.
use Prim.Native.Nat.{ℕ, ◌+◌, ◌≤◌}
use mathlib.Core.Path.{◌≡◌, refl, sym, ap, ◌∙◌, subst}
use mathlib.Core.Logic.{inl, inr}
use mathlib.Core.Bool.{true}
use mathlib.Core.Option.{some}
use mathlib.Core.List.{List, [], ◌∷◌}
use native.Mathlib.Omega.{arith}
use braincrawl.Base.Tests.{if◌then◌else◌}
use braincrawl.Base.Order.{◌==◌, list_eq, nat_eq, codes_lt, list_beq_iff, beq_of_ne, beq_refl}
use braincrawl.Base.Lists.{length, Elem, is_some}
use braincrawl.Base.Distinct.{Distinct}
use braincrawl.Base.Map.{Map, get, keys_of}

module _ {V : Type 0} where
  unfoldable pub put : List ℕ → V → Map (List ℕ) V → Map (List ℕ) V
  put k v [] = (k, v) ∷ []
  put k v ((j, w) ∷ m) =
      let rest = put k v m in
      if j == k then (k, v) ∷ m else if codes_lt k j then (k, v) ∷ (j, w) ∷ m else (j, w) ∷ rest

  pub get-put :
      (k j : List ℕ) (v : V) (m : Map (List ℕ) V)
      → get j (put k v m) ≡ (if k == j then some v else get j m)
  unfolding get put
  get-put k j v [] = refl
  get-put k j v ((i, w) ∷ m) =
      ground (arith, list_beq_iff k j, list_beq_iff i k, list_beq_iff i j, get-put k j v m)

  pub length-put : (k : List ℕ) (v : V) (m : Map (List ℕ) V) → length (put k v m) ≤ length m + 1
  unfolding put
  length-put k v [] = omega arith
  length-put k v ((j, w) ∷ m) = ground (arith, length-put k v m)

-- `collect` of pairs into a `BTreeMap`: the last pair of a key counts.
module _ {A V : Type 0} (f : A → V) where
  unfoldable pub collect_into : Map (List ℕ) V → List (List ℕ × A) → Map (List ℕ) V
  unfolding put
  collect_into m [] = m
  collect_into m ((k, a) ∷ rest) = collect_into (put k (f a) m) rest

  pub get-collect_other :
      (k : List ℕ) (l : List (List ℕ × A)) (m : Map (List ℕ) V)
      → ¬ Elem k (keys_of l)
      → get k (collect_into m l) ≡ get k m
  unfolding collect_into
  get-collect_other k [] m out = refl
  get-collect_other k ((j, a) ∷ l) m out =
      get-collect_other k l (put j (f a) m) (λ e. out (inr e))
      ∙ rw (get-put j k (f a) m) (rw (beq_of_ne j k (λ q. out (inl (sym q)))) refl)

  pub get-collect_Elem :
      (k : List ℕ) (a : A) (l : List (List ℕ × A)) (m : Map (List ℕ) V)
      → Distinct (keys_of l)
      → Elem (k, a) l
      → get k (collect_into m l) ≡ some (f a)
  unfolding collect_into
  get-collect_Elem k a [] m d e = absurd e
  get-collect_Elem k a ((j, b) ∷ l) m (out, d) (inl q) =
      let same : k ≡ j = ap (λ p. p.0) q in
      get-collect_other k l (put j (f b) m) (λ e. out (subst (λ x. Elem x (keys_of l)) same e))
      ∙ rw (get-put j k (f b) m)
          (rw (ap (λ x. j == x) same ∙ beq_refl j) (ap (λ p. some (f p.1)) (sym q)))
  get-collect_Elem k a ((j, b) ∷ l) m (out, d) (inr e) = get-collect_Elem k a l (put j (f b) m) d e

  pub get-collect_some :
      (k : List ℕ) (l : List (List ℕ × A)) (m : Map (List ℕ) V)
      → is_some (get k m) ≡ true
      → is_some (get k (collect_into m l)) ≡ true
  unfolding collect_into
  get-collect_some k [] m h = h
  get-collect_some k ((j, a) ∷ l) m h =
      get-collect_some k l (put j (f a) m) (rw (get-put j k (f a) m) (ground arith))
