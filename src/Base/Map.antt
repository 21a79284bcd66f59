-- ===== src/Base/Map.antt =====
-- Rust's `HashMap` as an association list in which the first entry of a key counts. The laws hold
-- of every list. The order of iteration, which Rust leaves open, is that of insertion.
use Prim.Native.Nat.{ℕ, suc, ◌≤◌, ◌<◌}
use mathlib.Core.Path.{◌≡◌, refl, sym, ap}
use mathlib.Core.Logic.{inl, inr}
use mathlib.Core.Bool.{Bool, true, false}
use mathlib.Core.Option
use mathlib.Core.Option.{Option, none, some}
use mathlib.Core.List.{List, [], ◌∷◌}
use native.Mathlib.Omega.{arith}
use braincrawl.Base.Tests.{if◌then◌else◌, Bool-cases}
use braincrawl.Base.Lists.{length, Elem}
use braincrawl.Base.Order.{Eq, ◌==◌}

abbrev pub Map {ℓ} : Type ℓ → Type ℓ → Type ℓ
Map K V = List (K × V)

abbrev pub empty {ℓ} : {K V : Type ℓ} → Map K V
empty = []

-- `Option::filter`
abbrev pub keep {ℓ} : {V : Type ℓ} → (V → Bool) → Option V → Option V
keep p none = none
keep p (some v) = if p v then some v else none

keep_of {ℓ} :
    {V : Type ℓ} (p : V → Bool) (o : Option V) (v : V)
    → keep p o ≡ some v
    → (o ≡ some v) × (p v ≡ true)
keep_of p none v h = cc
keep_of p (some w) v h = ground arith

module _ {ℓ} {K V : Type ℓ} ⦃e : Eq K⦄ where
  unfoldable pub get : K → Map K V → Option V
  get k [] = none
  get k ((j, v) ∷ m) = let rest = get k m in if j == k then some v else rest

  -- `insert`: the value of a key that is there is replaced where it stands.
  unfoldable pub insert : K → V → Map K V → Map K V
  insert k v [] = (k, v) ∷ []
  insert k v ((j, w) ∷ m) = let rest = insert k v m in if j == k then (k, v) ∷ m else (j, w) ∷ rest

  unfoldable pub remove : K → Map K V → Map K V
  remove k [] = []
  remove k ((j, w) ∷ m) = let rest = remove k m in if j == k then rest else (j, w) ∷ rest

  -- `retain(p)`: a key whose counting entry fails the test is gone.
  unfoldable pub retain : (K → V → Bool) → Map K V → Map K V
  unfolding remove
  retain p [] = []
  retain p ((k, v) ∷ m) = let rest = remove k (retain p m) in if p k v then (k, v) ∷ rest else rest

  -- `values_mut`
  unfoldable pub map_values : (V → V) → Map K V → Map K V
  map_values f [] = []
  map_values f ((k, v) ∷ m) = (k, f v) ∷ map_values f m

  -- `iter`: each key once, with the value that counts.
  unfoldable pub entries : Map K V → List (K × V)
  unfolding remove
  entries [] = []
  entries ((k, v) ∷ m) = (k, v) ∷ remove k (entries m)

  pub get-insert :
      (k j : K) (v : V) (m : Map K V) → get j (insert k v m) ≡ (if k == j then some v else get j m)
  unfolding get insert
  get-insert k j v [] = refl
  get-insert k j v ((i, w) ∷ m) =
      ground (arith, e.beq_iff k j, e.beq_iff i k, e.beq_iff i j, get-insert k j v m)

  pub get-remove : (k j : K) (m : Map K V) → get j (remove k m) ≡ (if k == j then none else get j m)
  unfolding get remove
  get-remove k j [] = ground arith
  get-remove k j ((i, w) ∷ m) =
      ground (arith, e.beq_iff k j, e.beq_iff i k, e.beq_iff i j, get-remove k j m)

  pub get-retain :
      (p : K → V → Bool) (j : K) (m : Map K V) → get j (retain p m) ≡ keep (p j) (get j m)
  unfolding get retain
  get-retain p j [] = refl
  get-retain p j ((i, w) ∷ m) =
      ground (arith, e.beq_iff i j, get-remove i j (retain p m), get-retain p j m)

  pub retain_was :
      (p : K → V → Bool) (j : K) (v : V) (m : Map K V)
      → get j (retain p m) ≡ some v
      → (get j m ≡ some v) × (p j v ≡ true)
  retain_was p j v m h = keep_of (p j) (get j m) v (rw (get-retain p j m) at h)

  pub get-map_values :
      (f : V → V) (j : K) (m : Map K V) → get j (map_values f m) ≡ Option.map f (get j m)
  unfolding get map_values
  get-map_values f j [] = refl
  get-map_values f j ((i, w) ∷ m) = ground (arith, get-map_values f j m)

module _ {K V : Type 0} ⦃e : Eq K⦄ where
  remove-Elem :
      (k j : K) (v : V) (m : Map K V)
      → Elem (j, v) (remove k m)
      → Elem (j, v) m × ((k == j) ≡ false)
  unfolding remove
  remove-Elem k j v [] h = absurd h
  remove-Elem k j v ((i, w) ∷ m) h = elim (Bool-cases (i == k)) [
    | inl t ↦ let r = remove-Elem k j v m (rw t at h) in (inr r.0, r.1)
    | inr f ↦ elim (rw f at h) [
      | inl q ↦ (inl q, ground (arith, e.beq_iff k j, e.beq_iff i k))
      | inr r ↦ (inr (remove-Elem k j v m r).0, (remove-Elem k j v m r).1)
    ]
  ]

  Elem-of_remove :
      (k j : K) (v : V) (m : Map K V) → Elem (j, v) m → (k == j) ≡ false → Elem (j, v) (remove k m)
  unfolding remove
  Elem-of_remove k j v [] h ne = h
  Elem-of_remove k j v ((i, w) ∷ m) (inl q) ne =
      let same : i ≡ j = sym (ap (λ p. p.0) q) in
      let f : (i == k) ≡ false = ground (arith, e.beq_iff k j, e.beq_iff i k) in rw f (inl q)
  Elem-of_remove k j v ((i, w) ∷ m) (inr r) ne = elim (Bool-cases (i == k)) [
    | inl t ↦ rw t (Elem-of_remove k j v m r ne)
    | inr f ↦ rw f (inr (Elem-of_remove k j v m r ne))
  ]

  -- The iteration lists only what `get` finds.
  pub get_of_Elem : (j : K) (v : V) (m : Map K V) → Elem (j, v) (entries m) → get j m ≡ some v
  unfolding get entries
  get_of_Elem j v [] h = absurd h
  get_of_Elem j v ((i, w) ∷ m) (inl q) =
      let same : i ≡ j = sym (ap (λ p. p.0) q) in
      let value : w ≡ v = sym (ap (λ p. p.1) q) in ground (arith, e.beq_iff i j)
  get_of_Elem j v ((i, w) ∷ m) (inr r) =
      let (t, ne) = remove-Elem i j v (entries m) r in rw ne (get_of_Elem j v m t)

  -- The iteration lists all that `get` finds.
  pub Elem-of_get : (j : K) (v : V) (m : Map K V) → get j m ≡ some v → Elem (j, v) (entries m)
  unfolding get entries
  Elem-of_get j v [] h = cc
  Elem-of_get j v ((i, w) ∷ m) h = elim (Bool-cases (i == j)) [
    | inl t ↦ inl (ground (arith, e.beq_iff i j))
    | inr f ↦ inr (Elem-of_remove i j v (entries m) (Elem-of_get j v m (rw f at h)) f)
  ]

module _ {K V : Type 0} ⦃e : Eq K⦄ where
  length-remove : (k : K) (m : Map K V) → length (remove k m) ≤ length m
  unfolding remove
  length-remove k [] = omega arith
  length-remove k ((j, v) ∷ m) = ground (arith, length-remove k m)

  pub length-entries : (m : Map K V) → length (entries m) ≤ length m
  unfolding entries
  length-entries [] = omega arith
  length-entries ((k, v) ∷ m) = omega (arith, length-remove k (entries m), length-entries m)

-- Counting keys, for loops that walk from key to key.
module _ {ℓ} {K V : Type ℓ} where
  unfoldable pub count_keys : (K → Bool) → Map K V → ℕ
  count_keys p [] = 0
  count_keys p ((k, v) ∷ m) = let rest = count_keys p m in if p k then suc rest else rest

  pub count_keys-le-length : (p : K → Bool) (m : Map K V) → count_keys p m ≤ length m
  unfolding count_keys
  count_keys-le-length p [] = omega arith
  count_keys-le-length p ((k, v) ∷ m) = ground (arith, count_keys-le-length p m)

  pub count_keys_mono :
      (p q : K → Bool) (m : Map K V)
      → ((k : K) → p k ≡ true → q k ≡ true)
      → count_keys p m ≤ count_keys q m
  unfolding count_keys
  count_keys_mono p q [] h = omega arith
  count_keys_mono p q ((k, v) ∷ m) h = ground (arith, h k, count_keys_mono p q m h)

module _ {ℓ} {K V : Type ℓ} ⦃e : Eq K⦄ where
  pub count_keys-lt :
      (p q : K → Bool) (m : Map K V) (j : K) (v : V)
      → ((k : K) → p k ≡ true → q k ≡ true)
      → get j m ≡ some v
      → p j ≡ false
      → q j ≡ true
      → count_keys p m < count_keys q m
  unfolding count_keys get
  count_keys-lt p q [] j v h found out inside = cc
  count_keys-lt p q ((k, w) ∷ m) j v h found out inside =
      ground (arith, h k, e.beq_iff k j, count_keys_mono p q m h, count_keys-lt p q m j v h)

-- `keys`
abbrev pub keys_of {ℓ} : {K V : Type ℓ} → List (K × V) → List K
keys_of [] = []
keys_of (p ∷ l) = p.0 ∷ keys_of l

module _ {K V : Type 0} ⦃e : Eq K⦄ where
  abbrev pub keys : Map K V → List K
  keys m = keys_of (entries m)

  pub keys_of-Elem : (k : K) (l : List (K × V)) → Elem k (keys_of l) → (v : V) × Elem (k, v) l
  keys_of-Elem k [] h = absurd h
  keys_of-Elem k (p ∷ l) (inl q) = (p.1, inl (ap (λ x. (x, p.1)) q))
  keys_of-Elem k (p ∷ l) (inr r) = let (v, h) = keys_of-Elem k l r in (v, inr h)

  pub Elem-keys_of : (k : K) (v : V) (l : List (K × V)) → Elem (k, v) l → Elem k (keys_of l)
  Elem-keys_of k v [] h = absurd h
  Elem-keys_of k v (p ∷ l) (inl q) = inl (ap (λ x. x.0) q)
  Elem-keys_of k v (p ∷ l) (inr r) = inr (Elem-keys_of k v l r)

  pub Elem-keys : (k : K) (v : V) (m : Map K V) → get k m ≡ some v → Elem k (keys m)
  Elem-keys k v m h = Elem-keys_of k v (entries m) (Elem-of_get k v m h)

  pub keys-Elem : (k : K) (m : Map K V) → Elem k (keys m) → (v : V) × (get k m ≡ some v)
  keys-Elem k m h = let (v, h') = keys_of-Elem k (entries m) h in (v, get_of_Elem k v m h')

  -- A key that is listed has a value.
  pub keys_of-get : (k : K) (m : Map K V) → Elem k (keys_of m) → (v : V) × (get k m ≡ some v)
  unfolding get
  keys_of-get k [] h = absurd h
  keys_of-get k ((j, v) ∷ m) h = elim (Bool-cases (j == k)) [
    | inl t ↦ (v, rw t refl)
    | inr f ↦ elim h [
      | inl q ↦ ground (arith, e.beq_iff j k)
      | inr r ↦ let (w, g) = keys_of-get k m r in (w, rw f g)
    ]
  ]
