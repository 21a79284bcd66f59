-- ===== src/Store/Reads/Newest.antt =====
-- Which source wins a field.
use braincrawl.Base.{
  String, true, false, Option, none, some, List, [], ◌∷◌, ◌==◌, string_eq, str_lt, str_lt_irrefl,
  str_lt_total, ◌≢◌, ◌≡◌, ◌⊎◌, inl, inr, refl, sym, ap, ◌∙◌, subst, arith, All, Elem, Bool-cases,
  Option-cases, eq_of_beq,
}
use braincrawl.Base.Map.{get, insert, get-insert}
use braincrawl.Base.Sort.{
  IsOrder, IsSorted, sort_by, sort_by-IsSorted, Elem-sort_by, str_lt-IsOrder,
}
use braincrawl.Types.{Json}
use braincrawl.Store.Reads.{
  Assertion, by_newest, fields_of, origin, Views, take_fields, take_all_fields, merged_views,
}

-- What an assertion holds under a key.
abbrev pub field_in : String → Assertion → Option Json
field_in k a = get k (fields_of a.1)

-- The two views under one key.
abbrev pub Entry : Type 0
Entry = Option Json × Option Json

abbrev pub look : String → Views → Entry
look k views = (get k views.0, get k views.1)

-- A field that is there stays; else the new one is taken with its origin.
abbrev claim : Json → Option Json → Entry → Entry
claim from new (some v, p) = (some v, p)
claim from (some v) (none, p) = (some v, some from)
claim from none (none, p) = (none, p)

take_fields-look :
    (k : String) (from : Json) (fields : List (String × Json)) (views : Views)
    → look k (take_fields from fields views) ≡ claim from (get k fields) (look k views)
unfolding take_fields get
take_fields-look k from [] (attrs, prov) = elim (Option-cases (get k attrs)) [
  | inl gone ↦ rw gone refl
  | inr (w, there) ↦ rw there refl
]
take_fields-look k from ((j, v) ∷ rest) (attrs, prov) = elim (Option-cases (get j attrs)) [
  | inl gone ↦
      rw (gone, take_fields)
        (take_fields-look k from rest (insert j v attrs, insert j from prov)
          ∙ elim (Bool-cases (j == k)) [
            | inl t ↦
                let here : get k attrs ≡ none =
                  ap (λ x. get x attrs) (sym (eq_of_beq j k t)) ∙ gone in
                rw (get-insert j k v attrs, get-insert j k from prov, t, here, get) refl
            | inr f ↦ rw (get-insert j k v attrs, get-insert j k from prov, f, get) refl
          ])
  | inr (w, there) ↦
      rw (there, take_fields)
        (take_fields-look k from rest (attrs, prov) ∙ elim (Bool-cases (j == k)) [
          | inl t ↦
              let here : get k attrs ≡ some w =
                ap (λ x. get x attrs) (sym (eq_of_beq j k t)) ∙ there in
              rw here refl
          | inr f ↦ rw (f, get) refl
        ])
]

-- The two parts of the order, newer and smaller.
older_ends :
    (a b : Assertion)
    → by_newest a b ≡ false
    → (str_lt b.2 a.2 ≡ false) × (a.2 ≡ b.2 → str_lt a.0 b.0 ≡ false)
unfolding by_newest
older_ends a b h = (ground arith, λ q. ground (arith, string_eq.beq_iff a.2 b.2))

not_newer :
    (a b : Assertion)
    → str_lt b.2 a.2 ≡ false
    → (a.2 ≡ b.2 → str_lt a.0 b.0 ≡ false)
    → by_newest a b ≡ false
unfolding by_newest
not_newer a b h k = elim (Bool-cases (a.2 == b.2)) [
  | inl q ↦ rw (h, q) (k (eq_of_beq a.2 b.2 q))
  | inr f ↦ rw (h, f) refl
]

newer_ends :
    (a b : Assertion)
    → by_newest a b ≡ true
    → (str_lt b.2 a.2 ≡ true) ⊎ ((a.2 ≡ b.2) × (str_lt a.0 b.0 ≡ true))
unfolding by_newest
newer_ends a b h = elim (Bool-cases (str_lt b.2 a.2)) [
  | inl t ↦ inl t
  | inr f ↦ elim (Bool-cases (a.2 == b.2)) [
    | inl q ↦ inr (eq_of_beq a.2 b.2 q, rw (f, q) at h)
    | inr g ↦ absurd (cc (rw (f, g) at h))
  ]
]

by_newest-asym : (a b : Assertion) → by_newest a b ≡ true → by_newest b a ≡ false
by_newest-asym a b h = elim (newer_ends a b h) [
  | inl t ↦
      not_newer b a (str_lt-IsOrder.asym b.2 a.2 t)
        (λ q. absurd (cc (t, str_lt_irrefl a.2, ap (λ x. str_lt x a.2) q)))
  | inr (q, t) ↦
      not_newer b a (ap (λ x. str_lt x b.2) q ∙ str_lt_irrefl b.2)
        (λ p. str_lt-IsOrder.asym a.0 b.0 t)
]

by_newest-IsOrder : IsOrder by_newest
by_newest-IsOrder = record {
  asym = by_newest-asym;
  neg_trans = λ a b c h k.
      let (ab, ab') = older_ends b a h in
      let (bc, bc') = older_ends c b k in
      not_newer c a (str_lt-IsOrder.neg_trans c.2 b.2 a.2 bc ab) (λ q.
        let same : b.2 ≡ a.2 =
          sym (str_lt_total a.2 b.2 ab (ap (λ x. str_lt b.2 x) (sym q) ∙ bc)) in
        str_lt-IsOrder.neg_trans a.0 b.0 c.0 (ab' same) (bc' (q ∙ sym same)));
}

by_newest_irrefl : (a : Assertion) → by_newest a a ≡ false
by_newest_irrefl a = elim (Bool-cases (by_newest a a)) [ inl t ↦ by_newest-asym a a t | inr f ↦ f ]

all_at : (P : Assertion → Type 0) (xs : List Assertion) (x : Assertion) → All P xs → Elem x xs → P x
all_at P [] x h e = absurd e
all_at P (y ∷ ys) x (h, hs) (inl q) = subst P (sym q) h
all_at P (y ∷ ys) x (h, hs) (inr e) = all_at P ys x hs e

beats :
    (a b : Assertion) (rest : List Assertion)
    → All (λ y. by_newest y a ≡ false) rest
    → Elem b (a ∷ rest)
    → by_newest b a ≡ false
beats a b rest front (inl q) = rw q (by_newest_irrefl a)
beats a b rest front (inr e) = all_at (λ y. by_newest y a ≡ false) rest b front e

-- Not fetched later, nor at the same time by a source of a smaller name.
abbrev pub IsAtMost : Assertion → Assertion → Type 0
IsAtMost b a = (str_lt a.2 b.2 ≡ false) × (b.2 ≡ a.2 → str_lt b.0 a.0 ≡ false)

-- The first of the sorted assertions that holds a key wins it.
abbrev pub Winner : String → List Assertion → Entry → Type 0
Winner k assertions (none, p) =
    (p ≡ none) × ((a : Assertion) → Elem a assertions → field_in k a ≡ none)
Winner k assertions (some v, p) =
    (a : Assertion) × Elem a assertions
    × (field_in k a ≡ some v)
    × (p ≡ some (origin a))
    × ((b : Assertion) → Elem b assertions → field_in k b ≢ none → IsAtMost b a)

stays :
    (k : String) (xs : List Assertion) (views : Views) (v : Json) (p : Option Json)
    → look k views ≡ (some v, p)
    → look k (take_all_fields xs views) ≡ (some v, p)
unfolding take_all_fields
stays k [] views v p h = h
stays k (a ∷ rest) views v p h =
    stays k rest (take_fields (origin a) (fields_of a.1) views) v p
      (take_fields-look k (origin a) (fields_of a.1) views ∙ ap (claim (origin a) (field_in k a)) h)

Winner-cons :
    (k : String) (a : Assertion) (rest : List Assertion) (now : Entry)
    → field_in k a ≡ none
    → Winner k rest now
    → Winner k (a ∷ rest) now
Winner-cons k a rest (none, p) h (q, none_holds) =
    (q, λ b e. elim e [ inl r ↦ ap (field_in k) r ∙ h | inr e' ↦ none_holds b e' ])
Winner-cons k a rest (some v, p) h (w, e, is, from, best) = (
  w,
  inr e,
  is,
  from,
  λ b e' has. elim e' [
    | inl r ↦ absurd (has (ap (field_in k) r ∙ h))
    | inr there ↦ best b there has
  ],
)

Winner-sorted :
    (k : String) (xs : List Assertion) (now : Entry)
    → Winner k (sort_by by_newest xs) now
    → Winner k xs now
Winner-sorted k xs (none, p) (q, h) = (q, λ a e. h a ((Elem-sort_by by_newest a xs).1 e))
Winner-sorted k xs (some v, p) (a, e, is, from, best) = (
  a,
  (Elem-sort_by by_newest a xs).0 e,
  is,
  from,
  λ b e' has. best b ((Elem-sort_by by_newest b xs).1 e') has,
)

first_wins :
    (k : String) (xs : List Assertion) (views : Views)
    → IsSorted by_newest xs
    → look k views ≡ (none, none)
    → Winner k xs (look k (take_all_fields xs views))
unfolding take_all_fields
first_wins k [] views s h = subst (Winner k []) (sym h) (refl, λ a e. absurd e)
first_wins k (a ∷ rest) views (front, s) h =
    let next = take_fields (origin a) (fields_of a.1) views in
    let taken : look k next ≡ claim (origin a) (field_in k a) (none, none) =
      take_fields-look k (origin a) (fields_of a.1) views
      ∙ ap (claim (origin a) (field_in k a)) h in
    elim (Option-cases (field_in k a)) [
      | inl gone ↦
          Winner-cons k a rest (look k (take_all_fields rest next)) gone
            (first_wins k rest next s (taken ∙ ap (λ x. claim (origin a) x (none, none)) gone))
      | inr (v, there) ↦
          let kept =
            stays k rest next v (some (origin a))
              (taken ∙ ap (λ x. claim (origin a) x (none, none)) there) in
          subst (Winner k (a ∷ rest)) (sym kept)
            (a, inl refl, there, refl, λ b e has. older_ends b a (beats a b rest front e))
    ]

-- For each key of the merged view: where it has a value, one of the assertions holds that value, the
-- provenance names its source and time, and no other that holds the key was fetched later, or at
-- the same time by a source of a smaller name; where it has none, no assertion holds the key.
pub merged_views-Winner :
    (k : String) (assertions : List Assertion)
    → Winner k assertions (look k (merged_views assertions))
unfolding merged_views get
merged_views-Winner k assertions =
    Winner-sorted k assertions (look k (take_all_fields (sort_by by_newest assertions) ([], []))) (
      first_wins k (sort_by by_newest assertions) ([], [])
        (sort_by-IsSorted by_newest by_newest-IsOrder assertions) refl)
