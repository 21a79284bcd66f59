-- ===== src/Sync/Diff/Reports.antt =====
-- What the lists of a comparison hold.
use mathlib.Core.Option.{some-injective}
use braincrawl.Base.{
  ◌+◌, Bool, true, false, List, [], ◌∷◌, ◌++◌, Option, none, some, if◌then◌else◌, ◌==◌, list_eq,
  nat_eq, ◌≡◌, ◌≢◌, refl, sym, ap, ◌∙◌, ◌↔◌, inl, inr, arith, Bool-cases, Option-cases, Elem, subst,
  list_beq_iff, length, length-append, append-nil, append_assoc,
}
use braincrawl.Base.Map.{Map, get, entries, get_of_Elem, Elem-of_get}
use braincrawl.Base.Sort.{sort_by, Elem-sort_by}
use braincrawl.Base.Scan.{Text}
use braincrawl.Sync.{NodeRef}
use braincrawl.Sync.Plan.{ref_lt}
use braincrawl.Sync.Diff.{
  Entry, CollectionDiff, make_ref, compare_entry, compare_entries, add_missing,
}

-- The references of the entries that pass a test.
abbrev pub refs : (Text × Entry → Bool) → List (Text × Entry) → List NodeRef
refs p [] = []
refs p ((x, e) ∷ l) = let rest = refs p l in if p (x, e) then make_ref x e ∷ rest else rest

refs-Elem :
    (p : Text × Entry → Bool) (r : NodeRef) (l : List (Text × Entry))
    → Elem r (refs p l)
    → (e : Entry) × Elem (r.anchor, e) l × (p (r.anchor, e) ≡ true) × (r ≡ make_ref r.anchor e)
refs-Elem p r [] h = absurd h
refs-Elem p r ((x, e) ∷ l) h = elim (Bool-cases (p (x, e))) [
  | inr f ↦ let (e', k, t, q) = refs-Elem p r l (rw f at h) in (e', inr k, t, q)
  | inl t ↦ elim (rw t at h) [
    | inr k ↦ let (e', k', t', q) = refs-Elem p r l k in (e', inr k', t', q)
    | inl q ↦
        let same : r.anchor ≡ x = ap (λ (s : NodeRef). s.anchor) q in
        (
          e,
          inl (ap (λ a. (a, e)) same),
          ap (λ a. p (a, e)) same ∙ t,
          q ∙ ap (λ a. make_ref a e) (sym same),
        )
  ]
]

Elem-refs :
    (p : Text × Entry → Bool) (x : Text) (e : Entry) (l : List (Text × Entry))
    → Elem (x, e) l
    → p (x, e) ≡ true
    → Elem (make_ref x e) (refs p l)
Elem-refs p x e [] h t = absurd h
Elem-refs p x e ((y, f) ∷ l) (inl q) t =
    rw (ap p (sym q) ∙ t) (inl (ap (λ (s : Text × Entry). make_ref s.0 s.1) q))
Elem-refs p x e ((y, f) ∷ l) (inr h) t = elim (Bool-cases (p (y, f))) [
  | inl u ↦ rw u (inr (Elem-refs p x e l h t))
  | inr u ↦ rw u (Elem-refs p x e l h t)
]

abbrev pub absent_from : Option Entry → Bool
absent_from none = true
absent_from (some eb) = false

abbrev pub elsewhere_in : Entry → Option Entry → Bool
elsewhere_in ea none = false
elsewhere_in ea (some eb) = if ea.0 == eb.0 then false else true

abbrev pub differs_from : Entry → Option Entry → Bool
differs_from ea none = false
differs_from ea (some eb) = if ea.0 == eb.0 then if ea.1 == eb.1 then false else true else false

module _ (ib : Map Text Entry) where
  abbrev pub is_absent : Text × Entry → Bool
  is_absent p = absent_from (get p.0 ib)

  abbrev pub is_elsewhere : Text × Entry → Bool
  is_elsewhere p = elsewhere_in p.1 (get p.0 ib)

  abbrev pub is_differing : Text × Entry → Bool
  is_differing p = differs_from p.1 (get p.0 ib)

  pub record Compared (l : List (Text × Entry)) (d d' : CollectionDiff) : Type 0 where
    pub absent : d'.only_in_a ≡ d.only_in_a ++ refs is_absent l
    pub moved : d'.moved ≡ d.moved ++ refs is_elsewhere l
    pub edited : d'.differing ≡ d.differing ++ refs is_differing l
    pub counted :
        length d'.only_in_a + length d'.moved + length d'.differing + d'.in_sync
        ≡ length d.only_in_a + length d.moved + length d.differing + d.in_sync + length l
    pub others : d'.only_in_b ≡ d.only_in_b

  compare_entry-Compared :
      (x : Text) (e : Entry) (o : Option Entry) (d : CollectionDiff)
      → get x ib ≡ o
      → Compared ((x, e) ∷ []) d (compare_entry x e o d)
  unfolding compare_entry
  compare_entry-Compared x e none d h = record {
    absent = rw h refl;
    moved = rw h (sym (append-nil d.moved));
    edited = rw h (sym (append-nil d.differing));
    counted = omega (arith, length-append d.only_in_a (make_ref x e ∷ []));
    others = refl;
  }
  compare_entry-Compared x e (some f) d h = elim (Bool-cases (e.0 == f.0)) [
    | inr n ↦ rw n (record {
      absent = rw h (sym (append-nil d.only_in_a));
      moved = rw h (rw n refl);
      edited = rw h (rw n (sym (append-nil d.differing)));
      counted = omega (arith, length-append d.moved (make_ref x e ∷ []));
      others = refl;
    })
    | inl t ↦ rw t (elim (Bool-cases (e.1 == f.1)) [
      | inr n ↦ rw n (record {
        absent = rw h (sym (append-nil d.only_in_a));
        moved = rw h (rw t (sym (append-nil d.moved)));
        edited = rw h (rw (t, n) refl);
        counted = omega (arith, length-append d.differing (make_ref x e ∷ []));
        others = refl;
      })
      | inl u ↦ rw u (record {
        absent = rw h (sym (append-nil d.only_in_a));
        moved = rw h (rw t (sym (append-nil d.moved)));
        edited = rw h (rw (t, u) (sym (append-nil d.differing)));
        counted = omega arith;
        others = refl;
      })
    ])
  ]

  refs-cons :
      (p : Text × Entry → Bool) (x : Text) (e : Entry) (before : List NodeRef)
      (l : List (Text × Entry))
      → (before ++ refs p ((x, e) ∷ [])) ++ refs p l ≡ before ++ refs p ((x, e) ∷ l)
  refs-cons p x e before l = elim (Bool-cases (p (x, e))) [
    | inl t ↦ rw t (append_assoc before (make_ref x e ∷ []) (refs p l))
    | inr f ↦ rw f (ap (λ r. r ++ refs p l) (append-nil before))
  ]

  pub compare_entries-Compared :
      (l : List (Text × Entry)) (d : CollectionDiff) → Compared l d (compare_entries ib l d)
  unfolding compare_entries
  compare_entries-Compared [] d = record {
    absent = sym (append-nil d.only_in_a);
    moved = sym (append-nil d.moved);
    edited = sym (append-nil d.differing);
    counted = omega arith;
    others = refl;
  }
  compare_entries-Compared ((x, e) ∷ l) d =
      let one = compare_entry-Compared x e (get x ib) d refl in
      let rest = compare_entries-Compared l (compare_entry x e (get x ib) d) in
      record {
        absent =
            rest.absent
            ∙ ap (λ r. r ++ refs is_absent l) one.absent
            ∙ refs-cons is_absent x e d.only_in_a l;
        moved =
            rest.moved
            ∙ ap (λ r. r ++ refs is_elsewhere l) one.moved
            ∙ refs-cons is_elsewhere x e d.moved l;
        edited =
            rest.edited
            ∙ ap (λ r. r ++ refs is_differing l) one.edited
            ∙ refs-cons is_differing x e d.differing l;
        counted = omega (arith, one.counted, rest.counted);
        others = rest.others ∙ one.others;
      }

  -- The second loop changes one list alone.
  pub add_missing_lem :
      (l : List (Text × Entry)) (d : CollectionDiff)
      → add_missing ib l d ≡ record d { only_in_b = d.only_in_b ++ refs is_absent l }
  unfolding add_missing
  add_missing_lem [] d = ap (λ r. record d { only_in_b = r }) (sym (append-nil d.only_in_b))
  add_missing_lem ((x, e) ∷ l) d = elim (Option-cases (get x ib)) [
    | inr (f, q) ↦ rw q (add_missing_lem l d)
    | inl q ↦ rw q (
        add_missing_lem l (record d { only_in_b = d.only_in_b ++ make_ref x e ∷ [] })
        ∙ ap (λ r. record d { only_in_b = r })
            (append_assoc d.only_in_b (make_ref x e ∷ []) (refs is_absent l)))
  ]

-- A list holds exactly the references of the entries of one side of which `P` is true.
abbrev pub Lists : Map Text Entry → (Text → Entry → Type 0) → List NodeRef → Type 0
Lists here P rs =
    (r : NodeRef)
    → Elem r rs
      ↔ ((e : Entry) × (get r.anchor here ≡ some e) × (r ≡ make_ref r.anchor e) × P r.anchor e)

-- Of the other side: it has no such anchor, has it in another page, or has it in the same page with
-- another hash.
abbrev pub Absent : Map Text Entry → Text → Entry → Type 0
Absent there x e = get x there ≡ none

abbrev pub Elsewhere : Map Text Entry → Text → Entry → Type 0
Elsewhere there x e = (f : Entry) × (get x there ≡ some f) × (e.0 ≢ f.0)

abbrev pub Differs : Map Text Entry → Text → Entry → Type 0
Differs there x e = (f : Entry) × (get x there ≡ some f) × (e.0 ≡ f.0) × (e.1 ≢ f.1)

pub Lists-refs :
    (here : Map Text Entry) (p : Text × Entry → Bool) (P : Text → Entry → Type 0)
    → ((x : Text) (e : Entry) → (p (x, e) ≡ true) ↔ P x e)
    → Lists here P (sort_by ref_lt (refs p (entries here)))
Lists-refs here p P test r = (
  λ h.
      let (e, k, t, q) =
        refs-Elem p r (entries here) ((Elem-sort_by ref_lt r (refs p (entries here))).0 h) in
      (e, get_of_Elem r.anchor e here k, q, (test r.anchor e).0 t),
  λ h.
      let (e, g, q, w) = h in
      (Elem-sort_by ref_lt r (refs p (entries here))).1 (
        subst (λ s. Elem s (refs p (entries here))) (sym q)
          (Elem-refs p r.anchor e (entries here) (Elem-of_get r.anchor e here g)
            ((test r.anchor e).1 w))),
)

pub Absent-test :
    (there : Map Text Entry) (x : Text) (e : Entry)
    → (is_absent there (x, e) ≡ true) ↔ Absent there x e
Absent-test there x e = elim (Option-cases (get x there)) [
  | inl q ↦ (λ h. q, λ h. rw q refl)
  | inr (f, q) ↦ (λ h. cc (rw q at h), λ h. cc (sym h ∙ q))
]

pub Elsewhere-test :
    (there : Map Text Entry) (x : Text) (e : Entry)
    → (is_elsewhere there (x, e) ≡ true) ↔ Elsewhere there x e
Elsewhere-test there x e = elim (Option-cases (get x there)) [
  | inl q ↦ (λ h. cc (rw q at h), λ h. cc (sym q ∙ h.1))
  | inr (f, q) ↦ (
    λ h. let k = rw q at h in (f, q, λ s. ground (arith, list_beq_iff e.0 f.0)),
    λ h.
        let same : f ≡ h.0 = some-injective f h.0 (sym q ∙ h.1) in
        let ne : e.0 ≢ f.0 = λ s. h.2 (s ∙ ap (λ (y : Entry). y.0) same) in
        rw q (ground (arith, list_beq_iff e.0 f.0)),
  )
]

pub Differs-test :
    (there : Map Text Entry) (x : Text) (e : Entry)
    → (is_differing there (x, e) ≡ true) ↔ Differs there x e
Differs-test there x e = elim (Option-cases (get x there)) [
  | inl q ↦ (λ h. cc (rw q at h), λ h. cc (sym q ∙ h.1))
  | inr (f, q) ↦ (
    λ h.
        let k = rw q at h in
        (
          f,
          q,
          ground (arith, list_beq_iff e.0 f.0, list_beq_iff e.1 f.1),
          λ s. ground (arith, list_beq_iff e.0 f.0, list_beq_iff e.1 f.1),
        ),
    λ h.
        let same : f ≡ h.0 = some-injective f h.0 (sym q ∙ h.1) in
        let page : e.0 ≡ f.0 = h.2 ∙ ap (λ (y : Entry). y.0) (sym same) in
        let ne : e.1 ≢ f.1 = λ s. h.3 (s ∙ ap (λ (y : Entry). y.1) same) in
        rw q (ground (arith, list_beq_iff e.0 f.0, list_beq_iff e.1 f.1)),
  )
]
