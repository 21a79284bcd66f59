-- ===== src/Locator/Outlines.antt =====
-- The check of an outline, apps/cli/src/outline.rs, and what it spares the locator.
use braincrawl.Base.{
  ℕ, min, ◌++◌, sym, take-append-drop, length-take, length-drop, zero, suc, ◌+◌, ◌-◌, ◌≤◌, ◌<◌,
  Bool, true, false, List, [], ◌∷◌, Option, none, some, ◌≡◌, ◌≢◌, refl, ap, subst, ◌&&◌, All, ◌==◌,
  list_eq, nat_eq, leb, ltb, contains, filter, find, length, take, drop, Bool-cases, inl, inr,
  arith, ne_of_beq,
}
use braincrawl.Base.Scan.{Text}
use braincrawl.Base.Sort.{sort_by, All-sort_by}
use braincrawl.Locator.{
  Section, Outline, Pages, pages_at, count_up, inclusive, trim_span, within, section_span,
  resolve_section,
}

pub data OutlineError : Type 0 where
  duplicate_id : Text → OutlineError
  invalid_range : Text → ℕ → ℕ → OutlineError
  overlapping_ranges : Text → Text → OutlineError
  out_of_bounds : Text → ℕ → ℕ → OutlineError

abbrev when : Bool → OutlineError → List OutlineError → List OutlineError
when true e rest = e ∷ rest
when false e rest = rest

-- The first loop, with the ids seen.
unfoldable check_sections : List Text → ℕ → List Section → List OutlineError
check_sections seen page_count [] = []
check_sections seen page_count (s ∷ sections) = when (contains seen s.id) (duplicate_id s.id) (
    when (ltb s.end_page_index s.start_page_index)
      (invalid_range s.id s.start_page_index s.end_page_index)
      (when (ltb page_count s.end_page_index) (out_of_bounds s.id s.end_page_index page_count)
        (check_sections (s.id ∷ seen) page_count sections)))

overlap : Section → Section → Bool
overlap a b =
    leb a.start_page_index a.end_page_index
    && (leb b.start_page_index b.end_page_index && leb b.start_page_index a.end_page_index)

-- `windows(2)`
unfoldable check_pairs : List Section → List OutlineError
unfolding overlap
check_pairs [] = []
check_pairs (a ∷ []) = []
check_pairs (a ∷ b ∷ sections) =
    let rest = check_pairs (b ∷ sections) in when (overlap a b) (overlapping_ranges a.id b.id) rest

-- The errors, none of which is `Ok`.
unfoldable pub validate : Outline → ℕ → List OutlineError
unfolding check_sections check_pairs
validate outline page_count =
    check_sections [] page_count outline.sections
    ++ check_pairs (sort_by (λ a b. ltb a.start_page_index b.start_page_index) outline.sections)

abbrev pub Fits : ℕ → Section → Type 0
Fits page_count s = (s.start_page_index ≤ s.end_page_index) × (s.end_page_index ≤ page_count)

abbrev pub DistinctIds : List Section → Type 0
DistinctIds [] = Unit
DistinctIds (s ∷ sections) = All (λ t. s.id ≢ t.id) sections × DistinctIds sections

-- Each section ends before each later one starts.
abbrev pub Apart : List Section → Type 0
Apart [] = Unit
Apart (s ∷ sections) = All (λ t. s.end_page_index < t.start_page_index) sections × Apart sections

when-nil :
    (b : Bool) (e : OutlineError) (rest : List OutlineError)
    → when b e rest ≡ []
    → (b ≡ false) × (rest ≡ [])
when-nil true e rest h = cc
when-nil false e rest h = (refl, h)

check_sections-nil :
    (seen : List Text) (page_count : ℕ) (sections : List Section)
    → check_sections seen page_count sections ≡ []
    → All (λ s. contains seen s.id ≡ false) sections
      × (All (Fits page_count) sections × DistinctIds sections)
unfolding check_sections
check_sections-nil seen page_count [] h = (tt, (tt, tt))
check_sections-nil seen page_count (s ∷ sections) h =
    let (new, h1) = when-nil (contains seen s.id) _ _ h in
    let (order, h2) = when-nil (ltb s.end_page_index s.start_page_index) _ _ h1 in
    let (bound, h3) = when-nil (ltb page_count s.end_page_index) _ _ h2 in
    let (later, (fit, apart)) = check_sections-nil (s.id ∷ seen) page_count sections h3 in
    let (others, old) = unseen s.id seen sections later in
    ((new, old), (((ground arith, ground arith), fit), (others, apart)))
  where
    unseen :
        (id : Text) (seen : List Text) (sections : List Section)
        → All (λ s. contains (id ∷ seen) s.id ≡ false) sections
        → All (λ t. id ≢ t.id) sections × All (λ s. contains seen s.id ≡ false) sections
    unseen id seen [] h = (tt, tt)
    unseen id seen (s ∷ sections) (k, h) =
        let (others, old) = unseen id seen sections h in
        elim (Bool-cases (id == s.id)) [
          | inl t ↦ cc (rw t at k)
          | inr f ↦ ((ne_of_beq id s.id f, others), (rw f at k, old))
        ]

check_pairs-Apart :
    (page_count : ℕ) (sections : List Section)
    → All (Fits page_count) sections
    → check_pairs sections ≡ []
    → Apart sections
unfolding check_pairs overlap
check_pairs-Apart page_count [] fit h = tt
check_pairs-Apart page_count (a ∷ []) fit h = (tt, tt)
check_pairs-Apart page_count (a ∷ b ∷ sections) ((fa, ga), ((fb, gb), fit)) h =
    let (pair, h') = when-nil (overlap a b) _ _ h in
    let (next, rest) = check_pairs-Apart page_count (b ∷ sections) ((fb, gb), fit) h' in
    let before : a.end_page_index < b.start_page_index = ground arith in
    ((before, further a b sections before fb next), (next, rest))
  where
    further :
        (a b : Section) (sections : List Section)
        → a.end_page_index < b.start_page_index
        → b.start_page_index ≤ b.end_page_index
        → All (λ t. b.end_page_index < t.start_page_index) sections
        → All (λ t. a.end_page_index < t.start_page_index) sections
    further a b [] k l h = tt
    further a b (t ∷ sections) k l (n, h) = (omega arith, further a b sections k l h)

append-nil_parts : (xs ys : List OutlineError) → xs ++ ys ≡ [] → (xs ≡ []) × (ys ≡ [])
append-nil_parts [] ys h = (refl, h)
append-nil_parts (x ∷ xs) ys h = cc

abbrev pub by_start : List Section → List Section
by_start = sort_by (λ a b. ltb a.start_page_index b.start_page_index)

-- Where `validate` finds no error, no two sections share an id, each starts before it ends and ends
-- within the pages, and in the order of their starts each ends before every later one starts.
pub validate-Apart :
    (outline : Outline) (page_count : ℕ)
    → validate outline page_count ≡ []
    → All (Fits page_count) outline.sections
      × (DistinctIds outline.sections × Apart (by_start outline.sections))
unfolding validate
validate-Apart outline page_count h =
    let (first, second) = append-nil_parts _ _ h in
    let (new, (fit, ids)) = check_sections-nil [] page_count outline.sections first in
    (
      fit,
      (
        ids,
        check_pairs-Apart page_count (by_start outline.sections)
            (All-sort_by (Fits page_count) (λ a b. ltb a.start_page_index b.start_page_index)
              outline.sections fit)
            second,
      ),
    )

abbrev AtMost : ℕ → List ℕ → Type 0
AtMost page_count = All (λ p. p ≤ page_count)

AtMost-count_up :
    (n lo page_count : ℕ) → lo + n ≤ suc page_count → AtMost page_count (count_up n lo)
unfolding count_up
AtMost-count_up zero lo page_count h = tt
AtMost-count_up (suc n) lo page_count h =
    (omega arith, AtMost-count_up n (suc lo) page_count (omega arith))

AtMost-take :
    (page_count n : ℕ) (ps : List ℕ) → AtMost page_count ps → AtMost page_count (take n ps)
AtMost-take page_count zero ps h = tt
AtMost-take page_count (suc n) [] h = tt
AtMost-take page_count (suc n) (p ∷ ps) (k, h) = (k, AtMost-take page_count n ps h)

AtMost-drop :
    (page_count n : ℕ) (ps : List ℕ) → AtMost page_count ps → AtMost page_count (drop n ps)
AtMost-drop page_count zero ps h = h
AtMost-drop page_count (suc n) [] h = tt
AtMost-drop page_count (suc n) (p ∷ ps) (k, h) = AtMost-drop page_count n ps h

AtMost-trim_span :
    (page_count : ℕ) (head tail : Option ℕ) (ps : List ℕ)
    → AtMost page_count ps
    → AtMost page_count (trim_span head tail ps)
unfolding trim_span
AtMost-trim_span page_count (some n) tail ps h = AtMost-take page_count n ps h
AtMost-trim_span page_count none (some n) ps h = AtMost-drop page_count (length ps - n) ps h
AtMost-trim_span page_count none none ps h = h

filter-AtMost :
    (page_count : ℕ) (ps : List ℕ)
    → AtMost page_count ps
    → (filter (λ p. leb p page_count) ps ≡ ps) × (filter (λ p. ltb page_count p) ps ≡ [])
filter-AtMost page_count [] h = (refl, refl)
filter-AtMost page_count (p ∷ ps) (k, h) =
    let (all, gone) = filter-AtMost page_count ps h in
    let here : leb p page_count ≡ true = ground arith in
    let past : ltb page_count p ≡ false = ground arith in
    (rw here (ap (λ l. p ∷ l) all), rw past gone)

find-Fits :
    (page_count : ℕ) (p : Section → Bool) (sections : List Section) (s : Section)
    → All (Fits page_count) sections
    → find p sections ≡ some s
    → Fits page_count s
find-Fits page_count p [] s fit h = cc
find-Fits page_count p (t ∷ sections) s (here, fit) h = elim (Bool-cases (p t)) [
  | inl y ↦ let same : t ≡ s = cc (rw y at h) in subst (Fits page_count) same here
  | inr n ↦ find-Fits page_count p sections s fit (rw n at h)
]

-- The numbers from one on, one after the other.
abbrev pub Run : ℕ → List ℕ → Type 0
Run lo [] = Unit
Run lo (p ∷ ps) = (p ≡ lo) × Run (suc lo) ps

Run-count_up : (n lo : ℕ) → Run lo (count_up n lo) × (length (count_up n lo) ≡ n)
unfolding count_up
Run-count_up zero lo = (tt, refl)
Run-count_up (suc n) lo = let (r, l) = Run-count_up n (suc lo) in ((refl, r), ap suc l)

-- The first so many of a list, or else its last so many, or else all; never more than it has.
abbrev pub Trimmed : Option ℕ → Option ℕ → List ℕ → List ℕ → Type 0
Trimmed (some n) tail full span =
    (rest : List ℕ) × (full ≡ span ++ rest) × (length span ≡ min n (length full))
Trimmed none (some n) full span =
    (front : List ℕ) × (full ≡ front ++ span) × (length span ≡ min n (length full))
Trimmed none none full span = span ≡ full

trim_span-Trimmed :
    (head tail : Option ℕ) (full : List ℕ) → Trimmed head tail full (trim_span head tail full)
unfolding trim_span
trim_span-Trimmed (some n) tail full =
    (drop n full, sym (take-append-drop n full), length-take n full)
trim_span-Trimmed none (some n) full =
    let k = length full - n in
    (take k full, sym (take-append-drop k full), omega (arith, length-drop k full))
trim_span-Trimmed none none full = refl

pub record Locates (id : Text) (head tail : Option ℕ) (pages : Pages) (outline : Outline)
    (s : Section) : Type 0 where
  pub full : List ℕ
  pub run : Run s.start_page_index full
  pub ends : s.start_page_index + length full ≡ suc s.end_page_index
  pub span : List ℕ
  pub trimmed : Trimmed head tail full span
  pub located : resolve_section id head tail pages (some outline) ≡ pages_at span
  pub bounded : All (λ p. p ≤ pages.page_count) span

-- Where `validate` finds no error for the pages' count, a section that the outline has is located: it
-- is every page from its start to its end, in order, or as many of the first of them as asked for, or
-- else of the last of them; none is past the count. A start at page 0 is not refused.
pub resolve_section-validate :
    (id : Text) (head tail : Option ℕ) (pages : Pages) (outline : Outline) (s : Section)
    → validate outline pages.page_count ≡ []
    → find (λ (t : Section). t.id == id) outline.sections ≡ some s
    → Locates id head tail pages outline s
unfolding resolve_section section_span within inclusive
resolve_section-validate id head tail pages outline s v found =
    let fit = (validate-Apart outline pages.page_count v).0 in
    let (order, bound) =
      find-Fits pages.page_count (λ (t : Section). t.id == id) outline.sections s fit found in
    let size = suc s.end_page_index - s.start_page_index in
    let (run, long) = Run-count_up size s.start_page_index in
    let span = inclusive s.start_page_index s.end_page_index in
    let inside =
      AtMost-trim_span pages.page_count head tail span
        (AtMost-count_up size s.start_page_index pages.page_count (omega arith)) in
    let (all, gone) = filter-AtMost pages.page_count (trim_span head tail span) inside in
    record {
      full = span;
      run = run;
      ends = omega (arith, long);
      span = trim_span head tail span;
      trimmed = trim_span-Trimmed head tail span;
      located = rw (resolve_section, found) (rw (all, gone) refl);
      bounded = inside;
    }
