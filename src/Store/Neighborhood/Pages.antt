-- ===== src/Store/Neighborhood/Pages.antt =====
-- The pages of the in-memory backend, drained one after the other.
use braincrawl.Base.{
  ℕ, zero, suc, ◌+◌, ◌-◌, ◌≤◌, ◌<◌, ◌^◌, min, String, true, false, Option, none, some, List, [],
  ◌∷◌, ◌++◌, map, length, take, drop, ltb, ltb→lt, ◌≡◌, inl, inr, refl, sym, ap, ◌∙◌, arith,
  Bool-cases, take_all, take-append-drop, length-drop, drop-drop,
}
use braincrawl.Base.Decimal.{to_decimal, parse-to_decimal}
use braincrawl.Types.{CanonicalId, EdgeDir, EdgeView}
use braincrawl.Exec.{ok}
use braincrawl.MemStore.{MemStoreInner}
use braincrawl.MemStore.Backend.{mem_store}
use braincrawl.MemStore.Edges.{matching, edge_view, offset_of, page_at, read_edges}
use braincrawl.Store.Neighborhood.{visit_all, drain, neighborhood_edge_page}

visit_all-append :
    {A : Type 0} (visit : A → EdgeView → A) (acc : A) (xs ys : List EdgeView)
    → visit_all visit acc (xs ++ ys) ≡ visit_all visit (visit_all visit acc xs) ys
visit_all-append visit acc [] ys = refl
visit_all-append visit acc (x ∷ xs) ys = visit_all-append visit (visit acc x) xs ys

map-append : {A B : Type 0} (f : A → B) (xs ys : List A) → map f (xs ++ ys) ≡ map f xs ++ map f ys
map-append f [] ys = refl
map-append f (x ∷ xs) ys = ap (λ l. f x ∷ l) (map-append f xs ys)

-- One page.
page_more :
    {A : Type 0} (o n : ℕ) (rows : List A)
    → o + n < length rows
    → page_at o n rows ≡ (take n (drop o rows), some (to_decimal (o + n)))
unfolding page_at
page_more o n rows h =
    let start : min o (length rows) ≡ o = omega arith in
    let size : length (drop o rows) ≡ length rows - o = length-drop o rows in
    let more : ltb n (length (drop o rows)) ≡ true = ground arith in
    let cut : min (length (drop o rows)) n ≡ n = omega (arith, size) in rw (start, more, cut) refl

page_last :
    {A : Type 0} (o n : ℕ) (rows : List A)
    → o ≤ length rows
    → length rows ≤ o + n
    → page_at o n rows ≡ (drop o rows, none)
unfolding page_at
page_last o n rows h k =
    let start : min o (length rows) ≡ o = omega arith in
    let size : length (drop o rows) ≡ length rows - o = length-drop o rows in
    let no_more : ltb n (length (drop o rows)) ≡ false = ground arith in
    let cut : min (length (drop o rows)) n ≡ length (drop o rows) = omega (arith, size) in
    rw (start, no_more, cut)
      (ap (λ l. (l, none)) (take_all (length (drop o rows)) (drop o rows) (omega arith)))

read_page :
    (id : CanonicalId) (dir : EdgeDir) (s : MemStoreInner) (cursor : Option String) (o limit : ℕ)
    → offset_of cursor ≡ o
    → read_edges id dir cursor limit s ≡ (
      ok (
        map edge_view (page_at o limit (matching dir id s)).0,
        (page_at o limit (matching dir id s)).1,
      ),
      s,
    )
unfolding read_edges
read_page id dir s cursor o limit at =
    ap
      (λ x. (
        ok (
          map edge_view (page_at x limit (matching dir id s)).0,
          (page_at x limit (matching dir id s)).1,
        ),
        s,
      ))
      at

offset-to_decimal : (n : ℕ) → n < 2 ^ 64 → offset_of (some (to_decimal n)) ≡ n
unfolding offset_of
offset-to_decimal n h = rw (parse-to_decimal (2 ^ 64) n h, offset_of) refl

offset-none : offset_of none ≡ 0
unfolding offset_of
offset-none = refl

module _ {A : Type 0} (visit : A → EdgeView → A) (id : CanonicalId) (dir : EdgeDir)
    (s : MemStoreInner) where
  drain_from :
      (fuel o : ℕ) (cursor : Option String) (acc : A)
      → offset_of cursor ≡ o
      → o ≤ length (matching dir id s)
      → length (matching dir id s) < 2 ^ 64
      → length (matching dir id s) < o + fuel
      → drain mem_store visit fuel id dir cursor acc s
        ≡ (ok (visit_all visit acc (map edge_view (drop o (matching dir id s)))), s)
  unfolding drain
  drain_from zero o cursor acc at h big enough = absurd (omega arith)
  drain_from (suc fuel) o cursor acc at h big enough =
      let rows = matching dir id s in
      let n = neighborhood_edge_page in
      let page = read_page id dir s cursor o n at in
      elim (Bool-cases (ltb (o + n) (length rows))) [
        | inl t ↦
            let within = ltb→lt (o + n) (length rows) t in
            let acc' = visit_all visit acc (map edge_view (take n (drop o rows))) in
            let later =
              drain_from fuel (o + n) (some (to_decimal (o + n))) acc'
                (offset-to_decimal (o + n) (omega (arith, within))) (omega (arith, within)) big
                (omega arith) in
            rw (page, page_more o n rows within)
              (later
                ∙ ap (λ x. (ok x, s))
                    (sym (
                        visit_all-append visit acc (map edge_view (take n (drop o rows)))
                          (map edge_view (drop (o + n) rows)))
                      ∙ ap (visit_all visit acc) (
                          sym (map-append edge_view (take n (drop o rows)) (drop (o + n) rows))
                          ∙ ap (map edge_view) (
                              ap (λ l. take n (drop o rows) ++ l) (sym (drop-drop o n rows))
                              ∙ take-append-drop n (drop o rows)))))
        | inr f ↦
            let past : length rows ≤ o + n = ground arith in
            rw (page, page_last o n rows h past) refl
      ]

  pub drain_lem :
      (fuel : ℕ) (acc : A)
      → length (matching dir id s) < fuel
      → length (matching dir id s) < 2 ^ 64
      → drain mem_store visit fuel id dir none acc s
        ≡ (ok (visit_all visit acc (map edge_view (matching dir id s))), s)
  drain_lem fuel acc enough big =
      drain_from fuel 0 none acc offset-none (omega arith) big (omega arith)
