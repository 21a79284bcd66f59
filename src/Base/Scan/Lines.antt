-- ===== src/Base/Scan/Lines.antt =====
-- Lines that are joined are read back.
use Prim.Native.Nat.{ℕ}
use mathlib.Core.Path.{◌≡◌, refl, ap, sym, ◌∙◌}
use mathlib.Core.Logic.{◌≢◌, inl, inr}
use mathlib.Core.Bool.{false}
use mathlib.Core.Option.{some}
use mathlib.Core.List.{List, [], ◌∷◌, ◌++◌, append_assoc, append-nil}
use native.Mathlib.Omega.{arith}
use braincrawl.Base.Tests.{nat_beq, nat_beq_iff, Bool-cases, List-cases}
use braincrawl.Base.Lists.{All, last}
use braincrawl.Base.Scan.{Text, lines, join_lines, terminated, add_front, at_newline}

-- A text within one line, which holds no `\n` and no `\r`.
abbrev pub InLine : ℕ → Type 0
InLine c = (nat_beq c 10 ≡ false) × (nat_beq c 13 ≡ false)

abbrev pub IsLine : Text → Type 0
IsLine = All InLine

pub lines-newline : (l s : Text) → IsLine l → lines (l ++ 10 ∷ s) ≡ l ∷ lines s
unfolding lines add_front at_newline
lines-newline [] s h = refl
lines-newline (c ∷ l) s ((n, r), h) = rw (n, r) (rw (lines-newline l s h) refl)

lines-one : (c : ℕ) (l : Text) → IsLine (c ∷ l) → lines (c ∷ l) ≡ (c ∷ l) ∷ []
unfolding lines add_front
lines-one c [] ((n, r), h) = rw (n, r) refl
lines-one c (d ∷ l) ((n, r), h) = rw (n, r) (rw (lines-one d l h) refl)

-- Lines with a newline after the last, and the lines that follow.
pub lines-join_append :
    (l : Text) (ls : List Text) (t : Text)
    → All IsLine (l ∷ ls)
    → lines (join_lines (l ∷ ls) ++ 10 ∷ t) ≡ l ∷ ls ++ lines t
unfolding join_lines
lines-join_append l [] t (h, rest) = lines-newline l t h
lines-join_append l (m ∷ ls) t (h, rest) = rw (append_assoc l (10 ∷ join_lines (m ∷ ls)) (10 ∷ t)) (
    rw (lines-newline l (join_lines (m ∷ ls) ++ 10 ∷ t) h)
      (ap (λ s. l ∷ s) (lines-join_append m ls t rest)))

-- Lines with a newline after the last.
pub lines-join_newline :
    (l : Text) (ls : List Text)
    → All IsLine (l ∷ ls)
    → lines (join_lines (l ∷ ls) ++ 10 ∷ []) ≡ l ∷ ls
unfolding lines
lines-join_newline l ls h = lines-join_append l ls [] h ∙ ap (λ s. l ∷ s) (append-nil ls)

-- Lines without a newline after the last, which is not empty.
pub lines-join :
    (l : Text) (ls : List Text)
    → All IsLine (l ∷ ls)
    → last (l ∷ ls) ≢ some []
    → lines (join_lines (l ∷ ls)) ≡ l ∷ ls
unfolding join_lines
lines-join [] [] h ne = absurd (ne refl)
lines-join (c ∷ l) [] (h, rest) ne = lines-one c l h
lines-join l (m ∷ ls) (h, rest) ne =
    rw (lines-newline l (join_lines (m ∷ ls)) h) (ap (λ t. l ∷ t) (lines-join m ls rest ne))

abbrev pub NoReturn : Text → Type 0
NoReturn = All (λ c. nat_beq c 13 ≡ false)

add_front-IsLine :
    (c : ℕ) (ls : List Text)
    → nat_beq c 10 ≡ false
    → nat_beq c 13 ≡ false
    → All IsLine ls
    → All IsLine (add_front c ls)
unfolding add_front
add_front-IsLine c [] n r h = (((n, r), tt), tt)
add_front-IsLine c (l ∷ ls) n r (h, t) = (((n, r), h), t)

pub lines-IsLine : (s : Text) → NoReturn s → All IsLine (lines s)
unfolding lines
lines-IsLine [] h = tt
lines-IsLine (c ∷ s) (r, h) = elim (Bool-cases (nat_beq c 10)) [
  | inl t ↦ rw t (tt, lines-IsLine s h)
  | inr n ↦ rw (n, r) (add_front-IsLine c (lines s) n r (lines-IsLine s h))
]

add_front-last : (c : ℕ) (ls : List Text) → last ls ≢ some [] → last (add_front c ls) ≢ some []
unfolding add_front
add_front-last c [] ne q = cc
add_front-last c (l ∷ []) ne q = cc
add_front-last c (l ∷ m ∷ ls) ne q = ne q

pub lines-ne-nil : (c : ℕ) (s : Text) → NoReturn (c ∷ s) → lines (c ∷ s) ≢ []
unfolding lines add_front
lines-ne-nil c s (r, h) q = elim (Bool-cases (nat_beq c 10)) [
  | inl t ↦ cc (rw t at q)
  | inr n ↦ front (lines s) (rw (n, r) at q)
]
  where
    front : (ls : List Text) → add_front c ls ≢ []
    front [] e = cc
    front (l ∷ ls) e = cc

last-cons : (l : Text) (ls : List Text) → ls ≢ [] → last (l ∷ ls) ≡ last ls
last-cons l [] ne = absurd (ne refl)
last-cons l (m ∷ ls) ne = refl

-- The last line of a text that does not end with a newline is not empty.
pub lines-last : (s : Text) → NoReturn s → last s ≢ some 10 → last (lines s) ≢ some []
unfolding lines
lines-last [] h ne q = cc
lines-last (c ∷ []) (r, h) ne q = elim (Bool-cases (nat_beq c 10)) [
  | inl t ↦ ne (ap some ((nat_beq_iff c 10).0 t))
  | inr n ↦ add_front-last c [] (λ e. cc) (rw (n, r) at q)
]
lines-last (c ∷ d ∷ s) (r, h) ne q =
    let later = lines-last (d ∷ s) h ne in
    elim (Bool-cases (nat_beq c 10)) [
      | inl t ↦ later (sym (last-cons [] (lines (d ∷ s)) (lines-ne-nil d s h)) ∙ (rw t at q))
      | inr n ↦ add_front-last c (lines (d ∷ s)) later (rw (n, r) at q)
    ]

terminated-add_front :
    (c : ℕ) (l : Text) (ls : List Text)
    → terminated (add_front c (l ∷ ls)) ≡ c ∷ terminated (l ∷ ls)
unfolding terminated add_front
terminated-add_front c l ls = refl

terminated-front :
    (c d : ℕ) (s : Text)
    → NoReturn (d ∷ s)
    → terminated (lines (d ∷ s)) ≡ d ∷ s
    → terminated (add_front c (lines (d ∷ s))) ≡ c ∷ d ∷ s
terminated-front c d s h ih = elim (List-cases (lines (d ∷ s))) [
  | inl e ↦ absurd (lines-ne-nil d s h e)
  | inr (l, ls, e) ↦
      rw e (terminated-add_front c l ls ∙ ap (λ t. c ∷ t) (sym (ap terminated e) ∙ ih))
]

-- A text that ends with a line feed is its lines, each with a line feed.
pub terminated-lines :
    (c : ℕ) (s : Text)
    → NoReturn (c ∷ s)
    → last (c ∷ s) ≡ some 10
    → terminated (lines (c ∷ s)) ≡ c ∷ s
unfolding lines terminated
terminated-lines c [] (r, h) e = ground (arith, nat_beq_iff c 10)
terminated-lines c (d ∷ s) (r, h) e =
    let ih = terminated-lines d s h e in
    elim (Bool-cases (nat_beq c 10)) [
      | inl t ↦ rw t (rw ((nat_beq_iff c 10).0 t) (ap (λ u. 10 ∷ u) ih))
      | inr n ↦ rw (n, r) (terminated-front c d s h ih)
    ]
