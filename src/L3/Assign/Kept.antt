-- ===== src/L3/Assign/Kept.antt =====
-- What the changes of an assignment keep of the lines, and the anchors they leave.
use braincrawl.Base.{
  ℕ, suc, true, false, List, [], ◌∷◌, ◌++◌, none, some, ◌≡◌, ◌≢◌, refl, ap, sym, ◌∙◌, All,
  Bool-cases, Option-cases, inl, inr, arith, nat_beq, nat_beq_iff, last, ◌==◌, list_eq, nat_eq,
  beq_of_ne, All-append,
}
use braincrawl.Base.Text.{codes}
use braincrawl.Base.Scan.{Text, strip_prefix, is_whitespace}
use braincrawl.Base.Scan.Lines.{IsLine, InLine}
use braincrawl.L3.Bullets.{split_anchor}
use braincrawl.L3.Bullets.Anchors.{append-ne-nil, split_anchor-append}
use braincrawl.L3.Front.{fence, split_fence, split_block}
use braincrawl.L3.Parse.Headings.{Heading, headings}
use braincrawl.L3.Assign.Edited.{Edited, kept, gained, Anchored}

strip_prefix-append :
    (p l x h : Text) → strip_prefix p l ≡ some h → strip_prefix p (l ++ x) ≡ some (h ++ x)
unfolding strip_prefix
strip_prefix-append [] l x h e = ap some (ap (λ t. t ++ x) (ground arith))
strip_prefix-append (q ∷ p) [] x h e = cc
strip_prefix-append (q ∷ p) (c ∷ l) x h e = elim (Bool-cases (nat_beq q c)) [
  | inl t ↦ rw t (strip_prefix-append p l x h (rw t at e))
  | inr f ↦ cc (rw f at e)
]

-- A token stands within a line.
token-IsLine : (s : Text) → All (λ c. is_whitespace c ≡ false) s → IsLine s
unfolding is_whitespace
token-IsLine [] h = tt
token-IsLine (c ∷ s) (w, h) = ((unlike 10 refl, unlike 13 refl), token-IsLine s h)
  where
    unlike : (d : ℕ) → is_whitespace d ≡ true → nat_beq c d ≡ false
    unlike d blank = elim (Bool-cases (nat_beq c d)) [
      | inl t ↦ cc (w, blank, (nat_beq_iff c d).0 t)
      | inr f ↦ f
    ]

Edited-IsLine : (l m : Text) → Edited l m → IsLine l → IsLine m
unfolding is_whitespace
Edited-IsLine l m (kept n) h = h
Edited-IsLine l m (gained {id = id} w (t, ne)) h =
    All-append InLine (l ++ codes " ^") id
      (All-append InLine l (codes " ^") h ((refl, refl), ((refl, refl), tt))) (token-IsLine id t)

pub Anchored-IsLine : (ls ms : List Text) → Anchored ls ms → All IsLine ls → All IsLine ms
Anchored-IsLine [] [] a h = tt
Anchored-IsLine [] (m ∷ ms) a h = absurd a
Anchored-IsLine (l ∷ ls) [] a h = absurd a
Anchored-IsLine (l ∷ ls) (m ∷ ms) (e, a) (h, hs) =
    (Edited-IsLine l m e h, Anchored-IsLine ls ms a hs)

Edited-ne-nil : (l m : Text) → Edited l m → l ≢ [] → m ≢ []
Edited-ne-nil l m (kept n) ne = ne
Edited-ne-nil l m (gained {id = id} w (t, filled)) ne = append-ne-nil (l ++ codes " ^") id filled

-- The last line stays empty only where it was.
pub Anchored-last : (ls ms : List Text) → Anchored ls ms → last ls ≢ some [] → last ms ≢ some []
Anchored-last [] [] a ne = ne
Anchored-last [] (m ∷ ms) a ne = absurd a
Anchored-last (l ∷ ls) [] a ne = absurd a
Anchored-last (l ∷ []) (m ∷ []) (e, a) ne =
    λ q. Edited-ne-nil l m e (λ r. ne (ap some r)) (ground arith)
Anchored-last (l ∷ []) (m ∷ n ∷ ms) (e, a) ne = absurd a
Anchored-last (l ∷ k ∷ ls) (m ∷ []) (e, a) ne = absurd a
Anchored-last (l ∷ k ∷ ls) (m ∷ n ∷ ms) (e, a) ne = Anchored-last (k ∷ ls) (n ∷ ms) a ne

heading-not-fence : (l h : Text) → strip_prefix (codes "## ") l ≡ some h → (l == fence) ≡ false
unfolding strip_prefix
heading-not-fence l h e = beq_of_ne l fence (λ q. cc (rw q at e))

gained-heading :
    (l id h : Text)
    → strip_prefix (codes "## ") l ≡ some h
    → strip_prefix (codes "## ") (l ++ codes " ^" ++ id) ≡ some (h ++ codes " ^" ++ id)
gained-heading l id h e =
    strip_prefix-append (codes "## ") (l ++ codes " ^") id (h ++ codes " ^")
      (strip_prefix-append (codes "## ") l (codes " ^") h e)

Edited-fence : (l m : Text) → Edited l m → (m == fence) ≡ (l == fence)
Edited-fence l m (kept n) = refl
Edited-fence l m (gained {id = id} (h, s, q) t) =
    heading-not-fence m (h ++ codes " ^" ++ id) (gained-heading l id h s)
    ∙ sym (heading-not-fence l h s)

-- A heading after the assignment has an anchor.
Edited-anchor :
    (l m h : Text)
    → Edited l m
    → strip_prefix (codes "## ") m ≡ some h
    → (a : Text) × ((split_anchor h).1 ≡ some a)
Edited-anchor l m h (kept n) e = elim (Option-cases ((split_anchor h).1)) [
  | inl q ↦ absurd (n (h, e, q))
  | inr found ↦ found
]
Edited-anchor l m h (gained {id = id} (h', s, q) t) e =
    let same : h ≡ h' ++ codes " ^" ++ id = cc (e, gained-heading l id h' s) in
    (id, ap (λ x. (split_anchor x).1) same ∙ ap (λ p. p.1) (split_anchor-append h' id t))

abbrev pub AllAnchored : List Heading → Type 0
AllAnchored = All (λ o. (a : Text) × (o.0 ≡ some a))

pub Anchored-headings :
    (line order : ℕ) (ls ms : List Text) → Anchored ls ms → AllAnchored (headings line order ms)
unfolding headings
Anchored-headings line order [] [] a = tt
Anchored-headings line order [] (m ∷ ms) a = absurd a
Anchored-headings line order (l ∷ ls) [] a = absurd a
Anchored-headings line order (l ∷ ls) (m ∷ ms) (e, a) =
    elim (Option-cases (strip_prefix (codes "## ") m)) [
      | inl q ↦ rw q (Anchored-headings (suc line) order ls ms a)
      | inr (h, q) ↦
          rw q (Edited-anchor l m h e q, Anchored-headings (suc line) (suc order) ls ms a)
    ]

Anchored-no_fence :
    (ls ms : List Text) → Anchored ls ms → split_fence ls ≡ none → split_fence ms ≡ none
unfolding split_fence
Anchored-no_fence [] [] a h = h
Anchored-no_fence [] (m ∷ ms) a h = absurd a
Anchored-no_fence (l ∷ ls) [] a h = absurd a
Anchored-no_fence (l ∷ ls) (m ∷ ms) (e, a) h = elim (Bool-cases (l == fence)) [
  | inl t ↦ cc (rw t at h)
  | inr f ↦ elim (Option-cases (split_fence ls)) [
    | inl q ↦ rw (Edited-fence l m e ∙ f, Anchored-no_fence ls ms a q) refl
    | inr (p, q) ↦ cc (rw (f, q) at h)
  ]
]

-- Lines without a frontmatter block have none after the assignment.
pub Anchored-no_block :
    (ls ms : List Text) → Anchored ls ms → split_block ls ≡ none → split_block ms ≡ none
unfolding split_block
Anchored-no_block [] [] a h = h
Anchored-no_block [] (m ∷ ms) a h = absurd a
Anchored-no_block (l ∷ ls) [] a h = absurd a
Anchored-no_block (l ∷ ls) (m ∷ ms) (e, a) h = elim (Option-cases (split_fence ls)) [
  | inl q ↦ rw (split_block, Anchored-no_fence ls ms a q) refl
  | inr (p, q) ↦ elim (Bool-cases (l == fence)) [
    | inl t ↦ cc (rw (split_block, q, t) at h)
    | inr f ↦ elim (Option-cases (split_fence ms)) [
      | inl r ↦ rw (split_block, r) refl
      | inr (p', r) ↦ rw (split_block, r, Edited-fence l m e ∙ f) refl
    ]
  ]
]
