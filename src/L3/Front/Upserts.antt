-- ===== src/L3/Front/Upserts.antt =====
-- A key that is set in the frontmatter is read back.
use braincrawl.Base.{
  ℕ, Bool, true, false, List, [], ◌∷◌, ◌++◌, Option, none, some, ◌≡◌, refl, sym, ◌∙◌, ◌||◌, All,
  Bool-cases, Option-cases, inl, inr, nat_beq, append_assoc, list_eq, nat_eq, ◌==◌,
}
use braincrawl.Base.Text.{codes}
use braincrawl.Base.Scan.{Text, strip_prefix, starts_with, trim}
use braincrawl.Base.Scan.Prefixes.{strip_prefix_lem}
use braincrawl.L3.Front.{fence, fm_get, value_of, upsert_key}

-- The line of a key.
abbrev has_key : Text → Text → Bool
has_key key line = starts_with line (key ++ codes ": ") || (line == (key ++ codes ":"))

set-strip :
    (key value : Text)
    → strip_prefix (key ++ codes ":") (key ++ codes ": " ++ value) ≡ some (b' ' ∷ value)
set-strip key value =
    let p = key ++ codes ":" in
    (strip_prefix_lem p (key ++ codes ": " ++ value) (b' ' ∷ value)).1
      (append_assoc key (codes ": ") value ∙ sym (append_assoc key (codes ":") (b' ' ∷ value)))

set-has_key : (key value : Text) → has_key key (key ++ codes ": " ++ value) ≡ true
unfolding starts_with
set-has_key key value =
    rw ((strip_prefix_lem (key ++ codes ": ") (key ++ codes ": " ++ value) value).1 refl) refl

fm_get-here :
    (fm : List Text) (key value : Text)
    → fm_get ((key ++ codes ": " ++ value) ∷ fm) key ≡ some (value_of (trim (b' ' ∷ value)))
unfolding fm_get
fm_get-here fm key value = rw (fm_get, set-strip key value) (rw (set-has_key key value) refl)

-- `fm_get` of a key that `upsert_key` has set is the value as `fm_get` reads values: trimmed, and
-- empty for `>` and `|`.
pub fm_get-upsert_key :
    (fm : List Text) (key value : Text)
    → fm_get (upsert_key fm key value) key ≡ some (value_of (trim (b' ' ∷ value)))
unfolding fm_get upsert_key
fm_get-upsert_key [] key value = fm_get-here [] key value
fm_get-upsert_key (line ∷ fm) key value = elim (Bool-cases (has_key key line)) [
  | inl t ↦ rw t (fm_get-here fm key value)
  | inr f ↦ elim (Option-cases (strip_prefix (key ++ codes ":") line)) [
    | inl e ↦ rw f (rw (fm_get, e) (fm_get-upsert_key fm key value))
    | inr (rest, e) ↦ rw f (rw (fm_get, e) (rw f (fm_get-upsert_key fm key value)))
  ]
]

abbrev NoFence : List Text → Type 0
NoFence = All (λ l. (l == fence) ≡ false)

abbrev block_part : Option (List Text × Text) → List Text
block_part none = []
block_part (some p) = p.0

abbrev IsOther : ℕ → Type 0
IsOther c = nat_beq c b':' ≡ false
