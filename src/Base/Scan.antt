-- ===== src/Base/Scan.antt =====
-- The operations of Rust's `str` that the program uses, on texts as lists of code points.
pub mod Lines
pub mod Prefixes
use Prim.Native.Nat.{ℕ}
use mathlib.Core.Bool.{Bool, true, false, ◌&&◌}
use mathlib.Core.Option.{Option, none, some}
use mathlib.Core.List.{List, [], ◌∷◌, ◌++◌}
use braincrawl.Base.Tests.{leb, nat_beq, if◌then◌else◌}
use braincrawl.Base.Lists.{any, is_some}

abbrev pub Text : Type 0
Text = List ℕ

-- `char::is_whitespace`: the code points of Unicode's `White_Space`.
unfoldable pub is_whitespace : ℕ → Bool
is_whitespace c =
    any {A = ℕ × ℕ} (λ r. leb r.0 c && leb c r.1)
      ((9, 13)
        ∷ (32, 32)
        ∷ (133, 133)
        ∷ (160, 160)
        ∷ (5760, 5760)
        ∷ (8192, 8202)
        ∷ (8232, 8233)
        ∷ (8239, 8239)
        ∷ (8287, 8287)
        ∷ (12288, 12288)
        ∷ [])

unfoldable pub trim_start : Text → Text
trim_start [] = []
trim_start (c ∷ s) = let rest = trim_start s in if is_whitespace c then rest else c ∷ s

unfoldable pub trim_last : ℕ → Text → Text
trim_last c [] = if is_whitespace c then [] else c ∷ []
trim_last c (d ∷ s) = c ∷ d ∷ s

unfoldable pub trim_end : Text → Text
unfolding trim_last
trim_end [] = []
trim_end (c ∷ s) = trim_last c (trim_end s)

unfoldable pub trim : Text → Text
unfolding trim_start trim_end
trim s = trim_end (trim_start s)

-- `strip_prefix`: the rest after the prefix.
unfoldable pub strip_prefix : Text → Text → Option Text
strip_prefix [] s = some s
strip_prefix (p ∷ ps) [] = none
strip_prefix (p ∷ ps) (c ∷ s) = let rest = strip_prefix ps s in if nat_beq p c then rest else none

unfoldable pub starts_with : Text → Text → Bool
unfolding strip_prefix
starts_with s prefix = is_some (strip_prefix prefix s)

-- `strip_suffix` of one character.
unfoldable pub strip_last : ℕ → Text → Option Text
strip_last q [] = none
strip_last q (c ∷ []) = if nat_beq c q then some [] else none
strip_last q (c ∷ d ∷ s) = elim (strip_last q (d ∷ s)) [ none ↦ none | some r ↦ some (c ∷ r) ]

-- `split_once` at a character.
unfoldable pub split_once : ℕ → Text → Option (Text × Text)
split_once q [] = none
split_once q (c ∷ s) =
    let later = split_once q s in
    if nat_beq c q then some ([], s) else elim later [ none ↦ none | some p ↦ some (c ∷ p.0, p.1) ]

-- `rsplit_once(char::is_whitespace)`
unfoldable pub rsplit_once : Text → Option (Text × Text)
rsplit_once [] = none
rsplit_once (c ∷ s) = elim (rsplit_once s) [
  | some p ↦ some (c ∷ p.0, p.1)
  | none ↦ if is_whitespace c then some ([], s) else none
]

-- `find`: what stands before the first occurrence, and what stands after it.
unfoldable pub cut : Text → Text → Option (Text × Text)
unfolding strip_prefix
cut needle [] = elim (strip_prefix needle []) [ none ↦ none | some r ↦ some ([], r) ]
cut needle (c ∷ s) =
    let later = cut needle s in
    elim (strip_prefix needle (c ∷ s)) [
      | some r ↦ some ([], r)
      | none ↦ elim later [ none ↦ none | some p ↦ some (c ∷ p.0, p.1) ]
    ]

unfoldable pub contains_text : Text → Text → Bool
unfolding cut
contains_text s needle = is_some (cut needle s)

add_front : ℕ → List Text → List Text
add_front c [] = (c ∷ []) ∷ []
add_front c (l ∷ ls) = (c ∷ l) ∷ ls

at_newline : Text → Bool
at_newline [] = false
at_newline (c ∷ s) = nat_beq c 10

-- `lines()`: a line ends at `\n` or `\r\n`, and the last may have no end.
unfoldable pub lines : Text → List Text
unfolding add_front at_newline
lines [] = []
lines (c ∷ s) =
    let rest = lines s in
    if nat_beq c 10
    then [] ∷ rest
    else if nat_beq c 13 && at_newline s
    then rest
    else add_front c rest

-- `join("\n")`
unfoldable pub join_lines : List Text → Text
join_lines [] = []
join_lines (l ∷ []) = l
join_lines (l ∷ m ∷ ls) = l ++ 10 ∷ join_lines (m ∷ ls)

-- Each line with its line feed.
unfoldable pub terminated : List Text → Text
terminated [] = []
terminated (l ∷ ls) = l ++ 10 ∷ terminated ls

-- `split` at a character.
unfoldable pub split_on : ℕ → Text → List Text
unfolding add_front
split_on q [] = [] ∷ []
split_on q (c ∷ s) = let rest = split_on q s in if nat_beq c q then [] ∷ rest else add_front c rest

add_word : ℕ → Text → List Text → List Text
add_word c [] ws = (c ∷ []) ∷ ws
add_word c (d ∷ s) [] = (c ∷ []) ∷ []
add_word c (d ∷ s) (w ∷ ws) = if is_whitespace d then (c ∷ []) ∷ w ∷ ws else (c ∷ w) ∷ ws

unfoldable pub split_whitespace : Text → List Text
unfolding add_word
split_whitespace [] = []
split_whitespace (c ∷ s) =
    let rest = split_whitespace s in if is_whitespace c then rest else add_word c s rest

-- `trim_start_matches` of a character.
unfoldable pub trim_char : ℕ → Text → Text
trim_char q [] = []
trim_char q (c ∷ s) = let rest = trim_char q s in if nat_beq c q then rest else c ∷ s
