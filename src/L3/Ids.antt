-- ===== src/L3/Ids.antt =====
-- Fresh anchors, crates/l3/src/ids.rs. The random numbers are a list of draws, each of which is
-- the seven indexes of one `random_suffix`; `new_id` is `none` when the list is used up.
pub mod Fresh
use braincrawl.Base.{
  ℕ, zero, suc, List, [], ◌∷◌, ◌++◌, Option, none, some, ◌≡◌, if◌then◌else◌, contains, list_eq,
  nat_eq,
}
use braincrawl.Base.Text.{codes}
use braincrawl.Base.Scan.{Text}

abbrev pub alphabet : Text
alphabet = codes "23456789abcdefghjkmnpqrstvwxyz"

unfoldable char_at : ℕ → Text → ℕ
char_at i [] = 0
char_at zero (c ∷ cs) = c
char_at (suc i) (c ∷ cs) = char_at i cs

unfoldable pub random_suffix : List ℕ → Text
unfolding char_at
random_suffix [] = []
random_suffix (i ∷ draw) = char_at i alphabet ∷ random_suffix draw

unfoldable pub new_id : List Text → List (List ℕ) → Option (Text × List (List ℕ))
new_id existing [] = none
new_id existing (draw ∷ draws) =
    let again = new_id existing draws in
    let id = codes "r-" ++ random_suffix draw in
    if contains existing id then again else some (id, draws)
