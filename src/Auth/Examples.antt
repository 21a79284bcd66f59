-- ===== src/Auth/Examples.antt =====
-- Requests and addresses on which the theorems run. The digest is the token itself, and the
-- case is folded in ASCII.
use braincrawl.Base.{
  ℕ, ◌+◌, true, List, [], ◌∷◌, map, ◌≡◌, ◌≢◌, ◌↔◌, Elem, arith, leb, ◌&&◌, if◌then◌else◌,
}
use braincrawl.Base.Text.{codes}
use braincrawl.Base.Scan.{Text, split_on}
use braincrawl.Auth.{ct_eq, email_allowed, normalize_email}
use braincrawl.Auth.Bits.{ct_eq_iff}
use braincrawl.Auth.Outcomes.{Outcomes, authorize_lem, email_allowed_iff}

abbrev left : List ℕ
left = 1 ∷ 255 ∷ []

abbrev right : List ℕ
right = 1 ∷ 254 ∷ []

ct_eq_iff_example : (ct_eq left right ≡ true) ↔ (left ≡ right)
ct_eq_iff_example =
    ct_eq_iff left right (omega arith, (omega arith, tt)) (omega arith, (omega arith, tt))

abbrev digest : List ℕ → List ℕ
digest token = token

authorize_example : Outcomes digest (codes "secret") (codes "default")
authorize_example = authorize_lem digest (codes "secret") (codes "default")

abbrev fold_char : ℕ → ℕ
fold_char c = if leb b'A' c && leb c b'Z' then c + 32 else c

email_allowed_example :
    (email_allowed (map fold_char) (codes " A@x , b@x") (codes "B@x ") ≡ true) ↔ (
      (normalize_email (map fold_char) (codes "B@x ") ≢ [])
      × ((entry : Text) × (Elem entry (split_on b',' (codes " A@x , b@x"))
            × (normalize_email (map fold_char) entry
                ≡ normalize_email (map fold_char) (codes "B@x ")))))
email_allowed_example = email_allowed_iff (map fold_char) (codes " A@x , b@x") (codes "B@x ")
