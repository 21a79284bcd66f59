-- ===== src/L3/Bullets/Anchors.antt =====
-- The anchor of a heading after ` ^id` is written behind it.
use braincrawl.Base.{
  ℕ, false, [], ◌∷◌, ◌++◌, none, some, ◌≡◌, ◌≢◌, refl, ap, sym, ◌∙◌, All, append_assoc,
}
use braincrawl.Base.Text.{codes}
use braincrawl.Base.Scan.{Text, is_whitespace, trim_end, trim_last, rsplit_once}
use braincrawl.L3.Bullets.{caret, split_at_last, split_anchor}

-- A token: no white space in it, and not empty.
abbrev pub IsToken : Text → Type 0
IsToken s = All (λ c. is_whitespace c ≡ false) s × (s ≢ [])

trim_end-token : (s : Text) → IsToken s → trim_end s ≡ s
unfolding trim_end trim_last
trim_end-token [] (h, ne) = refl
trim_end-token (c ∷ []) ((w, h), ne) = rw w refl
trim_end-token (c ∷ d ∷ s) ((w, h), ne) = rw (trim_end-token (d ∷ s) (h, λ q. cc)) refl

trim_last-ne-nil : (c : ℕ) (s : Text) → s ≢ [] → trim_last c s ≡ c ∷ s
unfolding trim_last
trim_last-ne-nil c [] ne = absurd (ne refl)
trim_last-ne-nil c (d ∷ s) ne = refl

pub append-ne-nil : (h s : Text) → s ≢ [] → h ++ s ≢ []
append-ne-nil [] s ne q = ne q
append-ne-nil (c ∷ h) s ne q = cc

-- A text that ends with a token has no white space at its end.
trim_end-append : (h s : Text) → IsToken s → trim_end (h ++ s) ≡ h ++ s
unfolding trim_end
trim_end-append [] s t = trim_end-token s t
trim_end-append (c ∷ h) s t =
    rw (trim_end-append h s t) (trim_last-ne-nil c (h ++ s) (append-ne-nil h s t.1))

rsplit_once-token : (s : Text) → All (λ c. is_whitespace c ≡ false) s → rsplit_once s ≡ none
unfolding rsplit_once
rsplit_once-token [] h = refl
rsplit_once-token (c ∷ s) (w, h) = rw (rsplit_once-token s h) (rw w refl)

rsplit_once-append :
    (h s : Text) → All (λ c. is_whitespace c ≡ false) s → rsplit_once (h ++ b' ' ∷ s) ≡ some (h, s)
unfolding rsplit_once is_whitespace
rsplit_once-append [] s t = rw (rsplit_once-token s t) refl
rsplit_once-append (c ∷ h) s t = rw (rsplit_once-append h s t) refl

trim_heading :
    (heading id : Text)
    → All (λ c. is_whitespace c ≡ false) id
    → trim_end (heading ++ b' ' ∷ b'^' ∷ id) ≡ heading ++ b' ' ∷ b'^' ∷ id
unfolding is_whitespace
trim_heading heading id h =
    let e = append_assoc heading (b' ' ∷ []) (b'^' ∷ id) in
    ap trim_end (sym e)
    ∙ trim_end-append (heading ++ b' ' ∷ []) (b'^' ∷ id) ((refl, h), λ q. cc)
    ∙ e

-- The title loses the white space at its end, and the anchor is the id.
pub split_anchor-append :
    (heading id : Text)
    → IsToken id
    → split_anchor (heading ++ codes " ^" ++ id) ≡ (trim_end heading, some id)
unfolding split_anchor split_at_last caret is_whitespace
split_anchor-append heading [] (h, ne) = absurd (ne refl)
split_anchor-append heading (c ∷ id) (h, ne) = rw (append_assoc heading (codes " ^") (c ∷ id)) (
    rw (trim_heading heading (c ∷ id) h, rsplit_once-append heading (b'^' ∷ c ∷ id) (refl, h)) refl)
