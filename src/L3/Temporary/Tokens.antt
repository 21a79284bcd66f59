-- ===== src/L3/Temporary/Tokens.antt =====
-- What the substitution of temporary anchors replaces, and what it leaves.
use braincrawl.Base.{
  ℕ, ◌≤◌, Bool-cases, inl, inr, ◌⊎◌, ◌↔◌, arith, true, false, [], ◌∷◌, ◌++◌, none, some, ◌≡◌, refl,
  ap, sym, ◌∙◌, All, nat_beq, append_assoc, append-nil, list_eq, nat_eq,
}
use braincrawl.Base.Text.{codes}
use braincrawl.Base.Scan.{Text}
use braincrawl.Base.Map.{Map, get}
use braincrawl.L3.Temporary.{is_anchor_char, real_of, substitute, resolve_temp_ids_source}

abbrev pub NoCaret : Text → Type 0
NoCaret = All (λ c. nat_beq c b'^' ≡ false)

-- A letter, a digit or `-`.
abbrev pub IsAnchorChar : ℕ → Type 0
IsAnchorChar c =
    ((b'a' ≤ c) × (c ≤ b'z')) ⊎ ((b'A' ≤ c) × (c ≤ b'Z')) ⊎ ((b'0' ≤ c) × (c ≤ b'9')) ⊎ (c ≡ b'-')

pub is_anchor_char_iff : (c : ℕ) → (is_anchor_char c ≡ true) ↔ IsAnchorChar c
unfolding is_anchor_char
is_anchor_char_iff c = (λ h. ground arith, λ h. ground arith)

abbrev pub IsSlug : Text → Type 0
IsSlug = All IsAnchorChar

-- The text after a token, which goes on no token.
abbrev pub StartsOutside : Text → Type 0
StartsOutside [] = Unit
StartsOutside (c ∷ s) = ¬ IsAnchorChar c

-- A text without a caret stays, and the substitution goes on after it.
substitute-plain :
    (mapping : Map Text Text) (s t : Text)
    → NoCaret s
    → substitute mapping none (s ++ t) ≡ s ++ substitute mapping none t
unfolding substitute
substitute-plain mapping [] t h = refl
substitute-plain mapping (c ∷ s) t (n, h) = rw (n, substitute-plain mapping s t h) refl

substitute-token :
    (mapping : Map Text Text) (seen token rest : Text)
    → IsSlug token
    → StartsOutside rest
    → substitute mapping (some seen) (token ++ rest)
      ≡ real_of mapping (seen ++ token) ++ substitute mapping none rest
unfolding substitute
substitute-token mapping seen [] [] h out = rw (append-nil seen) (sym (append-nil _))
substitute-token mapping seen [] (c ∷ rest) h out =
    let stops : is_anchor_char c ≡ false = elim (Bool-cases (is_anchor_char c)) [
      | inl t ↦ absurd (out ((is_anchor_char_iff c).0 t))
      | inr f ↦ f
    ] in
    rw (append-nil seen, stops) refl
substitute-token mapping seen (c ∷ token) rest (k, h) out = rw ((is_anchor_char_iff c).1 k) (
    substitute-token mapping (seen ++ c ∷ []) token rest h out
    ∙ ap (λ x. real_of mapping x ++ substitute mapping none rest)
        (append_assoc seen (c ∷ []) token))

substituted :
    (mapping : Map Text Text) (before token rest : Text)
    → NoCaret before
    → IsSlug token
    → StartsOutside rest
    → resolve_temp_ids_source (before ++ codes "^" ++ token ++ rest) mapping
      ≡ before ++ codes "^" ++ real_of mapping token ++ resolve_temp_ids_source rest mapping
unfolding resolve_temp_ids_source substitute
substituted mapping before token rest b t out =
    let tail = resolve_temp_ids_source rest mapping in
    let real = real_of mapping token in
    ap (substitute mapping none) (
      append_assoc (before ++ codes "^") token rest
      ∙ append_assoc before (codes "^") (token ++ rest))
    ∙ substitute-plain mapping before (b'^' ∷ token ++ rest) b
    ∙ ap (λ x. before ++ b'^' ∷ x) (substitute-token mapping [] token rest t out)
    ∙ sym (
        append_assoc (before ++ codes "^") real tail
        ∙ append_assoc before (codes "^") (real ++ tail))

-- A token after a caret is replaced as a whole by what the mapping holds of it, or else stays; the
-- text before it, without a caret, stays; and the substitution goes on after it.
pub resolve_temp_ids_source_lem :
    (mapping : Map Text Text) (before token rest : Text)
    → NoCaret before
    → IsSlug token
    → StartsOutside rest
    → let result = resolve_temp_ids_source (before ++ codes "^" ++ token ++ rest) mapping in
      ((real : Text)
        → get token mapping ≡ some real
        → result ≡ before ++ codes "^" ++ real ++ resolve_temp_ids_source rest mapping)
      × (get token mapping ≡ none
          → result ≡ before ++ codes "^" ++ token ++ resolve_temp_ids_source rest mapping)
unfolding real_of
resolve_temp_ids_source_lem mapping before token rest b t out =
    let tail = resolve_temp_ids_source rest mapping in
    let whole = substituted mapping before token rest b t out in
    (
      λ real e. whole ∙ ap (λ x. before ++ codes "^" ++ x ++ tail) (rw (real_of, e) refl),
      λ e. whole ∙ ap (λ x. before ++ codes "^" ++ x ++ tail) (rw (real_of, e) refl),
    )
