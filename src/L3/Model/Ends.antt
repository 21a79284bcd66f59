-- ===== src/L3/Model/Ends.antt =====
-- The written form of a link's end, and the reading of it.
use braincrawl.Base.{
  true, false, [], ◌∷◌, ◌++◌, none, some, ◌≡◌, ◌≢◌, refl, ap, sym, ◌∙◌, Option-cases, inl, inr,
  arith, nat_beq, append_assoc,
}
use braincrawl.Base.Text.{codes}
use braincrawl.Base.Scan.{Text, strip_prefix, split_once}
use braincrawl.Base.Scan.Prefixes.{strip_prefix_lem}
use braincrawl.L3.Model.{
  Endpoint, node, catalog, is_scheme, split_alias, parse_alias, resolve, serialize, deserialize,
}

scheme-no-colon :
    (s rest : Text) → is_scheme s ≡ true → split_once b':' (s ++ b':' ∷ rest) ≡ some (s, rest)
unfolding is_scheme split_once
scheme-no-colon [] rest h = refl
scheme-no-colon (c ∷ s) rest h =
    let colon : nat_beq c b':' ≡ false = ground arith in
    let tail : is_scheme s ≡ true = ground arith in rw colon (rw (scheme-no-colon s rest tail) refl)

-- The ends that are written without loss: every node, and a catalog entry with a value whose scheme
-- is of the reserved shape and not `node`.
abbrev pub IsPlain : Endpoint → Type 0
IsPlain (node id) = Unit
IsPlain (catalog scheme value) =
    (is_scheme scheme ≡ true) × ((scheme ≢ codes "node") × (value ≢ []))

parse_alias_lem :
    (scheme value : Text)
    → is_scheme scheme ≡ true
    → value ≢ []
    → parse_alias (scheme ++ b':' ∷ value) ≡ some (scheme, value)
unfolding parse_alias split_alias
parse_alias_lem scheme [] h ne = absurd (ne refl)
parse_alias_lem scheme (c ∷ value) h ne = rw (scheme-no-colon scheme (c ∷ value) h) (rw h refl)

not-node :
    (scheme value : Text)
    → is_scheme scheme ≡ true
    → scheme ≢ codes "node"
    → strip_prefix (codes "node:") (scheme ++ b':' ∷ value) ≡ none
unfolding is_scheme
not-node scheme value h ne =
    elim (Option-cases (strip_prefix (codes "node:") (scheme ++ b':' ∷ value))) [
      | inl e ↦ e
      | inr (rest, e) ↦
          let same : scheme ++ b':' ∷ value ≡ codes "node" ++ b':' ∷ rest =
            (strip_prefix_lem (codes "node:") (scheme ++ b':' ∷ value) rest).0 e in
          let split : some (scheme, value) ≡ some (codes "node", rest) =
            sym (scheme-no-colon scheme value h)
            ∙ ap (split_once b':') same
            ∙ scheme-no-colon (codes "node") rest refl in
          absurd (ne (cc split))
    ]

-- An end that is written and read again is the same, where it is plain.
pub deserialize-serialize : (e : Endpoint) → IsPlain e → deserialize (serialize e) ≡ e
unfolding deserialize serialize strip_prefix
deserialize-serialize (node id) h = refl
deserialize-serialize (catalog scheme value) (h, (ne, filled)) =
    rw (append_assoc scheme (codes ":") value) (
      rw (deserialize, not-node scheme value h ne)
        (rw (parse_alias_lem scheme value h filled) refl))

caret-scheme :
    (scheme rest : Text)
    → is_scheme scheme ≡ true
    → strip_prefix (codes "^") (scheme ++ b':' ∷ rest) ≡ none
unfolding strip_prefix is_scheme
caret-scheme [] rest h = refl
caret-scheme (c ∷ scheme) rest h = ground arith

-- A target in a page is a node after a caret; a catalog entry where it is a scheme of the reserved
-- shape, a colon and a value; and a page's name where it is neither.
pub resolve_lem :
    (anchor scheme value slug : Text)
    → is_scheme scheme ≡ true
    → value ≢ []
    → strip_prefix (codes "^") slug ≡ none
    → parse_alias slug ≡ none
    → (resolve (codes "^" ++ anchor) ≡ node anchor)
      × (resolve (scheme ++ codes ":" ++ value) ≡ catalog scheme value)
      × (resolve slug ≡ node (codes "doc:" ++ slug))
unfolding resolve strip_prefix
resolve_lem anchor scheme value slug h ne c p = (
  refl,
  rw (append_assoc scheme (codes ":") value)
      (rw (resolve, caret-scheme scheme value h) (rw (parse_alias_lem scheme value h ne) refl)),
  rw (resolve, c) (rw p refl),
)
