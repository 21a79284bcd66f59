-- ===== src/L3/Bullets.antt =====
-- The parts of a page's lines, crates/l3/src/parse.rs: headings, links, keys and flow maps.
pub mod Anchors
use braincrawl.Base.{
  ℕ, Bool, true, false, List, [], ◌∷◌, ◌++◌, Option, none, some, if◌then◌else◌, ◌==◌, ◌&&◌, ◌||◌,
  list_eq, nat_eq, leb, nat_beq,
}
use braincrawl.Base.Text.{codes}
use braincrawl.Base.Optional.{◌>>=◌}
use braincrawl.Base.Scan.{
  Text, trim, trim_start, trim_end, strip_prefix, strip_last, split_once, rsplit_once, cut,
  contains_text, is_whitespace,
}
use braincrawl.Base.Map.{Map, empty, insert}
use braincrawl.L3.Model.{Value, str, object}

-- The token after the caret, where one stands.
unfoldable pub caret : Text → Option Text
caret [] = none
caret (c ∷ []) = none
caret (c ∷ d ∷ s) = if nat_beq c b'^' then some (d ∷ s) else none

unfoldable split_at_last : Text → Option (Text × Text) → Text × Option Text
unfolding caret
split_at_last heading none = elim (caret heading) [
  | some anchor ↦ ([], some anchor)
  | none ↦ (heading, none)
]
split_at_last heading (some (rest, last)) = elim (caret last) [
  | some anchor ↦ (trim_end rest, some anchor)
  | none ↦ (heading, none)
]

unfoldable pub split_anchor : Text → Text × Option Text
unfolding split_at_last
split_anchor heading = split_at_last (trim_end heading) (rsplit_once (trim_end heading))

-- `[[ … ]]`, and what follows.
unfoldable pub take_bracket : Text → Option (Text × Text)
take_bracket s = do
  inner ← strip_prefix (codes "[[") (trim_start s)
  p ← cut (codes "]]") inner
  some (trim p.0, p.1)

unfoldable pub split_token : Text → Text × Text
split_token [] = ([], [])
split_token (c ∷ s) =
    let rest = split_token s in if is_whitespace c then ([], c ∷ s) else (c ∷ rest.0, rest.1)

token_of : Text → Option (Text × Text)
unfolding split_token
token_of [] = none
token_of (c ∷ s) = some (split_token (c ∷ s))

unfoldable pub take_token : Text → Option (Text × Text)
unfolding token_of
take_token s = token_of (trim_start s)

abbrev is_lowercase : ℕ → Bool
is_lowercase c = leb b'a' c && leb c b'z'

all_kind_chars : Text → Bool
all_kind_chars [] = true
all_kind_chars (c ∷ cs) =
    (is_lowercase c || ((leb b'0' c && leb c b'9') || nat_beq c b'-')) && all_kind_chars cs

unfoldable pub is_valid_kind : Text → Bool
unfolding all_kind_chars
is_valid_kind [] = false
is_valid_kind (c ∷ cs) = is_lowercase c && all_kind_chars cs

unfoldable pub try_explicit_link : Text → Option (Text × Text × Text × Text)
unfolding take_bracket take_token is_valid_kind
try_explicit_link text = do
  p ← take_bracket text
  q ← take_token (trim_start p.1)
  r ← (if is_valid_kind q.0 then take_bracket (trim_start q.1) else none)
  some (p.0, q.0, r.0, r.1)

unfoldable pub try_implicit_link : Text → Option (Text × Text × Text)
unfolding take_bracket take_token is_valid_kind
try_implicit_link text = do
  q ← take_token text
  r ← (if is_valid_kind q.0 then take_bracket (trim_start q.1) else none)
  some (q.0, r.0, r.1)

-- A bare key: not empty, and without a space or a bracket.
is_bare : Text → Bool
is_bare [] = false
is_bare (c ∷ s) =
    if contains_text (c ∷ s) (codes " ") || contains_text (c ∷ s) (codes "[") then false else true

unfoldable pub split_bullet_key : Text → Option (Text × Text)
unfolding is_bare
split_bullet_key text = do
  p ← split_once b':' text
  if is_bare (trim p.0) then some (trim p.0, trim p.1) else none

add_char : ℕ → List Text → List Text
add_char c [] = (c ∷ []) ∷ []
add_char c (p ∷ ps) = (c ∷ p) ∷ ps

-- The loop: the quote that is open, and the rest of the text; the parts are made from the last.
unfoldable pub split_quoted : ℕ → Option ℕ → Text → List Text
unfolding add_char
split_quoted sep quote [] = [] ∷ []
split_quoted sep (some q) (c ∷ s) =
    let closed = split_quoted sep none s in
    let still = split_quoted sep (some q) s in
    if nat_beq c q then add_char c closed else add_char c still
split_quoted sep none (c ∷ s) =
    let opened = split_quoted sep (some c) s in
    let outside = split_quoted sep none s in
    if nat_beq c b'\'' || nat_beq c b'"'
    then add_char c opened
    else if nat_beq c sep
    then [] ∷ outside
    else add_char c outside

unfoldable pub split_outside_quotes : Text → ℕ → List Text
unfolding split_quoted
split_outside_quotes s sep = split_quoted sep none s

unquoted : ℕ → Text → Option Text
unquoted q s = do inner ← strip_prefix (q ∷ []) s; strip_last q inner

-- Without the two quotes around it, where the first and the last character are the same quote.
unfoldable pub unquote : Text → Text
unfolding unquoted
unquote s = elim (unquoted b'"' s) [
  | some inner ↦ inner
  | none ↦ elim (unquoted b'\'' s) [ some inner ↦ inner | none ↦ s ]
]

flow_entries : List Text → Map Text Text → Option (Map Text Text)
unfolding unquote
flow_entries [] m = some m
flow_entries (part ∷ parts) m = elim (trim part) [
  | [] ↦ flow_entries parts m
  | c ∷ s ↦ elim (split_once b':' (c ∷ s)) [
    | none ↦ none
    | some p ↦ flow_entries parts (insert (trim p.0) (unquote (trim p.1)) m)
  ]
]

-- `none` is `Err`, whose message no caller reads.
unfoldable pub parse_flow_map : Text → Option (Map Text Text)
unfolding flow_entries split_outside_quotes
parse_flow_map inner = flow_entries (split_outside_quotes inner b',') empty

-- `strip_prefix('{')`, then `strip_suffix('}')`.
braced : Text → Option Text
braced s = do inner ← strip_prefix (codes "{") s; strip_last b'}' inner

unfoldable pub link_properties : Text → Map Text Text × Bool
unfolding parse_flow_map braced
link_properties rest = elim (braced (trim rest)) [
  | none ↦ (empty, false)
  | some inner ↦ elim (parse_flow_map inner) [ some m ↦ (m, false) | none ↦ (empty, true) ]
]

-- With the value, whether a flow map is malformed.
unfoldable pub parse_value : Text → Value × Bool
unfolding parse_flow_map braced
parse_value raw = elim (braced (trim raw)) [
  | none ↦ (str (trim raw), false)
  | some inner ↦ elim (parse_flow_map inner) [
    | some m ↦ (object m, false)
    | none ↦ (str (trim raw), true)
  ]
]
