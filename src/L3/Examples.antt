-- ===== src/L3/Examples.antt =====
-- Pages on which the theorems run.
use braincrawl.Base.{
  ℕ, false, List, [], ◌∷◌, ◌++◌, map, none, some, ◌≡◌, ◌≢◌, ◌⊎◌, refl, ap, ◌+◌, ne_of_beq, inl, inr,
  arith, Elem, contains, list_eq, nat_eq,
}
use braincrawl.Base.Text.{codes}
use braincrawl.Base.Map.{Map, get, insert}
use braincrawl.Base.Scan.{
  Text, join_lines, rsplit_once, lines, trim_end, strip_prefix, is_whitespace,
}
use braincrawl.L3.Model.{catalog, serialize, deserialize, Node, build, node_by_id, is_scheme}
use braincrawl.L3.Model.Ends.{deserialize-serialize}
use braincrawl.L3.Model.Lookups.{node_by_id-build}
use braincrawl.L3.Bullets.{split_anchor}
use braincrawl.L3.Bullets.Anchors.{split_anchor-append}
use braincrawl.L3.Front.{split_frontmatter, fm_get}
use braincrawl.L3.Ids.{new_id, random_suffix}
use braincrawl.L3.Ids.Fresh.{new_id-returns}
use braincrawl.L3.Parse.{parse_body, parse_one}
use braincrawl.L3.Parse.Headings.{outline_of, headings, parse_body-headings}
use braincrawl.L3.Assign.{Assigned, assign_nodes, first_doc}
use braincrawl.L3.Assign.Reread.{Rereads, assign_ids_source-AllAnchored}
use braincrawl.L3.Temporary.{resolve_temp_ids_source, is_anchor_char}
use braincrawl.L3.Temporary.Tokens.{is_anchor_char_iff, resolve_temp_ids_source_lem}

deserialize-serialize_example :
    deserialize (serialize (catalog (codes "doi") (codes "10.1/x")))
    ≡ catalog (codes "doi") (codes "10.1/x")
unfolding is_scheme
deserialize-serialize_example =
    deserialize-serialize (catalog (codes "doi") (codes "10.1/x")) (refl, (λ q. cc, λ q. cc))

split_anchor-append_example :
    split_anchor (codes "A landmark " ++ codes " ^" ++ codes "r-22")
    ≡ (trim_end (codes "A landmark "), some (codes "r-22"))
unfolding is_whitespace
split_anchor-append_example =
    split_anchor-append (codes "A landmark ") (codes "r-22")
      ((refl, (refl, (refl, (refl, tt)))), λ q. cc)

abbrev old_page : Text
old_page = codes "---\nd: x\n---\nhi\n"

new_id-returns_example :
    (id : Text) × (left : List (List ℕ)) × (new_id (codes "r-2" ∷ []) ((0 ∷ []) ∷ (1 ∷ []) ∷ [])
      ≡ some (id, left))
    × (contains (codes "r-2" ∷ []) id ≡ false)
unfolding random_suffix
new_id-returns_example =
    new_id-returns (codes "r-2" ∷ []) ((0 ∷ []) ∷ (1 ∷ []) ∷ []) (differ, ((λ e. e), tt))
      (omega arith)
  where
    differ : ¬ Elem (codes "r-2") (codes "r-3" ∷ [])
    differ (inl q) = ne_of_beq (codes "r-2") (codes "r-3") refl q
    differ (inr e) = e

abbrev body : Text
body = codes "## A ^r-2\n- k: v\n## B\n"

parse_body-headings_example :
    map outline_of (parse_body [] (codes "p") 4 body []).nodes ≡ headings (4 + 1) 0 (lines body)
parse_body-headings_example = parse_body-headings [] (codes "p") 4 body []

abbrev mapping : Map Text Text
mapping = insert (codes "t-a") (codes "r-2") []

resolve_temp_ids_source_example :
    let result =
      resolve_temp_ids_source (codes "x" ++ codes "^" ++ codes "t-a" ++ codes "]") mapping in
    ((real : Text)
      → get (codes "t-a") mapping ≡ some real
      → result ≡ codes "x" ++ codes "^" ++ real ++ resolve_temp_ids_source (codes "]") mapping)
    × (get (codes "t-a") mapping ≡ none
        → result
          ≡ codes "x" ++ codes "^" ++ codes "t-a" ++ resolve_temp_ids_source (codes "]") mapping)
unfolding is_anchor_char
resolve_temp_ids_source_example =
    resolve_temp_ids_source_lem mapping (codes "x") (codes "t-a") (codes "]") (refl, tt)
      (
        (is_anchor_char_iff b't').0 refl,
        ((is_anchor_char_iff b'-').0 refl, ((is_anchor_char_iff b'a').0 refl, tt)),
      )
      (λ h. cc ((is_anchor_char_iff b']').1 h))

abbrev one : Node
one = record {
  id = some (codes "r-2");
  labels = [];
  properties = [];
  provenance = record { doc = codes "d"; path = codes "p"; order = 0; heading_line = 1 };
}

node_by_id-build_example :
    ((n : Node) × (node_by_id (build (one ∷ []) []) (codes "r-2") ≡ some (some n))
      × (n.id ≡ some (codes "r-2"))
      × Elem n (one ∷ []))
    ⊎ ((node_by_id (build (one ∷ []) []) (codes "r-2") ≡ some none)
        × ((n : Node) → Elem n (one ∷ []) → n.id ≢ some (codes "r-2")))
node_by_id-build_example = node_by_id-build (one ∷ []) [] (codes "r-2")

abbrev page : Text
page = codes "---\nd: x\n---\n## A\n"

abbrev first_draw : List ℕ
first_draw = 0 ∷ 1 ∷ []

abbrev second : List Text → Text
second [] = []
second (l ∷ []) = []
second (l ∷ m ∷ ls) = m

abbrev gain : Assigned
gain = record {
  doc = [];
  path = codes ".l3.md";
  heading_line = 4;
  id = codes "r-23";
  title = codes "A";
  temp = none;
}

assign_ids_source-AllAnchored_example :
    Rereads page [] (first_draw ∷ []) (gain ∷ []) (codes "r-23" ∷ []) []
unfolding lines parse_one assign_nodes split_frontmatter join_lines strip_prefix split_anchor
    rsplit_once trim_end is_whitespace new_id first_doc random_suffix get fm_get insert
assign_ids_source-AllAnchored_example =
    assign_ids_source-AllAnchored page [] (first_draw ∷ []) (gain ∷ []) (codes "r-23" ∷ []) []
      (
        refl,
        (
          refl,
          (
            refl,
            (
              refl,
              (
                refl,
                (
                  refl,
                  (
                    refl,
                    (
                      refl,
                      (
                        refl,
                        (refl, (refl, (refl, (refl, (refl, (refl, (refl, (refl, (refl, tt))))))))),
                      ),
                    ),
                  ),
                ),
              ),
            ),
          ),
        ),
      )
      (λ rest q. ne_of_beq (codes "d: x") (codes "---") refl (ap second q)) refl
