-- ===== src/Locator/Examples.antt =====
-- An outline of two sections.
use braincrawl.Base.{[], ◌∷◌, none, some, ◌≡◌, refl, All, list_eq, nat_eq}
use braincrawl.Base.Text.{codes}
use braincrawl.Base.Sort.{sort_by, insert_sorted}
use braincrawl.Locator.{Section, Outline, Pages, unknown}
use braincrawl.Locator.Outlines.{
  Locates, validate, Fits, DistinctIds, Apart, by_start, validate-Apart, resolve_section-validate,
}

abbrev intro : Section
intro = record {
  id = codes "intro";
  title = codes "Introduction";
  level = 1;
  start_page_index = 1;
  end_page_index = 3;
}

abbrev proof : Section
proof = record {
  id = codes "proof";
  title = codes "Proof";
  level = 1;
  start_page_index = 4;
  end_page_index = 5;
}

abbrev outline : Outline
outline = record { source_role = codes "text"; sections = proof ∷ intro ∷ [] }

abbrev five : Pages
five = record { source_role = codes "text"; page_count = 5; folio_method = unknown; pages = [] }

is_valid : validate outline 5 ≡ []
unfolding validate sort_by insert_sorted
is_valid = refl

validate-Apart_example :
    All (Fits 5) outline.sections
    × (DistinctIds outline.sections × Apart (by_start outline.sections))
validate-Apart_example = validate-Apart outline 5 is_valid

resolve_section-validate_example : Locates (codes "intro") (some 2) none five outline intro
resolve_section-validate_example =
    resolve_section-validate (codes "intro") (some 2) none five outline intro is_valid refl
