-- ===== src/Locator.antt =====
-- The locator of pages, apps/cli/src/locator.rs, over the pages and the outline of pages.rs and
-- outline.rs. Texts are code points, and `usize` has 64 bits.
pub mod Outlines
mod Examples
use braincrawl.Base.{
  ℕ, zero, suc, ◌+◌, ◌-◌, ◌^◌, min, max, Bool, true, false, List, [], ◌∷◌, map, Option, none, some,
  if◌then◌else◌, ◌==◌, ◌||◌, list_eq, nat_eq, nat_beq, leb, ltb, length, take, drop, filter, find,
  not,
}
use braincrawl.Base.Text.{codes}
use braincrawl.Base.Decimal.{to_decimal, parse_unsigned}
use braincrawl.Base.Scan.{Text, contains_text}

-- `unknown` stands for the variant `None`.
pub data FolioMethod : Type 0 where
  detected anchored unknown : FolioMethod

pub record PageRecord : Type 0 where
  pub page_index : ℕ
  pub folio : Option Text
  pub text : Text

pub record Pages : Type 0 where
  pub source_role : Text
  pub page_count : ℕ
  pub folio_method : FolioMethod
  pub pages : List PageRecord

pub record Section : Type 0 where
  pub id : Text
  pub title : Text
  pub level : ℕ
  pub start_page_index : ℕ
  pub end_page_index : ℕ

pub record Outline : Type 0 where
  pub source_role : Text
  pub sections : List Section

pub record PageRange : Type 0 where
  pub start : Text
  pub end : Text

pub data Locator : Type 0 where
  printed : PageRange → Locator
  artifact_page : PageRange → Locator
  section : Text → Option ℕ → Option ℕ → Locator
  quote : Text → Locator

pub data LocatorError : Type 0 where
  folio_not_found : Text → ℕ → LocatorError
  artifact_page_out_of_range : ℕ → ℕ → LocatorError
  no_outline : LocatorError
  section_not_found : Text → List Text → LocatorError
  quote_not_found : Text → LocatorError
  partial_range : List ℕ → List Text → LocatorError

-- `Result<PageSpan, LocatorError>`
pub data Located : Type 0 where
  pages_at : List ℕ → Located
  failed : LocatorError → Located

-- So many numbers from one on.
unfoldable pub count_up : ℕ → ℕ → List ℕ
count_up zero lo = []
count_up (suc n) lo = lo ∷ count_up n (suc lo)

-- `lo..=hi`
unfoldable pub inclusive : ℕ → ℕ → List ℕ
unfolding count_up
inclusive lo hi = count_up (suc hi - lo) lo

-- From the smaller to the larger.
unfoldable pub between : ℕ → ℕ → List ℕ
unfolding inclusive
between start end = if leb start end then inclusive start end else inclusive end start

has_folio : Text → Option Text → Bool
has_folio folio none = false
has_folio folio (some f) = f == folio

unfoldable pub folio_page : List PageRecord → Text → Option ℕ
unfolding has_folio
folio_page pages folio = elim (find (λ p. has_folio folio p.folio) pages) [
  | none ↦ none
  | some p ↦ some p.page_index
]

lacks_folio : Option Text → Bool
lacks_folio none = true
lacks_folio (some f) = false

unfoldable pub printed_span : PageRange → ℕ → Option ℕ → Option ℕ → Located
unfolding between
printed_span range lacking none end = failed (folio_not_found range.start lacking)
printed_span range lacking (some start) none = failed (folio_not_found range.end lacking)
printed_span range lacking (some start) (some end) = pages_at (between start end)

unfoldable pub resolve_printed : PageRange → Pages → Located
unfolding folio_page printed_span lacks_folio
resolve_printed range pages =
    let lacking = length (filter (λ p. lacks_folio p.folio) pages.pages) in
    printed_span range lacking (folio_page pages.pages range.start)
      (folio_page pages.pages range.end)

out_of : ℕ → ℕ → Bool
out_of page_count p = nat_beq p 0 || ltb page_count p

unfoldable pub artifact_span : ℕ → Option ℕ → Option ℕ → Located
unfolding between out_of
artifact_span page_count none end = failed (artifact_page_out_of_range 0 page_count)
artifact_span page_count (some start) none = failed (artifact_page_out_of_range 0 page_count)
artifact_span page_count (some start) (some end) =
    if out_of page_count start
    then failed (artifact_page_out_of_range start page_count)
    else if out_of page_count end
    then failed (artifact_page_out_of_range end page_count)
    else pages_at (between start end)

unfoldable pub resolve_artifact_page : PageRange → Pages → Located
unfolding artifact_span parse_unsigned
resolve_artifact_page range pages =
    artifact_span pages.page_count (parse_unsigned (2 ^ 64) range.start)
      (parse_unsigned (2 ^ 64) range.end)

unfoldable pub trim_span : Option ℕ → Option ℕ → List ℕ → List ℕ
trim_span (some n) tail full = take n full
trim_span none (some n) full = drop (length full - n) full
trim_span none none full = full

unfoldable within : List ℕ → List ℕ → Located
within found [] = pages_at found
within found (p ∷ missing) =
    failed (partial_range found (map (λ q. codes (to_decimal q)) (p ∷ missing)))

unfoldable pub section_span : Option ℕ → Option ℕ → ℕ → Section → Located
unfolding trim_span inclusive within
section_span head tail page_count s =
    let trimmed = trim_span head tail (inclusive s.start_page_index s.end_page_index) in
    within (filter (λ p. leb p page_count) trimmed) (filter (λ p. ltb page_count p) trimmed)

unfoldable pub resolve_section : Text → Option ℕ → Option ℕ → Pages → Option Outline → Located
unfolding section_span
resolve_section id head tail pages none = failed no_outline
resolve_section id head tail pages (some outline) =
    elim (find (λ (s : Section). s.id == id) outline.sections) [
      | none ↦ failed (section_not_found id (map (λ (s : Section). s.id) outline.sections))
      | some s ↦ section_span head tail pages.page_count s
    ]

quoted : Text → List ℕ → Located
quoted needle [] = failed (quote_not_found needle)
quoted needle (p ∷ found) = pages_at (p ∷ found)

unfoldable pub resolve_quote : Text → Pages → Located
unfolding contains_text quoted
resolve_quote needle pages = quoted needle (
    map (λ (p : PageRecord). p.page_index)
      (filter (λ (p : PageRecord). contains_text p.text needle) pages.pages))

unfoldable pub locate : Locator → Pages → Option Outline → Located
unfolding resolve_printed resolve_artifact_page resolve_section resolve_quote
locate (printed range) pages outline = resolve_printed range pages
locate (artifact_page range) pages outline = resolve_artifact_page range pages
locate (section id head tail) pages outline = resolve_section id head tail pages outline
locate (quote needle) pages outline = resolve_quote needle pages
