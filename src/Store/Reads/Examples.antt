-- ===== src/Store/Reads/Examples.antt =====
-- Two sources that disagree on a title.
use braincrawl.Base.{List, [], ◌∷◌}
use braincrawl.Types.{obj, str, field, end}
use braincrawl.Store.Reads.{Assertion, merged_views}
use braincrawl.Store.Reads.Newest.{look, Winner, merged_views-Winner}

abbrev two_sources : List Assertion
two_sources =
    ("crossref", obj (field "title" (str "Old") end), "2024")
    ∷ ("openalex", obj (field "title" (str "New") end), "2025")
    ∷ []

merged_views-Winner_example : Winner "title" two_sources (look "title" (merged_views two_sources))
merged_views-Winner_example = merged_views-Winner "title" two_sources
