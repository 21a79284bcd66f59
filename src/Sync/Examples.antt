-- ===== src/Sync/Examples.antt =====
-- Texts and files on which the theorems run, with the identity in place of SHA-256.
use braincrawl.Base.{ℕ, true, List, [], ◌∷◌, ◌++◌, some, ◌≡◌, refl, inr, list_eq, nat_eq, codes_lt}
use braincrawl.Base.Distinct.{Distinct, distinct_lem}
use braincrawl.Base.Map.{Map, keys_of, get, entries, remove}
use braincrawl.Base.Ordered.{put, collect_into}
use braincrawl.Base.Text.{codes}
use braincrawl.Base.Scan.{
  Text, lines, trim_end, is_whitespace, strip_prefix, rsplit_once, starts_with,
}
use braincrawl.Sync.{NodeUnit, Texts, split_doc, render_doc, content_hash}
use braincrawl.Sync.Rendered.{render_doc-split_doc}
use braincrawl.Sync.Diff.{diff_collections}
use braincrawl.Sync.Diff.Classified.{Classifies, diff_collections-Classifies}
use braincrawl.Sync.Files.{plan_file_sync}
use braincrawl.Sync.Files.Again.{FilesSynced, Receives, plan_file_sync-FilesSynced}
use braincrawl.Sync.Union.{union_body}
use braincrawl.Sync.Union.Lines.{Unites, union_body-Unites}
use braincrawl.Sync.Merge.{Merging}
use braincrawl.Sync.Merge.Sound.{anchors_of}
use braincrawl.Sync.Session.{PutAnswer, failed, Progress, no_report, put_docs, drop_doc_anchors}
use braincrawl.Sync.Session.Advances.{Advances, put_docs-Advances}
use braincrawl.Sync.Plan.{merge_all, plan_merge}
use braincrawl.Sync.Plan.Recorded.{PlanHolds, source_nodes, plan_merge-PlanHolds}

abbrev same : Text → List ℕ
same t = t

abbrev page : Text
page = codes "# T" ++ 10 ∷ codes "## N ^r-1" ++ 10 ∷ codes "- a" ++ 10 ∷ []

render_doc-split_doc_example : render_doc (split_doc page) ≡ page
render_doc-split_doc_example =
    render_doc-split_doc page
      (
        refl,
        (
          refl,
          (
            refl,
            (
              refl,
              (
                refl,
                (
                  refl,
                  (
                    refl,
                    (
                      refl,
                      (
                        refl,
                        (refl, (refl, (refl, (refl, (refl, (refl, (refl, (refl, (refl, tt))))))))),
                      ),
                    ),
                  ),
                ),
              ),
            ),
          ),
        ),
      )
      (inr refl)

abbrev ours : NodeUnit
ours = record {
  anchor = some (codes "r-1");
  heading = codes "## N ^r-1";
  body = codes "- a" ∷ [] ∷ [];
}

abbrev theirs : NodeUnit
theirs = record {
  anchor = some (codes "r-1");
  heading = codes "## N ^r-1";
  body = codes "- a " ∷ codes "- b" ∷ [];
}

union_body-Unites_example : Unites ours theirs (union_body ours theirs)
union_body-Unites_example = union_body-Unites ours theirs

-- The missing line goes before the blank one.
united_lines :
    union_body ours theirs ≡ (record ours { body = codes "- a" ∷ codes "- b" ∷ [] ∷ [] }, true)
unfolding union_body trim_end is_whitespace
united_lines = refl

abbrev source_files : Texts
source_files = (codes "a", codes "1") ∷ (codes "b", codes "2") ∷ (codes "c", codes "3") ∷ []

abbrev dest_files : Texts
dest_files = (codes "b", codes "0") ∷ (codes "c", codes "9") ∷ []

abbrev landed_files : Texts
landed_files = (codes "a", codes "1") ∷ (codes "b", codes "2") ∷ (codes "c", codes "9") ∷ []

-- The base holds what the destination has of `b`.
base_hashes : Map Text Text
unfolding content_hash put
base_hashes = (codes "agent:b", content_hash same (codes "0")) ∷ []

files_landed : Receives same base_hashes (codes "agent:") source_files dest_files landed_files
unfolding plan_file_sync base_hashes content_hash collect_into get codes_lt
files_landed n = refl

plan_file_sync-FilesSynced_example :
    FilesSynced same base_hashes (codes "agent:") source_files dest_files landed_files
plan_file_sync-FilesSynced_example =
    plan_file_sync-FilesSynced same base_hashes (codes "agent:") source_files dest_files
      landed_files (distinct_lem (keys_of source_files) refl) files_landed

abbrev source_pages : Texts
source_pages = (codes "a", codes "## N ^r-1" ++ 10 ∷ codes "- a" ++ 10 ∷ codes "## M ^r-2") ∷ []

abbrev dest_pages : Texts
dest_pages = (codes "a", codes "## N ^r-1" ++ 10 ∷ codes "- b") ∷ []

distinct_anchors : Distinct (anchors_of (source_nodes same source_pages dest_pages []))
unfolding entries collect_into split_doc trim_end is_whitespace rsplit_once lines
distinct_anchors = distinct_lem (anchors_of (source_nodes same source_pages dest_pages [])) refl

plan_merge-PlanHolds_example :
    (st : Merging) × (merge_all same source_pages dest_pages [] ≡ some st)
    × (plan_merge same source_pages dest_pages [] ≡ some st.plan)
    × PlanHolds same source_pages dest_pages [] st
plan_merge-PlanHolds_example = plan_merge-PlanHolds same source_pages dest_pages [] distinct_anchors

abbrev answers : Text → Text → PutAnswer
answers slug content = failed (codes "offline")

abbrev progress : Progress
progress = record { report = no_report; hashes = (codes "r-1", codes "x") ∷ [] }

put_docs-Advances_example :
    Advances same answers source_pages progress (put_docs same answers source_pages progress)
put_docs-Advances_example = put_docs-Advances same answers source_pages progress

-- The hash of an anchor goes with the failed page; that of the frontmatter stays.
dropped_anchor : drop_doc_anchors progress.hashes (codes "## N ^r-1") ≡ []
unfolding drop_doc_anchors split_doc trim_end is_whitespace rsplit_once lines remove starts_with
    strip_prefix
dropped_anchor = refl

stale_front :
    let hashes : Map Text Text = (codes "doc:a", codes "new") ∷ [] in
    drop_doc_anchors hashes (codes "## N ^r-1") ≡ hashes
unfolding drop_doc_anchors split_doc trim_end is_whitespace rsplit_once lines remove starts_with
    strip_prefix
stale_front = refl

diff_collections-Classifies_example :
    Classifies same source_pages dest_pages (diff_collections same source_pages dest_pages)
diff_collections-Classifies_example = diff_collections-Classifies same source_pages dest_pages
