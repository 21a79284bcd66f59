-- ===== src/Sync/Plan.antt =====
-- The plan of a merge, `plan_merge` of crates/l3-sync/src/lib.rs: behind the loop over the nodes, the
-- frontmatter and prologue of each page, the reports and the texts to write.
pub mod Metas
pub mod Start
pub mod Counted
pub mod Recorded
use braincrawl.Base.{
  ℕ, ◌+◌, Bool, true, false, List, [], ◌∷◌, ◌++◌, Option, none, some, if◌then◌else◌, ◌==◌, list_eq,
  nat_eq, is_some, codes_lt, any, contains,
}
use braincrawl.Base.Map.{Map, get, entries}
use braincrawl.Base.Ordered.{put}
use braincrawl.Base.Optional.{◌>>=◌}
use braincrawl.Base.Sort.{sort_by}
use braincrawl.Base.Scan.{Text}
use braincrawl.Sync.{NodeUnit, DocUnits, NodeRef, Texts, meta_hash, heading_title, render_doc}
use braincrawl.Sync.Files.{recorded_as}
use braincrawl.Sync.Merge.{
  MergePlan, Merging, doc_state_key, find_node, units_of, merge_docs, merge_start,
}

module _ (sha256 : Text → List ℕ) (base : Map Text Text) where
  abbrev note_hash : Text → Text → Merging → Merging
  note_hash key hash st = record st {
    plan = record st.plan { state_after = put key hash st.plan.state_after };
  }

  -- A page that both sides have.
  unfoldable pub merge_front : Text → DocUnits → Merging → DocUnits → Merging
  unfolding doc_state_key
  merge_front slug s_units st d_units =
      let key = doc_state_key slug in
      let s_meta = meta_hash sha256 s_units in
      let d_meta = meta_hash sha256 d_units in
      let recorded = get key base in
      if s_meta == d_meta
      then note_hash key s_meta st
      else if recorded_as recorded d_meta
      then record st {
        plan = record st.plan {
          meta_updated = st.plan.meta_updated + 1;
          state_after = put key s_meta st.plan.state_after;
        };
        dest_units =
            put slug
              (record d_units { frontmatter = s_units.frontmatter; prologue = s_units.prologue })
              st.dest_units;
        changed = put slug true st.changed;
      }
      else if recorded_as recorded s_meta
      then st
      else record st {
        plan = record st.plan { meta_conflicts = st.plan.meta_conflicts ++ slug ∷ [] };
      }

  unfoldable pub merge_meta : Text → DocUnits → Merging → Option DocUnits → Merging
  unfolding merge_front
  merge_meta slug s_units st none = st
  merge_meta slug s_units st (some d_units) = merge_front slug s_units st d_units

  unfoldable pub merge_metas : List (Text × DocUnits) → Merging → Merging
  unfolding merge_meta
  merge_metas [] st = st
  merge_metas ((slug, s_units) ∷ docs) st =
      merge_metas docs (merge_meta slug s_units st (get slug st.dest_units))

  -- The pages that were made for additions.
  unfoldable pub note_created : Texts → List (Text × DocUnits) → Merging → Merging
  unfolding doc_state_key
  note_created dest [] st = st
  note_created dest ((slug, s_units) ∷ docs) st = note_created dest docs (
      if any {A = Text × Text} (λ p. p.0 == slug) dest
      then st
      else if is_some (get slug st.dest_units)
      then note_hash (doc_state_key slug) (meta_hash sha256 s_units) st
      else st)

-- `find(…).map(heading_title).unwrap_or_default()`
unfoldable pub title_of_node : Option NodeUnit → Text
title_of_node none = []
title_of_node (some n) = heading_title n.heading

module _ (base : Map Text Text) (st : Merging) where
  lost_on_source : Text → Bool
  lost_on_source anchor =
      if contains st.source_anchors anchor then false else is_some (get anchor base)

  -- The anchors that only the destination has and of which a hash is recorded.
  unfoldable pub deleted_nodes : List (Text × Text) → Option (List NodeRef)
  unfolding lost_on_source title_of_node
  deleted_nodes [] = some []
  deleted_nodes ((anchor, d_slug) ∷ rest) =
      let later = deleted_nodes rest in
      if lost_on_source anchor
      then (do
        units ← get d_slug st.dest_units
        refs ← later
        some (
            record {
              doc = d_slug;
              anchor = anchor;
              title = title_of_node (find_node anchor units.nodes);
            }
            ∷ refs))
      else later

-- The texts of the pages that are marked as changed.
unfoldable pub page_writes : Merging → List (Text × Bool) → Option Texts
page_writes st [] = some []
page_writes st ((slug, false) ∷ rest) = page_writes st rest
page_writes st ((slug, true) ∷ rest) = do
  units ← get slug st.dest_units
  writes ← page_writes st rest
  some ((slug, render_doc units) ∷ writes)

-- By page, then by anchor.
unfoldable pub ref_lt : NodeRef → NodeRef → Bool
ref_lt x y =
    if codes_lt x.doc y.doc
    then true
    else if x.doc == y.doc
    then codes_lt x.anchor y.anchor
    else false

unfoldable pub finish_plan : Merging → List NodeRef → Texts → Merging
unfolding ref_lt
finish_plan st deleted writes = record st {
  plan = record st.plan {
    writes = writes;
    conflicts = sort_by ref_lt st.plan.conflicts;
    deleted_on_dest = sort_by ref_lt st.plan.deleted_on_dest;
    deleted_on_source = sort_by ref_lt deleted;
    moved = sort_by ref_lt st.plan.moved;
    meta_conflicts = sort_by codes_lt st.plan.meta_conflicts;
  };
}

-- The body of `plan_merge`, with the destination's pages as it leaves them.
unfoldable pub merge_all : (Text → List ℕ) → Texts → Texts → Map Text Text → Option Merging
unfolding merge_start merge_docs merge_metas note_created deleted_nodes page_writes finish_plan
merge_all sha256 source dest base = do
  let docs = entries (units_of source)
  looped ← merge_docs sha256 base docs (merge_start dest)
  let st = note_created sha256 base dest docs (merge_metas sha256 base docs looped)
  deleted ← deleted_nodes base st (entries st.dest_doc_of)
  writes ← page_writes st (entries st.changed)
  some (finish_plan st deleted writes)

unfoldable pub plan_merge : (Text → List ℕ) → Texts → Texts → Map Text Text → Option MergePlan
unfolding merge_all
plan_merge sha256 source dest base = do st ← merge_all sha256 source dest base; some st.plan
