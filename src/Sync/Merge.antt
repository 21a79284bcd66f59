-- ===== src/Sync/Merge.antt =====
-- The directional merge of two collections of pages, `plan_merge` of crates/l3-sync/src/lib.rs, up
-- to the plan. An `expect` or an index that would panic is `none`.
pub mod Steps
pub mod Counted
pub mod Effects
pub mod Added
pub mod Nodes
pub mod Loop
pub mod Sound
use braincrawl.Base.{
  ℕ, ◌+◌, Bool, true, false, List, [], ◌∷◌, ◌++◌, Option, none, some, if◌then◌else◌, ◌==◌, list_eq,
  nat_eq, is_some, codes_lt, find, last, any, contains,
}
use braincrawl.Base.Map.{Map, get, insert, entries}
use braincrawl.Base.Ordered.{put, collect_into}
use braincrawl.Base.Optional.{◌>>=◌}
use braincrawl.Base.Sort.{sort_by}
use braincrawl.Base.Text.{codes}
use braincrawl.Base.Scan.{Text, trim_end}
use braincrawl.Sync.{
  NodeUnit, DocUnits, NodeRef, Texts, node_hash, meta_hash, heading_title, split_doc, render_doc,
}
use braincrawl.Sync.Files.{recorded_as}
use braincrawl.Sync.Union.{is_blank, union_body}

pub record MergePlan : Type 0 where
  pub writes : Texts
  pub nodes_added : ℕ
  pub nodes_updated : ℕ
  pub nodes_line_union : ℕ
  pub conflicts : List NodeRef
  pub deleted_on_dest : List NodeRef
  pub deleted_on_source : List NodeRef
  pub moved : List NodeRef
  pub unanchored_source : ℕ
  pub meta_updated : ℕ
  pub meta_conflicts : List Text
  pub state_after : Map Text Text

abbrev pub empty_plan : MergePlan
empty_plan = record {
  writes = [];
  nodes_added = 0;
  nodes_updated = 0;
  nodes_line_union = 0;
  conflicts = [];
  deleted_on_dest = [];
  deleted_on_source = [];
  moved = [];
  unanchored_source = 0;
  meta_updated = 0;
  meta_conflicts = [];
  state_after = [];
}

-- The variables of the loop over the source's nodes.
pub record Merging : Type 0 where
  pub plan : MergePlan
  pub dest_units : Map Text DocUnits
  pub dest_doc_of : Map Text Text
  pub source_anchors : List Text
  pub changed : Map Text Bool

-- `doc_state_key`
unfoldable pub doc_state_key : Text → Text
doc_state_key slug = codes "doc:" ++ slug

-- `anchor.as_deref() == Some(a)`
unfoldable pub anchor_is : Option Text → Text → Bool
anchor_is none a = false
anchor_is (some b) a = b == a

unfoldable pub find_node : Text → List NodeUnit → Option NodeUnit
unfolding anchor_is
find_node a = find (λ n. anchor_is n.anchor a)

-- A write through the reference that `iter_mut().find` gives.
unfoldable pub set_node : Text → NodeUnit → List NodeUnit → List NodeUnit
unfolding anchor_is
set_node a node [] = []
set_node a node (n ∷ ns) =
    let rest = set_node a node ns in if anchor_is n.anchor a then node ∷ ns else n ∷ rest

unfoldable pub index_node : Text → Option Text → Map Text Text → Map Text Text
index_node slug none m = m
index_node slug (some a) m = insert a slug m

unfoldable pub index_nodes : Text → List NodeUnit → Map Text Text → Map Text Text
unfolding index_node
index_nodes slug [] m = m
index_nodes slug (n ∷ ns) m = index_nodes slug ns (index_node slug n.anchor m)

unfoldable pub index_units : List (Text × DocUnits) → Map Text Text → Map Text Text
unfolding index_nodes
index_units [] m = m
index_units ((slug, units) ∷ docs) m = index_units docs (index_nodes slug units.nodes m)

-- Whether the last node needs a blank line before another follows.
unfoldable pub wants_blank : Option Text → Bool
unfolding is_blank
wants_blank none = true
wants_blank (some l) = if is_blank l then false else true

unfoldable pub with_blank : List NodeUnit → List NodeUnit
unfolding wants_blank
with_blank [] = []
with_blank (n ∷ []) =
    (if wants_blank (last n.body) then record n { body = n.body ++ [] ∷ [] } else n) ∷ []
with_blank (n ∷ m ∷ ns) = n ∷ with_blank (m ∷ ns)

-- `entry(slug).or_insert_with(…)`: a new page has the source's frontmatter and prologue.
unfoldable pub target_of : Option DocUnits → DocUnits → DocUnits
target_of (some units) s_units = units
target_of none s_units = record s_units { nodes = [] }

module _ (sha256 : Text → List ℕ) (base : Map Text Text) (slug : Text) where
  abbrev pub node_ref : Text → NodeUnit → NodeRef
  node_ref anchor s_node = record {
    doc = slug;
    anchor = anchor;
    title = heading_title s_node.heading;
  }

  unfoldable pub add_node : DocUnits → NodeUnit → Text → Merging → Merging
  unfolding target_of with_blank
  add_node s_units s_node anchor st =
      let target = target_of (get slug st.dest_units) s_units in
      record {
        plan = record st.plan {
          nodes_added = st.plan.nodes_added + 1;
          state_after = put anchor (node_hash sha256 s_node) st.plan.state_after;
        };
        dest_units =
            put slug (record target { nodes = with_blank target.nodes ++ s_node ∷ [] })
              st.dest_units;
        dest_doc_of = insert anchor slug st.dest_doc_of;
        source_anchors = st.source_anchors;
        changed = put slug true st.changed;
      }

  -- An anchor that the destination lacks.
  unfoldable pub absent_node : DocUnits → NodeUnit → Text → Merging → Merging
  unfolding add_node
  absent_node s_units s_node anchor st =
      if is_some (get anchor base)
      then record st {
        plan = record st.plan {
          deleted_on_dest = st.plan.deleted_on_dest ++ node_ref anchor s_node ∷ [];
        };
      }
      else add_node s_units s_node anchor st

  -- The destination's node is replaced.
  unfoldable pub rewrite_node : DocUnits → Text → NodeUnit → MergePlan → Merging → Merging
  unfolding set_node
  rewrite_node units anchor node plan st = record st {
    plan = plan;
    dest_units = put slug (record units { nodes = set_node anchor node units.nodes }) st.dest_units;
    changed = put slug true st.changed;
  }

  unfoldable pub unite_node : DocUnits → Text → NodeUnit × Bool → Merging → Merging
  unfolding rewrite_node
  unite_node units anchor (node, false) st = st
  unite_node units anchor (node, true) st =
      rewrite_node units anchor node
        (record st.plan { nodes_line_union = st.plan.nodes_line_union + 1 }) st

  -- Both sides have the node, in the page of one slug.
  unfoldable pub reconcile : DocUnits → NodeUnit → NodeUnit → Text → Merging → Merging
  unfolding rewrite_node unite_node
  reconcile units d_node s_node anchor st =
      let s_hash = node_hash sha256 s_node in
      let d_hash = node_hash sha256 d_node in
      let recorded = get anchor base in
      if d_hash == s_hash
      then record st {
        plan = record st.plan { state_after = put anchor s_hash st.plan.state_after };
      }
      else if recorded_as recorded d_hash
      then rewrite_node units anchor s_node
          (record st.plan {
            nodes_updated = st.plan.nodes_updated + 1;
            state_after = put anchor s_hash st.plan.state_after;
          })
          st
      else if recorded_as recorded s_hash
      then st
      else if trim_end d_node.heading == trim_end s_node.heading
      then unite_node units anchor (union_body d_node s_node) st
      else record st {
        plan = record st.plan { conflicts = st.plan.conflicts ++ node_ref anchor s_node ∷ [] };
      }

  unfoldable pub same_doc : NodeUnit → Text → Merging → Option Merging
  unfolding reconcile find_node
  same_doc s_node anchor st = do
    units ← get slug st.dest_units
    d_node ← find_node anchor units.nodes
    some (reconcile units d_node s_node anchor st)

  unfoldable pub known_node : NodeUnit → Text → Text → Merging → Option Merging
  unfolding same_doc
  known_node s_node anchor d_slug st =
      if d_slug == slug
      then same_doc s_node anchor st
      else some (record st {
        plan = record st.plan { moved = st.plan.moved ++ node_ref anchor s_node ∷ [] };
      })

  unfoldable pub anchored_node : DocUnits → NodeUnit → Text → Option Text → Merging → Option Merging
  unfolding absent_node known_node
  anchored_node s_units s_node anchor none st = some (absent_node s_units s_node anchor st)
  anchored_node s_units s_node anchor (some d_slug) st = known_node s_node anchor d_slug st

  unfoldable pub merge_node : DocUnits → NodeUnit → Option Text → Merging → Option Merging
  unfolding anchored_node
  merge_node s_units s_node none st =
      some
        (record st { plan = record st.plan { unanchored_source = st.plan.unanchored_source + 1 } })
  merge_node s_units s_node (some anchor) st =
      anchored_node s_units s_node anchor (get anchor st.dest_doc_of)
        (record st { source_anchors = anchor ∷ st.source_anchors })

  unfoldable pub merge_nodes : DocUnits → List NodeUnit → Merging → Option Merging
  unfolding merge_node
  merge_nodes s_units [] st = some st
  merge_nodes s_units (n ∷ ns) st = do
    st' ← merge_node s_units n n.anchor st
    merge_nodes s_units ns st'

-- The pages by their slugs, in their parts.
abbrev pub units_of : Texts → Map Text DocUnits
units_of pages = collect_into split_doc [] pages

unfoldable pub merge_docs :
    (Text → List ℕ) → Map Text Text → List (Text × DocUnits) → Merging → Option Merging
unfolding merge_nodes
merge_docs sha256 base [] st = some st
merge_docs sha256 base ((slug, s_units) ∷ docs) st = do
  st' ← merge_nodes sha256 base slug s_units s_units.nodes st
  merge_docs sha256 base docs st'

unfoldable pub merge_start : Texts → Merging
unfolding index_units
merge_start dest = record {
  plan = empty_plan;
  dest_units = units_of dest;
  dest_doc_of = index_units (entries (units_of dest)) [];
  source_anchors = [];
  changed = [];
}
