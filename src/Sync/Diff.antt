-- ===== src/Sync/Diff.antt =====
-- The comparison of two collections of pages, `diff_collections` of crates/l3-sync/src/lib.rs.
pub mod Reports
pub mod Classified
use braincrawl.Base.{
  ℕ, ◌+◌, Bool, true, false, List, [], ◌∷◌, ◌++◌, Option, none, some, if◌then◌else◌, ◌==◌, list_eq,
  nat_eq, is_some,
}
use braincrawl.Base.Map.{Map, get, insert, entries}
use braincrawl.Base.Sort.{sort_by}
use braincrawl.Base.Scan.{Text}
use braincrawl.Sync.{NodeUnit, NodeRef, Texts, node_hash, heading_title, split_doc}
use braincrawl.Sync.Plan.{ref_lt}

-- A node's page, hash and title.
abbrev pub Entry : Type 0
Entry = Text × Text × Text

pub record Indexed : Type 0 where
  pub by_anchor : Map Text Entry
  pub unanchored : ℕ

pub record CollectionDiff : Type 0 where
  pub only_in_a : List NodeRef
  pub only_in_b : List NodeRef
  pub differing : List NodeRef
  pub moved : List NodeRef
  pub in_sync : ℕ
  pub unanchored_a : ℕ
  pub unanchored_b : ℕ

module _ (sha256 : Text → List ℕ) where
  unfoldable pub index_unit : Text → NodeUnit → Option Text → Indexed → Indexed
  index_unit slug n none ix = record ix { unanchored = ix.unanchored + 1 }
  index_unit slug n (some a) ix = record ix {
    by_anchor = insert a (slug, node_hash sha256 n, heading_title n.heading) ix.by_anchor;
  }

  unfoldable pub index_each : Text → List NodeUnit → Indexed → Indexed
  unfolding index_unit
  index_each slug [] ix = ix
  index_each slug (n ∷ ns) ix = index_each slug ns (index_unit slug n n.anchor ix)

  unfoldable pub index_pages : Texts → Indexed → Indexed
  unfolding index_each
  index_pages [] ix = ix
  index_pages ((slug, content) ∷ docs) ix =
      index_pages docs (index_each slug (split_doc content).nodes ix)

  unfoldable pub index_docs : Texts → Indexed
  unfolding index_pages
  index_docs docs = index_pages docs (record { by_anchor = []; unanchored = 0 })

-- `make_ref`
abbrev pub make_ref : Text → Entry → NodeRef
make_ref anchor e = record { doc = e.0; anchor = anchor; title = e.2 }

unfoldable pub compare_entry : Text → Entry → Option Entry → CollectionDiff → CollectionDiff
compare_entry anchor ea none d = record d { only_in_a = d.only_in_a ++ make_ref anchor ea ∷ [] }
compare_entry anchor ea (some eb) d =
    if ea.0 == eb.0
    then if ea.1 == eb.1
      then record d { in_sync = d.in_sync + 1 }
      else record d { differing = d.differing ++ make_ref anchor ea ∷ [] }
    else record d { moved = d.moved ++ make_ref anchor ea ∷ [] }

unfoldable pub compare_entries :
    Map Text Entry → List (Text × Entry) → CollectionDiff → CollectionDiff
unfolding compare_entry
compare_entries ib [] d = d
compare_entries ib ((anchor, ea) ∷ l) d =
    compare_entries ib l (compare_entry anchor ea (get anchor ib) d)

unfoldable pub add_missing : Map Text Entry → List (Text × Entry) → CollectionDiff → CollectionDiff
add_missing ia [] d = d
add_missing ia ((anchor, eb) ∷ l) d = add_missing ia l (
    if is_some (get anchor ia)
    then d
    else record d { only_in_b = d.only_in_b ++ make_ref anchor eb ∷ [] })

unfoldable pub sorted_diff : CollectionDiff → CollectionDiff
sorted_diff d = record d {
  only_in_a = sort_by ref_lt d.only_in_a;
  only_in_b = sort_by ref_lt d.only_in_b;
  differing = sort_by ref_lt d.differing;
  moved = sort_by ref_lt d.moved;
}

unfoldable pub diff_indexed : Indexed → Indexed → CollectionDiff
unfolding compare_entries add_missing sorted_diff
diff_indexed ia ib = sorted_diff (
    add_missing ia.by_anchor (entries ib.by_anchor) (
      compare_entries ib.by_anchor (entries ia.by_anchor) (record {
        only_in_a = [];
        only_in_b = [];
        differing = [];
        moved = [];
        in_sync = 0;
        unanchored_a = ia.unanchored;
        unanchored_b = ib.unanchored;
      })))

unfoldable pub diff_collections : (Text → List ℕ) → Texts → Texts → CollectionDiff
unfolding index_docs diff_indexed
diff_collections sha256 a b = diff_indexed (index_docs sha256 a) (index_docs sha256 b)
