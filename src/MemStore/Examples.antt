-- ===== src/MemStore/Examples.antt =====
-- A store of two works, and what a merge leaves of it, for the theorems to run on.
use braincrawl.Base.{
  length, ne_of_beq, string_eq, pair_eq, triple_eq, String, true, none, some, List, [], ◌≡◌, ◌≢◌,
  refl, str_lt,
}
use braincrawl.Base.Map.{entries, remove, Map, get, insert}
use braincrawl.Base.Sort.{sort_by}
use braincrawl.Types.{forward, Alias, Artifact, abstract, work, null, str}
use braincrawl.MemStore.Edges.{matching}
use braincrawl.Exec.{ok}
use braincrawl.MemStore.{
  NodeAssertionRow, MemStoreInner, new, create_node, upsert_node_assertion, get_or_create_alias,
  put_edge, redirect,
}
use braincrawl.MemStore.Merge.{merge_assertion_rows, merge_edges, merge}
use braincrawl.MemStore.Merge.Newest.{IsNewest, merge-IsNewest}
use braincrawl.MemStore.Merge.Rows.{MergesEdges, merge_edges_lem}
use braincrawl.MemStore.Artifacts.{current_artifact, record_artifact}
use braincrawl.MemStore.Artifacts.Current.{
  OneCurrent, record_artifact-OneCurrent, current_artifact-record_artifact,
}
use braincrawl.MemStore.Delete.{network_ids}
use braincrawl.MemStore.Delete.Closure.{IsNetwork, network_ids-IsNetwork}
use braincrawl.MemStore.Delete.Keeps.{Deletes, delete_work_network-Deletes}
use braincrawl.MemStore.Invariant.{IsLive, IsNode, IsValid, Leads, stop}
use braincrawl.MemStore.Resolve.{Resolves, resolve_live-Resolves}
use braincrawl.MemStore.Basics.{
  create_node-IsValid, upsert_node_assertion-IsValid, get_or_create_alias-IsValid, put_edge-IsValid,
  record_artifact-IsValid,
}
use braincrawl.MemStore.Merge.Keeps.{CanMerge, merge-IsValid, merge-Leads}

new-IsValid : IsValid new
unfolding get
new-IsValid = record {
  redirects = record { down = λ id n row e m. absurd cc; target = λ id n row e m. absurd cc };
  owners = record {
    aliases = λ k id e. absurd cc;
    assertions = λ id source row e. absurd cc;
    edges = λ a b r row e. absurd cc;
    artifacts = λ id role rows e. absurd cc;
  };
}

abbrev pub doi : Alias
doi = record { scheme = "doi"; value = "10.1/x" }

abbrev note : Artifact
note = record {
  canonical_id = "b";
  role = abstract;
  version = 1;
  r2_key = "works/b/abstract/v1";
  content_hash = "fnv1a:0";
  byte_size = 3;
  mime = "text/plain";
  source = none;
  source_url = none;
  fetched_at = "2025";
  is_current = true;
  derived_from = none;
}

abbrev one : MemStoreInner
one = (create_node "a" work "2024" new).1

abbrev two : MemStoreInner
two = (create_node "b" work "2024" one).1

abbrev asserted : MemStoreInner
asserted =
    (upsert_node_assertion "b" "crossref" (str "new") "2025"
      (upsert_node_assertion "a" "crossref" null "2024" two).1).1

abbrev cited : MemStoreInner
cited = (put_edge "b" "a" "cites" "crossref" none "2025" asserted).1

abbrev named : MemStoreInner
named = (get_or_create_alias doi "b" cited).1

abbrev two_works : MemStoreInner
two_works = (record_artifact note named).1

abbrev merged : MemStoreInner
merged = (merge "a" "b" two_works).1

-- Both works are live in all of these, and the alias is the second's.
a-IsLive : IsLive two_works.nodes "a"
unfolding create_node get insert upsert_node_assertion get_or_create_alias put_edge record_artifact
a-IsLive = (_, refl, refl)

b-IsLive : IsLive two_works.nodes "b"
unfolding create_node get insert upsert_node_assertion get_or_create_alias put_edge record_artifact
b-IsLive = (_, refl, refl)

two-IsValid : IsValid two
two-IsValid =
    create_node-IsValid one (create_node-IsValid new new-IsValid "a" work "2024") "b" work "2024"

named-IsValid : IsValid named
unfolding upsert_node_assertion get_or_create_alias put_edge record_artifact get create_node insert
named-IsValid =
    get_or_create_alias-IsValid cited
      (put_edge-IsValid asserted
        (upsert_node_assertion-IsValid (upsert_node_assertion "a" "crossref" null "2024" two).1
          (upsert_node_assertion-IsValid two two-IsValid "a" "crossref" null "2024" a-IsLive) "b"
          "crossref" (str "new") "2025" b-IsLive)
        "b" "a" "cites" "crossref" none "2025" b-IsLive a-IsLive)
      doi "b" b-IsLive

two_works-IsValid : IsValid two_works
unfolding upsert_node_assertion get_or_create_alias put_edge record_artifact get
two_works-IsValid = record_artifact-IsValid named named-IsValid note b-IsLive

can_merge : CanMerge two_works "a" "b"
unfolding str_lt
can_merge = record { survivor_live = a-IsLive; loser_live = b-IsLive; smaller = refl }

merge-IsValid_example : IsValid merged
merge-IsValid_example = merge-IsValid two_works "a" "b" can_merge two_works-IsValid

-- The node of the loser, now a redirect.
b_redirect : IsNode merged.nodes "b"
unfolding merge redirect create_node get insert upsert_node_assertion get_or_create_alias put_edge
    record_artifact
b_redirect = (_, refl)

merge-Leads_example : Leads merged.nodes "b" "a"
merge-Leads_example = merge-Leads two_works "a" "b" can_merge (stop b-IsLive)

resolve_live-Resolves_example : Resolves merged "b"
resolve_live-Resolves_example =
    resolve_live-Resolves merged "b" merge-IsValid_example.redirects b_redirect

a-ne-b : (◌≢◌ {A = String} "a" "b")
a-ne-b = ne_of_beq "a" "b" refl

abbrev merged_rows : Map (String × String) NodeAssertionRow
merged_rows = merge_assertion_rows "a" "b" two_works.node_assertions

merge-IsNewest_example :
    IsNewest
      (get ("a", "crossref") two_works.node_assertions)
      (get ("b", "crossref") two_works.node_assertions)
      (get ("a", "crossref") merged_rows)
    × (get ("b", "crossref") merged_rows ≡ none)
    × (◌≢◌ {A = String} "c" "a"
        → ◌≢◌ {A = String} "c" "b"
        → get ("c", "crossref") merged_rows ≡ get ("c", "crossref") two_works.node_assertions)
merge-IsNewest_example = merge-IsNewest "a" "b" two_works.node_assertions "c" "crossref" a-ne-b

merge_edges_lem_example : MergesEdges "a" "b" two_works.edges (merge_edges "a" "b" two_works.edges)
merge_edges_lem_example = merge_edges_lem "a" "b" a-ne-b two_works.edges

empty-OneCurrent : OneCurrent []
unfolding get
empty-OneCurrent k rows e = absurd cc

named-OneCurrent : OneCurrent named.artifacts
unfolding create_node upsert_node_assertion get_or_create_alias put_edge get insert
named-OneCurrent = empty-OneCurrent

record_artifact-OneCurrent_example : OneCurrent two_works.artifacts
record_artifact-OneCurrent_example = record_artifact-OneCurrent note named named-OneCurrent

current_artifact-record_artifact_example :
    (current_artifact "b" abstract two_works).0 ≡ ok (some note)
current_artifact-record_artifact_example = current_artifact-record_artifact note named refl

a-IsLive_merged : IsLive merged.nodes "a"
unfolding merge redirect create_node get insert upsert_node_assertion get_or_create_alias put_edge
    record_artifact
a-IsLive_merged = (_, refl, refl)

network_ids-IsNetwork_example :
    (net : List String) × (network_ids merged.nodes "a" ≡ ok net) × IsNetwork merged.nodes "a" net
network_ids-IsNetwork_example = network_ids-IsNetwork merged.nodes "a" a-IsLive_merged

delete_work_network-Deletes_example : Deletes merged "a"
delete_work_network-Deletes_example =
    delete_work_network-Deletes merged "a" merge-IsValid_example a-IsLive_merged

abbrev pub pmid : Alias
pmid = record { scheme = "pmid"; value = "17" }

-- Both works have an alias.
abbrev pub named_twice : MemStoreInner
named_twice = (get_or_create_alias pmid "a" two_works).1

pub named_twice-IsValid : IsValid named_twice
named_twice-IsValid = get_or_create_alias-IsValid two_works two_works-IsValid pmid "a" a-IsLive

pub z_absent : get "z" named_twice.nodes ≡ none
unfolding create_node get insert upsert_node_assertion get_or_create_alias put_edge record_artifact
z_absent = refl

pub one_edge : length (matching forward "b" named_twice) ≡ 1
unfolding matching sort_by entries remove create_node get insert upsert_node_assertion
    get_or_create_alias put_edge record_artifact
one_edge = refl

pub one_row : length named_twice.edges ≡ 1
unfolding create_node get insert upsert_node_assertion get_or_create_alias put_edge record_artifact
one_row = refl
