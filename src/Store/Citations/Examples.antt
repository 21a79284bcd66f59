-- ===== src/Store/Citations/Examples.antt =====
-- A stub for a work that is cited before it is known.
use braincrawl.Base.{List, [], ◌∷◌, none}
use braincrawl.Types.{EdgeInput, Alias}
use braincrawl.MemStore.Examples.{doi}
use braincrawl.MemStore.{MemStoreInner}
use braincrawl.Store.{Outside}
use braincrawl.Exec.{ok}

abbrev fixed : Outside MemStoreInner
fixed = record { now_rfc3339 = λ s. "2026"; new_guid = λ s. "z"; with_lock = λ k s. (ok tt, s) }

abbrev cited : Alias
cited = record { scheme = "doi"; value = "10.2/y" }

abbrev two_edges : List EdgeInput
two_edges =
    (record {
      src = doi;
      dst = cited;
      relation = "cites";
      source = "crossref";
      attrs = none;
      fetched_at = "2026";
    })
    ∷ (record {
      src = cited;
      dst = doi;
      relation = "cited_by";
      source = "crossref";
      attrs = none;
      fetched_at = "2026";
    })
    ∷ []
