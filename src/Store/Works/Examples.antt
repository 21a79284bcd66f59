-- ===== src/Store/Works/Examples.antt =====
-- `put_work` on small stores.
use braincrawl.Base.{[], ◌∷◌, none, refl}
use braincrawl.Types.{WorkRecord, work, str}
use braincrawl.Exec.{ok}
use braincrawl.MemStore.{MemStoreInner}
use braincrawl.MemStore.Examples.{named_twice, named_twice-IsValid, z_absent, doi, pmid}
use braincrawl.Store.{Outside}
use braincrawl.Store.Works.Resolution.{Puts, put_work-Puts}

-- A clock that stands still, ids from one name, and a lock that nobody else holds.
abbrev fixed : Outside MemStoreInner
fixed = record { now_rfc3339 = λ s. "2026"; new_guid = λ s. "z"; with_lock = λ k s. (ok tt, s) }

-- A record whose two aliases name two different works.
abbrev bridging : WorkRecord
bridging = record {
  source = "openalex";
  kind = work;
  aliases = doi ∷ pmid ∷ [];
  attrs = str "both";
  fetched_at = none;
}

put_work-Puts_example : Puts fixed bridging named_twice
put_work-Puts_example = put_work-Puts fixed bridging named_twice named_twice-IsValid z_absent refl
