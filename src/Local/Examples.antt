-- ===== src/Local/Examples.antt =====
-- A file stored and read in a store of two works.
use braincrawl.Base.{none, some, [], ◌∷◌, refl, ◌≡◌, string_eq, pair_eq}
use braincrawl.Base.Map.{get, insert, empty}
use braincrawl.Types.{abstract}
use braincrawl.MemStore.{
  alias_key, get_or_create_alias, put_edge, create_node, upsert_node_assertion,
}
use braincrawl.MemStore.Artifacts.{record_artifact}
use braincrawl.MemStore.Examples.{doi, named_twice, named_twice-IsValid}
use braincrawl.Local.Contents.{ReadsBack, put_content-get_content}

known : get (alias_key doi) named_twice.aliases ≡ some "b"
unfolding get get_or_create_alias insert record_artifact put_edge create_node upsert_node_assertion
known = refl

put_content-get_content_example :
    ReadsBack named_twice empty doi abstract
      (1 ∷ 2 ∷ [])
      "text/plain"
      none
      none
      "2024-01-01T00:00:00Z"
      none
put_content-get_content_example =
    put_content-get_content named_twice empty doi abstract (1 ∷ 2 ∷ []) "text/plain" none none
      "2024-01-01T00:00:00Z" none "b" named_twice-IsValid known
