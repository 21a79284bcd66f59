-- ===== src/Store/Works.antt =====
-- `put_work` and the helpers that resolve an alias.
pub mod Collect
pub mod Attach
pub mod Merging
pub mod Picks
pub mod Resolution
mod Examples
use braincrawl.Base.{
  ℕ, String, Bool, Option, none, some, List, [], ◌∷◌, ◌++◌, any, ◌==◌, string_eq, str_lt, ltb,
  nat_beq, ◌||◌, ◌&&◌, if◌then◌else◌,
}
use Prim.Native.String.{◌++◌ as str_append}
use braincrawl.Base.Sort.{sort_by}
use braincrawl.Types.{Alias, CanonicalId, WorkRecord, work, not_found}
use braincrawl.Exec.{Exec, pure, raise, gets, ◌>>=◌, ◌>>◌}
use braincrawl.Store.{MetadataStore, Outside}

-- The strength of an alias scheme, 0 the strongest.
unfoldable pub scheme_priority : String → ℕ
scheme_priority ns =
    if ns == "doi"
    then 0
    else if ns == "pmid"
    then 1
    else if ns == "pmcid"
    then 2
    else if ns == "openalex"
    then 3
    else if ns == "semantic_scholar"
    then 4
    else if ns == "arxiv"
    then 5
    else 255

-- `min_by_key` compares the pairs (priority, value), and takes the first of equals.
unfoldable pub weaker : Alias → Alias → Bool
unfolding scheme_priority
weaker a b =
    let p = scheme_priority a.scheme in
    let q = scheme_priority b.scheme in ltb q p || (nat_beq q p && str_lt b.value a.value)

unfoldable pub strongest : Alias → List Alias → Alias
unfolding weaker
strongest best [] = best
strongest best (a ∷ rest) = strongest (if weaker best a then a else best) rest

unfoldable pub strongest_alias_key : List Alias → String
unfolding strongest
strongest_alias_key [] = "unknown"
strongest_alias_key (a ∷ rest) =
    let best = strongest a rest in str_append best.scheme (str_append ":" best.value)

module _ {S : Type 0} (m : MetadataStore S) where
  unfoldable pub resolve_alias_to_live : Alias → Exec S CanonicalId
  resolve_alias_to_live alias = do
    found ← m.get_alias alias
    elim found [ none ↦ raise not_found | some raw ↦ m.resolve_live raw ]

  -- A guid that is not yet in the list is pushed.
  abbrev pub push_new : CanonicalId → List CanonicalId → List CanonicalId
  push_new live guids = if any (λ g. g == live) guids then guids else guids ++ live ∷ []

  -- The first loop of `put_work`: the live nodes of the aliases that are known.
  unfoldable pub collect : List Alias → List CanonicalId → Exec S (List CanonicalId)
  collect [] guids = pure guids
  collect (alias ∷ rest) guids = do
    found ← m.get_alias alias
    elim found [
      | none ↦ collect rest guids
      | some raw ↦ do live ← m.resolve_live raw; collect rest (push_new live guids)
    ]

  unfoldable pub attach : List Alias → CanonicalId → Exec S Unit
  attach [] id = pure tt
  attach (alias ∷ rest) id = do m.get_or_create_alias alias id; attach rest id

  unfoldable pub merge_losers : CanonicalId → List CanonicalId → Exec S Unit
  merge_losers survivor [] = pure tt
  merge_losers survivor (loser ∷ losers) = do m.merge survivor loser; merge_losers survivor losers

  -- `guids.remove(0)` of the sorted list is the survivor.
  unfoldable pub merge_into_first : List Alias → List CanonicalId → Exec S CanonicalId
  unfolding merge_losers attach
  merge_into_first aliases [] = pure ""
  merge_into_first aliases (survivor ∷ losers) = do
    merge_losers survivor losers
    attach aliases survivor
    pure survivor

module _ {S : Type 0} (m : MetadataStore S) (outside : Outside S) where
  -- The match on `guids.len()`.
  unfoldable pub canonical_of : WorkRecord → List CanonicalId → Exec S CanonicalId
  unfolding attach merge_into_first
  canonical_of r [] = do
    new_id ← gets outside.new_guid
    now ← gets outside.now_rfc3339
    m.create_node new_id r.kind now
    attach m r.aliases new_id
    pure new_id
  canonical_of r (id ∷ []) = do attach m r.aliases id; pure id
  canonical_of r (a ∷ b ∷ rest) = merge_into_first m r.aliases (sort_by str_lt (a ∷ b ∷ rest))

  abbrev pub or_now : Option String → Exec S String
  or_now none = gets outside.now_rfc3339
  or_now (some at) = pure at

  unfoldable pub put_work : WorkRecord → Exec S CanonicalId
  unfolding strongest_alias_key collect canonical_of
  put_work r = do
    outside.with_lock (strongest_alias_key r.aliases)
    guids ← collect m r.aliases []
    canonical ← canonical_of r guids
    fetched_at ← or_now r.fetched_at
    m.upsert_node_assertion canonical r.source r.attrs fetched_at
    pure canonical

  unfoldable pub resolve_or_create_stub : Alias → Exec S CanonicalId
  resolve_or_create_stub alias = do
    found ← m.get_alias alias
    elim found [
      | some raw ↦ m.resolve_live raw
      | none ↦ do
        new_id ← gets outside.new_guid
        now ← gets outside.now_rfc3339
        m.create_node new_id work now
        m.get_or_create_alias alias new_id
        pure new_id
    ]
