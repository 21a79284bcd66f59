-- ===== src/Local/Contents.antt =====
-- A file that is stored is read back.
use braincrawl.Base.{
  if◌then◌else◌, ◌==◌, string_eq, ℕ, String, true, Option, some, List, ◌≡◌, refl, ap, pair_eq,
  beq_refl,
}
use braincrawl.Base.Map.{get, insert, get-insert}
use braincrawl.Base.Hash.{fnv1a_hash}
use braincrawl.Types.{Alias, Artifact, ArtifactRole, bytes_of}
use braincrawl.Exec.{ok}
use braincrawl.MemStore.{MemStoreInner, alias_key, get_alias}
use braincrawl.MemStore.Invariant.{IsValid, IsLive}
use braincrawl.MemStore.Resolve.{resolve_live-live}
use braincrawl.MemStore.Artifacts.{current_artifact, record_artifact}
use braincrawl.MemStore.Artifacts.Current.{current_artifact-record_artifact, next_version_fresh}
use braincrawl.Store.Works.{resolve_alias_to_live}
use braincrawl.Store.Contents.{put_content, get_content, read_content, descriptor_of}
use braincrawl.Local.{BlobMap, Whole, store, artifacts, blobs, put_blob, get_blob, stored}

resolved :
    (s : MemStoreInner) (b : BlobMap) (alias : Alias) (raw : String)
    → IsLive s.nodes raw
    → get (alias_key alias) s.aliases ≡ some raw
    → resolve_alias_to_live store alias (s, b) ≡ (ok raw, (s, b))
unfolding resolve_alias_to_live get_alias
resolved s b alias raw live e = rw (e, resolve_live-live s raw live) refl

current_lem :
    (d : Artifact) (s : MemStoreInner)
    → d.is_current ≡ true
    → current_artifact d.canonical_id d.role (record_artifact d s).1
      ≡ (ok (some d), (record_artifact d s).1)
unfolding current_artifact
current_lem d s h = ap (λ r. (r, (record_artifact d s).1)) (current_artifact-record_artifact d s h)

-- What `put_content` and the reads after it give.
abbrev pub ReadsBack :
    MemStoreInner
    → BlobMap
    → Alias
    → ArtifactRole
    → List ℕ
    → String
    → Option String
    → Option String
    → String
    → Option (ArtifactRole × ℕ)
    → Type 0
ReadsBack s b alias role body mime source source_url fetched_at derived_from =
    (d : Artifact) × (after : Whole) × (put_content store artifacts blobs alias role body mime
        source source_url fetched_at derived_from (s, b)
      ≡ (ok d, after))
    × (get_content store artifacts blobs alias role after
        ≡ (ok (bytes_of body mime (fnv1a_hash body)), after))
    × ((key : String)
        → get key after.1
          ≡ (if d.r2_key == key then some (body, mime, fnv1a_hash body) else get key b))

-- In a valid store, for an alias that it knows: `put_content` returns, `get_content` then returns
-- the bytes, the type and the hash of what was put, and the blobs hold it under the descriptor's
-- key and are as before under any other.
pub put_content-get_content :
    (s : MemStoreInner) (b : BlobMap) (alias : Alias) (role : ArtifactRole) (body : List ℕ)
    (mime : String) (source source_url : Option String) (fetched_at : String)
    (derived_from : Option (ArtifactRole × ℕ)) (raw : String)
    → IsValid s
    → get (alias_key alias) s.aliases ≡ some raw
    → ReadsBack s b alias role body mime source source_url fetched_at derived_from
unfolding put_content get_content read_content put_blob get_blob stored record_artifact get_alias
put_content-get_content s b alias role body mime source source_url fetched_at derived_from raw v e =
    let live = v.owners.aliases (alias_key alias) raw e in
    let (n, version, low, fresh) = next_version_fresh raw role s in
    let d =
      descriptor_of store artifacts blobs raw role n body mime source source_url fetched_at
        derived_from in
    let s' = (record_artifact d s).1 in
    let b' = insert d.r2_key (body, mime, fnv1a_hash body) b in
    (
      d,
      (s', b'),
      rw (resolved s b alias raw live e) (rw version refl),
      rw (e, resolve_live-live s' raw live)
          (rw (current_lem d s refl) (
            rw (get-insert d.r2_key d.r2_key (body, mime, fnv1a_hash body) b, beq_refl d.r2_key)
              refl)),
      λ key. get-insert d.r2_key key (body, mime, fnv1a_hash body) b,
    )
