-- ===== src/Local.antt =====
-- The in-memory blobs, resolver and lock, crates/backends/{blob-mem,resolver-mem,coord-local}, and
-- the stores of one process together: the state is the metadata store's beside the blobs'.
pub mod Contents
mod Examples
use braincrawl.Base.{ℕ, String, Bool, Option, none, some, List, [], ◌∷◌, string_eq, pair_eq}
use braincrawl.Base.Map
use braincrawl.Base.Map.{Map, insert, remove}
use braincrawl.Base.Hash.{fnv1a_hash}
use braincrawl.Types.{Alias, CanonicalId, StoredBlob}
use braincrawl.Exec.{ok, err, stuck, Result, Exec}
use braincrawl.MemStore.{MemStoreInner}
use braincrawl.MemStore.Backend.{mem_store, mem_artifacts}
use braincrawl.Store.{MetadataStore, ArtifactStore, BlobStore}

-- The key's bytes, mime type and hash.
abbrev pub BlobMap : Type 0
BlobMap = Map String (List ℕ × String × String)

unfoldable pub put_blob : String → List ℕ → String → Exec BlobMap Unit
unfolding fnv1a_hash
put_blob key bytes mime s = (ok tt, insert key (bytes, mime, fnv1a_hash bytes) s)

unfoldable pub stored : Option (List ℕ × String × String) → Option StoredBlob
stored none = none
stored (some (bytes, mime, hash)) =
    some (record { bytes = bytes; mime = mime; content_hash = hash })

unfoldable pub get_blob : String → Exec BlobMap (Option StoredBlob)
unfolding stored
get_blob key s = (ok (stored (Map.get key s)), s)

unfoldable pub delete_blob : String → Exec BlobMap Unit
delete_blob key s = (ok tt, remove key s)

-- `MemResolver`
abbrev pub Resolver : Type 0
Resolver = Map (String × String) CanonicalId

-- `IdResolver::resolve` and `remember`
unfoldable pub resolve_id : String → String → Exec Resolver (Option CanonicalId)
resolve_id scheme value s = (ok (Map.get (scheme, value) s), s)

unfoldable pub remember : CanonicalId → String → String → Exec Resolver Unit
remember canonical scheme value s = (ok tt, insert (scheme, value) canonical s)

-- `LocalCoordinator`: no lock is taken.
unfoldable pub with_lock : {S : Type 0} → String → Exec S Unit
with_lock key s = (ok tt, s)

abbrev pub Whole : Type 0
Whole = MemStoreInner × BlobMap

abbrev pub beside : {A : Type 0} → BlobMap → Result A × MemStoreInner → Result A × Whole
beside b (r, s) = (r, (s, b))

-- An operation on the metadata, or on the blobs, as one on both.
abbrev pub on_meta : {A : Type 0} → Exec MemStoreInner A → Exec Whole A
on_meta op (s, b) = beside b (op s)

abbrev pub on_blobs : {A : Type 0} → Exec BlobMap A → Exec Whole A
on_blobs op (s, b) = let (r, b') = op b in (r, (s, b'))

abbrev pub store : MetadataStore Whole
store = record {
  get_alias = λ a. on_meta (mem_store.get_alias a);
  get_or_create_alias = λ a id. on_meta (mem_store.get_or_create_alias a id);
  create_node = λ id kind at. on_meta (mem_store.create_node id kind at);
  upsert_node_assertion =
      λ id source attrs at. on_meta (mem_store.upsert_node_assertion id source attrs at);
  resolve_live = λ id. on_meta (mem_store.resolve_live id);
  merge = λ survivor loser. on_meta (mem_store.merge survivor loser);
  plan_delete_work = λ id. on_meta (mem_store.plan_delete_work id);
  delete_work_network = λ id. on_meta (mem_store.delete_work_network id);
  read_node = λ id. on_meta (mem_store.read_node id);
  put_edge = λ a b r source attrs at. on_meta (mem_store.put_edge a b r source attrs at);
  read_edges = λ id dir cursor limit. on_meta (mem_store.read_edges id dir cursor limit);
  present_aliases = λ aliases. on_meta (mem_store.present_aliases aliases);
}

abbrev pub artifacts : ArtifactStore Whole
artifacts = record {
  current_artifact = λ id role. on_meta (mem_artifacts.current_artifact id role);
  next_version = λ id role. on_meta (mem_artifacts.next_version id role);
  record_artifact = λ d. on_meta (mem_artifacts.record_artifact d);
  list_artifacts = λ id role all. on_meta (mem_artifacts.list_artifacts id role all);
}

abbrev pub blobs : BlobStore Whole
blobs = record {
  put = λ key bytes mime. on_blobs (put_blob key bytes mime);
  get = λ key. on_blobs (get_blob key);
  delete = λ key. on_blobs (delete_blob key);
}
