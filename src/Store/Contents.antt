-- ===== src/Store/Contents.antt =====
-- The use cases on files and deletion: `put_content`, `get_content`, `list_artifacts`, `delete_work`.
pub mod Purge
mod Examples
use Prim.Native.String.{◌++◌ as str_append}
use braincrawl.Base.{
  ℕ, ◌+◌, ◌-◌, String, Bool, true, false, Option, none, some, List, [], ◌∷◌, ◌++◌, length,
  if◌then◌else◌,
}
use braincrawl.Base.Decimal.{to_decimal}
use braincrawl.Base.Hash.{fnv1a_hash}
use braincrawl.Types.{
  Alias, Artifact, ArtifactRole, CanonicalId, ContentOutcome, bytes_of, pending, absent, DeletePlan,
  DeleteReport, as_str, not_found,
}
use braincrawl.Exec.{Result, ok, err, stuck, Exec, pure, ◌>>=◌, ◌>>◌}
use braincrawl.Store.{MetadataStore, ArtifactStore, BlobStore}
use braincrawl.Store.Works.{resolve_alias_to_live}

-- `format!("{}/{}/v{}")`
unfoldable pub key_for : CanonicalId → ArtifactRole → ℕ → String
unfolding as_str to_decimal
key_for id role version =
    str_append id (str_append "/" (str_append (as_str role) (str_append "/v" (to_decimal version))))

abbrev pub after_delete {ℓ} :
    {S A : Type ℓ} → Exec S A → Exec S A → Result {ℓ} (Unit {ℓ}) × S → Result A × S
after_delete good bad (ok u, s) = good s
after_delete good bad (err e, s) = bad s
after_delete good bad (stuck, s) = (stuck, s)

module _ {S : Type 0} (blob : BlobStore S) where
  -- The loop over the blob keys: a failure makes an orphan.
  unfoldable pub purge : List String → ℕ → List String → Exec S (ℕ × List String)
  purge [] deleted orphans s = (ok (deleted, orphans), s)
  purge (key ∷ keys) deleted orphans s =
      after_delete (purge keys (deleted + 1) orphans) (purge keys deleted (orphans ++ key ∷ []))
        (blob.delete key s)

abbrev pub report_of : CanonicalId → DeletePlan → ℕ → List String → Bool → DeleteReport
report_of id plan deleted orphans dry_run = record {
  work_id = id;
  redirect_nodes = length plan.network - 1;
  aliases = plan.alias_count;
  artifacts = plan.artifact_count;
  edges = plan.edge_count;
  blobs_deleted = deleted;
  blob_orphans = orphans;
  dry_run = dry_run;
}

module _ {S : Type 0} (m : MetadataStore S) (artifacts : ArtifactStore S) (blob : BlobStore S) where
  unfoldable pub delete_work : Alias → Bool → Exec S DeleteReport
  unfolding resolve_alias_to_live purge
  delete_work alias dry_run = do
    canonical ← resolve_alias_to_live m alias
    plan ← m.plan_delete_work canonical
    elim dry_run [
      | true ↦ pure (report_of canonical plan 0 [] true)
      | false ↦ do
        keys ← m.delete_work_network canonical
        purged ← purge blob keys 0 []
        pure (report_of canonical plan purged.0 purged.1 false)
    ]

  -- The descriptor of a new version.
  abbrev pub descriptor_of :
      CanonicalId
      → ArtifactRole
      → ℕ
      → List ℕ
      → String
      → Option String
      → Option String
      → String
      → Option (ArtifactRole × ℕ)
      → Artifact
  descriptor_of id role version body mime source source_url fetched_at derived_from = record {
    canonical_id = id;
    role = role;
    version = version;
    r2_key = key_for id role version;
    content_hash = fnv1a_hash body;
    byte_size = length body;
    mime = mime;
    source = source;
    source_url = source_url;
    fetched_at = fetched_at;
    is_current = true;
    derived_from = derived_from;
  }

  unfoldable pub put_content :
      Alias
      → ArtifactRole
      → List ℕ
      → String
      → Option String
      → Option String
      → String
      → Option (ArtifactRole × ℕ)
      → Exec S Artifact
  unfolding resolve_alias_to_live key_for fnv1a_hash
  put_content alias role body mime source source_url fetched_at derived_from = do
    canonical ← resolve_alias_to_live m alias
    version ← artifacts.next_version canonical role
    let descriptor =
        descriptor_of canonical role version body mime source source_url fetched_at derived_from
    blob.put descriptor.r2_key body mime
    artifacts.record_artifact descriptor
    pure descriptor

  -- `Err(NotFound)` of `resolve_live` is an absent content.
  abbrev pub unless_lost :
      Exec S ContentOutcome
      → Result CanonicalId × S
      → (CanonicalId → Exec S ContentOutcome)
      → Result ContentOutcome × S
  unless_lost lost (ok c, s) f = f c s
  unless_lost lost (err not_found, s) f = lost s
  unless_lost lost (err e, s) f = (err e, s)
  unless_lost lost (stuck, s) f = (stuck, s)

  unfoldable pub read_content : ArtifactRole → CanonicalId → Exec S ContentOutcome
  read_content role canonical = do
    current ← artifacts.current_artifact canonical role
    elim current [
      | none ↦ pure absent
      | some d ↦ do
        stored ← blob.get d.r2_key
        elim stored [ none ↦ pure pending | some b ↦ pure (bytes_of b.bytes b.mime b.content_hash) ]
    ]

  unfoldable pub get_content : Alias → ArtifactRole → Exec S ContentOutcome
  unfolding read_content
  get_content alias role = do
    found ← m.get_alias alias
    elim found [
      | none ↦ pure absent
      | some raw ↦ λ s. unless_lost (pure absent) (m.resolve_live raw s) (read_content role)
    ]

  unfoldable pub list_of : Alias → Option ArtifactRole → Bool → Exec S (List Artifact)
  unfolding resolve_alias_to_live
  list_of alias role all_versions = do
    canonical ← resolve_alias_to_live m alias
    artifacts.list_artifacts canonical role all_versions
