-- ===== src/Store.antt =====
-- The use-case layer, crates/core/src/usecases.rs, over the traits of crates/core/src/traits.rs.
-- A trait is a record of operations on one state, which holds whatever the backends share.
pub mod Works
pub mod Reads
pub mod Contents
pub mod Citations
pub mod Neighborhood
use braincrawl.Base.{ℕ, String, Bool, Option, List}
use braincrawl.Types.{
  Alias, Artifact, ArtifactRole, CanonicalId, DeletePlan, EdgeDir, EdgeView, Json, NodeKind,
  StoredBlob,
}
use braincrawl.Exec.{Exec}

pub record MetadataStore (S : Type 0) : Type 0 where
  pub get_alias : Alias → Exec S (Option CanonicalId)
  pub get_or_create_alias : Alias → CanonicalId → Exec S CanonicalId
  pub create_node : CanonicalId → NodeKind → String → Exec S Unit
  pub upsert_node_assertion : CanonicalId → String → Json → String → Exec S Unit
  pub resolve_live : CanonicalId → Exec S CanonicalId
  pub merge : CanonicalId → CanonicalId → Exec S Unit
  pub plan_delete_work : CanonicalId → Exec S DeletePlan
  pub delete_work_network : CanonicalId → Exec S (List String)
  pub read_node :
      CanonicalId → Exec S (Option (NodeKind × List (String × Json × String) × List Alias))
  pub put_edge : CanonicalId → CanonicalId → String → String → Option Json → String → Exec S Unit
  pub read_edges :
      CanonicalId → EdgeDir → Option String → ℕ → Exec S (List EdgeView × Option String)
  pub present_aliases : List Alias → Exec S (List Alias)

pub record ArtifactStore (S : Type 0) : Type 0 where
  pub current_artifact : CanonicalId → ArtifactRole → Exec S (Option Artifact)
  pub next_version : CanonicalId → ArtifactRole → Exec S ℕ
  pub record_artifact : Artifact → Exec S Unit
  pub list_artifacts : CanonicalId → Option ArtifactRole → Bool → Exec S (List Artifact)

pub record BlobStore (S : Type 0) : Type 0 where
  pub put : String → List ℕ → String → Exec S Unit
  pub get : String → Exec S (Option StoredBlob)
  pub delete : String → Exec S Unit

-- What comes from outside: the clock, the generator of ids, and the lock of the coordinator.
pub record Outside (S : Type 0) : Type 0 where
  pub now_rfc3339 : S → String
  pub new_guid : S → CanonicalId
  pub with_lock : String → Exec S Unit
