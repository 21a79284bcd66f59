-- ===== src/MemStore/Backend.antt =====
-- The in-memory backend as the metadata and the artifact store of the use cases.
use braincrawl.MemStore.{
  MemStoreInner, get_alias, get_or_create_alias, create_node, upsert_node_assertion, resolve_live,
  put_edge, present_aliases,
}
use braincrawl.MemStore.Merge.{merge}
use braincrawl.MemStore.Delete.{plan_delete_work, delete_work_network}
use braincrawl.MemStore.Edges.{read_node, read_edges}
use braincrawl.MemStore.Artifacts.{current_artifact, next_version, record_artifact, list_artifacts}
use braincrawl.Store.{MetadataStore, ArtifactStore}

-- `impl MetadataStore for MemStore`
abbrev pub mem_store : MetadataStore MemStoreInner
mem_store = record {
  get_alias = get_alias;
  get_or_create_alias = get_or_create_alias;
  create_node = create_node;
  upsert_node_assertion = upsert_node_assertion;
  resolve_live = resolve_live;
  merge = merge;
  plan_delete_work = plan_delete_work;
  delete_work_network = delete_work_network;
  read_node = read_node;
  put_edge = put_edge;
  read_edges = read_edges;
  present_aliases = present_aliases;
}

-- `impl ArtifactStore for MemStore`
abbrev pub mem_artifacts : ArtifactStore MemStoreInner
mem_artifacts = record {
  current_artifact = current_artifact;
  next_version = next_version;
  record_artifact = record_artifact;
  list_artifacts = list_artifacts;
}
