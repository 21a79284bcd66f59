-- ===== src/Lib.antt =====
-- braincrawl keeps a graph of scholarly works: nodes that several aliases (a DOI, a PubMed id) name,
-- with what each source asserts of them, their citations, and the files kept of them. This library
-- models the core crate, the in-memory backends, the research pages with their synchronisation, and the
-- authentication, and proves what makes them correct.
--
-- Base: lists on native numbers, maps, sorting, text, decimal numerals. The rest of the library uses
--   nothing else.
-- Types: crates/core/src/types.rs. Types/Roles proves what `ArtifactRole::parse` accepts.
-- Exec: a method of a shared object that may fail, as a function on the object's state.
-- MemStore: crates/backends/store-mem/src/lib.rs. `MemStoreInner` is the record of that name; a method
--   is a function from the state to a result and a state. MemStore/Merge is `merge`, /Artifacts the
--   artifact store, /Delete the deletion, /Edges `read_node` and the pages of `read_edges`. /Invariant
--   says what holds of the tables between operations: redirects lead down in the order of ids and
--   to nodes, and every other row is owned by a live node.
-- Store: the traits of crates/core/src/traits.rs as records of operations, and the use cases of
--   crates/core/src/usecases.rs over them. The traits of the source are separate objects; here they are
--   operations on one state, so that two of them may be one backend. /Works is `put_work`, /Reads
--   `get_work` and `merge_assertions`, /Contents the files and `delete_work`, /Citations the edges,
--   /Neighborhood `neighborhood`: the loop over the pages of a node's edges, and in /Rounds the seeds,
--   the rounds and the graph.
--
-- Worker: crates/core/src/worker.rs: the backoff, /Tick one tick over any queue, lock and handlers,
--   /Calendar and /Timestamps the RFC 3339 arithmetic.
--
-- L3: crates/l3, the pages of research notes. /Model is model.rs, /Front and /Bullets the frontmatter
--   and the parts of a line, /Parse the line loop of parse.rs, /Ids ids.rs, /Assign and /Temporary
--   assign.rs, /Normalize normalize.rs. Texts are lists of code points.
-- Auth: crates/auth/src/lib.rs. SHA-256 and Unicode's lower case are parameters.
-- Sync: crates/l3-sync/src/lib.rs, the merge of two collections of pages: the units of a page, /Rendered
--   that they give its text back, /Union `union_body`, /Files `plan_file_sync`, /Merge the loop of
--   `plan_merge` over the nodes, /Plan what follows it, /Diff `diff_collections`. An `expect` or an
--   index that would panic is `none`. /Session is `l3_sync` of apps/cli/src/storesync.rs, over what the
--   two stores answer.
--   A `BTreeMap` is an association list in the order of its keys.
-- Locator: apps/cli/src/locator.rs; /Outlines the check of an outline, outline.rs.
-- Local: crates/backends/blob-mem, resolver-mem and coord-local, and the in-memory stores together.
--
-- A `HashMap` is an association list in the order of insertion, and `retain`, `keys` and `iter` go
-- through it in that order. The source leaves the order open; where it shows in a result, as in the
-- keys of a deletion plan, the theorems speak of the modelled order. Numbers are unbounded unless a
-- definition writes the bound out. Fuel stands for four loops: `walk` (one round more than there are
-- nodes), `network_from` (two rounds more), `split_years` (one round more than there are days) and
-- `drain` (one round more than the node has edges); the theorems prove that this is enough. The random
-- draws of `new_id` are a list, and where it is used up the run has no result.
-- Not modelled: the SQL and cloud backends, which run on services outside the repository, the HTTP
-- servers, the clients of remote services, the rest of the command line and the web client; of the
-- pages, the reading and writing of files, and of the records of serde their JSON.
pub mod Base
pub mod Types
pub mod Exec
pub mod MemStore
pub mod Store
pub mod Worker
pub mod L3
pub mod Auth
pub mod Sync
pub mod Local
pub mod Locator
