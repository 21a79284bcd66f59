-- ===== src/Sync/Session.antt =====
-- A run of the synchronisation of pages, `l3_sync` of apps/cli/src/storesync.rs. What the two stores
-- answer is given: the pages and files that they list, and what the destination says to each write.
pub mod Advances
use braincrawl.Base.{
  ℕ, ◌+◌, Bool, true, false, List, [], ◌∷◌, ◌++◌, Option, none, some, if◌then◌else◌, ◌==◌, list_eq,
  nat_eq, is_some, length, filter,
}
use braincrawl.Base.Map.{Map, get, remove}
use braincrawl.Base.Ordered.{put, collect_into}
use braincrawl.Base.Text.{codes}
use braincrawl.Base.Decimal.{to_decimal}
use braincrawl.Base.Scan.{Text}
use braincrawl.Sync.{NodeUnit, NodeRef, Texts, node_hash, split_doc}
use braincrawl.Sync.Files.{FilePlan, plan_file_sync}
use braincrawl.Sync.Merge.{MergePlan}
use braincrawl.Sync.Plan.{plan_merge}

-- The answer to the write of a page: the text that is stored, so many warnings, or an error.
pub data PutAnswer : Type 0 where
  accepted : Text → PutAnswer
  warned : ℕ → PutAnswer
  failed : Text → PutAnswer

-- What the store lists: nothing where it does not serve pages, or the error of the call.
pub data Listing : Type 0 where
  listed : Texts → Listing
  not_served : Listing
  unlisted : Text → Listing

pub record L3SyncReport : Type 0 where
  pub skipped : Option Text
  pub docs_written : ℕ
  pub nodes_added : ℕ
  pub nodes_updated : ℕ
  pub nodes_line_union : ℕ
  pub conflicts : List NodeRef
  pub meta_updated : ℕ
  pub meta_conflicts : List Text
  pub deleted_reported : ℕ
  pub moved : ℕ
  pub unanchored_source : ℕ
  pub agent_added : ℕ
  pub agent_updated : ℕ
  pub agent_conflicts : List Text
  pub errors : List Text

abbrev pub no_report : L3SyncReport
no_report = record {
  skipped = none;
  docs_written = 0;
  nodes_added = 0;
  nodes_updated = 0;
  nodes_line_union = 0;
  conflicts = [];
  meta_updated = 0;
  meta_conflicts = [];
  deleted_reported = 0;
  moved = 0;
  unanchored_source = 0;
  agent_added = 0;
  agent_updated = 0;
  agent_conflicts = [];
  errors = [];
}

abbrev is_nil {ℓ} : {A : Type ℓ} → List A → Bool
is_nil [] = true
is_nil (x ∷ xs) = false

unfoldable pub is_partial : L3SyncReport → Bool
is_partial r =
    if is_nil r.conflicts
    then if is_nil r.meta_conflicts
      then if is_nil r.agent_conflicts then if is_nil r.errors then false else true else true
      else true
    else true

drop_anchor : Option Text → Map Text Text → Map Text Text
drop_anchor none hashes = hashes
drop_anchor (some a) hashes = remove a hashes

unfoldable pub drop_anchors : List NodeUnit → Map Text Text → Map Text Text
unfolding drop_anchor
drop_anchors [] hashes = hashes
drop_anchors (n ∷ ns) hashes = drop_anchors ns (drop_anchor n.anchor hashes)

-- `drop_doc_anchors`
unfoldable pub drop_doc_anchors : Map Text Text → Text → Map Text Text
unfolding drop_anchors
drop_doc_anchors hashes content = drop_anchors (split_doc content).nodes hashes

unfoldable pub rejected : Text → ℕ → Text
rejected slug warnings =
    slug
    ++ codes ": rejected with "
    ++ codes (to_decimal warnings)
    ++ codes " parse warning(s) — fix the doc or retry with `store sync <src> <dst> --doc "
    ++ slug
    ++ codes " --force`"

-- The plan's hashes and the report, as the writes go on.
pub record Progress : Type 0 where
  pub report : L3SyncReport
  pub hashes : Map Text Text

unfoldable pub add_error : Text → L3SyncReport → L3SyncReport
add_error e r = record r { errors = r.errors ++ e ∷ [] }

module _ (sha256 : Text → List ℕ) where
  unfoldable pub note_node : Option Text → NodeUnit → Map Text Text → Map Text Text
  note_node none n hashes = hashes
  note_node (some a) n hashes =
      if is_some (get a hashes) then put a (node_hash sha256 n) hashes else hashes

  -- The hashes of the nodes as the destination has stored them.
  unfoldable pub note_stored : List NodeUnit → Map Text Text → Map Text Text
  unfolding note_node
  note_stored [] hashes = hashes
  note_stored (n ∷ ns) hashes = note_stored ns (note_node n.anchor n hashes)

  unfoldable pub after_put : Text → Text → PutAnswer → Progress → Progress
  unfolding note_stored drop_doc_anchors rejected add_error
  after_put slug content (accepted kept) p = record {
    report = record p.report { docs_written = p.report.docs_written + 1 };
    hashes = note_stored (split_doc kept).nodes p.hashes;
  }
  after_put slug content (warned warnings) p = record {
    report = add_error (rejected slug warnings) p.report;
    hashes = drop_doc_anchors p.hashes content;
  }
  after_put slug content (failed e) p = record {
    report = add_error (slug ++ codes ": " ++ e) p.report;
    hashes = drop_doc_anchors p.hashes content;
  }

  unfoldable pub put_docs : (Text → Text → PutAnswer) → Texts → Progress → Progress
  unfolding after_put
  put_docs answer [] p = p
  put_docs answer ((slug, content) ∷ writes) p =
      put_docs answer writes (after_put slug content (answer slug content) p)

unfoldable pub after_agent : Text → Option Text → Progress → Progress
unfolding add_error
after_agent name none p = p
after_agent name (some e) p = record {
  report = add_error (codes "agent:" ++ name ++ codes ": " ++ e) p.report;
  hashes = remove (codes "agent:" ++ name) p.hashes;
}

unfoldable pub put_agents : (Text → Text → Option Text) → Texts → Progress → Progress
unfolding after_agent
put_agents answer [] p = p
put_agents answer ((name, content) ∷ writes) p =
    put_agents answer writes (after_agent name (answer name content) p)

unfoldable pub planned_report : MergePlan → L3SyncReport
planned_report plan = record no_report {
  nodes_added = plan.nodes_added;
  nodes_updated = plan.nodes_updated;
  nodes_line_union = plan.nodes_line_union;
  conflicts = plan.conflicts;
  meta_updated = plan.meta_updated;
  meta_conflicts = plan.meta_conflicts;
  deleted_reported = length plan.deleted_on_dest + length plan.deleted_on_source;
  moved = length plan.moved;
  unanchored_source = plan.unanchored_source;
}

-- The agents' plan, and the error where a list could not be read.
unfoldable pub plan_agents :
    (Text → List ℕ) → Map Text Text → Listing → Listing → Option FilePlan × Option Text
plan_agents sha256 base (unlisted e) dest = (none, some e)
plan_agents sha256 base not_served (unlisted e) = (none, some e)
plan_agents sha256 base (listed s) (unlisted e) = (none, some e)
plan_agents sha256 base (listed s) (listed d) =
    (some (plan_file_sync sha256 s d base (codes "agent:")), none)
plan_agents sha256 base (listed s) not_served = (none, none)
plan_agents sha256 base not_served (listed d) = (none, none)
plan_agents sha256 base not_served not_served = (none, none)

unfoldable pub agents_error : Option Text → L3SyncReport → L3SyncReport
unfolding add_error
agents_error none r = r
agents_error (some e) r = add_error (codes "agent files: " ++ e) r

unfoldable pub agents_report : Option FilePlan → L3SyncReport → L3SyncReport
agents_report none r = r
agents_report (some p) r = record r {
  agent_added = p.added;
  agent_updated = p.updated;
  agent_conflicts = p.conflicts;
  deleted_reported = r.deleted_reported + p.deleted_reported;
}

unfoldable pub write_agents : (Text → Text → Option Text) → Option FilePlan → Progress → Progress
unfolding put_agents
write_agents answer none p = p
write_agents answer (some plan) p =
    put_agents answer plan.writes
      (record p { hashes = collect_into (λ h. h) p.hashes plan.state_after })

-- The stores, as they answer.
pub record Stores : Type 0 where
  pub source : Listing
  pub dest : Listing
  pub source_agents : Listing
  pub dest_agents : Listing
  pub put_doc : Bool → Text → Text → PutAnswer
  pub put_agent : Text → Text → Option Text

-- The report, and the base that is saved, if one is; an error; or a panic.
pub data Outcome : Type 0 where
  ran : L3SyncReport → Option (Map Text Text) → Outcome
  refused : Text → Outcome
  panicked : Outcome

module _ (sha256 : Text → List ℕ) (stores : Stores) (dry_run force : Bool)
    (base : Map Text Text) where
  unfoldable pub carry_out : MergePlan → Option FilePlan × Option Text → Outcome
  unfolding planned_report agents_error agents_report put_docs write_agents
  carry_out plan agents =
      let report = agents_report agents.0 (agents_error agents.1 (planned_report plan)) in
      if dry_run
      then ran (record report { docs_written = length plan.writes }) none
      else (let p = write_agents stores.put_agent agents.0 (
            put_docs sha256 (stores.put_doc force) plan.writes
              (record { report = report; hashes = plan.state_after })) in
          ran p.report (some (collect_into (λ h. h) base p.hashes)))

  unfoldable pub agents_of : Option Text → Option FilePlan × Option Text
  unfolding plan_agents
  agents_of none = plan_agents sha256 base stores.source_agents stores.dest_agents
  agents_of (some slug) = (none, none)

  unfoldable pub sync_pages : Option Text → Texts → Texts → Outcome
  unfolding carry_out agents_of
  sync_pages doc_filter source dest = elim (plan_merge sha256 source dest base) [
    | none ↦ panicked
    | some plan ↦ carry_out plan (agents_of doc_filter)
  ]

  -- `--doc`: the page of one slug.
  unfoldable pub sync_filtered : Option Text → Texts → Texts → Outcome
  unfolding sync_pages
  sync_filtered none source dest = sync_pages none source dest
  sync_filtered (some slug) source dest =
      let only = filter {A = Text × Text} (λ p. p.0 == slug) in
      if is_nil (only source)
      then refused (codes "--doc " ++ slug ++ codes ": the source has no such doc")
      else sync_pages (some slug) (only source) (only dest)

  unfoldable pub sync_listed : Option Text → Texts → Listing → Outcome
  unfolding sync_filtered
  sync_listed doc_filter source (unlisted e) = refused e
  sync_listed doc_filter source not_served =
      ran (record no_report { skipped = some (codes "dest does not serve L3") }) none
  sync_listed doc_filter source (listed dest) = sync_filtered doc_filter source dest

  unfoldable pub sync_from : Option Text → Listing → Outcome
  unfolding sync_listed
  sync_from doc_filter (unlisted e) = refused e
  sync_from doc_filter not_served =
      ran (record no_report { skipped = some (codes "source does not serve L3") }) none
  sync_from doc_filter (listed source) = sync_listed doc_filter source stores.dest

  unfoldable pub l3_sync : Option Text → Outcome
  unfolding sync_from
  l3_sync doc_filter = sync_from doc_filter stores.source
