-- ===== src/Sync/Files.antt =====
-- The synchronisation of opaque files, `plan_file_sync` of crates/l3-sync/src/lib.rs.
pub mod Settled
pub mod Again
use braincrawl.Base.{
  ℕ, ◌+◌, Bool, true, false, List, [], ◌∷◌, ◌++◌, Option, none, some, if◌then◌else◌, ◌==◌, list_eq,
  nat_eq, is_some, codes_lt,
}
use braincrawl.Base.Map.{Map, get}
use braincrawl.Base.Ordered.{put, collect_into}
use braincrawl.Base.Sort.{sort_by}
use braincrawl.Base.Scan.{Text}
use braincrawl.Sync.{Texts, content_hash}

pub record FilePlan : Type 0 where
  pub writes : Texts
  pub added : ℕ
  pub updated : ℕ
  pub conflicts : List Text
  pub deleted_reported : ℕ
  pub state_after : Map Text Text

abbrev pub no_plan : FilePlan
no_plan = record {
  writes = [];
  added = 0;
  updated = 0;
  conflicts = [];
  deleted_reported = 0;
  state_after = [];
}

-- `base.get(key) == Some(&hash)`
abbrev pub recorded_as : Option Text → Text → Bool
recorded_as none h = false
recorded_as (some r) h = r == h

-- The files by their names.
abbrev pub by_name : Texts → Map Text Text
by_name files = collect_into (λ c. c) [] files

module _ (sha256 : Text → List ℕ) (base : Map Text Text) (key_prefix : Text) where
  abbrev pub file_key : Text → Text
  file_key name = key_prefix ++ name

  -- A file that the destination lacks.
  unfoldable pub missing_file : FilePlan → Text → Text → FilePlan
  missing_file p name s_content =
      if is_some (get (file_key name) base)
      then record p { deleted_reported = p.deleted_reported + 1 }
      else record p {
        writes = p.writes ++ (name, s_content) ∷ [];
        added = p.added + 1;
        state_after = put (file_key name) (content_hash sha256 s_content) p.state_after;
      }

  -- A file that both sides hold.
  unfoldable pub present_file : FilePlan → Text → Text → Text → FilePlan
  present_file p name s_content d_content =
      let s_hash = content_hash sha256 s_content in
      let d_hash = content_hash sha256 d_content in
      let recorded = get (file_key name) base in
      if d_hash == s_hash
      then record p { state_after = put (file_key name) s_hash p.state_after }
      else if recorded_as recorded d_hash
      then record p {
        writes = p.writes ++ (name, s_content) ∷ [];
        updated = p.updated + 1;
        state_after = put (file_key name) s_hash p.state_after;
      }
      else if recorded_as recorded s_hash
      then p
      else record p { conflicts = p.conflicts ++ name ∷ [] }

  unfoldable pub plan_file : Map Text Text → FilePlan → Text → Text → FilePlan
  unfolding missing_file present_file
  plan_file dest_by_name p name s_content = elim (get name dest_by_name) [
    | none ↦ missing_file p name s_content
    | some d_content ↦ present_file p name s_content d_content
  ]

  unfoldable pub plan_files : Map Text Text → FilePlan → Texts → FilePlan
  unfolding plan_file
  plan_files dest_by_name p [] = p
  plan_files dest_by_name p ((name, s_content) ∷ source) =
      plan_files dest_by_name (plan_file dest_by_name p name s_content) source

  -- A file that only the destination holds, and of which a hash is recorded.
  unfoldable pub is_deleted : Map Text Text → Text → Bool
  is_deleted source_by_name name =
      if is_some (get name source_by_name) then false else is_some (get (file_key name) base)

  unfoldable pub report_deleted : Map Text Text → FilePlan → Texts → FilePlan
  unfolding is_deleted
  report_deleted source_by_name p [] = p
  report_deleted source_by_name p ((name, d_content) ∷ dest) =
      report_deleted source_by_name
        (if is_deleted source_by_name name
          then record p { deleted_reported = p.deleted_reported + 1 }
          else p)
        dest

-- The lists of pairs are as they are given; the maps hold the last pair of a name.
unfoldable pub plan_file_sync : (Text → List ℕ) → Texts → Texts → Map Text Text → Text → FilePlan
unfolding plan_files report_deleted
plan_file_sync sha256 source dest base key_prefix =
    let p =
      report_deleted sha256 base key_prefix (by_name source)
        (plan_files sha256 base key_prefix (by_name dest) no_plan source) dest in
    record p { conflicts = sort_by codes_lt p.conflicts }
