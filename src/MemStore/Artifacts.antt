-- ===== src/MemStore/Artifacts.antt =====
-- The artifact table: `current_artifact`, `next_version`, `record`, `list_artifacts`.
pub mod Current
use braincrawl.Base.{
  ℕ, suc, max, ◌+◌, String, Bool, true, false, Option, none, some, List, [], ◌∷◌, ◌++◌, find,
  filter, ◌==◌, string_eq, pair_eq, if◌then◌else◌, ◌||◌, ◌&&◌, ltb, str_lt,
}
use braincrawl.Base.Map.{Map, get, insert, entries}
use braincrawl.Base.Sort.{sort_by}
use braincrawl.Types.{CanonicalId, Artifact, ArtifactRole, as_str}
use braincrawl.Exec.{ok, Exec}
use braincrawl.MemStore.{MemStoreInner, or_default}
use braincrawl.MemStore.Merge.{demote}

-- `rows.iter().find(|d| d.is_current)`
abbrev pub current_of : List Artifact → Option Artifact
current_of rows = find (λ d. d.is_current) rows

unfoldable pub current_artifact : CanonicalId → ArtifactRole → Exec MemStoreInner (Option Artifact)
unfolding as_str
current_artifact id role s = (ok (current_of (or_default (get (id, as_str role) s.artifacts))), s)

-- `rows.iter().map(|d| d.version).max().unwrap_or(0)`
unfoldable pub max_version : List Artifact → ℕ
max_version [] = 0
max_version (d ∷ rows) = max d.version (max_version rows)

unfoldable pub next_version : CanonicalId → ArtifactRole → Exec MemStoreInner ℕ
unfolding as_str max_version
next_version id role s = elim (get (id, as_str role) s.artifacts) [
  | none ↦ (ok 1, s)
  | some rows ↦ (ok (max_version rows + 1), s)
]

-- The rows of the descriptor's key once it is recorded.
unfoldable pub recorded : Artifact → List Artifact → List Artifact
recorded d rows = (if d.is_current then demote rows else rows) ++ d ∷ []

unfoldable pub record_artifact : Artifact → Exec MemStoreInner Unit
unfolding as_str recorded
record_artifact d s =
    let key : String × String = (d.canonical_id, as_str d.role) in
    (
      ok tt,
      record s {
        artifacts = insert key (recorded d (or_default (get key s.artifacts))) s.artifacts;
      },
    )

-- Ascending role, then descending version.
unfoldable pub role_then_version : Artifact → Artifact → Bool
unfolding as_str
role_then_version a b =
    str_lt (as_str a.role) (as_str b.role)
    || ((as_str a.role == as_str b.role) && ltb b.version a.version)

abbrev pub has_role : Option ArtifactRole → String → Bool
has_role none name = true
has_role (some r) name = as_str r == name

unfoldable pub rows_of :
    CanonicalId
    → Option ArtifactRole
    → Bool
    → List ((String × String) × List Artifact)
    → List Artifact
unfolding as_str
rows_of id role all_versions [] = []
rows_of id role all_versions ((key, rows) ∷ rest) =
    let later = rows_of id role all_versions rest in
    if (key.0 == id) && has_role role key.1
    then filter (λ d. all_versions || d.is_current) rows ++ later
    else later

unfoldable pub list_artifacts :
    CanonicalId → Option ArtifactRole → Bool → Exec MemStoreInner (List Artifact)
unfolding rows_of role_then_version
list_artifacts id role all_versions s =
    (ok (sort_by role_then_version (rows_of id role all_versions (entries s.artifacts))), s)
