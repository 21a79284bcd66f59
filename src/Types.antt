-- ===== src/Types.antt =====
-- The domain types and errors of crates/core/src/types.rs, and `serde_json::Value`.
pub mod Roles
mod Examples
use braincrawl.Base.{
  ℕ, String, Bool, true, ◌&&◌, ◌||◌, ◌==◌, string_eq, Option, none, some, List, [], ◌∷◌, leb,
  nat_beq, if◌then◌else◌, not,
}
use Prim.Native.String.{◌++◌ as str_append}
use braincrawl.Base.Text.{codes}

-- A value of JSON. `Items` and `Fields` are its arrays and objects.
mutual
  pub data Json : Type 0 where
    null : Json
    bool : Bool → Json
    num : ℕ → Json
    str : String → Json
    arr : Items → Json
    obj : Fields → Json

  pub data Items : Type 0 where
    nil : Items
    cons : Json → Items → Items

  pub data Fields : Type 0 where
    end : Fields
    field : String → Json → Fields → Fields

abbrev pub CanonicalId : Type 0
CanonicalId = String

pub record Alias : Type 0 where
  pub scheme : String
  pub value : String

pub data NodeKind : Type 0 where
  work author venue concept topic : NodeKind

-- `==` on `NodeKind` where the code compares with `Work`.
abbrev pub is_work : NodeKind → Bool
is_work work = true
is_work _ = Bool.false

pub data ArtifactRole : Type 0 where
  abstract fulltext : ArtifactRole
  other : String → ArtifactRole

unfoldable pub as_str : ArtifactRole → String
as_str abstract = "abstract"
as_str fulltext = "fulltext"
as_str (other s) = s

abbrev pub is_role_char : ℕ → Bool
is_role_char c =
    (leb b'a' c && leb c b'z') || ((leb b'0' c && leb c b'9') || (nat_beq c b'_' || nat_beq c b'-'))

abbrev pub all_role_chars : List ℕ → Bool
all_role_chars [] = true
all_role_chars (c ∷ cs) = is_role_char c && all_role_chars cs

-- `ArtifactRole::parse`
unfoldable pub parse_role : String → Option ArtifactRole
parse_role s =
    if s == "abstract"
    then some abstract
    else if s == "fulltext"
    then some fulltext
    else if not (s == "") && all_role_chars (codes s)
    then some (other s)
    else none

pub record StoredBlob : Type 0 where
  pub bytes : List ℕ
  pub mime : String
  pub content_hash : String

pub record Artifact : Type 0 where
  pub canonical_id : CanonicalId
  pub role : ArtifactRole
  pub version : ℕ
  pub r2_key : String
  pub content_hash : String
  pub byte_size : ℕ
  pub mime : String
  pub source : Option String
  pub source_url : Option String
  pub fetched_at : String
  pub is_current : Bool
  pub derived_from : Option (ArtifactRole × ℕ)

pub record WorkRecord : Type 0 where
  pub source : String
  pub kind : NodeKind
  pub aliases : List Alias
  pub attrs : Json
  pub fetched_at : Option String

pub record WorkView : Type 0 where
  pub canonical_id : CanonicalId
  pub kind : NodeKind
  pub attrs : Json
  pub provenance : Json
  pub aliases : List Alias

pub record EdgeInput : Type 0 where
  pub src : Alias
  pub dst : Alias
  pub relation : String
  pub source : String
  pub attrs : Option Json
  pub fetched_at : String

pub record EdgeView : Type 0 where
  pub src : CanonicalId
  pub dst : CanonicalId
  pub relation : String
  pub assertions : List Json

pub data EdgeDir : Type 0 where
  forward backward : EdgeDir

pub record DeletePlan : Type 0 where
  pub network : List CanonicalId
  pub alias_count : ℕ
  pub artifact_count : ℕ
  pub edge_count : ℕ
  pub r2_keys : List String

pub record DeleteReport : Type 0 where
  pub work_id : String
  pub redirect_nodes : ℕ
  pub aliases : ℕ
  pub artifacts : ℕ
  pub edges : ℕ
  pub blobs_deleted : ℕ
  pub blob_orphans : List String
  pub dry_run : Bool

pub data DomainError : Type 0 where
  not_found conflict : DomainError
  backend serde : String → DomainError

-- What `get_content` returns.
pub data ContentOutcome : Type 0 where
  bytes_of : List ℕ → String → String → ContentOutcome
  pending absent : ContentOutcome

-- The texts of `thiserror`.
unfoldable pub display : DomainError → String
display not_found = "not found"
display conflict = "conflict"
display (backend e) = str_append "backend error: " e
display (serde e) = str_append "serde error: " e

pub data JobKind : Type 0 where
  fulltext_job refs_job : JobKind

abbrev pub same_kind : JobKind → JobKind → Bool
same_kind fulltext_job fulltext_job = true
same_kind refs_job refs_job = true
same_kind _ _ = Bool.false

-- `{:?}` on a `JobKind`
abbrev pub debug_kind : JobKind → String
debug_kind fulltext_job = "Fulltext"
debug_kind refs_job = "Refs"

pub record Job : Type 0 where
  pub id : String
  pub kind : JobKind
  pub target_id : String
  pub params : Json
  pub attempts : ℕ
