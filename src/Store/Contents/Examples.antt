-- ===== src/Store/Contents/Examples.antt =====
-- Two blobs, of which one cannot be deleted.
use braincrawl.Base.{
  ℕ, String, none, [], ◌∷◌, ◌==◌, string_eq, ◌≢◌, Bool-cases, inl, inr, if◌then◌else◌,
}
use braincrawl.Types.{backend}
use braincrawl.Exec.{ok, err, stuck, Exec}
use braincrawl.Store.{BlobStore}
use braincrawl.Store.Contents.Purge.{Purges, purge-Purges}

-- The state is never looked at.
abbrev delete_kept : String → Exec ℕ Unit
delete_kept key s = if key == "locked" then (err (backend "locked"), s) else (ok tt, s)

abbrev blobs : BlobStore ℕ
blobs = record {
  put = λ key body mime s. (ok tt, s);
  get = λ key s. (ok none, s);
  delete = delete_kept;
}

ends : (key : String) (s : ℕ) → (delete_kept key s).0 ≢ stuck
ends key s = elim (Bool-cases (key == "locked")) [ inl t ↦ rw t (λ q. cc) | inr f ↦ rw f (λ q. cc) ]

purge-Purges_example : Purges blobs ("works/a/abstract/v1" ∷ "locked" ∷ []) 0 [] 0
purge-Purges_example = purge-Purges blobs ends ("works/a/abstract/v1" ∷ "locked" ∷ []) 0 [] 0
