-- ===== src/Store/Contents/Purge.antt =====
-- The loop of `delete_work` over the blobs.
use braincrawl.Base.{
  ℕ, suc, ◌+◌, String, List, [], ◌∷◌, ◌++◌, ◌≡◌, ◌≢◌, refl, sym, ap, ap₂, ◌∙◌, arith, append_assoc,
  append-nil,
}
use braincrawl.Types.{DomainError}
use braincrawl.Exec.{Result, ok, err, stuck}
use braincrawl.Store.{BlobStore}
use braincrawl.Store.Contents.{purge}

-- The deletions, one after the other, each from the state that the one before leaves: so many that
-- returned, and the keys of those that failed.
pub data Deletions {S : Type 0} (blob : BlobStore S)
    : List String → S → ℕ → List String → S → Type 0 where
  ended : {s : S} → Deletions blob [] s 0 [] s
  removed :
      {key : String} {keys : List String} {s t after : S} {n : ℕ} {orphans : List String}
      → blob.delete key s ≡ (ok tt, t)
      → Deletions blob keys t n orphans after
      → Deletions blob (key ∷ keys) s (suc n) orphans after
  kept :
      {key : String} {keys : List String} {s t after : S} {n : ℕ} {orphans : List String}
      (e : DomainError)
      → blob.delete key s ≡ (err e, t)
      → Deletions blob keys t n orphans after
      → Deletions blob (key ∷ keys) s n (key ∷ orphans) after

pub record Purges {S : Type 0} (blob : BlobStore S) (keys : List String) (deleted : ℕ)
    (orphans : List String) (s : S) : Type 0 where
  pub removals : ℕ
  pub failures : List String
  pub after : S
  pub deletions : Deletions blob keys s removals failures after
  pub returns :
      purge blob keys deleted orphans s ≡ (ok (deleted + removals, orphans ++ failures), after)

module _ {S : Type 0} (blob : BlobStore S)
    (ends : (key : String) (s : S) → (blob.delete key s).0 ≢ stuck) where
  -- One key, and the rest of the loop.
  purge_step :
      (key : String) (keys : List String) (deleted : ℕ) (orphans : List String) (s : S)
      (out : Result {0} (Unit {0}) × S)
      → blob.delete key s ≡ out
      → ((t : S) → Purges blob keys (deleted + 1) orphans t)
      → ((t : S) → Purges blob keys deleted (orphans ++ key ∷ []) t)
      → Purges blob (key ∷ keys) deleted orphans s
  unfolding purge
  purge_step key keys deleted orphans s (ok u, t) q good bad =
      let rest = good t in
      record {
        removals = suc rest.removals;
        failures = rest.failures;
        after = rest.after;
        deletions = removed q rest.deletions;
        returns =
            rw q (
              rest.returns
              ∙ ap (λ n. (ok (n, orphans ++ rest.failures), rest.after)) (omega arith));
      }
  purge_step key keys deleted orphans s (err f, t) q good bad =
      let rest = bad t in
      record {
        removals = rest.removals;
        failures = key ∷ rest.failures;
        after = rest.after;
        deletions = kept f q rest.deletions;
        returns = rw q (
            rest.returns
            ∙ ap (λ l. (ok (deleted + rest.removals, l), rest.after))
                (append_assoc orphans (key ∷ []) rest.failures));
      }
  purge_step key keys deleted orphans s (stuck, t) q good bad =
      absurd (ends key s (ap (λ x. x.0) q))

  -- Where every deletion of a blob returns or fails, the loop ends without a failure: each key is
  -- deleted once, in their order and each from the state that the one before leaves; those that
  -- returned are added to the count, and the keys of those that failed to the orphans.
  pub purge-Purges :
      (keys : List String) (deleted : ℕ) (orphans : List String) (s : S)
      → Purges blob keys deleted orphans s
  unfolding purge
  purge-Purges [] deleted orphans s = record {
    removals = 0;
    failures = [];
    after = s;
    deletions = ended;
    returns = ap₂ (λ n l. (ok (n, l), s)) (omega arith) (sym (append-nil orphans));
  }
  purge-Purges (key ∷ keys) deleted orphans s =
      purge_step key keys deleted orphans s (blob.delete key s) refl
        (purge-Purges keys (deleted + 1) orphans) (purge-Purges keys deleted (orphans ++ key ∷ []))
