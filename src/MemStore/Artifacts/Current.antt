-- ===== src/MemStore/Artifacts/Current.antt =====
-- One current version to a role, and what a read after a write gives.
use braincrawl.Base.{
  ℕ, ◌+◌, ◌≤◌, ◌<◌, String, true, false, Option, none, some, List, [], ◌∷◌, ◌++◌, Elem, string_eq,
  pair_eq, if◌then◌else◌, ◌≡◌, inl, inr, refl, ap, arith, Option-cases, Bool-cases, beq_refl, ◌==◌,
  filter,
}
use braincrawl.Base.Map.{Map, get, get-insert, keys}
use braincrawl.Types.{CanonicalId, Artifact, ArtifactRole, as_str}
use braincrawl.Exec.{ok}
use braincrawl.MemStore.{MemStoreInner, or_default}
use braincrawl.MemStore.Repoint.{move_all_keeps}
use braincrawl.MemStore.Merge.{demote, has_current, fold_artifacts, merge_artifacts, to_survivor}
use braincrawl.MemStore.Artifacts.{
  current_of, current_artifact, max_version, next_version, recorded, record_artifact,
}

abbrev pub count_current : List Artifact → ℕ
count_current [] = 0
count_current (d ∷ rows) = (if d.is_current then 1 else 0) + count_current rows

count-append :
    (xs ys : List Artifact) → count_current (xs ++ ys) ≡ count_current xs + count_current ys
count-append [] ys = omega arith
count-append (d ∷ xs) ys = omega (arith, count-append xs ys)

count-demote : (rows : List Artifact) → count_current (demote rows) ≡ 0
count-demote [] = refl
count-demote (d ∷ rows) = omega (arith, count-demote rows)

count_none : (rows : List Artifact) → has_current rows ≡ false → count_current rows ≡ 0
count_none [] h = refl
count_none (d ∷ rows) h = ground (arith, count_none rows)

-- Each role of each work has at most one current version.
abbrev pub OneCurrent : Map (String × String) (List Artifact) → Type 0
OneCurrent m =
    (k : String × String) (rows : List Artifact) → get k m ≡ some rows → count_current rows ≤ 1

count-recorded :
    (d : Artifact) (rows : List Artifact)
    → count_current rows ≤ 1
    → count_current (recorded d rows) ≤ 1
unfolding recorded
count-recorded d rows h =
    ground
      (arith, count-append rows (d ∷ []), count-append (demote rows) (d ∷ []), count-demote rows)

count-fold_artifacts :
    (old : Option (List Artifact)) (rows : List Artifact)
    → ((w : List Artifact) → old ≡ some w → count_current w ≤ 1)
    → count_current rows ≤ 1
    → count_current (fold_artifacts old rows) ≤ 1
unfolding fold_artifacts
count-fold_artifacts none rows h k = k
count-fold_artifacts (some w) rows h k = ground (
  arith,
  h w refl,
  count_none w,
  count-append w rows,
  count-append w (demote rows),
  count-demote rows,
)

-- Where each role of each work has at most one current version, it has so after a merge.
pub merge_artifacts-OneCurrent :
    (survivor loser : String) (m : Map (String × String) (List Artifact))
    → OneCurrent m
    → OneCurrent (merge_artifacts survivor loser m)
unfolding merge_artifacts
merge_artifacts-OneCurrent survivor loser m h =
    move_all_keeps (to_survivor survivor) fold_artifacts (λ rows. count_current rows ≤ 1)
      count-fold_artifacts (filter (λ k. k.0 == loser) (keys m)) m h

-- Where each role of each work has at most one current version, it has so after a descriptor is
-- recorded.
pub record_artifact-OneCurrent :
    (d : Artifact) (s : MemStoreInner)
    → OneCurrent s.artifacts
    → OneCurrent (record_artifact d s).1.artifacts
unfolding record_artifact
record_artifact-OneCurrent d s h k rows e =
    let key : String × String = (d.canonical_id, as_str d.role) in
    let old = or_default (get key s.artifacts) in
    elim (Bool-cases (key == k)) [
      | inl q ↦
          let same : recorded d old ≡ rows =
            ground (arith, get-insert key k (recorded d old) s.artifacts) in
          rw (← same) (count-recorded d old (held key))
      | inr q ↦ h k rows (ground (arith, get-insert key k (recorded d old) s.artifacts))
    ]
  where
    held : (key : String × String) → count_current (or_default (get key s.artifacts)) ≤ 1
    held key = elim (Option-cases (get key s.artifacts)) [
      | inl gone ↦ rw gone (omega arith)
      | inr (w, there) ↦ rw there (h key w there)
    ]

find-demote :
    (rows : List Artifact) (d : Artifact)
    → d.is_current ≡ true
    → current_of (demote rows ++ d ∷ []) ≡ some d
find-demote [] d h = rw h
find-demote (r ∷ rows) d h = find-demote rows d h

find-recorded :
    (d : Artifact) (rows : List Artifact)
    → d.is_current ≡ true
    → current_of (recorded d rows) ≡ some d
unfolding recorded
find-recorded d rows h = ground (arith, find-demote rows d h)

-- A current descriptor that was recorded is the one that is read as current.
pub current_artifact-record_artifact :
    (d : Artifact) (s : MemStoreInner)
    → d.is_current ≡ true
    → (current_artifact d.canonical_id d.role (record_artifact d s).1).0 ≡ ok (some d)
unfolding current_artifact record_artifact
current_artifact-record_artifact d s h =
    let key : String × String = (d.canonical_id, as_str d.role) in
    let old = or_default (get key s.artifacts) in
    rw (get-insert key key (recorded d old) s.artifacts, beq_refl key)
      (ap ok (find-recorded d old h))

-- The next version is past every version that the role holds.
Elem-max_version :
    (d : Artifact) (rows : List Artifact) → Elem d rows → d.version ≤ max_version rows
unfolding max_version
Elem-max_version d [] h = absurd h
Elem-max_version d (r ∷ rows) (inl q) = omega (arith, ap (λ (x : Artifact). x.version) q)
Elem-max_version d (r ∷ rows) (inr t) = omega (arith, Elem-max_version d rows t)

-- The next version of a role is at least 1, and above every version that the role holds.
pub next_version_fresh :
    (id : CanonicalId) (role : ArtifactRole) (s : MemStoreInner)
    → (n : ℕ) × (next_version id role s ≡ (ok n, s))
      × (1 ≤ n)
      × ((d : Artifact) → Elem d (or_default (get (id, as_str role) s.artifacts)) → d.version < n)
unfolding next_version
next_version_fresh id role s = elim (Option-cases (get (id, as_str role) s.artifacts)) [
  | inl gone ↦ rw (gone, next_version) (1, refl, omega arith, λ d h. absurd h)
  | inr (rows, there) ↦
      rw (there, next_version)
        (max_version rows + 1, refl, omega arith, λ d h. omega (arith, Elem-max_version d rows h))
]
