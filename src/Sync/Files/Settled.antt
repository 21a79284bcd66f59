-- ===== src/Sync/Files/Settled.antt =====
-- What a run of `plan_file_sync` transfers, and what a second run does.
use mathlib.Core.List.{append_cancel_left}
use mathlib.Core.Option.{some-injective}
use braincrawl.Base.{
  ℕ, ◌+◌, Bool, true, false, not, List, [], ◌∷◌, ◌++◌, Option, none, some, if◌then◌else◌, ◌==◌,
  list_eq, nat_eq, ◌≡◌, refl, sym, ap, ◌∙◌, inl, inr, is_some, arith, Bool-cases, Elem, filter,
  append-nil, append_assoc, list_beq_iff, ◌⊎◌, subst,
}
use braincrawl.Base.Map.{Map, get}
use braincrawl.Base.Ordered.{get-put}
use braincrawl.Base.Scan.{Text}
use braincrawl.Sync.{Texts, content_hash}
use braincrawl.Sync.Files.{
  FilePlan, no_plan, recorded_as, by_name, plan_file, plan_files, is_deleted, report_deleted,
  plan_file_sync,
}

module _ (sha256 : Text → List ℕ) where
  -- By the destination's text, the recorded hash and the source's text: the destination gets the
  -- source's. It has no such file and none is recorded, or what it has is what is recorded, and
  -- differs from the source's.
  abbrev pub moved : Option Text → Option Text → Text → Bool
  moved none recorded s = not (is_some recorded)
  moved (some d) recorded s =
      if content_hash sha256 d == content_hash sha256 s
      then false
      else recorded_as recorded (content_hash sha256 d)

  -- Both sides hold the source's text when the run ends.
  abbrev pub agreed : Option Text → Option Text → Text → Bool
  agreed none recorded s = not (is_some recorded)
  agreed (some d) recorded s =
      if content_hash sha256 d == content_hash sha256 s
      then true
      else recorded_as recorded (content_hash sha256 d)

module _ (sha256 : Text → List ℕ) (base dest : Map Text Text) (key_prefix : Text) where
  abbrev pub transfers : Text × Text → Bool
  transfers f = moved sha256 (get f.0 dest) (get (key_prefix ++ f.0) base) f.1

  abbrev pub agrees : Text × Text → Bool
  agrees f = agreed sha256 (get f.0 dest) (get (key_prefix ++ f.0) base) f.1

  plan_file-writes :
      (p : FilePlan) (n s : Text)
      → (plan_file sha256 base key_prefix dest p n s).writes
        ≡ p.writes ++ (if transfers (n, s) then (n, s) ∷ [] else [])
  unfolding plan_file
  plan_file-writes p n s = ground (arith, append-nil p.writes)

  plan_file-state :
      (p : FilePlan) (n s k : Text)
      → get k (plan_file sha256 base key_prefix dest p n s).state_after ≡ (
          if agrees (n, s)
          then (if key_prefix ++ n == k then some (content_hash sha256 s) else get k p.state_after)
          else get k p.state_after)
  unfolding plan_file
  plan_file-state p n s k =
      ground (arith, get-put (key_prefix ++ n) k (content_hash sha256 s) p.state_after)

  plan_files-writes :
      (source : Texts) (p : FilePlan)
      → (plan_files sha256 base key_prefix dest p source).writes
        ≡ p.writes ++ filter transfers source
  unfolding plan_files
  plan_files-writes [] p = sym (append-nil p.writes)
  plan_files-writes ((n, s) ∷ source) p =
      plan_files-writes source (plan_file sha256 base key_prefix dest p n s)
      ∙ rw (plan_file-writes p n s) (elim (Bool-cases (transfers (n, s))) [
        | inl t ↦ rw t (append_assoc p.writes ((n, s) ∷ []) (filter transfers source))
        | inr f ↦ rw f (ap (λ w. w ++ filter transfers source) (append-nil p.writes))
      ])

  -- What is recorded of a file is the hash of a text that the source has and that both sides then
  -- agree on.
  plan_files-state :
      (source : Texts) (p : FilePlan) (n h : Text)
      → get (key_prefix ++ n) (plan_files sha256 base key_prefix dest p source).state_after ≡ some h
      → (get (key_prefix ++ n) p.state_after ≡ some h)
        ⊎ ((s : Text) × Elem (n, s) source × (agrees (n, s) ≡ true) × (content_hash sha256 s ≡ h))
  unfolding plan_files
  plan_files-state [] p n h e = inl e
  plan_files-state ((m, t) ∷ source) p n h e =
      elim (plan_files-state source (plan_file sha256 base key_prefix dest p m t) n h e) [
        | inr (s, l, a, q) ↦ inr (s, inr l, a, q)
        | inl q ↦ step (rw (plan_file-state p m t (key_prefix ++ n)) at q)
      ]
    where
      step :
          (if agrees (m, t)
              then (if key_prefix ++ m == key_prefix ++ n
                  then some (content_hash sha256 t)
                  else get (key_prefix ++ n) p.state_after)
              else get (key_prefix ++ n) p.state_after)
            ≡ some h
          → (get (key_prefix ++ n) p.state_after ≡ some h)
            ⊎ ((s : Text) × Elem (n, s) ((m, t) ∷ source)
                × (agrees (n, s) ≡ true)
                × (content_hash sha256 s ≡ h))
      step q = elim (Bool-cases (agrees (m, t))) [
        | inr f ↦ inl (rw f at q)
        | inl g ↦ elim (Bool-cases (key_prefix ++ m == key_prefix ++ n)) [
          | inr f ↦ inl (rw (g, f) at q)
          | inl b ↦
              let same : m ≡ n =
                append_cancel_left key_prefix m n
                  ((list_beq_iff (key_prefix ++ m) (key_prefix ++ n)).0 b) in
              inr (
                t,
                inl (ap (λ x. (x, t)) (sym same)),
                subst (λ x. agrees (x, t) ≡ true) same g,
                some-injective _ _ (rw (g, b) at q),
              )
        ]
      ]

module _ (sha256 : Text → List ℕ) (base : Map Text Text) (key_prefix : Text) where
  report_deleted_keeps :
      (names : Map Text Text) (p : FilePlan) (dest : Texts)
      → ((report_deleted sha256 base key_prefix names p dest).writes ≡ p.writes)
        × ((report_deleted sha256 base key_prefix names p dest).state_after ≡ p.state_after)
  unfolding report_deleted
  report_deleted_keeps names p [] = (refl, refl)
  report_deleted_keeps names p ((n, d) ∷ dest) = ground (
    arith,
    report_deleted_keeps names
        (if is_deleted sha256 base key_prefix names n
          then record p { deleted_reported = p.deleted_reported + 1 }
          else p)
        dest,
  )

  -- A run writes what is to be transferred, in the source's order.
  pub plan_file_sync-writes :
      (source dest : Texts)
      → (plan_file_sync sha256 source dest base key_prefix).writes
        ≡ filter (transfers sha256 base (by_name dest) key_prefix) source
  unfolding plan_file_sync
  plan_file_sync-writes source dest =
      (report_deleted_keeps (by_name source) _ dest).0
      ∙ plan_files-writes sha256 base (by_name dest) key_prefix source no_plan

  pub plan_file_sync-state :
      (source dest : Texts) (n h : Text)
      → get (key_prefix ++ n) (plan_file_sync sha256 source dest base key_prefix).state_after
        ≡ some h
      → (s : Text) × Elem (n, s) source
        × (agrees sha256 base (by_name dest) key_prefix (n, s) ≡ true)
        × (content_hash sha256 s ≡ h)
  unfolding plan_file_sync
  plan_file_sync-state source dest n h e =
      elim (plan_files-state sha256 base (by_name dest) key_prefix source no_plan n h
        (ap (get (key_prefix ++ n)) (sym (report_deleted_keeps (by_name source) _ dest).1) ∙ e)) [
          | inl q ↦ unfold get in cc
          | inr r ↦ r
        ]
