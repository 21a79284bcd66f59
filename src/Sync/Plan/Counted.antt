-- ===== src/Sync/Plan/Counted.antt =====
-- The texts to write are no more than the changes that the plan counts.
use braincrawl.Base.{
  ℕ, ◌≤◌, true, false, Bool, List, [], ◌∷◌, Option, none, some, ◌==◌, list_eq, nat_eq, ◌≡◌, inl,
  inr, arith, length, Bool-cases, Option-cases, any, is_some, subst, ap,
}
use braincrawl.Base.Map.{Map, get}
use braincrawl.Base.Ordered.{length-put}
use braincrawl.Base.Scan.{Text}
use braincrawl.Sync.{DocUnits, Texts, meta_hash}
use braincrawl.Sync.Files.{recorded_as}
use braincrawl.Sync.Merge.{Merging, doc_state_key}
use braincrawl.Sync.Merge.Counted.{IsCounted}
use braincrawl.Sync.Plan.{merge_front, merge_meta, merge_metas, note_created, page_writes}

module _ (sha256 : Text → List ℕ) (base : Map Text Text) where
  merge_meta-IsCounted :
      (slug : Text) (s_units : DocUnits) (st : Merging) (o : Option DocUnits)
      → IsCounted st
      → IsCounted (merge_meta sha256 base slug s_units st o)
  unfolding merge_meta merge_front
  merge_meta-IsCounted slug s_units st none h = h
  merge_meta-IsCounted slug s st (some d) h =
      elim (Bool-cases (meta_hash sha256 s == meta_hash sha256 d)) [
        | inl t ↦ rw t h
        | inr f ↦
            rw f
              (elim (Bool-cases
                (recorded_as (get (doc_state_key slug) base) (meta_hash sha256 d))) [
                  | inl t ↦ rw t (omega (arith, h, length-put slug true st.changed))
                  | inr g ↦
                      rw g
                        (elim (Bool-cases
                          (recorded_as (get (doc_state_key slug) base) (meta_hash sha256 s))) [
                            | inl t ↦ rw t h
                            | inr k ↦ rw k h
                          ])
                ])
      ]

  pub merge_metas-IsCounted :
      (docs : List (Text × DocUnits)) (st : Merging)
      → IsCounted st
      → IsCounted (merge_metas sha256 base docs st)
  unfolding merge_metas
  merge_metas-IsCounted [] st h = h
  merge_metas-IsCounted ((slug, s_units) ∷ docs) st h =
      merge_metas-IsCounted docs (merge_meta sha256 base slug s_units st (get slug st.dest_units))
        (merge_meta-IsCounted slug s_units st (get slug st.dest_units) h)

  pub note_created-IsCounted :
      (dest : Texts) (docs : List (Text × DocUnits)) (st : Merging)
      → IsCounted st
      → IsCounted (note_created sha256 base dest docs st)
  unfolding note_created
  note_created-IsCounted dest [] st h = h
  note_created-IsCounted dest ((slug, s) ∷ docs) st h =
      note_created-IsCounted dest docs _
        (elim (Bool-cases (any {A = Text × Text} (λ p. p.0 == slug) dest)) [
          | inl t ↦ rw t h
          | inr f ↦ rw f (elim (Bool-cases (is_some (get slug st.dest_units))) [
            | inl t ↦ rw t h
            | inr g ↦ rw g h
          ])
        ])

abbrev size : Option Texts → ℕ
size none = 0
size (some writes) = length writes

pub length-page_writes :
    (st : Merging) (l : List (Text × Bool)) (writes : Texts)
    → page_writes st l ≡ some writes
    → length writes ≤ length l
unfolding page_writes
length-page_writes st [] writes e = subst (λ (x : Option Texts). size x ≤ 0) e (omega arith)
length-page_writes st ((s, false) ∷ l) writes e = omega (arith, length-page_writes st l writes e)
length-page_writes st ((s, true) ∷ l) writes e = elim (Option-cases (get s st.dest_units)) [
  | inl gone ↦ cc (rw gone at e)
  | inr (u, there) ↦ elim (Option-cases (page_writes st l)) [
    | inl gone ↦ cc (rw (there, gone) at e)
    | inr (later, q) ↦ omega (arith, length-page_writes st l later q, ap size (rw (there, q) at e))
  ]
]
