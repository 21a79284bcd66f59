-- ===== src/Sync/Files/Again.antt =====
-- After a run of `plan_file_sync` whose writes land, the recorded hashes are true of both sides, no
-- file is lost, and a second run transfers nothing.
use braincrawl.Base.{
  ℕ, Bool, true, false, List, [], ◌∷◌, ◌++◌, none, some, ◌==◌, list_eq, nat_eq, ◌≡◌, refl, sym, ap,
  ◌∙◌, inl, inr, is_some, arith, Bool-cases, Option-cases, Elem, filter, beq_refl, subst,
  Elem-filter, ◌≢◌, list_beq_iff,
}
use braincrawl.Base.Distinct.{Distinct}
use braincrawl.Base.Map.{Map, get, keys_of, keys_of-Elem, Elem-keys_of, keys_of-get}
use braincrawl.Base.Ordered.{collect_into, get-collect_other, get-collect_Elem, get-collect_some}
use braincrawl.Base.Scan.{Text}
use braincrawl.Sync.{Texts, content_hash}
use braincrawl.Sync.Files.{by_name, recorded_as, plan_file_sync}
use braincrawl.Sync.Files.Settled.{transfers, agrees, plan_file_sync-writes, plan_file_sync-state}

same_value :
    {V : Type 0} (k : Text) (a b : V) (l : Map Text V)
    → Distinct (keys_of l)
    → Elem (k, a) l
    → Elem (k, b) l
    → a ≡ b
same_value k a b [] d e g = absurd e
same_value k a b (p ∷ l) d (inl q) (inl r) = ap (λ x. x.1) (q ∙ sym r)
same_value k a b (p ∷ l) (out, d) (inl q) (inr g) =
    absurd (out (subst (λ x. Elem x (keys_of l)) (ap (λ x. x.0) q) (Elem-keys_of k b l g)))
same_value k a b (p ∷ l) (out, d) (inr e) (inl r) =
    absurd (out (subst (λ x. Elem x (keys_of l)) (ap (λ x. x.0) r) (Elem-keys_of k a l e)))
same_value k a b (p ∷ l) (out, d) (inr e) (inr g) = same_value k a b l d e g

filter-Distinct :
    {V : Type 0} (p : Text × V → Bool) (l : Map Text V)
    → Distinct (keys_of l)
    → Distinct (keys_of (filter p l))
filter-Distinct p [] d = tt
filter-Distinct p (x ∷ l) (out, d) = elim (Bool-cases (p x)) [
  | inl t ↦ rw t (
    λ e.
        let (v, g) = keys_of-Elem x.0 (filter p l) e in
        out (Elem-keys_of x.0 v l ((Elem-filter p (x.0, v) l).0 g).0),
    filter-Distinct p l d,
  )
  | inr f ↦ rw f (filter-Distinct p l d)
]

filter_none :
    {V : Type 0} (p : Text × V → Bool) (l : Map Text V)
    → ((n : Text) (v : V) → Elem (n, v) l → p (n, v) ≡ false)
    → filter p l ≡ []
filter_none p [] h = refl
filter_none p ((n, v) ∷ l) h = rw (h n v (inl refl)) (filter_none p l (λ m w e. h m w (inr e)))

module _ (sha256 : Text → List ℕ) (base : Map Text Text) (key_prefix : Text)
    (source dest : Texts) where
  -- What the destination holds once the writes land: any listing with these texts.
  abbrev pub Receives : Texts → Type 0
  Receives dest' =
      (n : Text)
      → get n (by_name dest')
        ≡ get n (
            collect_into (λ c. c) (by_name dest)
              (plan_file_sync sha256 source dest base key_prefix).writes)

  -- The base of the next run.
  abbrev pub next_base : Map Text Text
  next_base =
      collect_into (λ h. h) base (plan_file_sync sha256 source dest base key_prefix).state_after

  pub record FilesSynced (dest' : Texts) : Type 0 where
    pub again : (plan_file_sync sha256 source dest' next_base key_prefix).writes ≡ []
    pub recorded :
        (n h : Text)
        → get (key_prefix ++ n) (plan_file_sync sha256 source dest base key_prefix).state_after
          ≡ some h
        → ((s : Text) × Elem (n, s) source × (content_hash sha256 s ≡ h))
          × ((d : Text) × (get n (by_name dest') ≡ some d) × (content_hash sha256 d ≡ h))
    pub kept :
        (n : Text) → is_some (get n (by_name dest)) ≡ true → is_some (get n (by_name dest')) ≡ true

  module _ (dest' : Texts) (distinct : Distinct (keys_of source)) (landed : Receives dest') where
    abbrev moves : Text × Text → Bool
    moves = transfers sha256 base (by_name dest) key_prefix

    landed_lem :
        (n : Text)
        → get n (by_name dest') ≡ get n (collect_into (λ c. c) (by_name dest) (filter moves source))
    landed_lem n =
        landed n
        ∙ ap (λ w. get n (collect_into (λ c. c) (by_name dest) w))
            (plan_file_sync-writes sha256 base key_prefix source dest)

    written :
        (n s : Text) → Elem (n, s) source → moves (n, s) ≡ true → get n (by_name dest') ≡ some s
    written n s e t =
        landed_lem n
        ∙ get-collect_Elem (λ c. c) n s (filter moves source) (by_name dest)
            (filter-Distinct moves source distinct) ((Elem-filter moves (n, s) source).1 (e, t))

    unwritten :
        (n s : Text)
        → Elem (n, s) source
        → moves (n, s) ≡ false
        → get n (by_name dest') ≡ get n (by_name dest)
    unwritten n s e f =
        landed_lem n
        ∙ get-collect_other (λ c. c) n (filter moves source) (by_name dest)
            (λ g.
              let (v, k) = keys_of-Elem n (filter moves source) g in
              let (l, t) = (Elem-filter moves (n, v) source).0 k in
              let same : s ≡ v = same_value n s v source distinct e l in
              cc (sym f ∙ ap (λ x. moves (n, x)) same ∙ t))

    -- A file that was transferred is the source's; of one that was not, the text and the recorded
    -- hash are as they were, unless both sides hold one text.
    settles :
        (n s : Text)
        → Elem (n, s) source
        → transfers sha256 next_base (by_name dest') key_prefix (n, s) ≡ false
    settles n s e = elim (Bool-cases (moves (n, s))) [
      | inl t ↦ rw (written n s e t) (rw (beq_refl (content_hash sha256 s)) refl)
      | inr f ↦ rw (unwritten n s e f) (elim (Option-cases (get n (by_name dest))) [
        | inl q ↦
            let was : is_some (get (key_prefix ++ n) base) ≡ true = absent q f in
            rw
              (
                q,
                get-collect_some (λ h. h) (key_prefix ++ n)
                    (plan_file_sync sha256 source dest base key_prefix).state_after base was,
              )
              refl
        | inr (d, q) ↦ rw q (elim (Bool-cases (content_hash sha256 d == content_hash sha256 s)) [
          | inl t ↦ rw t refl
          | inr g ↦
              rw
                (
                  g,
                  get-collect_other (λ h. h) (key_prefix ++ n)
                      (plan_file_sync sha256 source dest base key_prefix).state_after base
                      (untouched d q g f),
                )
                (differs d q g f)
        ])
      ])
    ]
      where
        absent :
            get n (by_name dest) ≡ none
            → moves (n, s) ≡ false
            → is_some (get (key_prefix ++ n) base) ≡ true
        absent q f = ground arith

        differs :
            (d : Text)
            → get n (by_name dest) ≡ some d
            → (content_hash sha256 d == content_hash sha256 s) ≡ false
            → moves (n, s) ≡ false
            → recorded_as (get (key_prefix ++ n) base) (content_hash sha256 d) ≡ false
        differs d q g f = ground arith

        untouched :
            (d : Text)
            → get n (by_name dest) ≡ some d
            → (content_hash sha256 d == content_hash sha256 s) ≡ false
            → moves (n, s) ≡ false
            → ¬ Elem
                (key_prefix ++ n)
                (keys_of (plan_file_sync sha256 source dest base key_prefix).state_after)
        untouched d q g f e' =
            let (h, k) =
              keys_of-get (key_prefix ++ n)
                (plan_file_sync sha256 source dest base key_prefix).state_after e' in
            let (v, l, a, w) = plan_file_sync-state sha256 base key_prefix source dest n h k in
            let same : v ≡ s = same_value n v s source distinct l e in
            let b : agrees sha256 base (by_name dest) key_prefix (n, s) ≡ true =
              subst (λ x. agrees sha256 base (by_name dest) key_prefix (n, x) ≡ true) same a in
            ground arith

    true_of_both :
        (n h : Text)
        → get (key_prefix ++ n) (plan_file_sync sha256 source dest base key_prefix).state_after
          ≡ some h
        → ((s : Text) × Elem (n, s) source × (content_hash sha256 s ≡ h))
          × ((d : Text) × (get n (by_name dest') ≡ some d) × (content_hash sha256 d ≡ h))
    true_of_both n h e =
        let (s, l, a, w) = plan_file_sync-state sha256 base key_prefix source dest n h e in
        (
          (s, l, w),
          elim (Bool-cases (moves (n, s))) [
            | inl t ↦ (s, written n s l t, w)
            | inr f ↦ elim (Option-cases (get n (by_name dest))) [
              | inl q ↦ absurd (lost s a f q)
              | inr (d, q) ↦ (d, unwritten n s l f ∙ q, held d s a f q ∙ w)
            ]
          ],
        )
      where
        lost :
            (s : Text)
            → agrees sha256 base (by_name dest) key_prefix (n, s) ≡ true
            → moves (n, s) ≡ false
            → get n (by_name dest) ≢ none
        lost s a f q = ground arith

        held :
            (d s : Text)
            → agrees sha256 base (by_name dest) key_prefix (n, s) ≡ true
            → moves (n, s) ≡ false
            → get n (by_name dest) ≡ some d
            → content_hash sha256 d ≡ content_hash sha256 s
        held d s a f q =
            ground (arith, list_beq_iff (content_hash sha256 d) (content_hash sha256 s))

    -- Where the source's names are distinct and the writes of a run land: each recorded hash is that
    -- of a text of the source and of the text that the destination then has, no name is lost, and a
    -- second run, from the base that the first leaves, writes nothing.
    pub plan_file_sync-FilesSynced : FilesSynced dest'
    plan_file_sync-FilesSynced = record {
      again =
          plan_file_sync-writes sha256 next_base key_prefix source dest'
          ∙ filter_none (transfers sha256 next_base (by_name dest') key_prefix) source settles;
      recorded = true_of_both;
      kept = λ n h. rw (landed n) (
          get-collect_some (λ c. c) n (plan_file_sync sha256 source dest base key_prefix).writes
            (by_name dest) h);
    }
