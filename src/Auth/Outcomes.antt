-- ===== src/Auth/Outcomes.antt =====
-- The outcomes of a request against a shared secret, and the addresses that an allowlist admits.
use braincrawl.Base.{
  ◌∙◌, ℕ, zero, suc, Bool, true, false, List, [], ◌∷◌, ◌++◌, Option, none, some, ◌≡◌, ◌≢◌, refl, ap,
  sym, subst, ◌↔◌, ◌/◌, ◌%◌, All, All-append, Elem, any, Bool-cases, Option-cases, inl, inr, arith,
  ◌==◌, list_eq, nat_eq, eq_of_beq, ne_of_beq, beq_refl, if◌then◌else◌,
}
use braincrawl.Base.Hash.{hex_digit, to_hex}
use braincrawl.Base.Text.{codes}
use braincrawl.Base.Decimal.{codes-append}
use braincrawl.Base.Scan.{Text, split_on, strip_prefix}
use braincrawl.Base.Scan.Prefixes.{strip_prefix_lem}
use braincrawl.Auth.{
  authenticated, unauthenticated, forbidden, lookup, secret_allowlist, hex_bytes, outcome_of,
  hash_token, shared_secret, authorize, parse_bearer, ct_eq, normalize_email, entry_is, is_empty,
  email_allowed,
}
use braincrawl.Auth.Bits.{IsByte, ct_eq_iff}

hex_digit-IsByte : (d : ℕ) → All IsByte (codes (hex_digit d))
unfolding hex_digit
hex_digit-IsByte zero = (omega arith, tt)
hex_digit-IsByte (suc zero) = (omega arith, tt)
hex_digit-IsByte (suc (suc zero)) = (omega arith, tt)
hex_digit-IsByte (suc (suc (suc zero))) = (omega arith, tt)
hex_digit-IsByte (suc (suc (suc (suc zero)))) = (omega arith, tt)
hex_digit-IsByte (suc (suc (suc (suc (suc zero))))) = (omega arith, tt)
hex_digit-IsByte (suc (suc (suc (suc (suc (suc zero)))))) = (omega arith, tt)
hex_digit-IsByte (suc (suc (suc (suc (suc (suc (suc zero))))))) = (omega arith, tt)
hex_digit-IsByte (suc (suc (suc (suc (suc (suc (suc (suc zero)))))))) = (omega arith, tt)
hex_digit-IsByte (suc (suc (suc (suc (suc (suc (suc (suc (suc zero))))))))) = (omega arith, tt)
hex_digit-IsByte (suc (suc (suc (suc (suc (suc (suc (suc (suc (suc zero)))))))))) =
    (omega arith, tt)
hex_digit-IsByte (suc (suc (suc (suc (suc (suc (suc (suc (suc (suc (suc zero))))))))))) =
    (omega arith, tt)
hex_digit-IsByte (suc (suc (suc (suc (suc (suc (suc (suc (suc (suc (suc (suc zero)))))))))))) =
    (omega arith, tt)
hex_digit-IsByte
      (suc (suc (suc (suc (suc (suc (suc (suc (suc (suc (suc (suc (suc zero))))))))))))) =
    (omega arith, tt)
hex_digit-IsByte
      (suc (suc (suc (suc (suc (suc (suc (suc (suc (suc (suc (suc (suc (suc zero)))))))))))))) =
    (omega arith, tt)
hex_digit-IsByte
      (suc (suc (suc (suc (suc (suc (suc (suc (suc (suc (suc (suc (suc (suc (suc d))))))))))))))) =
    (omega arith, tt)

to_hex-IsByte : (width n : ℕ) → All IsByte (codes (to_hex width n))
unfolding to_hex
to_hex-IsByte zero n = tt
to_hex-IsByte (suc width) n =
    rw (codes-append (to_hex width (n / 16)) (hex_digit (n % 16)))
      (All-append IsByte _ _ (to_hex-IsByte width (n / 16)) (hex_digit-IsByte (n % 16)))

hex_bytes-IsByte : (digest : List ℕ) → All IsByte (hex_bytes digest)
unfolding hex_bytes
hex_bytes-IsByte [] = tt
hex_bytes-IsByte (b ∷ digest) = All-append IsByte _ _ (to_hex-IsByte 2 b) (hex_bytes-IsByte digest)

module _ (sha256 : List ℕ → List ℕ) where
  hash_token-IsByte : (token : Text) → All IsByte (hash_token sha256 token)
  unfolding hash_token
  hash_token-IsByte token = hex_bytes-IsByte (sha256 token)

  turned_away :
      (secret tenant : Text) (header : Option Text)
      → ((token : Text) → header ≢ some (codes "Bearer " ++ token))
      → authorize sha256 (secret_allowlist (shared_secret sha256 secret tenant)) header
        ≡ unauthenticated
  unfolding authorize parse_bearer strip_prefix
  turned_away secret tenant none no_token = refl
  turned_away secret tenant (some h) no_token =
      elim (Option-cases (strip_prefix (codes "Bearer ") h)) [
        | inl e ↦ rw e refl
        | inr (token, e) ↦
            absurd (no_token token (ap some ((strip_prefix_lem (codes "Bearer ") h token).0 e)))
      ]

  bearer :
      (secret tenant token : Text)
      → authorize sha256
          (secret_allowlist (shared_secret sha256 secret tenant))
          (some (codes "Bearer " ++ token))
        ≡ (if hash_token sha256 token == hash_token sha256 secret
            then authenticated tenant
            else forbidden)
  unfolding authorize parse_bearer shared_secret lookup outcome_of strip_prefix
  bearer secret tenant token =
      let (out, into) =
        ct_eq_iff (hash_token sha256 secret) (hash_token sha256 token) (hash_token-IsByte secret)
          (hash_token-IsByte token) in
      elim (Bool-cases (hash_token sha256 token == hash_token sha256 secret)) [
        | inl t ↦
            rw (t, into (sym (eq_of_beq (hash_token sha256 token) (hash_token sha256 secret) t)))
              refl
        | inr f ↦ elim (Bool-cases (ct_eq (hash_token sha256 secret) (hash_token sha256 token))) [
          | inl t ↦
              absurd
                (ne_of_beq (hash_token sha256 token) (hash_token sha256 secret) f (sym (out t)))
          | inr g ↦ rw (f, g) refl
        ]
      ]

  known_form :
      (secret tenant token : Text)
      → authorize sha256
          (secret_allowlist (shared_secret sha256 secret tenant))
          (some (codes "Bearer " ++ token))
        ≢ unauthenticated
  known_form secret tenant token q =
      let e = sym (bearer secret tenant token) ∙ q in
      elim (Bool-cases (hash_token sha256 token == hash_token sha256 secret)) [
        | inl t ↦ cc (rw t at e)
        | inr f ↦ cc (rw f at e)
      ]

  -- The outcomes of the requests against one secret.
  abbrev pub Outcomes : Text → Text → Type 0
  Outcomes secret tenant =
      let outcome = authorize sha256 (secret_allowlist (shared_secret sha256 secret tenant)) in
      ((token : Text)
        → outcome (some (codes "Bearer " ++ token)) ≡ (
            if hash_token sha256 token == hash_token sha256 secret
            then authenticated tenant
            else forbidden))
      × ((header : Option Text)
          → (outcome header ≡ unauthenticated)
            ↔ ((token : Text) → header ≢ some (codes "Bearer " ++ token)))

  -- A request whose header is `Bearer ` and a token is let in as the tenant where the token has the
  -- hash of the secret, and is forbidden where it has another; it is unauthenticated exactly where
  -- it has no header or one of another form.
  pub authorize_lem : (secret tenant : Text) → Outcomes secret tenant
  authorize_lem secret tenant = (
    bearer secret tenant,
    λ header. (
      λ e token q. known_form secret tenant token (
          subst
            (λ h.
              authorize sha256 (secret_allowlist (shared_secret sha256 secret tenant)) h
              ≡ unauthenticated)
            q e),
      turned_away secret tenant header,
    ),
  )

any_iff :
    (p : Text → Bool) (xs : List Text)
    → (any p xs ≡ true) ↔ ((x : Text) × (Elem x xs × (p x ≡ true)))
any_iff p xs = (out xs, λ (x, (e, h)). into x xs e h)
  where
    out : (ys : List Text) → any p ys ≡ true → (x : Text) × (Elem x ys × (p x ≡ true))
    out [] e = cc
    out (y ∷ ys) e = elim (Bool-cases (p y)) [
      | inl t ↦ (y, (inl refl, t))
      | inr f ↦ let (x, (h, k)) = out ys (rw f at e) in (x, (inr h, k))
    ]

    into : (x : Text) (ys : List Text) → Elem x ys → p x ≡ true → any p ys ≡ true
    into x [] h k = absurd h
    into x (y ∷ ys) (inl q) k = rw (sym q, k) refl
    into x (y ∷ ys) (inr h) k = elim (Bool-cases (p y)) [
      | inl t ↦ rw t refl
      | inr f ↦ rw f (into x ys h k)
    ]

module _ (to_lowercase : Text → Text) where
  entry_is_iff :
      (target entry : Text)
      → (entry_is to_lowercase target entry ≡ true)
        ↔ ((normalize_email to_lowercase entry ≡ target) × (target ≢ []))
  unfolding entry_is is_empty
  entry_is_iff target entry = compared (normalize_email to_lowercase entry)
    where
      compared :
          (n : Text)
          → ((if is_empty n then false else n == target) ≡ true) ↔ ((n ≡ target) × (target ≢ []))
      compared [] = (λ e. cc, λ (q, ne). absurd (ne (sym q)))
      compared (c ∷ s) = (
        λ e. let q = eq_of_beq (c ∷ s) target e in (q, λ r. cc (q, r)),
        λ (q, ne). subst (λ t. ((c ∷ s) == t) ≡ true) q (beq_refl (c ∷ s)),
      )

  -- An address is admitted exactly where its normal form is not empty and is that of an entry
  -- between the commas.
  pub email_allowed_iff :
      (allowlist_csv email : Text)
      → (email_allowed to_lowercase allowlist_csv email ≡ true) ↔ (
          (normalize_email to_lowercase email ≢ [])
          × ((entry : Text) × (Elem entry (split_on b',' allowlist_csv)
                × (normalize_email to_lowercase entry ≡ normalize_email to_lowercase email))))
  unfolding email_allowed
  email_allowed_iff allowlist_csv email =
      let target = normalize_email to_lowercase email in
      let entries = split_on b',' allowlist_csv in
      let found = any_iff (entry_is to_lowercase target) entries in
      (
        λ e.
            let (entry, (inside, h)) = found.0 e in
            let (same, filled) = (entry_is_iff target entry).0 h in
            (filled, (entry, (inside, same))),
        λ (filled, (entry, (inside, same))).
            found.1 (entry, (inside, (entry_is_iff target entry).1 (same, filled))),
      )
