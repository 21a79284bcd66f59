-- ===== src/Auth.antt =====
-- The authentication of requests, crates/auth/src/lib.rs. Texts and tokens are their bytes, and
-- those of email addresses are code points. SHA-256 and Unicode's lower case are parameters.
pub mod Bits
pub mod Outcomes
mod Examples
use braincrawl.Base.{
  ℕ, zero, suc, ◌+◌, ◌*◌, ◌%◌, ◌/◌, Bool, true, false, List, [], ◌∷◌, ◌++◌, Option, none, some,
  if◌then◌else◌, ◌==◌, ◌&&◌, list_eq, nat_eq, nat_beq, any, length,
}
use braincrawl.Base.Hash.{xor, to_hex}
use braincrawl.Base.Text.{codes}
use braincrawl.Base.Scan.{Text, trim, split_on, strip_prefix}

-- `|` on so many bits.
unfoldable pub or : ℕ → ℕ → ℕ → ℕ
or zero a b = 0
or (suc bits) a b = (if nat_beq (a % 2 + b % 2) 0 then 0 else 1) + 2 * or bits (a / 2) (b / 2)

unfoldable pub accumulate : ℕ → List ℕ → List ℕ → ℕ
unfolding or xor
accumulate diff [] b = diff
accumulate diff (x ∷ a) [] = diff
accumulate diff (x ∷ a) (y ∷ b) = accumulate (or 8 diff (xor 8 x y)) a b

unfoldable pub ct_eq : List ℕ → List ℕ → Bool
unfolding accumulate
ct_eq a b = if nat_beq (length a) (length b) then nat_beq (accumulate 0 a b) 0 else false

unfoldable pub parse_bearer : Option Text → Option Text
parse_bearer none = none
parse_bearer (some h) = strip_prefix (codes "Bearer ") h

pub data AuthOutcome : Type 0 where
  authenticated : Text → AuthOutcome
  unauthenticated : AuthOutcome
  forbidden : AuthOutcome

pub record Allowlist : Type 0 where
  pub lookup : Text → Option Text

pub record SharedSecret : Type 0 where
  pub expected_hash : Text
  pub tenant : Text

-- `impl Allowlist for SharedSecret`
unfoldable pub lookup : SharedSecret → Text → Option Text
unfolding ct_eq
lookup s token_hash = if ct_eq s.expected_hash token_hash then some s.tenant else none

abbrev pub secret_allowlist : SharedSecret → Allowlist
secret_allowlist s = record { lookup = lookup s }

unfoldable pub hex_bytes : List ℕ → Text
unfolding to_hex
hex_bytes [] = []
hex_bytes (b ∷ digest) = codes (to_hex 2 b) ++ hex_bytes digest

unfoldable pub outcome_of : Option Text → AuthOutcome
outcome_of none = forbidden
outcome_of (some tenant) = authenticated tenant

module _ (sha256 : List ℕ → List ℕ) where
  unfoldable pub hash_token : Text → Text
  unfolding hex_bytes
  hash_token token = hex_bytes (sha256 token)

  -- `SharedSecret::new`
  unfoldable pub shared_secret : Text → Text → SharedSecret
  unfolding hash_token
  shared_secret secret tenant = record { expected_hash = hash_token secret; tenant = tenant }

  unfoldable pub authorize : Allowlist → Option Text → AuthOutcome
  unfolding parse_bearer hash_token outcome_of
  authorize allowlist header = elim (parse_bearer header) [
    | none ↦ unauthenticated
    | some token ↦ outcome_of (allowlist.lookup (hash_token token))
  ]

pub record KvEntry : Type 0 where
  pub tenant : Text
  pub status : Text

unfoldable pub is_active : KvEntry → Bool
is_active e = e.status == codes "active"

unfoldable pub is_empty : Text → Bool
is_empty [] = true
is_empty (c ∷ s) = false

module _ (to_lowercase : Text → Text) where
  unfoldable pub normalize_email : Text → Text
  normalize_email raw = to_lowercase (trim raw)

  unfoldable pub entry_is : Text → Text → Bool
  unfolding normalize_email is_empty
  entry_is target entry =
      if is_empty (normalize_email entry) then false else normalize_email entry == target

  unfoldable pub email_allowed : Text → Text → Bool
  unfolding entry_is
  email_allowed allowlist_csv email =
      any (entry_is (normalize_email email)) (split_on b',' allowlist_csv)
