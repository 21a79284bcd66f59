-- ===== src/Types/Roles.antt =====
-- Which names are roles of an artifact: `ArtifactRole::parse` against `as_str`.
use braincrawl.Base.{
  ℕ, ◌≤◌, String, true, Option, List, [], ◌∷◌, none, some, ◌==◌, string_eq, ◌≡◌, ◌≢◌, ◌⊎◌, inl, inr,
  refl, arith, All, Bool-cases, eq_of_beq, ne_of_beq,
}
use braincrawl.Base.Text.{codes}
use braincrawl.Types.{ArtifactRole, as_str, is_role_char, all_role_chars, parse_role}

-- A character that is safe in the key of a blob.
abbrev pub IsSafe : ℕ → Type 0
IsSafe c = ((b'a' ≤ c) × (c ≤ b'z')) ⊎ ((b'0' ≤ c) × (c ≤ b'9')) ⊎ (c ≡ b'_') ⊎ (c ≡ b'-')

is_role_char-IsSafe : (c : ℕ) → is_role_char c ≡ true → IsSafe c
is_role_char-IsSafe c h = ground arith

IsSafe-is_role_char : (c : ℕ) → IsSafe c → is_role_char c ≡ true
IsSafe-is_role_char c h = ground arith

all_role_chars-IsSafe : (cs : List ℕ) → all_role_chars cs ≡ true → All IsSafe cs
all_role_chars-IsSafe [] h = tt
all_role_chars-IsSafe (c ∷ cs) h =
    (is_role_char-IsSafe c (ground arith), all_role_chars-IsSafe cs (ground arith))

IsSafe-all_role_chars : (cs : List ℕ) → All IsSafe cs → all_role_chars cs ≡ true
IsSafe-all_role_chars [] h = refl
IsSafe-all_role_chars (c ∷ cs) (k, h) =
    rw (IsSafe-is_role_char c k, IsSafe-all_role_chars cs h) refl

-- A role that was read is written as it was read, and is a name of characters that are safe in a
-- key; what is refused is empty or holds another character.
abbrev pub Parses : String → Option ArtifactRole → Type 0
Parses s none = (s ≡ "") ⊎ ¬ All IsSafe (codes s)
Parses s (some role) = (as_str role ≡ s) × (s ≢ "") × All IsSafe (codes s)

-- Reading a name as a role: what comes out is written as the name, which is then not empty and of
-- lower-case letters, digits, `_` and `-`; and no other names are refused.
pub parse_role-Parses : (s : String) → Parses s (parse_role s)
unfolding parse_role as_str
parse_role-Parses s = elim (Bool-cases (s == "abstract")) [
  | inl q ↦
      rw (eq_of_beq s "abstract" q)
        (refl, λ e. ne_of_beq "abstract" "" refl e, all_role_chars-IsSafe (codes "abstract") refl)
  | inr na ↦ elim (Bool-cases (s == "fulltext")) [
    | inl q ↦
        rw (eq_of_beq s "fulltext" q)
          (refl, λ e. ne_of_beq "fulltext" "" refl e, all_role_chars-IsSafe (codes "fulltext") refl)
    | inr nf ↦ elim (Bool-cases (s == "")) [
      | inl q ↦ rw (na, nf, q) (inl (eq_of_beq s "" q))
      | inr ne ↦ elim (Bool-cases (all_role_chars (codes s))) [
        | inl safe ↦
            rw (na, nf, ne, safe) (refl, ne_of_beq s "" ne, all_role_chars-IsSafe (codes s) safe)
        | inr f ↦ rw (na, nf, ne, f) (inr (λ h. cc (f, IsSafe-all_role_chars (codes s) h)))
      ]
    ]
  ]
]
