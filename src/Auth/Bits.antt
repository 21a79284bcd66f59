-- ===== src/Auth/Bits.antt =====
-- The constant-time comparison is equality.
use braincrawl.Base.{
  ℕ, zero, suc, ◌*◌, ◌/◌, ◌<◌, true, List, [], ◌∷◌, ◌≡◌, refl, ap₂, ◌↔◌, All, Bool-cases, inl, inr,
  arith, nat_beq, nat_beq_iff, length,
}
use braincrawl.Base.Hash.{xor}
use braincrawl.Auth.{or, accumulate, ct_eq}

-- `width` bits hold a number below `bound`.
abbrev pub power : ℕ → ℕ
power zero = 1
power (suc n) = 2 * power n

or-zero : (bits a b : ℕ) → a < power bits → b < power bits → or bits a b ≡ 0 → (a ≡ 0) × (b ≡ 0)
unfolding or
or-zero zero a b h k e = (omega arith, omega arith)
or-zero (suc bits) a b h k e = ground (arith, or-zero bits (a / 2) (b / 2))

zero-or : (bits : ℕ) → or bits 0 0 ≡ 0
unfolding or
zero-or zero = refl
zero-or (suc bits) = omega (arith, zero-or bits)

xor-zero : (bits a b : ℕ) → a < power bits → b < power bits → xor bits a b ≡ 0 → a ≡ b
unfolding xor
xor-zero zero a b h k e = omega arith
xor-zero (suc bits) a b h k e =
    let halves : a / 2 ≡ b / 2 =
      xor-zero bits (a / 2) (b / 2) (omega arith) (omega arith) (omega arith) in
    omega arith

xor-same : (bits a : ℕ) → xor bits a a ≡ 0
unfolding xor
xor-same zero a = refl
xor-same (suc bits) a = omega (arith, xor-same bits (a / 2))

or-lt : (bits a b : ℕ) → or bits a b < power bits
unfolding or
or-lt zero a b = omega arith
or-lt (suc bits) a b = ground (arith, or-lt bits (a / 2) (b / 2))

xor-lt : (bits a b : ℕ) → xor bits a b < power bits
unfolding xor
xor-lt zero a b = omega arith
xor-lt (suc bits) a b = omega (arith, xor-lt bits (a / 2) (b / 2))

abbrev pub IsByte : ℕ → Type 0
IsByte b = b < 256

accumulate-zero :
    (diff : ℕ) (a b : List ℕ)
    → IsByte diff
    → All IsByte a
    → All IsByte b
    → length a ≡ length b
    → accumulate diff a b ≡ 0
    → (diff ≡ 0) × (a ≡ b)
unfolding accumulate
accumulate-zero diff [] [] d h k n e = (e, refl)
accumulate-zero diff [] (y ∷ b) d h k n e = absurd (omega arith)
accumulate-zero diff (x ∷ a) [] d h k n e = absurd (omega arith)
accumulate-zero diff (x ∷ a) (y ∷ b) d (hx, h) (ky, k) n e =
    let (z, same) =
      accumulate-zero (or 8 diff (xor 8 x y)) a b (or-lt 8 diff (xor 8 x y)) h k (omega arith) e in
    let (d0, x0) = or-zero 8 diff (xor 8 x y) d (xor-lt 8 x y) z in
    (d0, ap₂ (λ c l. c ∷ l) (xor-zero 8 x y hx ky x0) same)

accumulate-same : (a : List ℕ) → accumulate 0 a a ≡ 0
unfolding accumulate
accumulate-same [] = refl
accumulate-same (x ∷ a) = rw (xor-same 8 x, zero-or 8) (accumulate-same a)

-- The comparison of byte strings without an early exit is true exactly where they are equal.
pub ct_eq_iff : (a b : List ℕ) → All IsByte a → All IsByte b → (ct_eq a b ≡ true) ↔ (a ≡ b)
unfolding ct_eq
ct_eq_iff a b h k = (
  λ e. elim (Bool-cases (nat_beq (length a) (length b))) [
    | inl t ↦
        let zero_diff : accumulate 0 a b ≡ 0 = (nat_beq_iff (accumulate 0 a b) 0).0 (rw t at e) in
        (accumulate-zero 0 a b (omega arith) h k ((nat_beq_iff (length a) (length b)).0 t)
          zero_diff).1
    | inr f ↦ cc (rw f at e)
  ],
  λ q.
      rw q
        (rw ((nat_beq_iff (length b) (length b)).1 refl) ((nat_beq_iff _ _).1 (accumulate-same b))),
)
