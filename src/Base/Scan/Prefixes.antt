-- ===== src/Base/Scan/Prefixes.antt =====
-- What `strip_prefix` finds.
use mathlib.Core.Path.{◌≡◌, ap}
use mathlib.Core.Logic.{◌↔◌, inl, inr}
use mathlib.Core.Option.{some}
use mathlib.Core.List.{[], ◌∷◌, ◌++◌}
use native.Mathlib.Omega.{arith}
use braincrawl.Base.Tests.{nat_beq, nat_beq_iff, Bool-cases}
use braincrawl.Base.Scan.{Text, strip_prefix}

-- `strip_prefix` finds exactly the texts that start so.
pub strip_prefix_lem : (p s rest : Text) → (strip_prefix p s ≡ some rest) ↔ (s ≡ p ++ rest)
unfolding strip_prefix
strip_prefix_lem [] s rest = ground arith
strip_prefix_lem (c ∷ p) [] rest = (λ e. cc, λ e. cc)
strip_prefix_lem (c ∷ p) (d ∷ s) rest = elim (Bool-cases (nat_beq c d)) [
  | inl t ↦
      let same : c ≡ d = (nat_beq_iff c d).0 t in
      let (out, into) = strip_prefix_lem p s rest in
      rw t (λ e. rw same (ap (λ l. d ∷ l) (out e)), λ e. into (ground arith))
  | inr f ↦ rw f (λ e. cc, λ e. ground (arith, nat_beq_iff c d))
]
