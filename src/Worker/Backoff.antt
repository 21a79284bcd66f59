-- ===== src/Worker/Backoff.antt =====
-- What `backoff` gives.
use native.Mathlib.Nat.{
  lt-mul-div-succ, mul-le-mul_left, le-div_iff_mul-le, mul-div-le, div-le_self, mul_comm,
  div-eq_of_lt,
}
use braincrawl.Base.{
  ℕ, ◌+◌, ◌*◌, ◌/◌, ◌^◌, ◌≤◌, ◌<◌, min, max, ◌≡◌, ◌⊎◌, inl, inr, ap, ◌∙◌, arith, leb, leb→le,
  Bool-cases,
}
use braincrawl.Worker.{BackoffPolicy, backoff, u64_max, cap}

le-or-lt : (a b : ℕ) → (a ≤ b) ⊎ (b < a)
le-or-lt a b = elim (Bool-cases (leb a b)) [
  | inl t ↦ inl (leb→le a b t)
  | inr f ↦ inr (ground arith)
]

-- The exponent is cut off where the product would pass the cap.
module _ (b e : ℕ) (pos : 1 ≤ b) where
  abbrev exponent : ℕ
  exponent = min (min e u64_max) (cap / b)

  within : b * e ≤ cap → exponent ≡ e
  within h =
      let fits : e ≤ cap / b =
        (le-div_iff_mul-le {k = b} {x = e} {y = cap} pos).1 (omega (arith, mul_comm e b)) in
      let small : cap / b ≤ cap = div-le_self cap b in omega (arith, fits, small)

  beyond : cap < b * e → exponent ≡ cap / b
  beyond h = elim (le-or-lt e (cap / b)) [
    | inl fits ↦
        absurd
          (omega (arith, (le-div_iff_mul-le {k = b} {x = e} {y = cap} pos).0 fits, mul_comm e b))
    | inr past ↦ let small : cap / b ≤ cap = div-le_self cap b in omega (arith, small)
  ]

  abbrev delay : ℕ
  delay = min (min (b * exponent) u64_max) cap

  delay_within : b * e ≤ cap → delay ≡ b * e
  delay_within h = let same = ap (λ x. b * x) (within h) in omega (arith, same)

  delay_beyond : cap < b * e → delay ≡ b * (cap / b)
  delay_beyond h =
      let same = ap (λ x. b * x) (beyond h) in
      let small : b * (cap / b) ≤ cap = mul-div-le cap b in omega (arith, same, small)

-- A base of more than the hour gives no delay at all.
backoff_none :
    (attempts : ℕ) (policy : BackoffPolicy) → cap < policy.base_secs → backoff attempts policy ≡ 0
unfolding backoff
backoff_none attempts policy h =
    let b = policy.base_secs in
    let e = policy.factor ^ attempts in
    let base : max b 1 ≡ b = omega arith in
    let none_left : cap / b ≡ 0 = div-eq_of_lt h in
    let same = ap (λ x. min (min (b * min (min e u64_max) (cap / x)) u64_max) cap) base in
    let zeroed = ap (λ x. min (min (b * min (min e u64_max) x) u64_max) cap) none_left in
    let zeros : min (min e u64_max) 0 ≡ 0 = omega arith in
    same ∙ zeroed ∙ ap (λ x. min (min (b * x) u64_max) cap) zeros ∙ omega (arith, mul_comm b 0)

-- A multiple of the base is within one base of the hour, so more than half of it.
over_half : (b : ℕ) → 1 ≤ b → b ≤ cap → cap < 2 * (b * (cap / b))
over_half b pos h =
    let q = cap / b in
    let some_fit : 1 ≤ q = (le-div_iff_mul-le {k = b} {x = 1} {y = cap} pos).1 (omega arith) in
    let past : cap < b * (q + 1) = lt-mul-div-succ cap pos in
    let wide : b * 1 ≤ b * q = mul-le-mul_left b some_fit in omega (arith, past, wide)

-- With a base of a second or more, the delay after some attempts is never more than the hour. It is
-- the base times the factor to that power where this is within the hour, so the arithmetic of `u64`
-- never saturates on the way to another value. Beyond the hour a base within it gives more than half
-- an hour, the largest multiple of the base that fits; a base beyond it gives no delay at all.
pub backoff-delay :
    (attempts : ℕ) (policy : BackoffPolicy)
    → 1 ≤ policy.base_secs
    → let wanted = policy.base_secs * policy.factor ^ attempts in
      let given = backoff attempts policy in
      (given ≤ cap)
      × (wanted ≤ cap → given ≡ wanted)
      × (cap < wanted
          → policy.base_secs ≤ cap
          → (given ≡ policy.base_secs * (cap / policy.base_secs)) × (cap < 2 * given))
      × (cap < policy.base_secs → given ≡ 0)
unfolding backoff
backoff-delay attempts policy pos =
    let b = policy.base_secs in
    let e = policy.factor ^ attempts in
    let base : max b 1 ≡ b = omega arith in
    let same = ap (λ x. min (min (b * min (min e u64_max) (cap / x)) u64_max) cap) base in
    (
      omega arith,
      λ h. same ∙ delay_within b e pos h,
      λ h k.
          let given = same ∙ delay_beyond b e pos h in
          (given, omega (arith, given, over_half b pos k)),
      backoff_none attempts policy,
    )
