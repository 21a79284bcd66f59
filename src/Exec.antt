-- ===== src/Exec.antt =====
-- Methods of a shared object that may fail with a `DomainError`. What was written before a failure
-- stays written, so the state comes back beside the error too. `stuck` is a loop of the source
-- that has not ended within the fuel of its model.
use braincrawl.Types.{DomainError}

pub data Result {ℓ} (A : Type ℓ) : Type ℓ where
  ok : A → Result A
  err : DomainError → Result A
  stuck : Result A

abbrev pub Exec {ℓ} : Type ℓ → Type ℓ → Type ℓ
Exec S A = S → Result A × S

module _ {ℓ} {S A : Type ℓ} where
  abbrev pub pure : A → Exec S A
  pure a s = (ok a, s)

  abbrev pub raise : DomainError → Exec S A
  raise e s = (err e, s)

  abbrev pub gets : (S → A) → Exec S A
  gets f s = (ok (f s), s)

abbrev pub modify {ℓ} : {S : Type ℓ} → (S → S) → Exec S (Unit {ℓ})
modify f s = (ok tt, f s)

module _ {ℓ} {S A B : Type ℓ} where
  abbrev pub proceed : (A → Exec S B) → Result A × S → Result B × S
  proceed f (ok a, s) = f a s
  proceed f (err e, s) = (err e, s)
  proceed f (stuck, s) = (stuck, s)

  infixl 10 ◌>>=◌ ◌>>◌
  abbrev pub ◌>>=◌ : Exec S A → (A → Exec S B) → Exec S B
  ◌>>=◌ m f s = proceed f (m s)

  abbrev pub ◌>>◌ : Exec S A → Exec S B → Exec S B
  ◌>>◌ m n s = proceed (λ _. n) (m s)
