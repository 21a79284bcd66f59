-- ===== src/Base/Decimal.antt =====
-- Decimal numerals: `to_string` of an unsigned integer, and `parse` of one.
use Prim.Native.Nat.{ℕ, zero, suc, ◌+◌, ◌-◌, ◌*◌, ◌/◌, ◌%◌, ◌<◌}
use Prim.Native.String.{String, ◌++◌ as str_append}
use mathlib.Core.Path.{◌≡◌, refl, ap, ◌∙◌}
use mathlib.Core.Logic.{◌≢◌, inl, inr}
use mathlib.Core.Bool.{◌&&◌}
use mathlib.Core.Option.{Option, none, some}
use mathlib.Core.List.{List, [], ◌∷◌, ◌++◌}
use native.Mathlib.Omega.{arith}
use braincrawl.Base.Tests.{ltb, leb, nat_beq, if◌then◌else◌, Bool-cases, ltb→lt}
use Prim.Native.Char.{code}
use text.Mathlib.TextLemmas.{nil-append, cons-append}
use braincrawl.Base.Text.{codes}

unfoldable pub digit : ℕ → String
digit zero = "0"
digit (suc zero) = "1"
digit (suc (suc zero)) = "2"
digit (suc (suc (suc zero))) = "3"
digit (suc (suc (suc (suc zero)))) = "4"
digit (suc (suc (suc (suc (suc zero))))) = "5"
digit (suc (suc (suc (suc (suc (suc zero)))))) = "6"
digit (suc (suc (suc (suc (suc (suc (suc zero))))))) = "7"
digit (suc (suc (suc (suc (suc (suc (suc (suc zero)))))))) = "8"
digit n = "9"

print_fuel : ℕ → ℕ → String
print_fuel zero n = ""
print_fuel (suc fuel) n =
    let high = print_fuel fuel (n / 10) in
    if ltb n 10 then digit n else str_append high (digit (n % 10))

-- A number has fewer digits than it has units, and one for 0.
unfoldable pub to_decimal : ℕ → String
unfolding print_fuel digit
to_decimal n = print_fuel (suc n) n

unfoldable pub parse_digits : ℕ → List ℕ → Option ℕ
parse_digits acc [] = some acc
parse_digits acc (c ∷ cs) =
    let rest = parse_digits (acc * 10 + (c - 48)) cs in if leb 48 c && leb c 57 then rest else none

abbrev pub in_range : ℕ → Option ℕ → Option ℕ
in_range bound none = none
in_range bound (some n) = if ltb n bound then some n else none

-- `parse` of an unsigned integer below `bound`: a sign `+` may stand in front of the digits.
unfoldable pub parse_unsigned : ℕ → List ℕ → Option ℕ
unfolding parse_digits
parse_unsigned bound [] = none
parse_unsigned bound (c ∷ []) =
    if nat_beq c b'+' then none else in_range bound (parse_digits 0 (c ∷ []))
parse_unsigned bound (c ∷ d ∷ cs) =
    in_range bound (parse_digits 0 (if nat_beq c b'+' then d ∷ cs else c ∷ d ∷ cs))

pub codes-append : (s t : String) → codes (str_append s t) ≡ codes s ++ codes t
codes-append String.[] t = rw (nil-append t)
codes-append (String.◌∷◌ c s) t = rw (cons-append c s t) (ap (λ l. code c ∷ l) (codes-append s t))

codes-digit : (d : ℕ) → d < 10 → codes (digit d) ≡ (48 + d) ∷ []
unfolding digit
codes-digit zero h = refl
codes-digit (suc zero) h = refl
codes-digit (suc (suc zero)) h = refl
codes-digit (suc (suc (suc zero))) h = refl
codes-digit (suc (suc (suc (suc zero)))) h = refl
codes-digit (suc (suc (suc (suc (suc zero))))) h = refl
codes-digit (suc (suc (suc (suc (suc (suc zero)))))) h = refl
codes-digit (suc (suc (suc (suc (suc (suc (suc zero))))))) h = refl
codes-digit (suc (suc (suc (suc (suc (suc (suc (suc zero)))))))) h = refl
codes-digit (suc (suc (suc (suc (suc (suc (suc (suc (suc zero))))))))) h = refl
codes-digit (suc (suc (suc (suc (suc (suc (suc (suc (suc (suc n)))))))))) h = absurd (omega arith)

abbrev continue : Option ℕ → List ℕ → Option ℕ
continue none ys = none
continue (some acc) ys = parse_digits acc ys

parse_digits-append :
    (acc : ℕ) (xs ys : List ℕ) → parse_digits acc (xs ++ ys) ≡ continue (parse_digits acc xs) ys
unfolding parse_digits
parse_digits-append acc [] ys = refl
parse_digits-append acc (c ∷ xs) ys =
    ground (arith, parse_digits-append (acc * 10 + (c - 48)) xs ys)

parse_digit : (acc d : ℕ) → d < 10 → parse_digits acc ((48 + d) ∷ []) ≡ some (acc * 10 + d)
unfolding parse_digits
parse_digit acc d h = ground arith

parse_print : (fuel n : ℕ) → n < fuel → parse_digits 0 (codes (print_fuel fuel n)) ≡ some n
unfolding print_fuel
parse_print zero n h = absurd (omega arith)
parse_print (suc fuel) n h = elim (Bool-cases (ltb n 10)) [
  | inl t ↦
      rw (t, codes-digit n (ltb→lt n 10 t))
        (parse_digit 0 n (ltb→lt n 10 t) ∙ ap some (omega arith))
  | inr f ↦
      rw (f, codes-append (print_fuel fuel (n / 10)) (digit (n % 10)))
        (rw (parse_digits-append 0 (codes (print_fuel fuel (n / 10))) (codes (digit (n % 10)))) (
          rw (parse_print fuel (n / 10) (ground arith), codes-digit (n % 10) (omega arith))
            (parse_digit (n / 10) (n % 10) (omega arith) ∙ ap some (omega arith))))
]

unsigned_digits :
    (bound n : ℕ) (l : List ℕ)
    → n < bound
    → parse_digits 0 l ≡ some n
    → l ≢ []
    → parse_unsigned bound l ≡ some n
unfolding parse_unsigned parse_digits
unsigned_digits bound n [] h e ne = absurd (ne refl)
unsigned_digits bound n (c ∷ []) h e ne = ground arith
unsigned_digits bound n (c ∷ d ∷ l) h e ne = ground arith

snoc-ne-nil : (xs : List ℕ) (y : ℕ) → xs ++ y ∷ [] ≢ []
snoc-ne-nil [] y q = cc
snoc-ne-nil (x ∷ xs) y q = cc

to_decimal-ne-nil : (n : ℕ) → codes (to_decimal n) ≢ []
unfolding to_decimal print_fuel
to_decimal-ne-nil n = elim (Bool-cases (ltb n 10)) [
  | inl t ↦ rw (t, codes-digit n (ltb→lt n 10 t)) (snoc-ne-nil [] (48 + n))
  | inr f ↦
      rw
        (
          f,
          codes-append (print_fuel n (n / 10)) (digit (n % 10)),
          codes-digit (n % 10) (omega arith),
        )
        (snoc-ne-nil (codes (print_fuel n (n / 10))) (48 + n % 10))
]

-- A printed number is read back.
pub parse-to_decimal :
    (bound n : ℕ) → n < bound → parse_unsigned bound (codes (to_decimal n)) ≡ some n
unfolding to_decimal
parse-to_decimal bound n h =
    unsigned_digits bound n (codes (to_decimal n)) h (parse_print (suc n) n (omega arith))
      (to_decimal-ne-nil n)
