-- ===== src/Worker/Timestamps.antt =====
-- The timestamps of worker.rs, `YYYY-MM-DDTHH:MM:SSZ`. A string is its list of codes, which are its
-- bytes where it is ASCII; a `u64` that is computed here stays far below its bound, since a year has
-- four digits.
use Prim.Native.String.{◌++◌ as str_append}
use braincrawl.Base.{
  ℕ, zero, suc, ◌+◌, ◌-◌, ◌*◌, ◌/◌, ◌%◌, ◌^◌, min, String, Option, none, some, List, take, drop,
  length, ltb, if◌then◌else◌,
}
use braincrawl.Base.Text.{codes}
use braincrawl.Base.Decimal.{to_decimal, parse_unsigned}
use braincrawl.Worker.Calendar.{ymd_to_days, days_to_ymd}

-- `s[from..to].parse::<u64>().ok()`
unfoldable pub number_at : ℕ → ℕ → List ℕ → Option ℕ
unfolding parse_unsigned
number_at from to s = parse_unsigned (2 ^ 64) (take (to - from) (drop from s))

-- `?` on an `Option`
abbrev pub and_then : {A B : Type 0} → Option A → (A → Option B) → Option B
and_then none f = none
and_then (some a) f = f a

unfoldable pub parse_rfc3339 : List ℕ → Option ℕ
unfolding number_at ymd_to_days
parse_rfc3339 s =
    let read = and_then (number_at 0 4 s) (λ year. and_then (number_at 5 7 s) (λ month.
      and_then (number_at 8 10 s) (λ day. and_then (number_at 11 13 s) (λ h.
        and_then (number_at 14 16 s) (λ m.
          and_then (number_at 17 19 s)
            (λ sec. some (ymd_to_days year month day * 86400 + h * 3600 + m * 60 + sec))))))) in
    if ltb (length s) 20 then none else read

unfoldable pub zeros : ℕ → String
zeros zero = ""
zeros (suc n) = str_append "0" (zeros n)

-- `{:0width}`
unfoldable pub padded : ℕ → ℕ → String
unfolding zeros to_decimal
padded width n = str_append (zeros (width - length (codes (to_decimal n)))) (to_decimal n)

unfoldable pub secs_to_rfc3339 : ℕ → String
unfolding padded days_to_ymd
secs_to_rfc3339 secs =
    let (year, month, day) = days_to_ymd (secs / 86400) in
    let date =
      str_append (padded 4 year)
        (str_append "-" (str_append (padded 2 month) (str_append "-" (padded 2 day)))) in
    let time = str_append (padded 2 (secs / 3600 % 24)) (
      str_append ":"
        (str_append (padded 2 (secs / 60 % 60)) (str_append ":" (padded 2 (secs % 60))))) in
    str_append date (str_append "T" (str_append time "Z"))

abbrev pub or_zero : Option ℕ → ℕ
or_zero none = 0
or_zero (some n) = n

unfoldable pub add_secs_to_rfc3339 : String → ℕ → String
unfolding parse_rfc3339 secs_to_rfc3339
add_secs_to_rfc3339 base secs =
    secs_to_rfc3339 (min (or_zero (parse_rfc3339 (codes base)) + secs) (2 ^ 64 - 1))
