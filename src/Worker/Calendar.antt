-- ===== src/Worker/Calendar.antt =====
-- The calendar of worker.rs: days since 1970 to and from a date.
use braincrawl.Base.{
  ℕ, zero, suc, ◌+◌, ◌-◌, ◌%◌, ◌≤◌, ◌<◌, Bool, not, ◌&&◌, ◌||◌, if◌then◌else◌, List, [], ◌∷◌, take,
  length, nat_beq, ltb, ◌≡◌, refl, ap, arith, ltb→lt, Bool-cases, inl, inr,
}

unfoldable pub is_leap : ℕ → Bool
is_leap year = (nat_beq (year % 4) 0 && not (nat_beq (year % 100) 0)) || nat_beq (year % 400) 0

unfoldable pub year_days : ℕ → ℕ
unfolding is_leap
year_days year = if is_leap year then 366 else 365

unfoldable pub months_of : ℕ → List ℕ
unfolding is_leap
months_of year =
    if is_leap year
    then 31 ∷ 29 ∷ 31 ∷ 30 ∷ 31 ∷ 30 ∷ 31 ∷ 31 ∷ 30 ∷ 31 ∷ 30 ∷ 31 ∷ []
    else 31 ∷ 28 ∷ 31 ∷ 30 ∷ 31 ∷ 30 ∷ 31 ∷ 31 ∷ 30 ∷ 31 ∷ 30 ∷ 31 ∷ []

-- The days of so many years from a year on.
unfoldable pub days_from : ℕ → ℕ → ℕ
unfolding year_days
days_from zero year = 0
days_from (suc n) year = year_days year + days_from n (suc year)

abbrev pub sum : List ℕ → ℕ
sum [] = 0
sum (d ∷ ds) = d + sum ds

-- The length of a month, counted from 0.
abbrev pub nth : List ℕ → ℕ → ℕ
nth [] n = 0
nth (d ∷ ds) zero = d
nth (d ∷ ds) (suc n) = nth ds n

-- `saturating_sub` and the empty range below 1970 are the subtraction that stops at 0.
unfoldable pub ymd_to_days : ℕ → ℕ → ℕ → ℕ
unfolding days_from months_of
ymd_to_days year month day =
    days_from (year - 1970) 1970 + sum (take (month - 1) (months_of year)) + (day - 1)

-- The first loop of `days_to_ymd`. A round takes at least 365 days away, so one round more than there
-- are days is enough.
unfoldable pub split_years : ℕ → ℕ → ℕ → ℕ × ℕ
unfolding year_days
split_years zero year days = (year, days)
split_years (suc fuel) year days =
    let later = split_years fuel (suc year) (days - year_days year) in
    if ltb days (year_days year) then (year, days) else later

-- The second loop.
unfoldable pub split_months : List ℕ → ℕ → ℕ → ℕ × ℕ
split_months [] month days = (month, days)
split_months (dm ∷ dms) month days =
    let later = split_months dms (suc month) (days - dm) in
    if ltb days dm then (month, days) else later

unfoldable pub days_to_ymd : ℕ → ℕ × ℕ × ℕ
unfolding split_years split_months months_of
days_to_ymd days =
    let (year, rest) = split_years (suc days) 1970 days in
    let (month, last) = split_months (months_of year) 1 rest in (year, month, last + 1)

year_days-pos : (year : ℕ) → 365 ≤ year_days year
unfolding year_days
year_days-pos year = ground arith

-- What the first loop leaves.
record YearOf (fuel year days : ℕ) : Type 0 where
  years : ℕ
  is : (split_years fuel year days).0 ≡ year + years
  adds : days_from years year + (split_years fuel year days).1 ≡ days
  below : (split_years fuel year days).1 < year_days (split_years fuel year days).0

split_years-YearOf : (fuel year days : ℕ) → days < fuel → YearOf fuel year days
unfolding split_years days_from
split_years-YearOf zero year days h = absurd (omega arith)
split_years-YearOf (suc fuel) year days h = elim (Bool-cases (ltb days (year_days year))) [
  | inl t ↦ record {
    years = 0;
    is = rw t (omega arith);
    adds = rw t (omega arith);
    below = rw t (ltb→lt days (year_days year) t);
  }
  | inr f ↦
      let pos = year_days-pos year in
      let fits : year_days year ≤ days = ground arith in
      let later = split_years-YearOf fuel (suc year) (days - year_days year) (omega arith) in
      record {
        years = suc later.years;
        is = rw f (omega (arith, later.is));
        adds = rw f (omega (arith, later.adds));
        below = rw f later.below;
      }
]

record MonthOf (dms : List ℕ) (month days : ℕ) : Type 0 where
  months : ℕ
  is : (split_months dms month days).0 ≡ month + months
  adds : sum (take months dms) + (split_months dms month days).1 ≡ days
  inside :
      days < sum dms → (months < length dms) × ((split_months dms month days).1 < nth dms months)

split_months-MonthOf : (dms : List ℕ) (month days : ℕ) → MonthOf dms month days
unfolding split_months
split_months-MonthOf [] month days = record {
  months = 0;
  is = omega arith;
  adds = omega arith;
  inside = λ h. absurd (omega arith);
}
split_months-MonthOf (dm ∷ dms) month days = elim (Bool-cases (ltb days dm)) [
  | inl t ↦ record {
    months = 0;
    is = rw t (omega arith);
    adds = rw t (omega arith);
    inside = λ h. (omega arith, rw t (ltb→lt days dm t));
  }
  | inr f ↦
      let fits : dm ≤ days = ground arith in
      let later = split_months-MonthOf dms (suc month) (days - dm) in
      record {
        months = suc later.months;
        is = rw f (omega (arith, later.is));
        adds = rw f (omega (arith, later.adds));
        inside = λ h. let (n, l) = later.inside (omega arith) in (omega arith, rw f l);
      }
]

months_of-sum :
    (year : ℕ) → (sum (months_of year) ≡ year_days year) × (length (months_of year) ≡ 12)
unfolding months_of year_days
months_of-sum year = elim (Bool-cases (is_leap year)) [
  | inl t ↦ rw t (refl, refl)
  | inr f ↦ rw f (refl, refl)
]

-- A day of a month of a year, `days` days after the first of January 1970.
pub record IsDate (year month day days : ℕ) : Type 0 where
  pub since : 1970 ≤ year
  pub month_low : 1 ≤ month
  pub month_high : month ≤ 12
  pub day_low : 1 ≤ day
  pub day_high : day ≤ nth (months_of year) (month - 1)
  pub counts : ymd_to_days year month day ≡ days

ymd_parts_lem :
    (fuel days : ℕ)
    → YearOf fuel 1970 days
    → let (year, rest) = split_years fuel 1970 days in
      let (month, last) = split_months (months_of year) 1 rest in IsDate year month (last + 1) days
unfolding ymd_to_days
ymd_parts_lem fuel days y =
    let year = (split_years fuel 1970 days).0 in
    let rest = (split_years fuel 1970 days).1 in
    let month = (split_months (months_of year) 1 rest).0 in
    let last = (split_months (months_of year) 1 rest).1 in
    let m = split_months-MonthOf (months_of year) 1 rest in
    let (total, twelve) = months_of-sum year in
    let (n, l) = m.inside (omega (arith, y.below, total)) in
    let years : year - 1970 ≡ y.years = omega (arith, y.is) in
    let months : month - 1 ≡ m.months = omega (arith, m.is) in
    let same_years = ap (λ k. days_from k 1970) years in
    let same_months = ap (λ k. sum (take k (months_of year))) months in
    let same_length = ap (λ k. nth (months_of year) k) months in
    record {
      since = omega (arith, y.is);
      month_low = omega (arith, m.is);
      month_high = omega (arith, m.is, n, twelve);
      day_low = omega arith;
      day_high = omega (arith, l, same_length);
      counts = omega (arith, same_years, same_months, y.adds, m.adds);
    }

-- Every number of days since 1970 is turned into a date of the calendar, with a month of 1 to 12 and
-- a day that the month has, and that date is turned back into the number.
pub days_to_ymd-IsDate :
    (days : ℕ) → IsDate (days_to_ymd days).0 (days_to_ymd days).1 (days_to_ymd days).2 days
unfolding days_to_ymd
days_to_ymd-IsDate days =
    ymd_parts_lem (suc days) days (split_years-YearOf (suc days) 1970 days (omega arith))
