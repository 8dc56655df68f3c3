-- ===== src/Learn/PerGameMemory/Days.antt =====
-- The number that learn/src/PerGameMemory.cpp gives a day, against a calendar that counts days.
use phynned.Prelude.{
  ℕ, zero, suc, ◌+◌, ◌-◌, ◌≤◌, ◌≡◌, refl, ap, ◌∙◌, ◌||◌, Bool, if◌then◌else◌, none, some,
  Bool-cases, ltb, inl, inr, arith,
}
use phynned.Observer.{Bytes}
use phynned.Learn.PerGameMemory.Age.{
  parse_iso_date, gregorian_day, gregorian_day-next, is_leap, month_days,
}

-- The days of the first months of a year, of the years below one, and up to a date.
unfoldable pub days_of_months : ℕ → ℕ → ℕ
days_of_months y zero = 0
days_of_months y (suc n) = days_of_months y n + month_days y (suc n)

unfoldable pub days_of_years : ℕ → ℕ
days_of_years zero = 0
days_of_years (suc y) = days_of_years y + (if is_leap y then 366 else 365)

abbrev pub calendar_day : ℕ → ℕ → ℕ → ℕ
calendar_day y m d = days_of_years y + days_of_months y (m - 1) + d

next_day : (y m d : ℕ) → gregorian_day y m (suc d) ≡ gregorian_day y m d + 1
unfolding gregorian_day
next_day y m d = omega arith

later_day : (y m d : ℕ) → gregorian_day y m (suc d) ≡ gregorian_day y m 1 + d
later_day y m zero = omega arith
later_day y m (suc d) = omega (arith, next_day y m (suc d), later_day y m d)

month_days-suc : (y m : ℕ) → (n : ℕ) × (month_days y m ≡ suc n)
month_days-suc y m =
    let some_day : 1 ≤ month_days y m = ground arith in
    (month_days y m - 1, omega (arith, some_day))

first_of_month :
    (y n : ℕ) → n ≤ 11 → gregorian_day y (suc n) 1 ≡ gregorian_day y 1 1 + days_of_months y n
unfolding days_of_months gregorian_day
first_of_month y zero h = omega arith
first_of_month y (suc n) h =
    let (k, long) = month_days-suc y (suc n) in
    let next = (gregorian_day-next y (suc n) (omega arith) (omega (arith, h))).0 in
    let last = ap (gregorian_day y (suc n)) long ∙ later_day y (suc n) k in
    let before = first_of_month y n (omega (arith, h)) in omega (arith, next, last, before, long)

whole_year : (y : ℕ) → days_of_months y 11 + 31 ≡ (if is_leap y then 366 else 365)
unfolding days_of_months
whole_year y = elim (Bool-cases (is_leap y)) [
  | inl leap ↦ rw leap refl
  | inr common ↦ rw common refl
]

first_of_year : (y : ℕ) → gregorian_day y 1 1 ≡ days_of_years y + 1721060
unfolding days_of_years gregorian_day
first_of_year zero = refl
first_of_year (suc y) =
    let next = (gregorian_day-next y 1 (omega arith) (omega arith)).1 in
    let last = later_day y 12 30 in
    let months = first_of_month y 11 (omega arith) in
    let year = whole_year y in omega (arith, next, last, months, year, first_of_year y)

-- The day of a date is the one that a calendar counts, from the first of January of year 0, whose
-- number is 1721060.
pub gregorian_day-calendar_day :
    (y m d : ℕ) → 1 ≤ m → m ≤ 12 → 1 ≤ d → gregorian_day y m d ≡ calendar_day y m d + 1721059
gregorian_day-calendar_day y zero d low high some_day = absurd (omega (arith, low))
gregorian_day-calendar_day y (suc n) zero low high some_day = absurd (omega (arith, some_day))
gregorian_day-calendar_day y (suc n) (suc d) low high some_day =
    let before : suc n - 1 ≡ n = omega arith in
    rw before (
      omega
        (arith, later_day y (suc n) d, first_of_month y n (omega (arith, high)), first_of_year y))

-- A date behind the tests of its month and its day.
guarded-bounds :
    (rest : Bool) (y m d : ℕ) (date : ℕ × ℕ × ℕ)
    → (if rest || ltb m 1 || ltb 12 m || ltb d 1 || ltb 31 d then none else some (y, m, d))
      ≡ some date
    → (1 ≤ date.1) × (date.1 ≤ 12) × (1 ≤ date.2)
guarded-bounds rest y m d date h = ground (arith, h)

pub parse_iso_date-bounds :
    (ts : Bytes) (date : ℕ × ℕ × ℕ)
    → parse_iso_date ts ≡ some date
    → (1 ≤ date.1) × (date.1 ≤ 12) × (1 ≤ date.2)
unfolding parse_iso_date
parse_iso_date-bounds ts date h = search guarded-bounds
