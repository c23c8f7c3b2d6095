-- ===== src/Database/Clock.antt =====
-- What `gmtime` and `timegm` of the C library compute, for times from 1970 on.
use cli_chat.Base.{
  ◌≡◌, refl, ap, ℕ, zero, suc, ◌+◌, ◌-◌, ◌*◌, ◌/◌, ◌%◌, ◌<◌, ◌≤◌, Bool, true, not, ◌&&◌, ◌||◌, List,
  [], ◌∷◌, ltb, ◌==◌, length, all, leb, Bool-cases, inl, inr, if◌then◌else◌, arith,
}

abbrev pub is_leap : ℕ → Bool
is_leap y = y % 4 == 0 && (not (y % 100 == 0) || y % 400 == 0)

unfoldable pub year_days : ℕ → ℕ
year_days y = if is_leap y then 366 else 365

unfoldable pub month_days : ℕ → List ℕ
month_days y =
    31 ∷ (if is_leap y then 29 else 28) ∷ 31 ∷ 30 ∷ 31 ∷ 30 ∷ 31 ∷ 31 ∷ 30 ∷ 31 ∷ 30 ∷ 31 ∷ []

-- The year and the day in it, for a day counted from the first of a year; a year has a day, so
-- that fuel above the day is enough.
unfoldable pub year_of : ℕ → ℕ → ℕ → ℕ × ℕ
year_of zero y d = (y, d)
year_of (suc fuel) y d =
    let rest = year_of fuel (y + 1) (d - year_days y) in
    if ltb d (year_days y) then (y, d) else rest

-- The days of n years from a year on.
unfoldable pub days_of_years : ℕ → ℕ → ℕ
days_of_years y zero = 0
days_of_years y (suc n) = year_days y + days_of_years (y + 1) n

-- The month, from 0, and the day in it, from 0.
unfoldable pub month_of : List ℕ → ℕ → ℕ × ℕ
month_of [] d = (0, d)
month_of (l ∷ ls) d =
    let rest = month_of ls (d - l) in if ltb d l then (0, d) else (suc rest.0, rest.1)

unfoldable pub days_of_months : List ℕ → ℕ → ℕ
days_of_months ls zero = 0
days_of_months [] (suc m) = 0
days_of_months (l ∷ ls) (suc m) = l + days_of_months ls m

year_days-bounds : (y : ℕ) → (0 < year_days y) × (year_days y ≤ 366)
unfolding year_days
year_days-bounds y = elim (Bool-cases (is_leap y)) [
  | inl e ↦ rw e (omega arith, omega arith)
  | inr e ↦ rw e (omega arith, omega arith)
]

year_of-days :
    (fuel y d : ℕ)
    → d < fuel
    → let (z, r) = year_of fuel y d in
      (n : ℕ) × (z ≡ y + n) × (days_of_years y n + r ≡ d) × (r < year_days z)
unfolding year_of days_of_years
year_of-days zero y d h = absurd (omega arith)
year_of-days (suc fuel) y d h = elim (Bool-cases (ltb d (year_days y))) [
  | inl e ↦ rw e (0, omega arith, omega arith, ground arith)
  | inr e ↦
      let (positive, _) = year_days-bounds y in
      let late : year_days y ≤ d = ground arith in
      let (n, year, days, small) = year_of-days fuel (y + 1) (d - year_days y) (omega arith) in
      rw e (suc n, omega (arith, year), omega (arith, days), small)
]

abbrev sum : List ℕ → ℕ
sum [] = 0
sum (l ∷ ls) = l + sum ls

month_of-days :
    (ls : List ℕ) (d : ℕ)
    → all (λ l. leb l 31) ls ≡ true
    → d < sum ls
    → let (m, r) = month_of ls d in (m < length ls) × (days_of_months ls m + r ≡ d) × (r < 31)
unfolding month_of days_of_months
month_of-days [] d fits h = absurd (omega arith)
month_of-days (l ∷ ls) d fits h = elim (Bool-cases (ltb d l)) [
  | inl e ↦ rw e (omega arith, omega arith, ground arith)
  | inr e ↦
      let late : l ≤ d = ground arith in
      let (inside, days, small) = month_of-days ls (d - l) (ground arith) (omega arith) in
      rw e (omega (arith, inside), omega (arith, days), small)
]

sum-month_days : (y : ℕ) → sum (month_days y) ≡ year_days y
unfolding month_days year_days
sum-month_days y = elim (Bool-cases (is_leap y)) [ inl e ↦ rw e refl | inr e ↦ rw e refl ]

month_days-fit : (y : ℕ) → all (λ l. leb l 31) (month_days y) ≡ true
unfolding month_days
month_days-fit y = elim (Bool-cases (is_leap y)) [ inl e ↦ rw e refl | inr e ↦ rw e refl ]

length-month_days : (y : ℕ) → length (month_days y) ≡ 12
unfolding month_days
length-month_days y = refl

-- The fields of `std::tm` that are written, with the whole year and the month from 0.
pub record Tm : Type 0 where
  pub year : ℕ
  pub month : ℕ
  pub day : ℕ
  pub hour : ℕ
  pub minute : ℕ
  pub second : ℕ

unfoldable pub gmtime : ℕ → Tm
unfolding year_of month_of month_days
gmtime time =
    let days = time / 86400 in
    let years = year_of (suc days) 1970 days in
    let months = month_of (month_days years.0) years.1 in
    record {
      year = years.0;
      month = months.0;
      day = months.1 + 1;
      hour = time % 86400 / 3600;
      minute = time % 3600 / 60;
      second = time % 60;
    }

unfoldable pub timegm : Tm → ℕ
unfolding days_of_years days_of_months month_days
timegm tm =
    (days_of_years 1970 (tm.year - 1970)
        + days_of_months (month_days tm.year) tm.month
        + (tm.day - 1))
      * 86400
    + tm.hour * 3600
    + tm.minute * 60
    + tm.second

-- The ranges of the fields.
pub record IsTime (tm : Tm) : Type 0 where
  pub since : 1970 ≤ tm.year
  pub month_fits : tm.month < 12
  pub day_from : 0 < tm.day
  pub day_fits : tm.day < 32
  pub hour_fits : tm.hour < 24
  pub minute_fits : tm.minute < 60
  pub second_fits : tm.second < 60

of_fields :
    (time a b c : ℕ)
    → a + b + (c + 1 - 1) ≡ time / 86400
    → (a + b + (c + 1 - 1)) * 86400 + time % 86400 / 3600 * 3600 + time % 3600 / 60 * 60 + time % 60
      ≡ time
of_fields time a b c e = omega (arith, e)

-- The fields of a time are in range and stand for it.
pub timegm-gmtime : (time : ℕ) → IsTime (gmtime time) × (timegm (gmtime time) ≡ time)
unfolding gmtime timegm
timegm-gmtime time =
    let days = time / 86400 in
    let (n, year, in_years, in_year) = year_of-days (suc days) 1970 days (omega arith) in
    let z = (year_of (suc days) 1970 days).0 in
    let d = (year_of (suc days) 1970 days).1 in
    let room : d < sum (month_days z) = omega (arith, sum-month_days z, in_year) in
    let (inside, in_months, small) = month_of-days (month_days z) d (month_days-fit z) room in
    let months : (month_of (month_days z) d).0 < 12 = omega (arith, inside, length-month_days z) in
    let years : z - 1970 ≡ n = omega (arith, year) in
    (
      record {
        since = omega (arith, year);
        month_fits = months;
        day_from = omega arith;
        day_fits = omega (arith, small);
        hour_fits = omega arith;
        minute_fits = omega arith;
        second_fits = omega arith;
      },
      of_fields time (days_of_years 1970 (z - 1970))
          (days_of_months (month_days z) (month_of (month_days z) d).0)
          (month_of (month_days z) d).1
          (omega (arith, in_months, in_years, ap (days_of_years 1970) years)),
    )
