-- ===== src/Time/Calendar/Epoch.antt =====
-- The date of core/time/time.c in seconds since 1970, against a count of days by the calendar.
use haoud_os.Base.{
  ℕ, zero, suc, ◌+◌, ◌-◌, ◌*◌, ◌/◌, ◌%◌, ◌^◌, ◌≤◌, ◌<◌, ◌≡◌, refl, ap, Bool, true, false, not, ◌&&◌,
  ◌||◌, some, List, [], ◌∷◌, ◌==◌, ltb, if◌then◌else◌, get_elem?, add32, sub32, mul32, arith,
}
use haoud_os.Time.Calendar.{Date, kernel_mktime, mktime_after, sec_month, seconds_in_day}

-- The Gregorian calendar.
abbrev pub leap : ℕ → Bool
leap y = (y % 4 == 0) && (not (y % 100 == 0) || (y % 400 == 0))

-- The days of the first `n` years after the start of 1970.
abbrev pub days_of_years : ℕ → ℕ
days_of_years zero = 0
days_of_years (suc n) = days_of_years n + 365 + (if leap (1970 + n) then 1 else 0)

abbrev month_lengths : List ℕ
month_lengths = 31 ∷ 28 ∷ 31 ∷ 30 ∷ 31 ∷ 30 ∷ 31 ∷ 31 ∷ 30 ∷ 31 ∷ 30 ∷ 31 ∷ []

abbrev sum_first : ℕ → List ℕ → ℕ
sum_first zero xs = 0
sum_first (suc n) [] = 0
sum_first (suc n) (x ∷ xs) = x + sum_first n xs

-- The days of a year that stand before its month `month`, counted from 0.
abbrev pub days_of_months : ℕ → ℕ → ℕ
days_of_months year month =
    sum_first month month_lengths + (if ltb 1 month && leap year then 1 else 0)

-- The local time of a date in the year `1970 + n`, in seconds since the start of 1970.
abbrev pub local_time : ℕ → Date → ℕ
local_time n dt =
    (days_of_years n + days_of_months (1970 + n) dt.month + (dt.month_day - 1)) * 86_400
    + dt.hours * 3600
    + dt.minutes * 60
    + dt.seconds

-- The dates at which `kernel_mktime` is right: the year after a leap year, and a leap year from
-- March on.
abbrev pub exact : ℕ → ℕ → Bool
exact year month = (year % 4 == 1) || ((year % 4 == 0) && ltb 1 month)

-- A date of the years 1970 to 2099.
pub record IsDate (n : ℕ) (dt : Date) : Type 0 where
  pub year : dt.century * 100 + dt.years ≡ 1970 + n
  pub range : n < 130
  pub month : dt.month < 12
  pub first : 1 ≤ dt.month_day
  pub last : dt.month_day ≤ 31
  pub hours : dt.hours < 24
  pub minutes : dt.minutes < 60
  pub seconds : dt.seconds < 60

leap_lem : (n : ℕ) → n < 130 → leap (1970 + n) ≡ ((1970 + n) % 4 == 0)
leap_lem n h = ground arith

step : (n : ℕ) → n < 130 → (if leap (1970 + n) then 1 else 0) + (n + 1) / 4 ≡ (n + 2) / 4
step n h = rw (leap_lem n h) (ground arith)

days_of_years_lem : (n : ℕ) → n < 131 → days_of_years n ≡ 365 * n + (n + 1) / 4
days_of_years_lem zero h = refl
days_of_years_lem (suc n) h =
    let before = days_of_years_lem n (omega arith) in let next = step n (omega arith) in omega arith

-- `sec_month` holds the days before each month, and they are less than a year.
Month : ℕ → Type 0
Month month =
    (get_elem? sec_month month ≡ some (seconds_in_day * sum_first month month_lengths))
    × (sum_first month month_lengths < 335)

month_lem : (month : ℕ) → month < 12 → Month month
unfolding Month
month_lem zero h = (refl, omega arith)
month_lem (suc zero) h = (refl, omega arith)
month_lem (suc (suc zero)) h = (refl, omega arith)
month_lem (suc (suc (suc zero))) h = (refl, omega arith)
month_lem (suc (suc (suc (suc zero)))) h = (refl, omega arith)
month_lem (suc (suc (suc (suc (suc zero))))) h = (refl, omega arith)
month_lem (suc (suc (suc (suc (suc (suc zero)))))) h = (refl, omega arith)
month_lem (suc (suc (suc (suc (suc (suc (suc zero))))))) h = (refl, omega arith)
month_lem (suc (suc (suc (suc (suc (suc (suc (suc zero)))))))) h = (refl, omega arith)
month_lem (suc (suc (suc (suc (suc (suc (suc (suc (suc zero))))))))) h = (refl, omega arith)
month_lem (suc (suc (suc (suc (suc (suc (suc (suc (suc (suc zero)))))))))) h = (refl, omega arith)
month_lem (suc (suc (suc (suc (suc (suc (suc (suc (suc (suc (suc zero))))))))))) h =
    (refl, omega arith)
month_lem (suc (suc (suc (suc (suc (suc (suc (suc (suc (suc (suc (suc month)))))))))))) h =
    absurd (omega arith)

-- The leap days that `mktime_after` counts, and the day of the month that it does not take away.
days_lem :
    (n month : ℕ)
    → n < 130
    → n / 4 + 1
      ≡ (n + 1) / 4
        + (if ltb 1 month && leap (1970 + n) then 1 else 0)
        + (if exact (1970 + n) month then 0 else 1)
days_lem n month h = rw (leap_lem n h) (ground arith)

year_lem :
    (n : ℕ) (dt : Date) → IsDate n dt → sub32 (add32 (mul32 dt.century 100) dt.years) 1970 ≡ n
year_lem n dt d = let year = d.year in let range = d.range in omega arith

-- The seconds before the wrap-around, which are too few for it.
total_lem :
    (n : ℕ) (dt : Date)
    → IsDate n dt
    → (late : ℕ)
    → n / 4 + 1 ≡ (n + 1) / 4 + (if ltb 1 dt.month && leap (1970 + n) then 1 else 0) + late
    → dt.seconds
        + dt.minutes * 60
        + dt.hours * 3600
        + dt.month_day * 86_400
        + 86_400 * sum_first dt.month month_lengths
        + 86_400 * (n / 4)
        + 31_536_000 * n
      ≡ local_time n dt + late * 86_400
total_lem n dt d late e =
    let years = days_of_years_lem n (omega (arith, d.range)) in let first = d.first in omega arith

hours_back :
    (summer : Bool) (total : ℕ)
    → 86_400 ≤ total
    → total < 2 ^ 32
    → (if summer then sub32 (total % 2 ^ 32) 7200 else sub32 (total % 2 ^ 32) 3600)
      ≡ total - (if summer then 7200 else 3600)
hours_back true total h k = omega arith
hours_back false total h k = omega arith

-- No time before 2100 wraps around, and none is before the hours that are taken off.
late_bounds :
    (n : ℕ) (dt : Date)
    → IsDate n dt
    → (late : ℕ)
    → n / 4 + 1 ≡ (n + 1) / 4 + (if ltb 1 dt.month && leap (1970 + n) then 1 else 0) + late
    → (86_400 ≤ local_time n dt + late * 86_400) × (local_time n dt + late * 86_400 < 2 ^ 32)
unfolding Month
late_bounds n dt d late e =
    let same = total_lem n dt d late e in
    let days = month_lem dt.month d.month in
    (omega (arith, d.first), omega (arith, days.1, d.range, d.last, d.hours, d.minutes, d.seconds))

no_leap_day : (c : Bool) (x y : ℕ) → (if c && false then x else y) ≡ y
no_leap_day true x y = refl
no_leap_day false x y = refl

-- For a date of the years 1970 to 2099, `kernel_mktime` returns the seconds since the start of 1970
-- that the calendar gives, less the one or two hours of French time, in the year after a leap year
-- and in a leap year from March on; for each other date it returns a day more than that.
pub kernel_mktime_lem :
    (n : ℕ) (dt : Date)
    → IsDate n dt
    → kernel_mktime dt
      ≡ some (
          local_time n dt
          + (if exact (1970 + n) dt.month then 0 else 1) * 86_400
          - (if dt.summer_hour then 7200 else 3600))
unfolding kernel_mktime mktime_after Month
kernel_mktime_lem n dt d =
    let cell = month_lem dt.month d.month in
    let late : ℕ = if exact (1970 + n) dt.month then 0 else 1 in
    let days = days_lem n dt.month d.range in
    let bounds = late_bounds n dt d late days in
    rw (cell.0, year_lem n dt d, no_leap_day, total_lem n dt d late days)
      (ap some (hours_back dt.summer_hour (local_time n dt + late * 86_400) bounds.0 bounds.1))
