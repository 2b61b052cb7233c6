-- ===== src/Time/Calendar.antt =====
-- Calendar time, core/time/time.c: the date of the clock chip and the seconds since 1970.
pub mod Epoch
mod Tests
use haoud_os.Base.{
  ℕ, ◌+◌, ◌*◌, ◌/◌, ◌%◌, ◌^◌, Bool, true, false, not, ◌&&◌, Option, map, List, [], ◌∷◌, ◌==◌, ltb,
  if◌then◌else◌, get_elem?, add32, sub32, mul32,
}
use mathlib.Core.Option

abbrev pub seconds_in_minute : ℕ
seconds_in_minute = 60

abbrev pub seconds_in_hour : ℕ
seconds_in_hour = 3600

abbrev pub seconds_in_day : ℕ
seconds_in_day = 86_400

abbrev pub second_in_year : ℕ
second_in_year = 31_536_000

-- `month` counts from 0, as `mkdate` and `sec_month` have it; each field is a `time_t` of 32 bits.
pub record Date : Type 0 where
  pub century : ℕ
  pub years : ℕ
  pub month : ℕ
  pub month_day : ℕ
  pub week_day : ℕ
  pub hours : ℕ
  pub minutes : ℕ
  pub seconds : ℕ
  pub summer_hour : Bool

abbrev pub sec_month : List ℕ
sec_month =
    0
    ∷ seconds_in_day * 31
    ∷ seconds_in_day * 59
    ∷ seconds_in_day * 90
    ∷ seconds_in_day * 120
    ∷ seconds_in_day * 151
    ∷ seconds_in_day * 181
    ∷ seconds_in_day * 212
    ∷ seconds_in_day * 243
    ∷ seconds_in_day * 273
    ∷ seconds_in_day * 304
    ∷ seconds_in_day * 334
    ∷ []

abbrev pub bcd_to_decimal : ℕ → ℕ
bcd_to_decimal bcd = bcd / 16 * 10 + bcd % 16

-- `cmos_read` is the chip: what each of its registers holds.
unfoldable pub mkdate : (ℕ → ℕ) → Date
mkdate cmos_read =
    let read : ℕ → ℕ = λ reg. bcd_to_decimal (cmos_read reg) in
    let month = sub32 (read 8) 1 in
    record {
      century = read 0x32;
      years = read 9;
      month = month;
      month_day = read 7;
      week_day = if read 6 == 0 then 6 else sub32 (read 6) 1;
      hours = read 4;
      minutes = read 2;
      seconds = read 0;
      summer_hour = ltb 3 month && ltb month 10;
    }

-- The seconds of a date, with what `sec_month` holds for its month. The sums are of `time_t`, so the
-- wrap-around of them is taken once. `years` is never set.
unfoldable pub mktime_after : Date → ℕ → ℕ
mktime_after dt month_seconds =
    let years : ℕ = 0 in
    let years_after_70 = sub32 (add32 (mul32 dt.century 100) dt.years) 1970 in
    let unix_time =
      (dt.seconds
        + dt.minutes * seconds_in_minute
        + dt.hours * seconds_in_hour
        + dt.month_day * seconds_in_day
        + month_seconds
        + seconds_in_day * (years_after_70 / 4)
        + second_in_year * years_after_70)
      % 2 ^ 32 in
    let leap_day =
      if ltb 1 dt.month && not (years % 4 == 0)
      then add32 unix_time seconds_in_day
      else unix_time in
    if dt.summer_hour then sub32 leap_day (seconds_in_hour * 2) else sub32 leap_day seconds_in_hour

-- Without a result, the month is outside of the table and the code reads behind it.
unfoldable pub kernel_mktime : Date → Option ℕ
kernel_mktime dt = Option.map (mktime_after dt) (get_elem? sec_month dt.month)

-- `init_time`, with the time of the start as its result, and the time some seconds later.
unfoldable pub init_time : (ℕ → ℕ) → Option ℕ
init_time cmos_read = kernel_mktime (mkdate cmos_read)

unfoldable pub get_current_unix_time : ℕ → ℕ → ℕ
get_current_unix_time unix_startup_time startup_sec = add32 unix_startup_time startup_sec
