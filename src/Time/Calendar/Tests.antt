-- ===== src/Time/Calendar/Tests.antt =====
-- Small runs of the calendar.
use haoud_os.Base.{ℕ, ◌≡◌, false, some, ◌==◌, if◌then◌else◌, arith, refl}
use haoud_os.Time.Calendar.{Date, kernel_mktime, mkdate}
use haoud_os.Time.Calendar.Epoch.{IsDate, kernel_mktime_lem}

-- The 15th of March 2021, 10:30:00, in winter.
abbrev in_march : Date
in_march = record {
  century = 20;
  years = 21;
  month = 2;
  month_day = 15;
  week_day = 0;
  hours = 10;
  minutes = 30;
  seconds = 0;
  summer_hour = false;
}

in_march-IsDate : IsDate 51 in_march
in_march-IsDate = record {
  year = refl;
  range = omega arith;
  month = omega arith;
  first = omega arith;
  last = omega arith;
  hours = omega arith;
  minutes = omega arith;
  seconds = omega arith;
}

kernel_mktime_lem_example : kernel_mktime in_march ≡ some 1_615_800_600
kernel_mktime_lem_example = kernel_mktime_lem 51 in_march in_march-IsDate

-- The chip counts months from 1, in decimal digits of four bits.
chip : ℕ → ℕ
chip reg = if reg == 0x32 then 0x20 else if reg == 9 then 0x21 else if reg == 8 then 3 else 0x15

mkdate_3 : (mkdate chip).month ≡ 2
unfolding mkdate chip
mkdate_3 = refl
