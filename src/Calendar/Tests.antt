-- ===== src/Calendar/Tests.antt =====
-- The theorems on dates, at one evening of a leap year.
use light_os.Base.{◌+◌, ◌*◌, ◌≡◌, arith}
use light_os.Calendar.{Tm, mktime}
use light_os.Calendar.Laws.{Valid, days_before, mktime_lem}

-- 2024-12-31 23:59:58
abbrev evening : Tm
evening = record {
  sec = 58;
  min = 59;
  hour = 23;
  mday = 31;
  mon = 12;
  year = 24;
  wday = 2;
  yday = 0;
}

evening-Valid : Valid evening
evening-Valid = record {
  year_in = omega arith;
  month_from = omega arith;
  month_to = omega arith;
  day_from = omega arith;
  day_to = omega arith;
  hour_in = omega arith;
  min_in = omega arith;
  sec_in = omega arith;
}

mktime_lem_example : mktime evening ≡ 86400 * (days_before 24 12 + 30) + 3600 * 23 + 60 * 59 + 58
mktime_lem_example = mktime_lem evening evening-Valid
