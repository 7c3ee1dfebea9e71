-- ===== src/Calendar.antt =====
-- src/lib/time.c: calendar dates and seconds since 1970, on unsigned 32-bit words.
pub mod Laws
pub mod Alarm
mod Tests
use light_os.Base.{
  ℕ, zero, suc, ◌+◌, ◌-◌, ◌*◌, ◌/◌, ◌%◌, ◌^◌, Bool, true, false, not, ◌&&◌, ◌||◌, List, [], ◌∷◌,
  ltb, leb, ◌==◌, if◌then◌else◌, get_or,
}

-- `tm`, without `tm_isdst`
pub record Tm : Type 0 where
  pub sec : ℕ
  pub min : ℕ
  pub hour : ℕ
  pub mday : ℕ
  pub mon : ℕ
  pub year : ℕ
  pub wday : ℕ
  pub yday : ℕ

-- `month`: the days before each month of a leap year; no month 0
abbrev pub month : ℕ → ℕ
month mon = get_or (0 ∷ 0 ∷ 31 ∷ 60 ∷ 91 ∷ 121 ∷ 152 ∷ 182 ∷ 213 ∷ 244 ∷ 274 ∷ 305 ∷ 335 ∷ []) mon 0

abbrev pub day : ℕ
day = 86400

unfoldable pub elapsed_leap_years : ℕ → ℕ
elapsed_leap_years year = (year - 1) / 4 + (year + 299) / 400 - (year - 1) / 100 - 17

unfoldable pub is_leap_year : ℕ → Bool
is_leap_year year = (year % 4 == 0 && not (year % 100 == 0)) || (year + 1900) % 400 == 0

-- The years since 1970 of a year of two digits.
unfoldable pub years_since : ℕ → ℕ
years_since year = if leb 70 year then year - 70 else year + 100 - 70

-- `mktime`, in the order of the code, cut to 32 bits at the end. What it subtracts is there before.
unfoldable pub mktime : Tm → ℕ
mktime tm =
    let year = years_since tm.year in
    let whole = 365 * day * year + day * ((year + 1) / 4) + month tm.mon * day in
    let res = if ltb 2 tm.mon && not ((year + 2) % 4 == 0) then whole - day else whole in
    (res + day * (tm.mday - 1) + 3600 * tm.hour + 60 * tm.min + tm.sec) % 2 ^ 32

unfoldable pub get_yday : Tm → ℕ
get_yday tm =
    let res = month tm.mon + tm.mday in
    if not ((years_since tm.year + 2) % 4 == 0) && ltb 2 tm.mon then res - 1 else res

-- The loop of `localtime` over the months left: the first one that begins after the day.
unfoldable pub find_month : (rounds mon offset yday : ℕ) → ℕ
find_month zero mon offset yday = mon
find_month (suc rounds) mon offset yday =
    let rest = find_month rounds (mon + 1) offset yday in
    if ltb yday (month mon - offset) then mon else rest

-- `localtime` from the days since 1970 and the time of the day. The month before the one found is
-- never 0, as a year has no day before its first.
unfoldable pub date_of : (days sec min hour : ℕ) → Tm
date_of days sec min hour =
    let years = days / 365 + 70 in
    let offset = if is_leap_year years then 0 else 1 in
    let yday = (days + 2 ^ 32 - elapsed_leap_years years) % 2 ^ 32 % (366 - offset) in
    let mon = find_month 12 1 offset yday - 1 in
    record {
      sec = sec;
      min = min;
      hour = hour;
      mday = yday + offset + 1 - month mon;
      mon = mon;
      year = years;
      wday = (days + 4) % 7;
      yday = yday;
    }

unfoldable pub localtime : ℕ → Tm
localtime stamp =
    date_of (stamp / 60 / 60 / 24) (stamp % 60) (stamp / 60 % 60) (stamp / 60 / 60 % 24)
