-- ===== src/Calendar/Laws.antt =====
-- `mktime` and `get_yday` against the calendar, and the clock of `localtime`.
use light_os.Base.{
  ℕ, zero, suc, ◌+◌, ◌-◌, ◌*◌, ◌/◌, ◌%◌, ◌^◌, ◌<◌, ◌≤◌, ◌≡◌, refl, ap, sym, ◌∙◌, [], ◌∷◌, get_or,
  Bool, true, false, not, ◌&&◌, ◌||◌, ltb, leb, ◌==◌, if◌then◌else◌, arith, up_to, up_to-lt, ==_iff,
  inl, inr, ◌⊎◌,
}
use mathlib.Core.Path.{ap₂, subst}
use light_os.Calendar.{Tm, month, years_since, mktime, get_yday, date_of, localtime}

-- The year of two digits, from 1970 to 2069.
abbrev pub full_year : ℕ → ℕ
full_year y = if leb 70 y then 1900 + y else 2000 + y

abbrev pub is_leap : ℕ → Bool
is_leap y = (y % 4 == 0 && not (y % 100 == 0)) || y % 400 == 0

abbrev pub month_length : (leap : Bool) → ℕ → ℕ
month_length leap m =
    get_or (31 ∷ (if leap then 29 else 28) ∷ 31 ∷ 30 ∷ 31 ∷ 30 ∷ 31 ∷ 31 ∷ 30 ∷ 31 ∷ 30 ∷ 31 ∷ [])
      (m - 1) 0

-- The days of the months before month `m`.
unfoldable pub before_month : (leap : Bool) → ℕ → ℕ
before_month leap zero = 0
before_month leap (suc zero) = 0
before_month leap (suc (suc m)) = before_month leap (suc m) + month_length leap (suc m)

-- The days of `n` years from 1970 on.
unfoldable pub before_year : ℕ → ℕ
before_year zero = 0
before_year (suc n) = before_year n + (if is_leap (1970 + n) then 366 else 365)

-- the days from 1970 to the first of month `m`
abbrev pub days_before : (y m : ℕ) → ℕ
days_before y m = before_year (full_year y - 1970) + before_month (is_leap (full_year y)) m

year_table : up_to (λ n. before_year n == 365 * n + (n + 1) / 4) 100 ≡ true
unfolding up_to before_year
year_table = refl

same : Bool → Bool → Bool
same true b = b
same false b = not b

same_sound : (a b : Bool) → same a b ≡ true → a ≡ b
unfolding same
same_sound true b h = sym h
same_sound false true h = cc
same_sound false false h = refl

leap_table : up_to (λ n. same (is_leap (1970 + n)) ((n + 2) % 4 == 0)) 100 ≡ true
unfolding up_to same
leap_table = refl

-- what `mktime` has for the months of a year
abbrev code_month : Bool → ℕ → ℕ
code_month leap m = month m - (if ltb 2 m && not leap then 1 else 0)

month_table :
    (leap : Bool) → up_to (λ m. before_month leap (m + 1) == code_month leap (m + 1)) 12 ≡ true
unfolding up_to before_month
month_table true = refl
month_table false = refl

month_days : (leap : Bool) (m : ℕ) → m < 12 → before_month leap (m + 1) ≡ code_month leap (m + 1)
month_days leap m lt =
    (==_iff _ _).0
      (up_to-lt (λ m. before_month leap (m + 1) == code_month leap (m + 1)) lt (month_table leap))

year_days : (n : ℕ) → n < 100 → before_year n ≡ 365 * n + (n + 1) / 4
year_days n lt =
    (==_iff _ _).0 (up_to-lt (λ n. before_year n == 365 * n + (n + 1) / 4) lt year_table)

years_since-lt : (y : ℕ) → y < 100 → (years_since y < 100) × (full_year y ≡ 1970 + years_since y)
unfolding years_since
years_since-lt y lt = (ground arith, ground arith)

leap_year : (y : ℕ) → y < 100 → is_leap (full_year y) ≡ ((years_since y + 2) % 4 == 0)
leap_year y lt =
    let (few, e) = years_since-lt y lt in
    ap is_leap e
    ∙ same_sound _ _ (up_to-lt (λ n. same (is_leap (1970 + n)) ((n + 2) % 4 == 0)) few leap_table)

-- The days that the code counts to the first of a month are those of the calendar.
days_lem :
    (y m : ℕ)
    → y < 100
    → m < 12
    → days_before y (m + 1)
      ≡ 365 * years_since y
        + (years_since y + 1) / 4
        + code_month ((years_since y + 2) % 4 == 0) (m + 1)
days_lem y m ly lm =
    let (few, e) = years_since-lt y ly in
    let e' : full_year y - 1970 ≡ years_since y = omega (arith, e) in
    ap₂ ◌+◌ (ap before_year e' ∙ year_days (years_since y) few) (
      ap (λ l. before_month l (m + 1)) (leap_year y ly)
      ∙ month_days ((years_since y + 2) % 4 == 0) m lm)

-- A date and time within the fields' ranges.
pub record Valid (tm : Tm) : Type 0 where
  pub year_in : tm.year < 100
  pub month_from : 1 ≤ tm.mon
  pub month_to : tm.mon ≤ 12
  pub day_from : 1 ≤ tm.mday
  pub day_to : tm.mday ≤ 31
  pub hour_in : tm.hour < 24
  pub min_in : tm.min < 60
  pub sec_in : tm.sec < 60

month_bounds : up_to (λ m. leb (month m) 335 && (leb m 2 || leb 1 (month m))) 13 ≡ true
unfolding up_to
month_bounds = refl

month-le : (m : ℕ) → m ≤ 12 → (month m ≤ 335) × ((m ≤ 2) ⊎ (1 ≤ month m))
month-le m le = bounds (month m) m (
    up_to-lt (λ m. leb (month m) 335 && (leb m 2 || leb 1 (month m))) {i = m} (omega arith)
      month_bounds)
  where
    bounds :
        (x m : ℕ) → (leb x 335 && (leb m 2 || leb 1 x)) ≡ true → (x ≤ 335) × ((m ≤ 2) ⊎ (1 ≤ x))
    bounds x m e = (ground arith, ground arith)

-- the sum of `mktime`, over its parts
seconds :
    (y q x d h mi s : ℕ) (less : Bool)
    → y < 100
    → q ≤ 25
    → x ≤ 335
    → (less ≡ false) ⊎ (1 ≤ x)
    → 1 ≤ d
    → d ≤ 31
    → h < 24
    → mi < 60
    → s < 60
    → ((if less
            then 31536000 * y + 86400 * q + x * 86400 - 86400
            else 31536000 * y + 86400 * q + x * 86400)
          + 86400 * (d - 1)
          + 3600 * h
          + 60 * mi
          + s)
        % 2 ^ 32
      ≡ 86400 * (365 * y + q + (x - (if less then 1 else 0)) + (d - 1)) + 3600 * h + 60 * mi + s
seconds y q x d h mi s true a b c (inl e) f g i j k = cc
seconds y q x d h mi s true a b c (inr e) f g i j k = omega arith
seconds y q x d h mi s false a b c e f g i j k = omega arith

-- Whether the code takes a day away: only behind February.
less_or_month : (m : ℕ) (leap : Bool) → m ≤ 12 → ((ltb 2 m && not leap) ≡ false) ⊎ (1 ≤ month m)
less_or_month m leap le = elim (month-le m le).1 [
  | inl low ↦ inl (early m leap low)
  | inr some_days ↦ inr some_days
]
  where
    early : (m : ℕ) (leap : Bool) → m ≤ 2 → (ltb 2 m && not leap) ≡ false
    early m leap low = ground arith

-- `mktime` of a date and time with a year of two digits, from 1970 to 2069, and the months from 1, is the number of seconds
-- since the start of 1970 by the calendar, leap years after the Gregorian rule.
pub mktime_lem :
    (tm : Tm)
    → Valid tm
    → mktime tm
      ≡ 86400 * (days_before tm.year tm.mon + (tm.mday - 1)) + 3600 * tm.hour + 60 * tm.min + tm.sec
unfolding mktime
mktime_lem tm v =
    let leap = (years_since tm.year + 2) % 4 == 0 in
    let back : tm.mon - 1 + 1 ≡ tm.mon = omega (arith, v.month_from) in
    let days : days_before tm.year tm.mon
        ≡ 365 * years_since tm.year + (years_since tm.year + 1) / 4 + code_month leap tm.mon =
      subst
        (λ m.
          days_before tm.year m
          ≡ 365 * years_since tm.year + (years_since tm.year + 1) / 4 + code_month leap m)
        back (days_lem tm.year (tm.mon - 1) v.year_in (omega (arith, v.month_from, v.month_to))) in
    let few = (years_since-lt tm.year v.year_in).0 in
    seconds (years_since tm.year) ((years_since tm.year + 1) / 4) (month tm.mon) tm.mday tm.hour
      tm.min tm.sec (ltb 2 tm.mon && not leap) few (omega (arith, few))
      (month-le tm.mon v.month_to).0 (less_or_month tm.mon leap v.month_to) v.day_from v.day_to
      v.hour_in v.min_in v.sec_in
    ∙ ap (λ d. 86400 * (d + (tm.mday - 1)) + 3600 * tm.hour + 60 * tm.min + tm.sec) (sym days)

day_of :
    (x d : ℕ) (common late : Bool)
    → ((late && common) ≡ false) ⊎ (1 ≤ x)
    → (if common && late then x + d - 1 else x + d) ≡ x - (if late && common then 1 else 0) + d
day_of x d true true (inl e) = cc
day_of x d true true (inr e) = omega arith
day_of x d true false e = omega arith
day_of x d false true e = omega arith
day_of x d false false e = omega arith

-- `get_yday` is the day of the year, the first of January being 1.
get_yday_lem :
    (tm : Tm) → Valid tm → get_yday tm ≡ before_month (is_leap (full_year tm.year)) tm.mon + tm.mday
unfolding get_yday
get_yday_lem tm v =
    let leap = (years_since tm.year + 2) % 4 == 0 in
    let back : tm.mon - 1 + 1 ≡ tm.mon = omega (arith, v.month_from) in
    let months : before_month leap tm.mon ≡ code_month leap tm.mon =
      subst (λ m. before_month leap m ≡ code_month leap m) back
        (month_days leap (tm.mon - 1) (omega (arith, v.month_from, v.month_to))) in
    day_of (month tm.mon) tm.mday (not leap) (ltb 2 tm.mon) (less_or_month tm.mon leap v.month_to)
    ∙ ap (λ d. d + tm.mday)
        (sym (ap (λ l. before_month l tm.mon) (leap_year tm.year v.year_in) ∙ months))

-- The time of day that `localtime` gives lies in its ranges, and with the number of whole days it is
-- the stamp again; the day of the week is counted on from a Thursday.
localtime-time :
    (stamp : ℕ)
    → ((localtime stamp).sec < 60)
      × ((localtime stamp).min < 60)
      × ((localtime stamp).hour < 24)
      × (stamp / 86400 * 86400
            + (localtime stamp).hour * 3600
            + (localtime stamp).min * 60
            + (localtime stamp).sec
          ≡ stamp)
      × ((localtime stamp).wday ≡ (stamp / 86400 + 4) % 7)
unfolding localtime date_of
localtime-time stamp = (omega arith, omega arith, omega arith, omega arith, omega arith)
