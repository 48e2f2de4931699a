-- ===== src/Mktime/Calendar.antt =====
-- `kernel_mktime` against the Gregorian calendar, counted year by year and month by month.
use linux_0_12_study.Base.{
  Bool, ap, arith, false, get_elem?, if◌then◌else◌, is_negative, leb, ltb, not, refl, some, suc,
  true, word, word_sub, zero, ℕ, ◌!=◌, ◌%◌, ◌&&◌, ◌*◌, ◌+◌, ◌-◌, ◌/◌, ◌<◌, ◌==◌, ◌||◌, ◌≡◌, ◌≤◌,
}
use linux_0_12_study.Mktime.{Tm, month, minute, hour, day, mktime_of, kernel_mktime}

pub is_leap : ℕ → Bool
is_leap y = ((y % 4 == 0) && (y % 100 != 0)) || (y % 400 == 0)

-- The days of the month m (0 is January) in a year.
pub days_in_month : Bool → ℕ → ℕ
days_in_month leap m =
    if m == 1
    then (if leap then 29 else 28)
    else if (m == 3) || (m == 5) || (m == 8) || (m == 10)
    then 30
    else 31

-- The days before the month m of the year.
pub days_before_month : Bool → ℕ → ℕ
unfolding days_in_month
days_before_month leap zero = 0
days_before_month leap (suc m) = days_before_month leap m + days_in_month leap m

-- The days from 1970 to the first day of the n-th year after it.
pub days_before_year : ℕ → ℕ
unfolding is_leap
days_before_year zero = 0
days_before_year (suc n) = days_before_year n + (if is_leap (1970 + n) then 366 else 365)

-- The seconds from 1970 to a date and a time of the day, tm_year counted from 1900.
pub seconds_since_1970 : Tm → ℕ
unfolding days_before_year days_before_month
seconds_since_1970 tm =
    day
      * (days_before_year (tm.tm_year - 70)
          + days_before_month (is_leap (1900 + tm.tm_year)) tm.tm_mon
          + (tm.tm_mday - 1))
    + hour * tm.tm_hour
    + minute * tm.tm_min
    + tm.tm_sec

pub record IsDate (tm : Tm) : Type 0 where
  pub year_from : 70 ≤ tm.tm_year
  pub year_to : tm.tm_year < 138
  pub mon_in : tm.tm_mon < 12
  pub mday_from : 1 ≤ tm.tm_mday
  pub mday_to : tm.tm_mday ≤ 31
  pub hour_in : tm.tm_hour < 24
  pub min_in : tm.tm_min < 60
  pub sec_in : tm.tm_sec ≤ 61

is_leap_lem : (n : ℕ) → n < 130 → is_leap (1970 + n) ≡ ((n + 2) % 4 == 0)
unfolding is_leap
is_leap_lem n h = ground arith

days_before_year_lem : (n : ℕ) → n < 130 → days_before_year n ≡ 365 * n + (n + 1) / 4
unfolding days_before_year
days_before_year_lem zero h = refl
days_before_year_lem (suc n) h = ground (arith, days_before_year_lem n, is_leap_lem n)

-- The table is that of a leap year; in another year the months after February begin a day earlier.
month_table : (m : ℕ) → m < 12 → get_elem? month m ≡ some (day * days_before_month true m)
unfolding days_before_month
month_table zero h = refl
month_table (suc zero) h = refl
month_table (suc (suc zero)) h = refl
month_table (suc (suc (suc zero))) h = refl
month_table (suc (suc (suc (suc zero)))) h = refl
month_table (suc (suc (suc (suc (suc zero))))) h = refl
month_table (suc (suc (suc (suc (suc (suc zero)))))) h = refl
month_table (suc (suc (suc (suc (suc (suc (suc zero))))))) h = refl
month_table (suc (suc (suc (suc (suc (suc (suc (suc zero)))))))) h = refl
month_table (suc (suc (suc (suc (suc (suc (suc (suc (suc zero))))))))) h = refl
month_table (suc (suc (suc (suc (suc (suc (suc (suc (suc (suc zero)))))))))) h = refl
month_table (suc (suc (suc (suc (suc (suc (suc (suc (suc (suc (suc zero))))))))))) h = refl
month_table (suc (suc (suc (suc (suc (suc (suc (suc (suc (suc (suc (suc n)))))))))))) h =
    absurd (omega arith)

days_before_month_shift :
    (m : ℕ) → days_before_month true (suc (suc m)) ≡ days_before_month false (suc (suc m)) + 1
unfolding days_before_month
days_before_month_shift zero = refl
days_before_month_shift (suc m) = ground (arith, days_before_month_shift m)

days_before_month-le : (leap : Bool) (m : ℕ) → days_before_month leap m ≤ 31 * m
unfolding days_before_month days_in_month
days_before_month-le leap zero = omega arith
days_before_month-le leap (suc m) = ground (arith, days_before_month-le leap m)

-- The adjustment for a year that is no leap year.
adjust :
    (leap : Bool) (m : ℕ)
    → days_before_month true m
      ≡ days_before_month leap m + (if leap then 0 else if leb 2 m then 1 else 0)
unfolding days_before_month
adjust true m = omega arith
adjust false zero = refl
adjust false (suc zero) = refl
adjust false (suc (suc m)) = ground (arith, days_before_month_shift m)

module _ (tm : Tm) (d : IsDate tm) where
  -- The code's two tests, in the words of the calendar.
  late_lem :
      ◌≡◌ {A = ℕ}
        (if ltb 1 tm.tm_mon
            && not (is_negative tm.tm_mon)
            && (word (word_sub tm.tm_year 70 + 2) % 4 != 0)
          then 1
          else 0)
        (if is_leap (1900 + tm.tm_year) then 0 else if leb 2 tm.tm_mon then 1 else 0)
  unfolding is_leap
  late_lem = ground arith

  mktime_of-seconds : mktime_of tm (day * days_before_month true tm.tm_mon) ≡ seconds_since_1970 tm
  unfolding mktime_of seconds_since_1970
  mktime_of-seconds = ground (
    arith,
    late_lem,
    days_before_year_lem (tm.tm_year - 70),
    adjust (is_leap (1900 + tm.tm_year)) tm.tm_mon,
    days_before_month-le (is_leap (1900 + tm.tm_year)) tm.tm_mon,
  )

-- For a date from 1970 to 2037 `kernel_mktime` returns the seconds since 1970 of the Gregorian
-- calendar, the leap year 2000 included.
pub kernel_mktime-seconds_since_1970 :
    (tm : Tm) → IsDate tm → kernel_mktime tm ≡ some (seconds_since_1970 tm)
unfolding kernel_mktime
kernel_mktime-seconds_since_1970 tm d =
    rw (month_table tm.tm_mon d.mon_in) (ap some (mktime_of-seconds tm d))
