-- ===== src/Clock.antt =====
-- Calendar time: `localtime_r` of kernel/sys/time/localtime_r.c, the seconds that
-- SYS_clock_gettime of kernel/syscall.c computes, and the readings of
-- kernel/drivers/nvram/rtc.c. Times are not negative, and small
-- enough for the year to fit an `int`.
pub mod Calendar
pub mod Loops
pub mod Rtc
pub mod Readings
mod Tests
use myunixlikeos.Common.{
  leb, ◌^◌, none, ◌-◌, ℕ, Bool, List, Option, [], get_or, if◌then◌else◌, leb, ltb, none, not, some,
  suc, zero, ◌%◌, ◌&&◌, ◌*◌, ◌+◌, ◌-◌, ◌/◌, ◌==◌, ◌||◌, ◌∷◌, ◌>>=◌,
}

-- `IS_LEAP(y)`
unfoldable pub is_leap : ℕ → Bool
is_leap y = (y % 4 == 0 && not (y % 100 == 0)) || (y % 400 == 0)

abbrev pub days_in_year : ℕ → ℕ
days_in_year y = if is_leap y then 366 else 365

abbrev pub month_days : List ℕ
month_days = 31 ∷ 28 ∷ 31 ∷ 30 ∷ 31 ∷ 30 ∷ 31 ∷ 31 ∷ 30 ∷ 31 ∷ 30 ∷ 31 ∷ []

-- The days of the month `m`, counted from 0, as both loops over the months compute them.
unfoldable pub days_in_month : ℕ → ℕ → ℕ
days_in_month y m = get_or month_days m 0 + (if m == 1 && is_leap y then 1 else 0)

-- The first loop: the year and the day in it. The fuel is more than the number of years; `none` is
-- also a year that an `int` cannot hold.
unfoldable pub year_loop : (fuel year days : ℕ) → Option (ℕ × ℕ)
year_loop zero y d = none
year_loop (suc k) y d =
    let rest = year_loop k (suc y) (d - days_in_year y) in
    if ltb d (days_in_year y) then some (y, d) else if leb (2 ^ 31 - 1) y then none else rest

-- The second loop, with `k` months left: the month and the day in it, from 0.
unfoldable pub month_loop : (k year month day : ℕ) → ℕ × ℕ
month_loop zero y m d = (m, d)
month_loop (suc k) y m d =
    let rest = month_loop k y (suc m) (d - days_in_month y m) in
    if ltb d (days_in_month y m) then (m, d) else rest

-- `struct tm` without `tm_isdst`, which is always -1.
pub record Tm : Type 0 where
  pub year : ℕ
  pub mon : ℕ
  pub mday : ℕ
  pub hour : ℕ
  pub min : ℕ
  pub sec : ℕ
  pub wday : ℕ
  pub yday : ℕ

abbrev pub fill_tm : ℕ → ℕ → ℕ → ℕ × ℕ → ℕ → Tm
fill_tm days year yday (m, d) s = record {
  year = year - 1900;
  mon = m;
  mday = d + 1;
  hour = s / 3600;
  min = s % 3600 / 60;
  sec = s % 60;
  wday = (days + 4) % 7;
  yday = yday;
}

unfoldable pub localtime_r : ℕ → Option Tm
localtime_r t = year_loop (suc (t / 86400)) 1970 (t / 86400) >>= λ (y, d).
    some (fill_tm (t / 86400) y d (month_loop 12 y 0 d) (t % 86400))

-- `for (y = start; y < year; y++) total += days`, with `k` years left
unfoldable pub year_days : (k y : ℕ) → ℕ
year_days zero y = 0
year_days (suc k) y = days_in_year y + year_days k (suc y)

-- `for (m = 0; m < month - 1; m++) total += days`
unfoldable pub months_days : (k year m : ℕ) → ℕ
months_days zero y m = 0
months_days (suc k) y m = days_in_month y m + months_days k y (suc m)

-- The test of the clock's values that SYS_clock_gettime makes.
unfoldable pub is_plausible : (year month day hour min sec : ℕ) → Bool
is_plausible y mo d h mi s =
    leb 2000 y
    && leb y 2100
    && leb 1 mo
    && leb mo 12
    && leb 1 d
    && leb d 31
    && leb h 23
    && leb mi 59
    && leb s 59

-- The seconds since 1970 of a date from 1970 on; the month and the day count from 1.
unfoldable pub unix_time : (year month day hour min sec : ℕ) → ℕ
unix_time y mo d h mi s =
    (year_days (y - 1970) 1970 + months_days (mo - 1) y 0 + (d - 1)) * 86400
    + h * 3600
    + mi * 60
    + s

-- `tv_sec`, of the date or of noon of 18 April 2024 in its place.
unfoldable pub clock_gettime : (century rtc_year month day hour min sec : ℕ) → ℕ
unfolding is_plausible
clock_gettime c ry mo d h mi s =
    if is_plausible (c * 100 + ry) mo d h mi s
    then unix_time (c * 100 + ry) mo d h mi s
    else unix_time 2024 4 18 12 0 0
