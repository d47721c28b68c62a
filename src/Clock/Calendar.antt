-- ===== src/Clock/Calendar.antt =====
-- `localtime_r` of kernel/sys/time/localtime_r.c and the seconds that SYS_clock_gettime of
-- kernel/syscall.c computes.
use myunixlikeos.Common.{◌^◌, ℕ, arith, some, suc, ◌+◌, ◌<◌, ◌≡◌, ◌-◌, ◌%◌, ◌*◌, ◌/◌, ◌≤◌, refl}
use myunixlikeos.Clock.{year_days, months_days, days_in_month, Tm, fill_tm, localtime_r, unix_time}
use myunixlikeos.Clock.Loops.{
  year_loop_total, year_loop-year_days, month_loop_total, month_loop-months_days, year_days_le,
  months_days_lt, months_days_year,
}

module _ (d h mi s : ℕ) (hour : h < 24) (minute : mi < 60) (sec : s < 60) where
  abbrev seconds : ℕ
  seconds = d * 86400 + h * 3600 + mi * 60 + s

  seconds_day : seconds / 86400 ≡ d
  seconds_day = omega arith

  seconds_left : seconds % 86400 ≡ h * 3600 + mi * 60 + s
  seconds_left = omega arith

  seconds_hour : (h * 3600 + mi * 60 + s) / 3600 ≡ h
  seconds_hour = omega arith

  seconds_min : (h * 3600 + mi * 60 + s) % 3600 / 60 ≡ mi
  seconds_min = omega arith

  seconds_sec : (h * 3600 + mi * 60 + s) % 60 ≡ s
  seconds_sec = omega arith

split_seconds :
    (t : ℕ)
    → t / 86400 * 86400 + t % 86400 / 3600 * 3600 + t % 86400 % 3600 / 60 * 60 + t % 86400 % 60 ≡ t
split_seconds t = omega arith

-- Whether the fields of a broken-down time are in range.
pub record IsDate (y mo d h mi s : ℕ) : Type 0 where
  pub since : 1970 ≤ y
  pub month_pos : 1 ≤ mo
  pub month_le : mo ≤ 12
  pub day_pos : 1 ≤ d
  pub day_le : d ≤ days_in_month y (mo - 1)
  pub hour_lt : h < 24
  pub min_lt : mi < 60
  pub sec_lt : s < 60

-- `localtime_r` has a result for every time from 0 to 2^55, its fields are in range, and SYS_clock_gettime's
-- sum gives the time back from them.
pub localtime_r-unix_time :
    (t : ℕ)
    → t < 2 ^ 55
    → (tm : Tm) × (localtime_r t ≡ some tm)
      × IsDate (tm.year + 1900) (tm.mon + 1) tm.mday tm.hour tm.min tm.sec
      × (unix_time (tm.year + 1900) (tm.mon + 1) tm.mday tm.hour tm.min tm.sec ≡ t)
unfolding localtime_r unix_time
localtime_r-unix_time t small =
    let (n, y, r, e, at, s, b) =
      year_loop_total (suc (t / 86400)) 1970 (t / 86400) (omega arith) (omega arith) in
    let full = months_days_year y in
    let (k, m, d, e', at', l, s', b') = month_loop_total 12 y 0 r (omega (arith, full, b)) in
    let full_year : y - 1900 + 1900 ≡ y = omega arith in
    let since : y - 1970 ≡ n = omega arith in
    let months : m + 1 - 1 ≡ k = omega arith in
    let index : m + 1 - 1 ≡ m = omega arith in
    let days : d + 1 - 1 ≡ d = omega arith in
    (
      fill_tm (t / 86400) y r (m, d) (t % 86400),
      rw (e, e'),
      record {
        since = omega arith;
        month_pos = omega arith;
        month_le = omega arith;
        day_pos = omega arith;
        day_le = rw (full_year, index) (omega (arith, b'));
        hour_lt = omega arith;
        min_lt = omega arith;
        sec_lt = omega arith;
      },
      rw (full_year, since, months, days) (omega (arith, s, s', split_seconds t)),
    )

-- The day of the year of a date, from 0.
abbrev pub day_of_year : ℕ → ℕ → ℕ → ℕ
day_of_year y mo d = months_days (mo - 1) y 0 + (d - 1)

-- `localtime_r` gives back the date whose seconds SYS_clock_gettime computed, for a date from
-- 1970 on, in a year that an `int` holds, with all its fields in range.
pub unix_time-localtime_r :
    (y mo d h mi s : ℕ)
    → IsDate y mo d h mi s
    → y < 2 ^ 31
    → localtime_r (unix_time y mo d h mi s)
      ≡ some (record {
        year = y - 1900;
        mon = mo - 1;
        mday = d;
        hour = h;
        min = mi;
        sec = s;
        wday = (year_days (y - 1970) 1970 + months_days (mo - 1) y 0 + (d - 1) + 4) % 7;
        yday = day_of_year y mo d;
      })
unfolding localtime_r unix_time
unix_time-localtime_r y mo d h mi s v small =
    let r = day_of_year y mo d in
    let days = year_days (y - 1970) 1970 + months_days (mo - 1) y 0 + (d - 1) in
    let first : 0 + (mo - 1) ≡ mo - 1 = omega arith in
    let back : d - 1 + 1 ≡ d = omega (arith, v.day_pos) in
    let in_year =
      months_days_lt 12 (mo - 1) y 0 (d - 1) (omega (arith, v.month_pos, v.month_le))
        (rw first (omega (arith, v.day_pos, v.day_le))) in
    let at_year =
      year_loop-year_days (suc days) (y - 1970) 1970 y days r
        (omega (arith, year_days_le (y - 1970) 1970)) (omega (arith, v.since)) small (omega arith)
        (omega (arith, in_year, months_days_year y)) in
    let at_month =
      month_loop-months_days 12 (mo - 1) y 0 (mo - 1) r (d - 1)
        (omega (arith, v.month_pos, v.month_le)) (omega arith) refl
        (omega (arith, v.day_pos, v.day_le)) in
    rw (
      seconds_day days h mi s v.hour_lt v.min_lt v.sec_lt,
      seconds_left days h mi s v.hour_lt v.min_lt v.sec_lt,
      seconds_hour days h mi s v.hour_lt v.min_lt v.sec_lt,
      seconds_min days h mi s v.hour_lt v.min_lt v.sec_lt,
      seconds_sec days h mi s v.hour_lt v.min_lt v.sec_lt,
      at_year,
      at_month,
      back,
    )
