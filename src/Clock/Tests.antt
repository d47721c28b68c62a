-- ===== src/Clock/Tests.antt =====
-- The clock at concrete inputs.
use myunixlikeos.Common.{ℕ, refl, ◌≡◌, arith, some, [], ◌∷◌, ◌+◌}
use myunixlikeos.Clock.{days_in_month, Tm, days_in_month, localtime_r, unix_time, is_leap}
use myunixlikeos.Clock.Calendar.{IsDate, localtime_r-unix_time}
use myunixlikeos.Clock.Rtc.{same_reading, Time, Raw, rtc_get_time, is_valid_time, same_reading}
use myunixlikeos.Clock.Readings.{encode_time, encode, encode_hour, IsTime, rtc_get_time-encode_time}

-- 2024-02-29 23:59:58
abbrev leap_second : ℕ
leap_second = 1709251198

localtime_r-unix_time_example :
    (tm : Tm) × (localtime_r leap_second ≡ some tm)
    × IsDate (tm.year + 1900) (tm.mon + 1) tm.mday tm.hour tm.min tm.sec
    × (unix_time (tm.year + 1900) (tm.mon + 1) tm.mday tm.hour tm.min tm.sec ≡ leap_second)
localtime_r-unix_time_example = localtime_r-unix_time leap_second (omega arith)

leap_day : IsDate 1972 2 29 23 59 58
unfolding days_in_month is_leap
leap_day = record {
  since = omega arith;
  month_pos = omega arith;
  month_le = omega arith;
  day_pos = omega arith;
  day_le = omega arith;
  hour_lt = omega arith;
  min_lt = omega arith;
  sec_lt = omega arith;
}

abbrev evening : Time
evening = record { sec = 58; min = 59; hour = 23; day = 29; month = 2; year = 24; century = 20 }

evening-IsTime : IsTime evening
unfolding is_valid_time
evening-IsTime = record { valid = refl; century_pos = omega arith; century_lt = omega arith }

-- BCD, 12 hours
rtc_get_time-encode_time_example :
    rtc_get_time (
      (encode_time 0 evening, encode_time 4 evening)
      ∷ (encode_time 0 evening, encode_time 0 evening)
      ∷ [])
    ≡ some evening
unfolding same_reading encode_time encode encode_hour
rtc_get_time-encode_time_example =
    rtc_get_time-encode_time 0 evening ((encode_time 0 evening, encode_time 4 evening) ∷ []) []
      (omega arith) evening-IsTime (refl, tt)

evening_read : rtc_get_time ((encode_time 2 evening, encode_time 2 evening) ∷ []) ≡ some evening
evening_read = rtc_get_time-encode_time 2 evening [] [] (omega arith) evening-IsTime tt

abbrev no_century : Raw
no_century = record (encode_time 2 evening) { century = 0 }
