-- ===== src/Clock/Rtc.antt =====
-- The real-time clock of kernel/drivers/nvram/rtc.c. The hardware is the list of the readings that
-- the rounds of the loop give; waiting for the update flag is left out.
use myunixlikeos.Common.{
  ℕ, Bool, List, Option, [], bit_and, if◌then◌else◌, leb, none, not, some, ◌%◌, ◌&&◌, ◌*◌, ◌+◌, ◌/◌,
  ◌==◌, ◌||◌, ◌∷◌, ◌>>=◌, ltb, false, true,
}

-- The registers of one reading; `status` is status register B.
pub record Raw : Type 0 where
  pub sec : ℕ
  pub min : ℕ
  pub hour : ℕ
  pub day : ℕ
  pub month : ℕ
  pub year : ℕ
  pub century : ℕ
  pub status : ℕ

-- What the function returns through its pointers.
pub record Time : Type 0 where
  pub sec : ℕ
  pub min : ℕ
  pub hour : ℕ
  pub day : ℕ
  pub month : ℕ
  pub year : ℕ
  pub century : ℕ

unfoldable pub bcd_to_bin : ℕ → ℕ
bcd_to_bin v = (bit_and v 0x0f + v / 16 * 10) % 256

unfoldable pub is_valid_time : (sec min hour day month year : ℕ) → Bool
is_valid_time s mi h d mo y =
    if ltb 59 s || ltb 59 mi || ltb 23 h || ltb mo 1 || ltb 12 mo || ltb d 1 || ltb 31 d || ltb 99 y
    then false
    else if mo == 2
    then leb d 29
    else if mo == 4 || mo == 6 || mo == 9 || mo == 11
    then leb d 30
    else true

abbrev pub is_bcd : ℕ → Bool
is_bcd b = bit_and b 4 == 0

abbrev pub is_24h : ℕ → Bool
is_24h b = not (bit_and b 2 == 0)

-- A register in the mode that the status says.
unfoldable pub decode : ℕ → ℕ → ℕ
unfolding bcd_to_bin
decode b v = if is_bcd b then bcd_to_bin v else v

-- The hour, which has the flag for the afternoon in its top bit.
unfoldable pub decode_hour : ℕ → ℕ → ℕ
unfolding decode
decode_hour b raw =
    let h = decode b (bit_and raw 0x7f) in
    if is_24h b
    then h
    else if not (bit_and raw 0x80 == 0)
    then (if h == 12 then h else (h + 12) % 256)
    else (if h == 12 then 0 else h)

unfoldable pub decode_century : ℕ → ℕ → ℕ
unfolding decode
decode_century b raw = decode b (if raw == 0 || raw == 0xff then 20 else raw)

unfoldable pub decode_raw : Raw → Time
unfolding decode decode_hour decode_century
decode_raw r = record {
  sec = decode r.status r.sec;
  min = decode r.status r.min;
  hour = decode_hour r.status r.hour;
  day = decode r.status r.day;
  month = decode r.status r.month;
  year = decode r.status r.year;
  century = decode_century r.status r.century;
}

abbrev pub default_time : Time
default_time = record { sec = 0; min = 0; hour = 12; day = 18; month = 4; year = 24; century = 20 }

unfoldable pub checked : Time → Time
unfolding is_valid_time
checked t = if is_valid_time t.sec t.min t.hour t.day t.month t.year then t else default_time

unfoldable pub same_reading : Raw → Raw → Bool
same_reading a b =
    a.status == b.status
    && a.sec == b.sec
    && a.min == b.min
    && a.hour == b.hour
    && a.day == b.day
    && a.month == b.month
    && a.year == b.year
    && a.century == b.century

-- The loop, which ends in the first round whose two readings agree; `none` is that it goes on.
unfoldable pub settle : List (Raw × Raw) → Option Raw
unfolding same_reading
settle [] = none
settle ((a, b) ∷ rounds) = let rest = settle rounds in if same_reading a b then some a else rest

unfoldable pub rtc_get_time : List (Raw × Raw) → Option Time
unfolding settle decode_raw checked
rtc_get_time rounds = settle rounds >>= λ r. some (checked (decode_raw r))
