-- ===== src/Clock/Readings.antt =====
-- Reading back what the clock chip of kernel/drivers/nvram/rtc.c holds.
use myunixlikeos.Clock.{clock_gettime, unix_time}
use myunixlikeos.Common.{
  ℕ, refl, true, ◌<◌, ◌≡◌, ◌≤◌, ◌==◌, ==_iff, Bool-cases, if◌then◌else◌, inl, inr, leb, ◌%◌, ◌*◌,
  ◌+◌, ◌/◌, All, List, [], arith, false, some, ◌++◌, ◌-◌, ◌∷◌, ◌≤◌, Option-cases, some-subst,
}
use myunixlikeos.Common.Bytes.{every_less, every_less_sound}
use myunixlikeos.Clock.Rtc.{
  Raw, Time, bcd_to_bin, decode, decode_hour, decode_century, is_bcd, is_24h, checked, decode_raw,
  is_valid_time, rtc_get_time, same_reading, settle,
}

-- How the chip stores a number below 100 in the mode of status register `b`.
unfoldable pub encode : ℕ → ℕ → ℕ
encode b v = if is_bcd b then v / 10 * 16 + v % 10 else v

-- The hour of the 12 hour clock: 12, 1, ..., 11.
abbrev clock_hour : ℕ → ℕ
clock_hour h = if h % 12 == 0 then 12 else h % 12

-- The hour with the flag for the afternoon in the 12 hour mode.
unfoldable pub encode_hour : ℕ → ℕ → ℕ
unfolding encode
encode_hour b h =
    if is_24h b then encode b h else (if leb 12 h then 128 else 0) + encode b (clock_hour h)

unfoldable pub encode_time : ℕ → Time → Raw
unfolding encode encode_hour
encode_time b t = record {
  sec = encode b t.sec;
  min = encode b t.min;
  hour = encode_hour b t.hour;
  day = encode b t.day;
  month = encode b t.month;
  year = encode b t.year;
  century = encode b t.century;
  status = b;
}

bcd_table : every_less 100 (λ v. bcd_to_bin (v / 10 * 16 + v % 10) == v) ≡ true
unfolding every_less bcd_to_bin
bcd_table = refl

decode-encode : (b v : ℕ) → v < 100 → decode b (encode b v) ≡ v
unfolding decode encode
decode-encode b v h = elim (Bool-cases (is_bcd b)) [
  | inl t ↦ rw (t) (
      (==_iff _ _).0
        (every_less_sound 100 (λ v. bcd_to_bin (v / 10 * 16 + v % 10) == v) v bcd_table h))
  | inr t ↦ rw (t)
]

hour_table : every_less 256 (λ b. every_less 24 (λ h. decode_hour b (encode_hour b h) == h)) ≡ true
unfolding every_less decode_hour encode_hour decode encode bcd_to_bin
hour_table = refl

decode_hour-encode_hour : (b h : ℕ) → b < 256 → h < 24 → decode_hour b (encode_hour b h) ≡ h
decode_hour-encode_hour b h hb hh = (==_iff _ _).0 (
    every_less_sound 24 (λ h. decode_hour b (encode_hour b h) == h) h
      (every_less_sound 256 (λ b. every_less 24 (λ h. decode_hour b (encode_hour b h) == h)) b
        hour_table hb)
      hh)

century_table :
    every_less 256 (λ b. every_less 99 (λ c. decode_century b (encode b (c + 1)) == c + 1)) ≡ true
unfolding every_less decode_century decode encode bcd_to_bin
century_table = refl

decode_century-encode : (b c : ℕ) → b < 256 → 1 ≤ c → c < 100 → decode_century b (encode b c) ≡ c
decode_century-encode b c hb one hc =
    let back : c - 1 + 1 ≡ c = omega arith in
    rw back at (
      (==_iff (decode_century b (encode b (c - 1 + 1))) (c - 1 + 1)).0 (
        every_less_sound 99 (λ c. decode_century b (encode b (c + 1)) == c + 1) (c - 1)
          (every_less_sound 256
            (λ b. every_less 99 (λ c. decode_century b (encode b (c + 1)) == c + 1)) b century_table
            hb)
          (omega arith)))

-- The fields are in range for the clock chip.
pub record IsTime (t : Time) : Type 0 where
  pub valid : is_valid_time t.sec t.min t.hour t.day t.month t.year ≡ true
  pub century_pos : 1 ≤ t.century
  pub century_lt : t.century < 100

record Bounds (t : Time) : Type 0 where
  pub sec_le : t.sec ≤ 59
  pub min_le : t.min ≤ 59
  pub hour_le : t.hour ≤ 23
  pub day_le : t.day ≤ 31
  pub month_le : t.month ≤ 12
  pub year_le : t.year ≤ 99

IsTime-Bounds : (t : Time) → IsTime t → Bounds t
unfolding is_valid_time
IsTime-Bounds t v = record {
  sec_le = ground (arith, v.valid);
  min_le = ground (arith, v.valid);
  hour_le = ground (arith, v.valid);
  day_le = ground (arith, v.valid);
  month_le = ground (arith, v.valid);
  year_le = ground (arith, v.valid);
}

decode_raw-encode_time : (b : ℕ) (t : Time) → b < 256 → IsTime t → decode_raw (encode_time b t) ≡ t
unfolding decode_raw encode_time
decode_raw-encode_time b t hb v =
    let w = IsTime-Bounds t v in
    rw (
      decode-encode b t.sec (omega (arith, w.sec_le)),
      decode-encode b t.min (omega (arith, w.min_le)),
      decode_hour-encode_hour b t.hour hb (omega (arith, w.hour_le)),
      decode-encode b t.day (omega (arith, w.day_le)),
      decode-encode b t.month (omega (arith, w.month_le)),
      decode-encode b t.year (omega (arith, w.year_le)),
      decode_century-encode b t.century hb v.century_pos v.century_lt,
    )

-- The two readings of a round differ.
abbrev pub Differs : Raw × Raw → Type 0
Differs (a, b) = same_reading a b ≡ false

same_reading_refl : (a : Raw) → same_reading a a ≡ true
unfolding same_reading
same_reading_refl a = ground arith

settle-append :
    (before rest : List (Raw × Raw)) (a : Raw)
    → All Differs before
    → settle (before ++ (a, a) ∷ rest) ≡ some a
unfolding settle
settle-append [] rest a d = rw (same_reading_refl a)
settle-append ((x, y) ∷ before) rest a (d, ds) = rw (d) (settle-append before rest a ds)

abbrev pub TimeIsValid : Time → Type 0
TimeIsValid t = is_valid_time t.sec t.min t.hour t.day t.month t.year ≡ true

checked-valid : (t : Time) → TimeIsValid t → checked t ≡ t
unfolding checked
checked-valid t v = rw (v)

checked-TimeIsValid : (t : Time) → TimeIsValid (checked t)
unfolding checked is_valid_time
checked-TimeIsValid t = elim (Bool-cases (is_valid_time t.sec t.min t.hour t.day t.month t.year)) [
  | inl v ↦ rw (v) v
  | inr v ↦ rw (v)
]

rtc_get_time-settle :
    (rounds : List (Raw × Raw)) (r : Raw)
    → settle rounds ≡ some r
    → rtc_get_time rounds ≡ some (checked (decode_raw r))
unfolding rtc_get_time
rtc_get_time-settle rounds r e = rw (e)

-- Whatever the mode that status register B sets, BCD or binary, 12 or 24 hours: after rounds whose
-- readings differ, the first round that reads a time twice gives this time.
pub rtc_get_time-encode_time :
    (b : ℕ) (t : Time) (before rest : List (Raw × Raw))
    → b < 256
    → IsTime t
    → All Differs before
    → rtc_get_time (before ++ (encode_time b t, encode_time b t) ∷ rest) ≡ some t
rtc_get_time-encode_time b t before rest hb v d =
    let e = rtc_get_time-settle _ _ (settle-append before rest (encode_time b t) d) in
    let back = decode_raw-encode_time b t hb v in let same = checked-valid t v.valid in cc

-- Whatever was read, a time that is returned is valid.
pub rtc_get_time-is_valid_time :
    (rounds : List (Raw × Raw)) (t : Time) → rtc_get_time rounds ≡ some t → TimeIsValid t
unfolding rtc_get_time
rtc_get_time-is_valid_time rounds t e = elim (Option-cases (settle rounds)) [
  | inl f ↦ let e' = rw f at e in cc
  | inr (r, f) ↦
      let e' = rw f at e in
      some-subst TimeIsValid (checked (decode_raw r)) t e' (checked-TimeIsValid (decode_raw r))
]

missing_century : (r : Raw) → is_bcd r.status ≡ true → r.century ≡ 0 → (decode_raw r).century ≡ 14
unfolding decode_raw decode_century decode bcd_to_bin
missing_century r bcd absent = rw (absent, bcd)

-- In BCD mode, a chip without a century register reads as a year of the 15th century, for which
-- SYS_clock_gettime gives the seconds of noon on 18 April 2024, whatever the time is.
pub clock_gettime-decode_raw :
    (r : Raw)
    → is_bcd r.status ≡ true
    → r.century ≡ 0
    → (decode_raw r).year ≤ 99
    → let t = decode_raw r in
      clock_gettime t.century t.year t.month t.day t.hour t.min t.sec ≡ unix_time 2024 4 18 12 0 0
unfolding clock_gettime
clock_gettime-decode_raw r bcd absent small =
    let t = decode_raw r in
    let old : leb 2000 (t.century * 100 + t.year) ≡ false =
      ground (arith, missing_century r bcd absent, small) in
    rw (old)
