-- ===== src/Clock/Loops.antt =====
-- The loops over years and months of kernel/sys/time/localtime_r.c and of SYS_clock_gettime in
-- kernel/syscall.c.
use myunixlikeos.Common.{
  ◌^◌, ◌*◌, leb, ℕ, arith, some, suc, zero, ◌+◌, ◌<◌, ◌≡◌, Bool-cases, inl, inr, ltb, false, ◌-◌,
  true, ◌≤◌,
}
use myunixlikeos.Clock.{year_loop, year_days, month_loop, months_days, days_in_month, days_in_year}

-- With fuel for every day, the first loop ends: `n` years on, with the days that are left.
pub year_loop_total :
    (k y d : ℕ)
    → d < k
    → y * 365 + d < 2 ^ 31 * 365
    → (n : ℕ) × (y' : ℕ) × (r : ℕ) × (year_loop k y d ≡ some (y', r))
      × (y' ≡ y + n)
      × (year_days n y + r ≡ d)
      × (r < days_in_year y')
unfolding year_loop year_days
year_loop_total zero y d h small = absurd (omega arith)
year_loop_total (suc k) y d h small = elim (Bool-cases (ltb d (days_in_year y))) [
  | inl t ↦ (0, y, d, rw (t), omega arith, omega arith, ground arith)
  | inr t ↦
      let some_days : 0 < days_in_year y = ground arith in
      let holds : leb (2 ^ 31 - 1) y ≡ false = ground arith in
      let (n, y', r, e, at, s, b) =
        year_loop_total k (suc y) (d - days_in_year y) (ground arith) (ground arith) in
      (suc n, y', r, rw (t, holds) e, omega arith, ground arith, b)
]

pub year_loop-year_days :
    (k n y y' d r : ℕ)
    → n < k
    → y' ≡ y + n
    → y' < 2 ^ 31
    → d ≡ year_days n y + r
    → r < days_in_year y'
    → year_loop k y d ≡ some (y', r)
unfolding year_loop year_days
year_loop-year_days zero n y y' d r h at small e b = absurd (omega arith)
year_loop-year_days (suc k) zero y y' d r h at small e b =
    let same : y ≡ y' = omega arith in
    let left : d ≡ r = omega (arith, e) in
    let t : ltb r (days_in_year y') ≡ true = ground arith in rw (same, left, t)
year_loop-year_days (suc k) (suc n) y y' d r h at small e b =
    let t : ltb d (days_in_year y) ≡ false = ground arith in
    let holds : leb (2 ^ 31 - 1) y ≡ false = ground arith in
    rw (t, holds)
      (year_loop-year_days k n (suc y) y' (d - days_in_year y) r (omega arith) (omega arith) small
        (ground arith) b)

-- With `k` months left, the second loop ends in the right month.
pub month_loop_total :
    (k y m d : ℕ)
    → d < months_days k y m
    → (n : ℕ) × (m' : ℕ) × (r : ℕ) × (month_loop k y m d ≡ (m', r))
      × (m' ≡ m + n)
      × (n < k)
      × (months_days n y m + r ≡ d)
      × (r < days_in_month y m')
unfolding month_loop months_days
month_loop_total zero y m d h = absurd (omega arith)
month_loop_total (suc k) y m d h = elim (Bool-cases (ltb d (days_in_month y m))) [
  | inl t ↦ (0, m, d, rw (t), omega arith, omega arith, omega arith, ground arith)
  | inr t ↦
      let (n, m', r, e, at, l, s, b) =
        month_loop_total k y (suc m) (d - days_in_month y m) (ground arith) in
      (suc n, m', r, rw (t) e, omega arith, omega arith, ground arith, b)
]

pub month_loop-months_days :
    (k n y m m' d r : ℕ)
    → n < k
    → m' ≡ m + n
    → d ≡ months_days n y m + r
    → r < days_in_month y m'
    → month_loop k y m d ≡ (m', r)
unfolding month_loop months_days
month_loop-months_days zero n y m m' d r h at e b = absurd (omega arith)
month_loop-months_days (suc k) zero y m m' d r h at e b =
    let same : m ≡ m' = omega arith in
    let left : d ≡ r = omega (arith, e) in
    let t : ltb r (days_in_month y m') ≡ true = ground arith in rw (same, left, t)
month_loop-months_days (suc k) (suc n) y m m' d r h at e b =
    let t : ltb d (days_in_month y m) ≡ false = ground arith in
    rw (t) (
      month_loop-months_days k n y (suc m) m' (d - days_in_month y m) r (omega arith) (omega arith)
        (ground arith) b)

-- Twelve months make a year.
pub months_days_year : (y : ℕ) → months_days 12 y 0 ≡ days_in_year y
unfolding months_days days_in_month
months_days_year y = ground arith

pub year_days_le : (n y : ℕ) → n ≤ year_days n y
unfolding year_days
year_days_le zero y = omega arith
year_days_le (suc n) y =
    let some_days : 0 < days_in_year y = ground arith in omega (arith, year_days_le n (suc y))

pub months_days_lt :
    (k n y m r : ℕ)
    → n < k
    → r < days_in_month y (m + n)
    → months_days n y m + r < months_days k y m
unfolding months_days
months_days_lt zero n y m r h b = absurd (omega arith)
months_days_lt (suc k) zero y m r h b =
    let same : m + 0 ≡ m = omega arith in let b' = rw same at b in omega (arith, b')
months_days_lt (suc k) (suc n) y m r h b =
    let same : m + suc n ≡ suc m + n = omega arith in
    omega (arith, months_days_lt k n y (suc m) r (omega arith) (rw same at b))
