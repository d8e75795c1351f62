-- ===== src/Calendar/Valid.antt =====
-- The dates of `civil_from_days` are dates of the calendar.
use libcs.Prelude.{ℕ, ◌+◌, ◌<◌, ◌≤◌, ◌≡◌, arith, leb, ◌==◌, if◌then◌else◌, ◌∙◌, true, ◌||◌}
use native.Mathlib.Decide.{dec_le}
use libcs.Prelude.Int.{ℤ, pos, negsuc, ◌+ℤ◌, ◌*ℤ◌, int_laws}
use libcs.Calendar.{is_leap, era_of, day_of_era, year_of_era, civil_from_days}
use libcs.Calendar.Floor.{era_of_lem}
use libcs.Calendar.Civil.{month_of, day_of, month_of_lem, day_of_year, year_of_era_bounds}

-- The days of a month, by the calendar's rules.
abbrev pub days_in_month : ℤ → ℕ → ℕ
days_in_month y m =
    if m == 2
    then (if is_leap y then 29 else 28)
    else (if m == 4 || m == 6 || m == 9 || m == 11 then 30 else 31)

-- Years are leap by their year in the era.
leap_in_era : (e : ℤ) (y : ℕ) → is_leap (pos y +ℤ e *ℤ pos 400) ≡ is_leap (pos y)
unfolding is_leap ◌+ℤ◌ ◌*ℤ◌
leap_in_era (pos a) y = ground arith
leap_in_era (negsuc a) y = ground arith

day_small : (doy : ℕ) → doy ≤ 364 → (y : ℤ) → day_of doy ≤ days_in_month y (month_of doy)
day_small doy h y = ground arith

-- A year of the era has a day 365 only if the year it ends in is leap.
last_day_leap :
    (doe : ℕ) → doe < 146097 → day_of_year doe ≡ 365 → is_leap (pos (year_of_era doe + 1)) ≡ true
unfolding year_of_era is_leap
last_day_leap doe h k = ground arith

add_one : (y : ℕ) (e : ℤ) → pos y +ℤ e *ℤ pos 400 +ℤ pos 1 ≡ pos (y + 1) +ℤ e *ℤ pos 400
add_one y e = omega int_laws

day_last :
    (doe : ℕ) (e : ℤ)
    → doe < 146097
    → 365 ≤ day_of_year doe
    → day_of_year doe ≤ 365
    → let m = month_of (day_of_year doe) in
      day_of (day_of_year doe)
      ≤ days_in_month
          (pos (year_of_era doe) +ℤ e *ℤ pos 400 +ℤ (if leb m 2 then pos 1 else pos 0))
          m
day_last doe e h k l =
    let last = at_most (day_of_year doe) k l in
    let leap = leap_in_era e (year_of_era doe + 1) ∙ last_day_leap doe h last in
    rw (last, add_one (year_of_era doe) e, leap) (omega arith)
  where
    at_most : (d : ℕ) → 365 ≤ d → d ≤ 365 → d ≡ 365
    at_most d k l = omega arith

-- The date of every day number is one of the Gregorian calendar: its month is from 1 to 12, and its day
-- from 1 to the length of that month, where February has a 29th exactly in the years that `__is_leap`
-- accepts.
pub civil_from_days-IsDate :
    (days : ℤ)
    → let date = civil_from_days days in
      (1 ≤ date.month)
      × (date.month ≤ 12)
      × (1 ≤ date.day)
      × (date.day ≤ days_in_month date.y date.month)
unfolding civil_from_days
civil_from_days-IsDate days =
    let doe = day_of_era (days +ℤ pos 719468) in
    let e = era_of (days +ℤ pos 719468) in
    let (era, split) = era_of_lem (days +ℤ pos 719468) in
    let (small, start, short) = year_of_era_bounds doe era in
    let (m1, m12, d31, back) = month_of_lem (day_of_year doe) short in
    (
      m1,
      m12,
      omega arith,
      elim (dec_le (day_of_year doe) 364) [
        | yes k ↦ day_small (day_of_year doe) k _
        | no k ↦ day_last doe e era (omega arith) short
      ],
    )
