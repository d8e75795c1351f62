-- ===== src/Calendar.antt =====
-- src/tz.c (calendar helpers) and src/timeconv.c (conversions between seconds and broken-down time).
-- `long long` and `int` values are integers without bounds: the code's own range checks are written
-- out. For fields within `int` no 64-bit sum of `tm_to_secs` overflows, as the seconds stay below 2 ^ 57.
-- `unsigned` sums wrap.
pub mod Floor
pub mod Civil
pub mod RoundTrip
pub mod Valid
pub mod Normal
mod Examples
use libcs.Prelude.{
  ℕ, zero, suc, ◌+◌, ◌-◌, ◌*◌, ◌/◌, ◌%◌, ◌^◌, Bool, true, false, not, ◌&&◌, ◌||◌, Option, none,
  some, ltb, leb, ◌==◌, if◌then◌else◌,
}
use libcs.Prelude.Int.{ℤ, pos, negsuc, sub_ℕ, ◌+ℤ◌, ◌-ℤ◌, ◌*ℤ◌, ltb_ℤ, to_unsigned}

-- `a / n` and `a % n` of C for a positive constant `n`: they round towards 0.
abbrev pub quot : ℤ → ℕ → ℤ
quot (pos a) n = pos (a / n)
quot (negsuc a) n = sub_ℕ 0 (suc a / n)

abbrev pub rem : ℤ → ℕ → ℤ
rem (pos a) n = pos (a % n)
rem (negsuc a) n = sub_ℕ 0 (suc a % n)

abbrev pub u32 : ℕ → ℕ
u32 a = a % 2 ^ 32

abbrev pub is_zero : ℤ → Bool
is_zero (pos a) = a == 0
is_zero (negsuc a) = false

-- `__is_leap(y)`.
unfoldable pub is_leap : ℤ → Bool
is_leap y = (is_zero (rem y 4) && not (is_zero (rem y 100))) || is_zero (rem y 400)

-- The era of a year counted from March, and the year in it.
unfoldable pub year_era : ℤ → ℤ
year_era y = quot (if ltb_ℤ y (pos 0) then y -ℤ pos 399 else y) 400

unfoldable pub year_in_era : ℤ → ℕ
year_in_era y = to_unsigned (y -ℤ year_era y *ℤ pos 400)

-- `__days_from_civil(y, m, d)`, for `y` after `y -= m <= 2`.
unfoldable pub days_from_march : ℤ → ℕ → ℕ → ℤ
days_from_march y m d =
    let yoe = year_in_era y in
    let doy = u32 ((153 * (if ltb 2 m then m - 3 else m + 9) + 2) / 5 + d + 2 ^ 32 - 1) in
    let doe = u32 (yoe * 365 + yoe / 4 - yoe / 100 + doy) in
    year_era y *ℤ pos 146097 +ℤ pos doe -ℤ pos 719468

unfoldable pub days_from_civil : ℤ → ℕ → ℕ → ℤ
days_from_civil y m d = days_from_march (if leb m 2 then y -ℤ pos 1 else y) m d

-- The fields of `struct tm` that the conversions fill.
pub record Tm : Type 0 where
  pub sec : ℤ
  pub min : ℤ
  pub hour : ℤ
  pub mday : ℤ
  pub mon : ℤ
  pub year : ℤ
  pub wday : ℤ
  pub yday : ℤ

-- The day number and the second of the day: division that rounds down.
unfoldable pub split_day : ℤ → ℤ × ℤ
split_day t =
    let days = quot t 86400 in
    let r = rem t 86400 in if ltb_ℤ r (pos 0) then (days -ℤ pos 1, r +ℤ pos 86400) else (days, r)

-- A day's era of 400 years, its day in the era and year of the era, counted from March.
unfoldable pub era_of : ℤ → ℤ
era_of z = quot (if ltb_ℤ z (pos 0) then z -ℤ pos 146096 else z) 146097

unfoldable pub day_of_era : ℤ → ℕ
day_of_era z = to_unsigned (z -ℤ era_of z *ℤ pos 146097)

unfoldable pub year_of_era : ℕ → ℕ
year_of_era doe = (doe - doe / 1460 + doe / 36524 - doe / 146096) / 365

-- A date; `month` is from 1.
pub record Date : Type 0 where
  pub y : ℤ
  pub month : ℕ
  pub day : ℕ

-- `civil_from_days` of `secs_to_tm`.
unfoldable pub civil_from_days : ℤ → Date
civil_from_days days =
    let z = days +ℤ pos 719468 in
    let doe = day_of_era z in
    let yoe = year_of_era doe in
    let doy = doe - (365 * yoe + yoe / 4 - yoe / 100) in
    let mp = (5 * doy + 2) / 153 in
    let m = if ltb mp 10 then mp + 3 else mp - 9 in
    record {
      y = pos yoe +ℤ era_of z *ℤ pos 400 +ℤ (if leb m 2 then pos 1 else pos 0);
      month = m;
      day = doy - (153 * mp + 2) / 5 + 1;
    }

abbrev pub int_max : ℤ
int_max = pos (2 ^ 31 - 1)

abbrev pub int_min : ℤ
int_min = negsuc (2 ^ 31 - 1)

-- `secs_to_tm(t, tm)`; `none` is the null return with EOVERFLOW.
unfoldable pub secs_to_tm : ℤ → Option Tm
secs_to_tm t =
    let (days, r) = split_day t in
    let date = civil_from_days days in
    if ltb_ℤ int_max (date.y -ℤ pos 1900) || ltb_ℤ (date.y -ℤ pos 1900) int_min
    then none
    else some (record {
      sec = rem r 60;
      min = rem (quot r 60) 60;
      hour = quot r 3600;
      mday = pos date.day;
      mon = pos date.month -ℤ pos 1;
      year = date.y -ℤ pos 1900;
      wday = rem (rem days 7 +ℤ pos 11) 7;
      yday = days -ℤ days_from_civil date.y 1 1;
    })

-- The year and the month, from 0, after the months beyond a year are carried.
unfoldable pub carry_months : ℤ → ℤ → ℤ × ℤ
carry_months year mon =
    let y = year +ℤ pos 1900 +ℤ quot mon 12 in
    let m = rem mon 12 in if ltb_ℤ m (pos 0) then (y -ℤ pos 1, m +ℤ pos 12) else (y, m)

abbrev pub year_limit : ℤ
year_limit = pos (2 ^ 40)

-- `tm_to_secs(tm, out)`; `none` is the return -1.
unfoldable pub tm_to_secs : Tm → Option ℤ
tm_to_secs tm =
    let (y, m) = carry_months tm.year tm.mon in
    if ltb_ℤ year_limit y || ltb_ℤ y (pos 0 -ℤ year_limit)
    then none
    else some (
        (days_from_civil y (u32 (to_unsigned m + 1)) 1 +ℤ tm.mday -ℤ pos 1) *ℤ pos 86400
        +ℤ (tm.hour *ℤ pos 3600 +ℤ tm.min *ℤ pos 60 +ℤ tm.sec))

-- `timegm(tm)`: the seconds and the normalised fields; `none` is the return -1 with EOVERFLOW.
unfoldable pub timegm : Tm → Option (ℤ × Tm)
timegm tm = elim (tm_to_secs tm) [
  | none ↦ none
  | some t ↦ elim (secs_to_tm t) [ none ↦ none | some n ↦ some (t, n) ]
]
