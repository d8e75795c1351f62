-- ===== src/Calendar/RoundTrip.antt =====
-- Seconds to broken-down time and back.
use libcs.Prelude.{
  ℕ, ◌+◌, ◌-◌, ◌/◌, ◌%◌, ◌<◌, ◌≤◌, ◌≡◌, refl, arith, ap, ◌∙◌, sym, false, Bool-cases, inl, inr,
  none, some, ◌||◌,
}
use libcs.Prelude.Int.{to_unsigned, ℤ, pos, negsuc, ◌+ℤ◌, ◌-ℤ◌, ◌*ℤ◌, ltb_ℤ, int_laws}
use libcs.Calendar.{
  u32, days_from_march, days_from_civil, era_of, day_of_era, year_of_era, civil_from_days, Tm,
  split_day, secs_to_tm, carry_months, tm_to_secs, int_max, int_min, year_limit,
}
use libcs.Calendar.Floor.{era_of_lem, split_day_lem}
use libcs.Calendar.Civil.{
  month_of, day_of, month_of_lem, day_of_year, year_of_era_bounds, days_from_march_lem,
  march_adjust, days_from_civil-civil_from_days, year_start, month_start, march_month,
}

-- A month's days follow each other.
from_first :
    (e : ℤ) (yoe m d : ℕ)
    → yoe < 400
    → 1 ≤ m
    → m ≤ 12
    → 1 ≤ d
    → d ≤ 31
    → days_from_march (pos yoe +ℤ e *ℤ pos 400) m 1 +ℤ pos d -ℤ pos 1
      ≡ days_from_march (pos yoe +ℤ e *ℤ pos 400) m d
from_first e yoe m d h k l n o =
    ap (λ x. x +ℤ pos d -ℤ pos 1) (days_from_march_lem e yoe m 1 h k l (omega arith) (omega arith))
    ∙ shift (e *ℤ pos 146097) (year_start yoe) (month_start (march_month m)) d n
    ∙ sym (days_from_march_lem e yoe m d h k l n o)
  where
    shift :
        (x : ℤ) (s j d : ℕ)
        → 1 ≤ d
        → x +ℤ pos (s + (j + 1 - 1)) -ℤ pos 719468 +ℤ pos d -ℤ pos 1
          ≡ x +ℤ pos (s + (j + d - 1)) -ℤ pos 719468
    shift x s j d h = omega int_laws

civil_first :
    (days : ℤ)
    → let date = civil_from_days days in
      days_from_civil date.y date.month 1 +ℤ pos date.day -ℤ pos 1 ≡ days
unfolding days_from_civil civil_from_days
civil_first days =
    let z = days +ℤ pos 719468 in
    let doe = day_of_era z in
    let doy = day_of_year doe in
    let e = era_of z in
    let yoe = year_of_era doe in
    let (small, start, short) = year_of_era_bounds doe (era_of_lem z).0 in
    let (m1, m12, d31, back) = month_of_lem doy short in
    let adjust = march_adjust (pos yoe +ℤ e *ℤ pos 400) (month_of doy) in
    ap (λ y. days_from_march y (month_of doy) 1 +ℤ pos (day_of doy) -ℤ pos 1) adjust
    ∙ from_first e yoe (month_of doy) (day_of doy) small m1 m12 (omega arith) d31
    ∙ sym (ap (λ y. days_from_march y (month_of doy) (day_of doy)) adjust)
    ∙ days_from_civil-civil_from_days days

civil_month : (days : ℤ) → (1 ≤ (civil_from_days days).month) × ((civil_from_days days).month ≤ 12)
unfolding civil_from_days
civil_month days =
    let doe = day_of_era (days +ℤ pos 719468) in
    let (small, start, short) = year_of_era_bounds doe (era_of_lem (days +ℤ pos 719468)).0 in
    let (m1, m12, d31, back) = month_of_lem (day_of_year doe) short in (m1, m12)

clock : (n : ℕ) → pos (n / 3600) *ℤ pos 3600 +ℤ pos (n / 60 % 60) *ℤ pos 60 +ℤ pos (n % 60) ≡ pos n
unfolding ◌+ℤ◌ ◌*ℤ◌
clock n = ground arith

carry :
    (y : ℤ) (m : ℕ)
    → 1 ≤ m
    → m ≤ 12
    → carry_months (y -ℤ pos 1900) (pos m -ℤ pos 1) ≡ (y, pos (m - 1))
unfolding carry_months ◌+ℤ◌ ◌-ℤ◌
carry y m h k = ground arith

from_fields :
    (tm : Tm) (days t y : ℤ) (n m d : ℕ)
    → (tm.year ≡ y -ℤ pos 1900) × (tm.mon ≡ pos m -ℤ pos 1) × (tm.mday ≡ pos d)
    → (tm.hour ≡ pos (n / 3600)) × (tm.min ≡ pos (n / 60 % 60)) × (tm.sec ≡ pos (n % 60))
    → 1 ≤ m
    → m ≤ 12
    → ltb_ℤ year_limit y ≡ false
    → ltb_ℤ y (pos 0 -ℤ year_limit) ≡ false
    → days_from_civil y m 1 +ℤ pos d -ℤ pos 1 ≡ days
    → days *ℤ pos 86400 +ℤ pos n ≡ t
    → tm_to_secs tm ≡ some t
unfolding tm_to_secs
from_fields tm days t y n m d (a, b, c) (f, g, h) m1 m12 below above same split =
    rw (a, b, c, f, g, h, carry y m m1 m12, below, above, month m m1 m12, same, clock n, split) refl
  where
    month : (m : ℕ) → 1 ≤ m → m ≤ 12 → u32 (to_unsigned (pos (m - 1)) + 1) ≡ m
    month m h k = omega arith

-- An int year is within the limit of 2 ^ 40 years.
in_limit :
    (y : ℤ)
    → (ltb_ℤ int_max (y -ℤ pos 1900) || ltb_ℤ (y -ℤ pos 1900) int_min) ≡ false
    → (ltb_ℤ year_limit y ≡ false) × (ltb_ℤ y (pos 0 -ℤ year_limit) ≡ false)
unfolding ◌-ℤ◌
in_limit (pos a) h = (ground arith, ground arith)
in_limit (negsuc a) h = (ground arith, ground arith)

-- `tm_to_secs` undoes `secs_to_tm`: when a time has a broken-down form (its year is in the range of `int`),
-- converting that form back succeeds and gives the time.
pub secs_to_tm-tm_to_secs : (t : ℤ) (tm : Tm) → secs_to_tm t ≡ some tm → tm_to_secs tm ≡ some t
unfolding secs_to_tm
secs_to_tm-tm_to_secs t tm h =
    let (n, second, small, split) = split_day_lem t in
    let days = (split_day t).0 in
    let date = civil_from_days days in
    let (m1, m12) = civil_month days in
    elim (Bool-cases (ltb_ℤ int_max (date.y -ℤ pos 1900) || ltb_ℤ (date.y -ℤ pos 1900) int_min)) [
      | inl bad ↦ absurd (let g = rw bad at h in cc)
      | inr fine ↦
          let (below, above) = in_limit date.y fine in
          let g = rw (second, fine) at h in
          let same = ap (λ o. elim o as (λ _. Tm) [ none ↦ tm | some x ↦ x ]) g in
          ap tm_to_secs (sym same)
          ∙ from_fields _ days t date.y n date.month date.day (refl, refl, refl) (refl, refl, refl)
              m1 m12 below above (civil_first days) split
    ]
