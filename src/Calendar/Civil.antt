-- ===== src/Calendar/Civil.antt =====
-- Day numbers to dates and back.
use libcs.Prelude.{
  ℕ, ◌+◌, ◌-◌, ◌*◌, ◌/◌, ◌^◌, ◌<◌, ◌≤◌, ◌≡◌, arith, ltb, leb, if◌then◌else◌, ap, ◌∙◌, Bool-cases,
  inl, inr,
}
use libcs.Prelude.Int.{ℤ, pos, ◌+ℤ◌, ◌-ℤ◌, ◌*ℤ◌, +ℤ_cancel, int_laws}
use libcs.Calendar.{
  u32, days_from_march, days_from_civil, era_of, day_of_era, year_of_era, civil_from_days,
}
use libcs.Calendar.Floor.{era_of_lem, year_in_era_lem}

-- The days before year `y` of an era, and before month `mp` of a year, counted from March.
abbrev pub year_start : ℕ → ℕ
year_start y = y * 365 + y / 4 - y / 100

abbrev pub month_start : ℕ → ℕ
month_start mp = (153 * mp + 2) / 5

abbrev pub march_month : ℕ → ℕ
march_month m = if ltb 2 m then m - 3 else m + 9

abbrev pub day_of_year : ℕ → ℕ
day_of_year doe = doe - (365 * year_of_era doe + year_of_era doe / 4 - year_of_era doe / 100)

pub year_of_era_bounds :
    (doe : ℕ)
    → doe < 146097
    → (year_of_era doe < 400)
      × (year_start (year_of_era doe) + day_of_year doe ≡ doe)
      × (day_of_year doe ≤ 365)
unfolding year_of_era
year_of_era_bounds doe h = (omega arith, omega arith, omega arith)

-- `days_from_civil` of year `yoe` in era `e`, counted from March.
pub days_from_march_lem :
    (e : ℤ) (yoe m d : ℕ)
    → yoe < 400
    → 1 ≤ m
    → m ≤ 12
    → 1 ≤ d
    → d ≤ 31
    → days_from_march (pos yoe +ℤ e *ℤ pos 400) m d
      ≡ e *ℤ pos 146097
        +ℤ pos (year_start yoe + (month_start (march_month m) + d - 1))
        -ℤ pos 719468
unfolding days_from_march
days_from_march_lem e yoe m d h k l n o =
    let (era, year) = year_in_era_lem e yoe h in
    rw (era, year)
      (ap (λ (j : ℕ). e *ℤ pos 146097 +ℤ pos j -ℤ pos 719468) (no_wrap yoe m d h k l n o))
  where
    no_wrap :
        (yoe m d : ℕ)
        → yoe < 400
        → 1 ≤ m
        → m ≤ 12
        → 1 ≤ d
        → d ≤ 31
        → u32 (year_start yoe + u32 (month_start (march_month m) + d + 2 ^ 32 - 1))
          ≡ year_start yoe + (month_start (march_month m) + d - 1)
    no_wrap yoe m d h k l n o = ground arith

-- The month and day of a day of the year, as `civil_from_days` finds them.
abbrev pub month_of : ℕ → ℕ
month_of doy = let mp = (5 * doy + 2) / 153 in if ltb mp 10 then mp + 3 else mp - 9

abbrev pub day_of : ℕ → ℕ
day_of doy = doy - month_start ((5 * doy + 2) / 153) + 1

pub month_of_lem :
    (doy : ℕ)
    → doy ≤ 365
    → (1 ≤ month_of doy)
      × (month_of doy ≤ 12)
      × (day_of doy ≤ 31)
      × (month_start (march_month (month_of doy)) + day_of doy - 1 ≡ doy)
month_of_lem doy h = (ground arith, ground arith, omega arith, ground arith)

-- A date's year, counted from March.
pub march_adjust :
    (x : ℤ) (m : ℕ)
    → (if leb m 2
        then x +ℤ (if leb m 2 then pos 1 else pos 0) -ℤ pos 1
        else x +ℤ (if leb m 2 then pos 1 else pos 0))
      ≡ x
march_adjust x m = elim (Bool-cases (leb m 2)) [
  | inl h ↦ rw h (+ℤ_cancel x (pos 1))
  | inr h ↦ rw h (+ℤ_zero x)
]
  where
    +ℤ_zero : (x : ℤ) → x +ℤ pos 0 ≡ x
    +ℤ_zero x = omega int_laws

pub days_from_march_day :
    (e : ℤ) (yoe doy : ℕ)
    → yoe < 400
    → doy ≤ 365
    → days_from_march (pos yoe +ℤ e *ℤ pos 400) (month_of doy) (day_of doy)
      ≡ e *ℤ pos 146097 +ℤ pos (year_start yoe + doy) -ℤ pos 719468
days_from_march_day e yoe doy h k =
    let (m1, m12, d31, back) = month_of_lem doy k in
    days_from_march_lem e yoe (month_of doy) (day_of doy) h m1 m12 (omega arith) d31
    ∙ ap (λ (j : ℕ). e *ℤ pos 146097 +ℤ pos (year_start yoe + j) -ℤ pos 719468) back

-- A day number's date is that day: `civil_from_days` and `__days_from_civil` agree on every day of the
-- proleptic Gregorian calendar, before and after the epoch.
pub days_from_civil-civil_from_days :
    (days : ℤ)
    → let date = civil_from_days days in days_from_civil date.y date.month date.day ≡ days
unfolding days_from_civil civil_from_days
days_from_civil-civil_from_days days =
    let z = days +ℤ pos 719468 in
    let doe = day_of_era z in
    let (small, start, short) = year_of_era_bounds doe (era_of_lem z).0 in
    ap (λ y. days_from_march y (month_of (day_of_year doe)) (day_of (day_of_year doe)))
      (march_adjust (pos (year_of_era doe) +ℤ era_of z *ℤ pos 400) (month_of (day_of_year doe)))
    ∙ days_from_march_day (era_of z) (year_of_era doe) (day_of_year doe) small short
    ∙ ap (λ (j : ℕ). era_of z *ℤ pos 146097 +ℤ pos j -ℤ pos 719468) start
    ∙ ap (λ x. x -ℤ pos 719468) (era_of_lem z).1
    ∙ +ℤ_cancel days (pos 719468)
