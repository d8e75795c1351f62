-- ===== src/Calendar/Normal.antt =====
-- src/timeconv.c: the time that timegm gives, and the fields it leaves in its argument.
use libcs.Prelude.{ℕ, true, ◌+◌, ◌≤◌, ◌≡◌, ◌<◌, ◌||◌}
use libcs.Prelude.Int.{ℤ, pos, ◌+ℤ◌, ◌-ℤ◌, ◌*ℤ◌, ◌≤ℤ◌, ltb_ℤ}
use libcs.Calendar.{civil_from_days, Tm, split_day, days_from_civil, year_limit, int_max, int_min}
use libcs.Calendar.Valid.{days_in_month}

abbrev pub InRange : ℕ → ℕ → ℤ → Type 0
InRange low high v = (pos low ≤ℤ v) × (v ≤ℤ pos high)

-- Fields within their ranges: a time of day, a day of the month and a month, from 0, of the calendar.
abbrev pub IsNormal : Tm → Type 0
IsNormal tm =
    InRange 0 59 tm.sec
    × InRange 0 59 tm.min
    × InRange 0 23 tm.hour
    × InRange 0 11 tm.mon
    × ((m d : ℕ) × (tm.mon ≡ pos m)
        × (tm.mday ≡ pos d)
        × (1 ≤ d)
        × (d ≤ days_in_month (tm.year +ℤ pos 1900) (m + 1)))
    × InRange 0 6 tm.wday

-- The value of fields in any range: `m` months, from 0, into the year `y`, and the days and seconds from there.
abbrev pub IsTimeOf : Tm → ℤ → Type 0
IsTimeOf tm t =
    (y : ℤ) × (m : ℕ) × (m < 12)
    × (y *ℤ pos 12 +ℤ pos m ≡ (tm.year +ℤ pos 1900) *ℤ pos 12 +ℤ tm.mon)
    × (t
        ≡ (days_from_civil y (m + 1) 1 +ℤ tm.mday -ℤ pos 1) *ℤ pos 86400
          +ℤ (tm.hour *ℤ pos 3600 +ℤ tm.min *ℤ pos 60 +ℤ tm.sec))

-- No int holds the year of the time.
abbrev pub IsBeyond : ℤ → Type 0
IsBeyond t =
    let year = (civil_from_days (split_day t).0).y -ℤ pos 1900 in
    (ltb_ℤ int_max year || ltb_ℤ year int_min) ≡ true

-- The year of the fields, with the months carried, is beyond 2 ^ 40 or before - 2 ^ 40.
abbrev pub IsFar : Tm → Type 0
IsFar tm =
    (y : ℤ) × (m : ℕ) × (m < 12)
    × (y *ℤ pos 12 +ℤ pos m ≡ (tm.year +ℤ pos 1900) *ℤ pos 12 +ℤ tm.mon)
    × ((ltb_ℤ year_limit y || ltb_ℤ y (pos 0 -ℤ year_limit)) ≡ true)
