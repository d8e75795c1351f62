-- ===== src/Calendar/Examples.antt =====
-- src/tz.c and src/timeconv.c: runs at known times, and each theorem at a time.
use libcs.Prelude.{◌≡◌, ◌≤◌, refl, none, some}
use libcs.Prelude.Int.{pos, negsuc, ◌+ℤ◌, ◌-ℤ◌, ◌*ℤ◌}
use libcs.Calendar.{
  Tm, split_day, civil_from_days, era_of, day_of_era, year_of_era, year_era, year_in_era,
  days_from_march, days_from_civil, carry_months, secs_to_tm, tm_to_secs, timegm, is_leap,
}
use libcs.Calendar.RoundTrip.{secs_to_tm-tm_to_secs}
use libcs.Calendar.Valid.{civil_from_days-IsDate, days_in_month}

-- What the runs below compute with.
program : Unit {0}
unfolding split_day civil_from_days era_of day_of_era year_of_era year_era year_in_era
    days_from_march days_from_civil carry_months secs_to_tm tm_to_secs timegm is_leap ◌+ℤ◌ ◌-ℤ◌ ◌*ℤ◌
program = tt

leap_day : civil_from_days (pos 11016) ≡ record { y = pos 2000; month = 2; day = 29 }
unfolding program
leap_day = refl

eve : civil_from_days (negsuc 0) ≡ record { y = pos 1969; month = 12; day = 31 }
unfolding program
eve = refl

far : secs_to_tm (pos 67768036191676800) ≡ none
unfolding program
far = refl

-- One second before the epoch.
abbrev before : Tm
before = record {
  sec = pos 59;
  min = pos 59;
  hour = pos 23;
  mday = pos 31;
  mon = pos 11;
  year = pos 69;
  wday = pos 3;
  yday = pos 364;
}

before_lem : secs_to_tm (negsuc 0) ≡ some before
unfolding program
before_lem = refl

-- The same second, as minute -1 of the first hour of month -12 of 1971.
abbrev loose : Tm
loose = record {
  sec = pos 59;
  min = negsuc 0;
  hour = pos 0;
  mday = pos 1;
  mon = negsuc 11;
  year = pos 71;
  wday = pos 0;
  yday = pos 0;
}

loose_lem : timegm loose ≡ some (negsuc 0, before)
unfolding program
loose_lem = refl

secs_to_tm-tm_to_secs_example : tm_to_secs before ≡ some (negsuc 0)
secs_to_tm-tm_to_secs_example = secs_to_tm-tm_to_secs (negsuc 0) before before_lem

civil_from_days-IsDate_example :
    let date = civil_from_days (pos 11016) in
    (1 ≤ date.month)
    × (date.month ≤ 12)
    × (1 ≤ date.day)
    × (date.day ≤ days_in_month date.y date.month)
civil_from_days-IsDate_example = civil_from_days-IsDate (pos 11016)
