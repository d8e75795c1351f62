-- ===== src/Calendar/Floor.antt =====
-- The code's divisions that round down.
use libcs.Prelude.{ℕ, ◌-◌, ◌%◌, ◌<◌, ◌≡◌, arith}
use libcs.Prelude.Int.{ℤ, pos, negsuc, ◌+ℤ◌, ◌-ℤ◌, ◌*ℤ◌, +ℤ_cancel}
use libcs.Calendar.{split_day, year_era, year_in_era, era_of, day_of_era}

-- Day and second of the day: the second is in range, and the two give the time back.
pub split_day_lem :
    (t : ℤ)
    → (s : ℕ) × ((split_day t).1 ≡ pos s)
      × (s < 86400)
      × ((split_day t).0 *ℤ pos 86400 +ℤ pos s ≡ t)
unfolding split_day ◌+ℤ◌ ◌-ℤ◌ ◌*ℤ◌
split_day_lem (pos a) = (a % 86400, ground arith, omega arith, ground arith)
split_day_lem (negsuc a) = (86399 - a % 86400, ground arith, omega arith, ground arith)

pub era_of_lem :
    (z : ℤ) → (day_of_era z < 146097) × (era_of z *ℤ pos 146097 +ℤ pos (day_of_era z) ≡ z)
unfolding era_of day_of_era ◌+ℤ◌ ◌-ℤ◌ ◌*ℤ◌
era_of_lem (pos a) = (ground arith, ground arith)
era_of_lem (negsuc a) = (ground arith, ground arith)

year_era_pos : (a yoe : ℕ) → yoe < 400 → year_era (pos yoe +ℤ pos a *ℤ pos 400) ≡ pos a
unfolding year_era ◌+ℤ◌ ◌-ℤ◌ ◌*ℤ◌
year_era_pos a yoe h = ground arith

year_era_negsuc : (a yoe : ℕ) → yoe < 400 → year_era (pos yoe +ℤ negsuc a *ℤ pos 400) ≡ negsuc a
unfolding year_era ◌+ℤ◌ ◌-ℤ◌ ◌*ℤ◌
year_era_negsuc a yoe h = ground arith

year_era_lem : (e : ℤ) (yoe : ℕ) → yoe < 400 → year_era (pos yoe +ℤ e *ℤ pos 400) ≡ e
year_era_lem (pos a) yoe h = year_era_pos a yoe h
year_era_lem (negsuc a) yoe h = year_era_negsuc a yoe h

cancel : (e : ℤ) (y : ℕ) → pos y +ℤ e *ℤ pos 400 -ℤ e *ℤ pos 400 ≡ pos y
cancel e y = +ℤ_cancel (pos y) (e *ℤ pos 400)

pub year_in_era_lem :
    (e : ℤ) (yoe : ℕ)
    → yoe < 400
    → (year_era (pos yoe +ℤ e *ℤ pos 400) ≡ e) × (year_in_era (pos yoe +ℤ e *ℤ pos 400) ≡ yoe)
unfolding year_in_era
year_in_era_lem e yoe h =
    (year_era_lem e yoe h, rw (year_era_lem e yoe h, cancel e yoe) (omega arith))
