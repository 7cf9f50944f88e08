-- ===== src/Schedules/Cron/Calendar.antt =====
-- The UTC fields of a `Date` that the scheduler reads, for times since the epoch: the proleptic
-- Gregorian calendar, by eras of 400 years that begin on the first of March.
use renom.Prelude.{if◌then◌else◌, ltb, refl, ℕ, ◌%◌, ◌*◌, ◌+◌, ◌-◌, ◌/◌, ◌≡◌}

abbrev pub minute_ms : ℕ
minute_ms = 60000

unfoldable pub utc_minutes : ℕ → ℕ
utc_minutes t = t / 60000 % 60

unfoldable pub utc_hours : ℕ → ℕ
utc_hours t = t / 3600000 % 24

-- 1970-01-01 was a Thursday.
unfoldable pub utc_day : ℕ → ℕ
utc_day t = (t / 86400000 + 4) % 7

-- The day of its era, counted from 0000-03-01; the year of the era; and the day of that year.
unfoldable pub day_of_era : ℕ → ℕ
day_of_era t = (t / 86400000 + 719468) % 146097

unfoldable pub year_of_era : ℕ → ℕ
year_of_era doe = (doe + doe / 36524 - doe / 1460 - doe / 146096) / 365

unfoldable pub day_of_year : ℕ → ℕ
unfolding year_of_era
day_of_year doe = doe - (365 * year_of_era doe + year_of_era doe / 4 - year_of_era doe / 100)

-- `getUTCMonth() + 1` and `getUTCDate()`.
unfoldable pub utc_month : ℕ → ℕ
unfolding day_of_year day_of_era
utc_month t =
    let m = (5 * day_of_year (day_of_era t) + 2) / 153 in if ltb m 10 then m + 3 else m - 9

unfoldable pub utc_date : ℕ → ℕ
unfolding day_of_year day_of_era
utc_date t = let y = day_of_year (day_of_era t) in y - (153 * ((5 * y + 2) / 153) + 2) / 5 + 1

-- 2024-02-29T23:59Z, a Thursday; 2025-12-31T00:00Z, a Wednesday; 1970-01-01.
calendar_tests :
    (utc_month 1709251140000 ≡ 2)
    × (utc_date 1709251140000 ≡ 29)
    × (utc_hours 1709251140000 ≡ 23)
    × (utc_minutes 1709251140000 ≡ 59)
    × (utc_day 1709251140000 ≡ 4)
    × (utc_month 1767139200000 ≡ 12)
    × (utc_date 1767139200000 ≡ 31)
    × (utc_day 1767139200000 ≡ 3)
    × (utc_month 0 ≡ 1)
    × (utc_date 0 ≡ 1)
unfolding utc_month utc_date utc_hours utc_minutes utc_day
calendar_tests = (refl, refl, refl, refl, refl, refl, refl, refl, refl, refl)
