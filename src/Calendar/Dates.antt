-- ===== src/Calendar/Dates.antt =====
-- The dates of the crate chrono, and the New York time zone of chrono_tz, which the exchange
-- calendars use (crates/te_core/src/calendar.rs). A `NaiveDate` is its day number
-- (`num_days_from_ce`), so its order and the addition of `Duration::days` are those of numbers; an
-- instant is a number of seconds.
use trade_engine.Base.{
  ℕ, zero, suc, ◌+◌, ◌-◌, ◌*◌, ◌/◌, ◌%◌, ◌≤◌, ◌<◌, ◌≡◌, Bool, true, false, not, ◌&&◌, ◌||◌, ◌==◌,
  if◌then◌else◌, leb,
}

pub data Weekday : Type 0 where
  mon tue wed thu fri sat sun : Weekday

-- `Weekday`, by the days from Monday.
abbrev pub nth_day : ℕ → Weekday
nth_day zero = mon
nth_day (suc zero) = tue
nth_day (suc (suc zero)) = wed
nth_day (suc (suc (suc zero))) = thu
nth_day (suc (suc (suc (suc zero)))) = fri
nth_day (suc (suc (suc (suc (suc zero))))) = sat
nth_day n = sun

-- `PartialEq` of `Weekday`
abbrev pub same_day : Weekday → Weekday → Bool
same_day mon mon = true
same_day tue tue = true
same_day wed wed = true
same_day thu thu = true
same_day fri fri = true
same_day sat sat = true
same_day sun sun = true
same_day a b = false

-- The proleptic Gregorian calendar, as chrono documents it.
abbrev pub leap_year : ℕ → Bool
leap_year y = (y % 400 == 0) || ((y % 4 == 0) && not (y % 100 == 0))

-- The days of the months before one, with what February lacks of thirty days.
unfoldable pub days_before_month : ℕ → ℕ → ℕ
days_before_month y m =
    let short = if leb m 2 then 0 else if leap_year y then 1 else 2 in (367 * m - 362) / 12 - short

unfoldable pub day_number : ℕ → ℕ → ℕ → ℕ
unfolding days_before_month
day_number y m d =
    let past = y - 1 in days_before_month y m + d + 365 * past + past / 4 + past / 400 - past / 100

-- What the calendar calls of chrono, with its documented behaviour: the day number of a date, the
-- seven weekdays in turn, the n-th of a weekday in a month, and the instant of a local time, which
-- is read back as the same date and keeps the order of the times of a day.
pub record Chrono : Type 0 where
  pub ymd : ℕ → ℕ → ℕ → ℕ
  pub year : ℕ → ℕ
  pub month : ℕ → ℕ
  pub day : ℕ → ℕ
  pub weekday : ℕ → Weekday
  pub of_weekday : ℕ → ℕ → Weekday → ℕ → ℕ
  pub to_utc : ℕ → ℕ → ℕ
  pub ny_date : ℕ → ℕ
  pub ymd_law : (y m d : ℕ) → ymd y m d ≡ day_number y m d
  pub weekday_law : (d : ℕ) → weekday d ≡ nth_day ((d + 6) % 7)
  pub of_weekday_law : (y m : ℕ) (wd : Weekday) (n : ℕ) → weekday (of_weekday y m wd n) ≡ wd
  pub local_date :
      (d from until t : ℕ)
      → from ≤ until
      → until < 86400
      → to_utc d from ≤ t
      → t < to_utc d until
      → ny_date t ≡ d
