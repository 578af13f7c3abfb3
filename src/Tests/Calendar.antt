-- ===== src/Tests/Calendar.antt =====
-- A concrete calendar, in standard time all the year, and the sessions round Thanksgiving 2026
-- (crates/te_core/src/calendar.rs).
use trade_engine.Base.{
  ℕ, zero, suc, ◌+◌, ◌-◌, ◌*◌, ◌/◌, ◌%◌, ◌≤◌, ◌<◌, ◌≡◌, ◌↔◌, refl, ap, ◌∙◌, true, false, [], ◌∷◌,
  All, ok, arith, ltb, if◌then◌else◌,
}
use trade_engine.Base.Int.{pos}
use trade_engine.Calendar.Dates.{
  Chrono, Weekday, mon, tue, wed, thu, fri, sat, sun, nth_day, day_number, days_before_month,
}
use trade_engine.Calendar.{
  first_date, last_date, special_closures, special_early_closes, check, back_to, last_weekday,
  easter_date, easter, good_friday, observed, new_year, juneteenth, holidays, is_weekend,
  session_unchecked, is_session, early_close_unchecked, ny_to_utc, session_open, session_close,
  walk, step, next_session, previous_session, sessions_from, sessions_in_range,
  sessions_window_back, is_open_at, has_date,
}
use trade_engine.Calendar.Sessions.{
  FindsNext, next_session-FindsNext, previous_session-next_session,
}
use trade_engine.Calendar.Ranges.{Ascending, sessions_in_range-lem}
use trade_engine.Calendar.Windows.{WindowOf, sessions_window_back-WindowOf}
use trade_engine.Calendar.Holidays.{holidays-weekdays}
use trade_engine.Calendar.Hours.{is_open_at_iff}

abbrev day_index : Weekday → ℕ
day_index mon = 0
day_index tue = 1
day_index wed = 2
day_index thu = 3
day_index fri = 4
day_index sat = 5
day_index sun = 6

nth_day-day_index : (w : Weekday) → nth_day (day_index w) ≡ w
nth_day-day_index mon = refl
nth_day-day_index tue = refl
nth_day-day_index wed = refl
nth_day-day_index thu = refl
nth_day-day_index fri = refl
nth_day-day_index sat = refl
nth_day-day_index sun = refl

day_index-lt : (w : Weekday) → day_index w < 7
day_index-lt mon = omega arith
day_index-lt tue = omega arith
day_index-lt wed = omega arith
day_index-lt thu = omega arith
day_index-lt fri = omega arith
day_index-lt sat = omega arith
day_index-lt sun = omega arith

find_year : ℕ → ℕ → ℕ → ℕ
unfolding day_number
find_year zero d y = y
find_year (suc f) d y =
    let rest = find_year f d (y + 1) in if ltb d (day_number (y + 1) 1 1) then y else rest

find_month : ℕ → ℕ → ℕ → ℕ → ℕ
unfolding day_number
find_month zero d y m = m
find_month (suc f) d y m =
    let rest = find_month f d y (m + 1) in if ltb d (day_number y (m + 1) 1) then m else rest

year_of : ℕ → ℕ
unfolding find_year
year_of d = find_year 10 d (d / 366)

month_of : ℕ → ℕ
unfolding find_month year_of
month_of d = find_month 11 d (year_of d) 1

weekday_from : ℕ → Weekday → ℕ → ℕ
weekday_from first w n = first + (7 + day_index w - (first + 6) % 7) % 7 + 7 * (n - 1)

weekday_from-index :
    (first i n : ℕ) → i < 7 → (first + (7 + i - (first + 6) % 7) % 7 + 7 * (n - 1) + 6) % 7 ≡ i
weekday_from-index first i n h = omega arith

weekday_from-law :
    (first : ℕ) (w : Weekday) (n : ℕ) → nth_day ((weekday_from first w n + 6) % 7) ≡ w
unfolding weekday_from
weekday_from-law first w n =
    ap nth_day (weekday_from-index first (day_index w) n (day_index-lt w)) ∙ nth_day-day_index w

local_date-law :
    (d from until t : ℕ)
    → from ≤ until
    → until < 86400
    → d * 86400 + 18000 + from ≤ t
    → t < d * 86400 + 18000 + until
    → (t - 18000) / 86400 ≡ d
local_date-law d from until t p q h k = omega arith

standard_time : Chrono
unfolding year_of month_of weekday_from day_number
standard_time = record {
  ymd = day_number;
  year = year_of;
  month = month_of;
  day = λ d. d + 1 - day_number (year_of d) (month_of d) 1;
  weekday = λ d. nth_day ((d + 6) % 7);
  of_weekday = λ y m w n. weekday_from (day_number y m 1) w n;
  to_utc = λ d s. d * 86400 + 18000 + s;
  ny_date = λ t. (t - 18000) / 86400;
  ymd_law = λ y m d. refl;
  weekday_law = λ d. refl;
  of_weekday_law = λ y m w n. weekday_from-law (day_number y m 1) w n;
  local_date = local_date-law;
}

-- The Wednesday before Thanksgiving, and the Friday after it.
abbrev wednesday : ℕ
wednesday = 739945

abbrev friday : ℕ
friday = 739947

from_test : first_date ⦃c = standard_time⦄ ≤ wednesday
unfolding first_date standard_time day_number days_before_month
from_test = omega arith

until_test : friday ≤ last_date ⦃c = standard_time⦄
unfolding last_date standard_time day_number days_before_month
until_test = omega arith

covered : wednesday ≤ last_date ⦃c = standard_time⦄
covered = omega (arith, until_test)

session_test : session_unchecked ⦃c = standard_time⦄ wednesday ≡ true
unfolding session_unchecked is_weekend special_closures holidays new_year good_friday easter
    easter_date last_weekday juneteenth observed back_to standard_time day_number days_before_month
    year_of month_of find_year find_month weekday_from
session_test = refl

next_test : next_session ⦃c = standard_time⦄ wednesday ≡ ok friday
unfolding next_session step walk check first_date last_date session_unchecked is_weekend
    special_closures holidays new_year good_friday easter easter_date last_weekday juneteenth
    observed back_to standard_time day_number days_before_month year_of month_of find_year
    find_month weekday_from
next_test = refl

range_test : sessions_in_range ⦃c = standard_time⦄ wednesday friday ≡ ok (wednesday ∷ friday ∷ [])
unfolding sessions_in_range sessions_from check first_date last_date session_unchecked is_weekend
    special_closures holidays new_year good_friday easter easter_date last_weekday juneteenth
    observed back_to standard_time day_number days_before_month year_of month_of find_year
    find_month weekday_from
range_test = refl

-- It closes at one on the Friday.
close_test : session_close ⦃c = standard_time⦄ friday ≡ ok (friday * 86400 + 18000 + 46800)
unfolding session_close is_session early_close_unchecked special_early_closes ny_to_utc check
    first_date last_date session_unchecked is_weekend special_closures holidays new_year good_friday
    easter easter_date last_weekday juneteenth observed back_to standard_time day_number
    days_before_month year_of month_of find_year find_month weekday_from
close_test = refl

next_session-FindsNext_example :
    FindsNext ⦃c = standard_time⦄ wednesday (next_session ⦃c = standard_time⦄ wednesday)
next_session-FindsNext_example =
    next_session-FindsNext ⦃c = standard_time⦄ wednesday from_test covered

previous_session-next_session_example : previous_session ⦃c = standard_time⦄ friday ≡ ok wednesday
previous_session-next_session_example =
    previous_session-next_session ⦃c = standard_time⦄ wednesday from_test covered session_test
      next_test

sessions_in_range-lem_example :
    Ascending (wednesday ∷ friday ∷ [])
    × ((x : ℕ)
        → (has_date x (wednesday ∷ friday ∷ []) ≡ true)
          ↔ ((wednesday ≤ x) × (x ≤ friday) × (session_unchecked ⦃c = standard_time⦄ x ≡ true)))
sessions_in_range-lem_example =
    sessions_in_range-lem ⦃c = standard_time⦄ wednesday friday range_test

sessions_window_back-WindowOf_example :
    WindowOf ⦃c = standard_time⦄ wednesday 3
      (sessions_window_back ⦃c = standard_time⦄ wednesday (pos 3))
sessions_window_back-WindowOf_example =
    sessions_window_back-WindowOf ⦃c = standard_time⦄ wednesday 3 from_test covered session_test
      (omega arith)

holidays-weekdays_example :
    All (λ d. is_weekend ⦃c = standard_time⦄ d ≡ false) (holidays ⦃c = standard_time⦄ 2026)
holidays-weekdays_example = holidays-weekdays ⦃c = standard_time⦄ 2026 (omega arith) (omega arith)

is_open_at_iff_example : (is_open_at ⦃c = standard_time⦄ (friday * 86400 + 60000) ≡ ok true) ↔ (
    (d : ℕ) × (a : ℕ) × (b : ℕ) × (session_open ⦃c = standard_time⦄ d ≡ ok a)
    × (session_close ⦃c = standard_time⦄ d ≡ ok b)
    × (a ≤ friday * 86400 + 60000)
    × (friday * 86400 + 60000 < b))
is_open_at_iff_example = is_open_at_iff ⦃c = standard_time⦄ (friday * 86400 + 60000)
