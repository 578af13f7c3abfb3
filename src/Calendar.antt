-- ===== src/Calendar.antt =====
-- The NYSE session calendar (crates/te_core/src/calendar.rs).
use trade_engine.Base.{
  ℕ, zero, suc, ◌+◌, ◌-◌, ◌*◌, ◌/◌, ◌%◌, Bool, true, false, not, ◌&&◌, ◌||◌, List, [], ◌∷◌, ◌++◌,
  ok, err, ◌>>=◌, ◌>>◌, err_if, ltb, leb, ◌==◌, any, if◌then◌else◌, Result,
}
use trade_engine.Base.Int.{ℤ, pos, negsuc, leb_ℤ}
use trade_engine.Calendar.Dates.{Chrono, Weekday, mon, tue, wed, thu, fri, sat, sun, same_day}
pub mod Dates
pub mod Sessions
pub mod Ranges
pub mod Windows
pub mod Holidays
pub mod Hours

-- `CalendarError`; `running` is no error of the code but the model's own, of a loop that has no fuel
-- left, and is never returned.
pub data CalendarError : Type 0 where
  out_of_range not_a_session : ℕ → CalendarError
  inverted_range : ℕ → ℕ → CalendarError
  bad_window : ℤ → CalendarError
  running : CalendarError

abbrev pub Res : Type 0 → Type 0
Res A = Result CalendarError A

-- `.contains(&d)`
abbrev pub has_date : ℕ → List ℕ → Bool
has_date d ds = any (λ x. x == d) ds

-- `matches!(d, Sat | Sun)`
abbrev pub is_sat_or_sun : Weekday → Bool
is_sat_or_sun sat = true
is_sat_or_sun sun = true
is_sat_or_sun w = false

abbrev pub is_mon_to_thu : Weekday → Bool
is_mon_to_thu mon = true
is_mon_to_thu tue = true
is_mon_to_thu wed = true
is_mon_to_thu thu = true
is_mon_to_thu w = false

-- The algorithm's numbers for a year; the month and the day are its answer.
pub record EasterDate : Type 0 where
  pub month : ℕ
  pub day : ℕ

-- No difference falls below zero, so natural numbers do for `i32`.
unfoldable pub easter_date : ℕ → EasterDate
easter_date year =
    let a = year % 19 in
    let b = year / 100 in
    let c = year % 100 in
    let d = b / 4 in
    let e = b % 4 in
    let f = (b + 8) / 25 in
    let g = (b - f + 1) / 3 in
    let h = (19 * a + b - d - g + 15) % 30 in
    let i = c / 4 in
    let k = c % 4 in
    let l = (32 + 2 * e + 2 * i - h - k) % 7 in
    let m = (a + 11 * h + 22 * l) / 451 in
    record { month = (h + l - 7 * m + 114) / 31; day = (h + l - 7 * m + 114) % 31 + 1 }

module _ ⦃c : Chrono⦄ where
  -- `FIRST` and `LAST`
  unfoldable pub first_date : ℕ
  first_date = c.ymd 2000 1 1

  unfoldable pub last_date : ℕ
  last_date = c.ymd 2040 12 31

  unfoldable pub special_closures : List ℕ
  special_closures =
      c.ymd 2001 9 11
      ∷ c.ymd 2001 9 12
      ∷ c.ymd 2001 9 13
      ∷ c.ymd 2001 9 14
      ∷ c.ymd 2004 6 11
      ∷ c.ymd 2007 1 2
      ∷ c.ymd 2012 10 29
      ∷ c.ymd 2012 10 30
      ∷ c.ymd 2018 12 5
      ∷ c.ymd 2025 1 9
      ∷ []

  unfoldable pub special_early_closes : List ℕ
  special_early_closes = c.ymd 2002 7 5 ∷ c.ymd 2003 12 26 ∷ []

  -- `NO_JULY_3_EARLY_CLOSE`
  abbrev no_july_3_early_close : List ℕ
  no_july_3_early_close = 2002 ∷ []

  unfoldable pub check : ℕ → Res (Unit {0})
  unfolding first_date last_date
  check d = err_if (ltb d first_date || ltb last_date d) (out_of_range d)

  -- The loop of `last_weekday`, at most seven rounds.
  unfoldable pub back_to : ℕ → Weekday → ℕ → ℕ
  back_to zero wd d = d
  back_to (suc f) wd d =
      let rest = back_to f wd (d - 1) in if same_day (c.weekday d) wd then d else rest

  unfoldable pub last_weekday : ℕ → ℕ → Weekday → ℕ
  unfolding back_to
  last_weekday year month wd =
      let first_next = if month == 12 then c.ymd (year + 1) 1 1 else c.ymd year (month + 1) 1 in
      back_to 7 wd (first_next - 1)

  unfoldable pub easter : ℕ → ℕ
  unfolding easter_date
  easter year = let e = easter_date year in c.ymd year e.month e.day

  unfoldable pub observed : ℕ → ℕ
  observed d = elim (c.weekday d) [ sat ↦ d - 1 | sun ↦ d + 1 | _ ↦ d ]

  -- New Year's Day, which is not observed on the Friday before.
  unfoldable pub new_year : ℕ → List ℕ
  new_year year =
      let ny = c.ymd year 1 1 in
      elim (c.weekday ny) [ sat ↦ [] | sun ↦ (ny + 1) ∷ [] | _ ↦ ny ∷ [] ]

  unfoldable pub juneteenth : ℕ → List ℕ
  unfolding observed
  juneteenth year = if leb 2022 year then observed (c.ymd year 6 19) ∷ [] else []

  unfoldable pub good_friday : ℕ → ℕ
  unfolding easter
  good_friday year = easter year - 2

  unfoldable pub holidays : ℕ → List ℕ
  unfolding new_year good_friday last_weekday juneteenth observed
  holidays year =
      let winter = c.of_weekday year 1 mon 3 ∷ c.of_weekday year 2 mon 3 ∷ good_friday year ∷ [] in
      let autumn =
        c.of_weekday year 9 mon 1 ∷ c.of_weekday year 11 thu 4 ∷ observed (c.ymd year 12 25) ∷ [] in
      let summer = observed (c.ymd year 7 4) ∷ autumn in
      new_year year ++ (winter ++ (last_weekday year 5 mon ∷ (juneteenth year ++ summer)))

  unfoldable pub is_weekend : ℕ → Bool
  is_weekend d = is_sat_or_sun (c.weekday d)

  unfoldable pub session_unchecked : ℕ → Bool
  unfolding is_weekend special_closures holidays
  session_unchecked d =
      not (is_weekend d)
      && not (has_date d special_closures)
      && not (has_date d (holidays (c.year d)))

  unfoldable pub is_session : ℕ → Res Bool
  unfolding check session_unchecked
  is_session d = do check d; ok (session_unchecked d)

  unfoldable pub is_holiday : ℕ → Res Bool
  unfolding check is_weekend session_unchecked
  is_holiday d = do check d; ok (not (is_weekend d) && not (session_unchecked d))

  unfoldable pub early_close_unchecked : ℕ → Bool
  unfolding session_unchecked special_early_closes
  early_close_unchecked d =
      let y = c.year d in
      let mon_thu = is_mon_to_thu (c.weekday d) in
      let day_after_thanksgiving = c.of_weekday y 11 thu 4 + 1 in
      if not (session_unchecked d)
      then false
      else ((c.month d == 7)
          && (c.day d == 3)
          && mon_thu
          && not (any (λ x. x == y) no_july_3_early_close))
        || (d == day_after_thanksgiving)
        || ((c.month d == 12) && (c.day d == 24) && mon_thu)
        || has_date d special_early_closes

  unfoldable pub is_early_close : ℕ → Res Bool
  unfolding check early_close_unchecked
  is_early_close d = do check d; ok (early_close_unchecked d)

  -- A time of day is its seconds; `single()` and `from_hms_opt` succeed at market times.
  unfoldable pub ny_to_utc : ℕ → ℕ → ℕ → ℕ
  ny_to_utc d hour minute = c.to_utc d (hour * 3600 + minute * 60)

  unfoldable pub session_open : ℕ → Res ℕ
  unfolding is_session ny_to_utc
  session_open d = do s ← is_session d; err_if (not s) (not_a_session d); ok (ny_to_utc d 9 30)

  unfoldable pub session_close : ℕ → Res ℕ
  unfolding is_session early_close_unchecked ny_to_utc
  session_close d = do
    s ← is_session d
    err_if (not s) (not_a_session d)
    ok (if early_close_unchecked d then ny_to_utc d 13 0 else ny_to_utc d 16 0)

  -- The loop of `step`.
  unfoldable pub walk : ℕ → ℕ → Bool → Res ℕ
  unfolding check session_unchecked
  walk zero d forward = err running
  walk (suc f) d forward =
      let x = if forward then d + 1 else d - 1 in
      let rest = walk f x forward in check x >> (if session_unchecked x then ok x else rest)

  unfoldable pub step : ℕ → Bool → Res ℕ
  unfolding walk last_date
  step d forward = walk (suc last_date) d forward

  unfoldable pub next_session : ℕ → Res ℕ
  unfolding check step
  next_session d = check d >> step d true

  unfoldable pub previous_session : ℕ → Res ℕ
  unfolding check step
  previous_session d = check d >> step d false

  unfoldable pub roll_to_session : ℕ → Bool → Res ℕ
  unfolding is_session step
  roll_to_session d forward =
      let rest = step d forward in is_session d >>= λ s. if s then ok d else rest

  -- `iter_days().take_while(..).filter(..)` over a number of days.
  unfoldable pub sessions_from : ℕ → ℕ → List ℕ
  unfolding session_unchecked
  sessions_from zero d = []
  sessions_from (suc n) d =
      let rest = sessions_from n (suc d) in if session_unchecked d then d ∷ rest else rest

  unfoldable pub sessions_in_range : ℕ → ℕ → Res (List ℕ)
  unfolding check sessions_from
  sessions_in_range start end = do
    err_if (ltb end start) (inverted_range start end)
    check start
    check end
    ok (sessions_from (suc end - start) start)

  -- The loop of `sessions_window_back`; `out` is held oldest first.
  unfoldable pub window_from : ℕ → ℕ → List ℕ → Res (List ℕ)
  unfolding step
  window_from zero d out = ok out
  window_from (suc n) d out = step d false >>= λ e. window_from n e (e ∷ out)

  unfoldable pub window_of : ℕ → ℤ → Res (List ℕ)
  unfolding window_from
  window_of end (pos zero) = err (bad_window (pos 0))
  window_of end (pos (suc n)) = window_from n end (end ∷ [])
  window_of end (negsuc n) = err (bad_window (negsuc n))

  unfoldable pub sessions_window_back : ℕ → ℤ → Res (List ℕ)
  unfolding is_session window_of
  sessions_window_back end count = do
    err_if (leb_ℤ count (pos 0)) (bad_window count)
    s ← is_session end
    err_if (not s) (not_a_session end)
    window_of end count

  unfoldable pub is_open_at : ℕ → Res Bool
  unfolding is_session session_open session_close
  is_open_at t =
      let d = c.ny_date t in
      let closing = session_close d >>= λ until. ok (ltb t until) in
      let opening = session_open d >>= λ from. if leb from t then closing else ok false in
      is_session d >>= λ s. if s then opening else ok false
