-- ===== src/Calendar/Holidays.antt =====
-- The holidays of a year (crates/te_core/src/calendar.rs, `holidays`).
use trade_engine.Base.{
  ℕ, zero, suc, ◌+◌, ◌-◌, ◌%◌, ◌≤◌, ◌<◌, ◌≡◌, ◌≢◌, refl, sym, ap, subst, ◌∙◌, Bool, true, false,
  ◌&&◌, List, [], ◌∷◌, All, All-append, arith, leb, ◌==◌, if◌then◌else◌, Bool-cases, inl, inr,
}
use native.Mathlib.Decide.{ℕ_discrete}
use trade_engine.Calendar.Dates.{
  Chrono, Weekday, mon, tue, wed, thu, fri, sat, sun, nth_day, same_day, day_number,
  days_before_month,
}
use trade_engine.Calendar.{
  is_sat_or_sun, is_weekend, easter_date, easter, good_friday, observed, new_year, juneteenth,
  back_to, last_weekday, holidays,
}

-- Which day is which: the seven answers differ.
nth_day-sat : (r : ℕ) → r < 7 → nth_day r ≡ sat → r ≡ 5
nth_day-sat zero h e = cc
nth_day-sat (suc zero) h e = cc
nth_day-sat (suc (suc zero)) h e = cc
nth_day-sat (suc (suc (suc zero))) h e = cc
nth_day-sat (suc (suc (suc (suc zero)))) h e = cc
nth_day-sat (suc (suc (suc (suc (suc zero))))) h e = refl
nth_day-sat (suc (suc (suc (suc (suc (suc n)))))) h e = cc

nth_day-sun : (r : ℕ) → r < 7 → nth_day r ≡ sun → r ≡ 6
nth_day-sun zero h e = cc
nth_day-sun (suc zero) h e = cc
nth_day-sun (suc (suc zero)) h e = cc
nth_day-sun (suc (suc (suc zero))) h e = cc
nth_day-sun (suc (suc (suc (suc zero)))) h e = cc
nth_day-sun (suc (suc (suc (suc (suc zero))))) h e = cc
nth_day-sun (suc (suc (suc (suc (suc (suc n)))))) h e = omega arith

easter_day : ℕ → ℕ
easter_day y = day_number y (easter_date y).month (easter_date y).day

abbrev spring_sunday : ℕ → ℕ → ℕ → Bool
spring_sunday from until d = (d % 7 == 0) && leb from d && leb d until

in_spring : ℕ → Bool
unfolding easter_day
in_spring y = spring_sunday (day_number y 3 22) (day_number y 4 25) (easter_day y)

all_from : ℕ → ℕ → Bool
all_from zero y = true
all_from (suc n) y = in_spring y && all_from n (suc y)

all_from-at : (n y x : ℕ) → all_from n y ≡ true → y ≤ x → x < y + n → in_spring x ≡ true
unfolding all_from
all_from-at zero y x h p q = absurd (omega arith)
all_from-at (suc n) y x h p q = elim (Bool-cases (in_spring y)) [
  | inl good ↦ elim (ℕ_discrete y x) [
    | yes e ↦ subst (λ z. in_spring z ≡ true) e good
    | no ne ↦ all_from-at n (suc y) x (rw good at h) (omega arith) (omega arith)
  ]
  | inr bad ↦ let none : all_from (suc n) y ≡ false = rw (bad, all_from) refl in cc
]

every_year : all_from 41 2000 ≡ true
unfolding all_from in_spring easter_day easter_date day_number days_before_month
every_year = refl

spring_sunday-lem :
    (from until d : ℕ) → spring_sunday from until d ≡ true → (d % 7 ≡ 0) × (from ≤ d) × (d ≤ until)
spring_sunday-lem from until d h = ground arith

in_spring-lem :
    (y : ℕ)
    → 2000 ≤ y
    → y ≤ 2040
    → (easter_day y % 7 ≡ 0)
      × (day_number y 3 22 ≤ easter_day y)
      × (easter_day y ≤ day_number y 4 25)
unfolding in_spring
in_spring-lem y p q =
    spring_sunday-lem (day_number y 3 22) (day_number y 4 25) (easter_day y)
      (all_from-at 41 2000 y every_year p (omega arith))

same_mon : (a : Weekday) → same_day a mon ≡ true → a ≡ mon
same_mon mon h = refl
same_mon tue h = cc
same_mon wed h = cc
same_mon thu h = cc
same_mon fri h = cc
same_mon sat h = cc
same_mon sun h = cc

is_sunday : (d : ℕ) → d % 7 ≡ 0 → nth_day ((d + 6) % 7) ≡ sun
is_sunday d h = let last : (d + 6) % 7 ≡ 6 = omega arith in ap nth_day last

module _ ⦃c : Chrono⦄ where
  easter-eq : (y : ℕ) → easter y ≡ easter_day y
  unfolding easter easter_day
  easter-eq y = c.ymd_law y (easter_date y).month (easter_date y).day

  -- In every year from 2000 through 2040 the computed Easter is a Sunday from March 22 through
  -- April 25.
  pub easter-sunday :
      (y : ℕ)
      → 2000 ≤ y
      → y ≤ 2040
      → (c.weekday (easter y) ≡ sun) × (c.ymd y 3 22 ≤ easter y) × (easter y ≤ c.ymd y 4 25)
  easter-sunday y p q =
      let (sunday, from, until) = in_spring-lem y p q in
      rw (easter-eq y, c.ymd_law y 3 22, c.ymd_law y 4 25)
        (c.weekday_law (easter_day y) ∙ is_sunday (easter_day y) sunday, from, until)

  weekend_of :
      (d : ℕ) (w : Weekday) → c.weekday d ≡ w → is_sat_or_sun w ≡ false → is_weekend d ≡ false
  unfolding is_weekend
  weekend_of d w e h = rw e h

  after_sunday : (d : ℕ) → c.weekday d ≡ sun → c.weekday (d + 1) ≡ mon
  after_sunday d e =
      let at = nth_day-sun ((d + 6) % 7) (omega arith) (sym (c.weekday_law d) ∙ e) in
      let next : (d + 1 + 6) % 7 ≡ 0 = omega arith in c.weekday_law (d + 1) ∙ ap nth_day next

  before_saturday : (d : ℕ) → c.weekday d ≡ sat → c.weekday (d - 1) ≡ fri
  before_saturday d e =
      let at = nth_day-sat ((d + 6) % 7) (omega arith) (sym (c.weekday_law d) ∙ e) in
      let back : (d - 1 + 6) % 7 ≡ 4 = omega arith in c.weekday_law (d - 1) ∙ ap nth_day back

  before_sunday : (d : ℕ) → 0 < d → c.weekday d ≡ sun → c.weekday (d - 2) ≡ fri
  before_sunday d p e =
      let at = nth_day-sun ((d + 6) % 7) (omega arith) (sym (c.weekday_law d) ∙ e) in
      let back : (d - 2 + 6) % 7 ≡ 4 = omega arith in c.weekday_law (d - 2) ∙ ap nth_day back

  observed-weekday : (d : ℕ) → is_weekend (observed d) ≡ false
  unfolding observed
  observed-weekday d = go (c.weekday d) refl
    where
      move : Weekday → ℕ
      move w = elim w [ sat ↦ d - 1 | sun ↦ d + 1 | _ ↦ d ]

      go : (w : Weekday) → c.weekday d ≡ w → is_weekend (move w) ≡ false
      go mon e = weekend_of d mon e refl
      go tue e = weekend_of d tue e refl
      go wed e = weekend_of d wed e refl
      go thu e = weekend_of d thu e refl
      go fri e = weekend_of d fri e refl
      go sat e = weekend_of (d - 1) fri (before_saturday d e) refl
      go sun e = weekend_of (d + 1) mon (after_sunday d e) refl

  new_year-weekday : (y : ℕ) → All (λ d. is_weekend d ≡ false) (new_year y)
  unfolding new_year
  new_year-weekday y = go (c.weekday ny) refl
    where
      ny : ℕ
      ny = c.ymd y 1 1

      kept : Weekday → List ℕ
      kept w = elim w [ sat ↦ [] | sun ↦ (ny + 1) ∷ [] | _ ↦ ny ∷ [] ]

      go : (w : Weekday) → c.weekday ny ≡ w → All (λ d. is_weekend d ≡ false) (kept w)
      go mon e = (weekend_of ny mon e refl, tt)
      go tue e = (weekend_of ny tue e refl, tt)
      go wed e = (weekend_of ny wed e refl, tt)
      go thu e = (weekend_of ny thu e refl, tt)
      go fri e = (weekend_of ny fri e refl, tt)
      go sat e = tt
      go sun e = (weekend_of (ny + 1) mon (after_sunday ny e) refl, tt)

  not_monday : (d : ℕ) → same_day (c.weekday d) mon ≡ false → (d + 6) % 7 ≢ 0
  not_monday d other z =
      let monday : c.weekday d ≡ mon = c.weekday_law d ∙ ap nth_day z in
      let hit : same_day (c.weekday d) mon ≡ true = rw monday refl in cc

  -- Seven rounds reach a Monday.
  back_to-monday : (f d : ℕ) → (d + 6) % 7 < f → (d + 6) % 7 ≤ d → c.weekday (back_to f mon d) ≡ mon
  unfolding back_to
  back_to-monday zero d h p = absurd (omega arith)
  back_to-monday (suc f) d h p = elim (Bool-cases (same_day (c.weekday d) mon)) [
    | inl found ↦ rw (found, back_to) (same_mon (c.weekday d) found)
    | inr other ↦
        let some = not_monday d other in
        rw (other, back_to) (back_to-monday f (d - 1) (omega arith) (omega arith))
  ]

  large : (y : ℕ) → 2000 ≤ y → 6 ≤ c.ymd y 6 1 - 1
  unfolding day_number
  large y p = rw (c.ymd_law y 6 1) (omega arith)

  memorial-weekday : (y : ℕ) → 2000 ≤ y → is_weekend (last_weekday y 5 mon) ≡ false
  unfolding last_weekday
  memorial-weekday y p =
      let far = large y p in
      weekend_of (last_weekday y 5 mon) mon
        (back_to-monday 7 (c.ymd y 6 1 - 1) (omega arith) (omega (arith, far))) refl

  good_friday-weekday : (y : ℕ) → 2000 ≤ y → y ≤ 2040 → is_weekend (good_friday y) ≡ false
  unfolding good_friday
  good_friday-weekday y p q =
      let (sunday, from, until) = easter-sunday y p q in
      weekend_of (easter y - 2) fri
        (before_sunday (easter y) (omega (arith, from, spring y p)) sunday) refl
    where
      spring : (y : ℕ) → 2000 ≤ y → 0 < c.ymd y 3 22
      spring y p = rw (c.ymd_law y 3 22) (unfold day_number in omega arith)

  of_weekday-weekday :
      (y m : ℕ) (wd : Weekday) (n : ℕ)
      → is_sat_or_sun wd ≡ false
      → is_weekend (c.of_weekday y m wd n) ≡ false
  of_weekday-weekday y m wd n h =
      weekend_of (c.of_weekday y m wd n) wd (c.of_weekday_law y m wd n) h

  juneteenth-weekday : (y : ℕ) → All (λ d. is_weekend d ≡ false) (juneteenth y)
  unfolding juneteenth
  juneteenth-weekday y = go (leb 2022 y)
    where
      go :
          (b : Bool)
          → All (λ d. is_weekend d ≡ false) (if b then observed (c.ymd y 6 19) ∷ [] else [])
      go true = (observed-weekday (c.ymd y 6 19), tt)
      go false = tt

  summer-weekday :
      (y : ℕ)
      → All
          (λ d. is_weekend d ≡ false)
          (observed (c.ymd y 7 4)
            ∷ c.of_weekday y 9 mon 1
            ∷ c.of_weekday y 11 thu 4
            ∷ observed (c.ymd y 12 25)
            ∷ [])
  summer-weekday y = (
    observed-weekday (c.ymd y 7 4),
    (
      of_weekday-weekday y 9 mon 1 refl,
      (of_weekday-weekday y 11 thu 4 refl, (observed-weekday (c.ymd y 12 25), tt)),
    ),
  )

  -- In every year from 2000 through 2040 no holiday that the exchange observes is on a Saturday
  -- or a Sunday.
  pub holidays-weekdays :
      (y : ℕ) → 2000 ≤ y → y ≤ 2040 → All (λ d. is_weekend d ≡ false) (holidays y)
  unfolding holidays
  holidays-weekdays y p q = All-append _ (new_year y) _ (new_year-weekday y) (
    of_weekday-weekday y 1 mon 3 refl,
    (
      of_weekday-weekday y 2 mon 3 refl,
      (
        good_friday-weekday y p q,
        (
          memorial-weekday y p,
          All-append _ (juneteenth y) _ (juneteenth-weekday y) (summer-weekday y),
        ),
      ),
    ),
  )
