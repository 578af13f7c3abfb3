-- ===== src/Calendar/Sessions.antt =====
-- The next and the previous session (crates/te_core/src/calendar.rs, `step`).
use trade_engine.Base.{
  ℕ, zero, suc, ◌+◌, ◌-◌, ◌≤◌, ◌<◌, ◌≡◌, ap, subst, true, false, ok, err, arith, ltb, Bool-cases,
  inl, inr, ltb→lt,
}
use trade_engine.Calendar.Dates.{Chrono, day_number, days_before_month}
use trade_engine.Calendar.{
  out_of_range, not_a_session, inverted_range, bad_window, running, Res, first_date, last_date,
  check, session_unchecked, walk, step, next_session, previous_session,
}
use native.Mathlib.Decide.{dec_lt}

module _ ⦃c : Chrono⦄ where
  pub first_date-eq : first_date ≡ 730120
  unfolding first_date day_number days_before_month
  first_date-eq = c.ymd_law 2000 1 1

  -- Between these dates the exchange has no session.
  abbrev pub NoSession : ℕ → ℕ → Type 0
  NoSession a b = (y : ℕ) → a < y → y < b → session_unchecked y ≡ false

  -- The first session after a date.
  pub record IsNext (d x : ℕ) : Type 0 where
    pub later : d < x
    pub covered : x ≤ last_date
    pub trades : session_unchecked x ≡ true
    pub gap : NoSession d x

  -- The last session before a date.
  pub record IsPrevious (d x : ℕ) : Type 0 where
    pub sooner : x < d
    pub covered : first_date ≤ x
    pub trades : session_unchecked x ≡ true
    pub gap : NoSession x d

  -- The right answer: that session, or a refusal at the end of the calendar where there is none.
  abbrev pub FindsNext : ℕ → Res ℕ → Type 0
  FindsNext d (ok x) = IsNext d x
  FindsNext d (err (out_of_range e)) = (e ≡ last_date + 1) × NoSession d e
  FindsNext d (err (not_a_session e)) = ⊥
  FindsNext d (err (inverted_range a b)) = ⊥
  FindsNext d (err (bad_window n)) = ⊥
  FindsNext d (err running) = ⊥

  abbrev pub FindsPrevious : ℕ → Res ℕ → Type 0
  FindsPrevious d (ok x) = IsPrevious d x
  FindsPrevious d (err (out_of_range e)) = (e + 1 ≡ first_date) × NoSession e d
  FindsPrevious d (err (not_a_session e)) = ⊥
  FindsPrevious d (err (inverted_range a b)) = ⊥
  FindsPrevious d (err (bad_window n)) = ⊥
  FindsPrevious d (err running) = ⊥

  pub check_ok : (d : ℕ) → first_date ≤ d → d ≤ last_date → check d ≡ ok tt
  unfolding check
  check_ok d h k = ground arith

  check_late : (d : ℕ) → first_date ≤ d → last_date < d → check d ≡ err (out_of_range d)
  unfolding check
  check_late d h k = ground arith

  check_early : (d : ℕ) → d < first_date → check d ≡ err (out_of_range d)
  unfolding check
  check_early d h = ground arith

  -- A day with no session is passed over.
  skip_next :
      (d : ℕ) (r : Res ℕ) → session_unchecked (d + 1) ≡ false → FindsNext (d + 1) r → FindsNext d r
  skip_next d (ok x) shut h = record {
    later = omega (arith, h.later);
    covered = h.covered;
    trades = h.trades;
    gap = λ y p q. ground (arith, h.gap y);
  }
  skip_next d (err (out_of_range e)) shut h = (h.0, λ y p q. ground (arith, h.1 y))
  skip_next d (err (not_a_session e)) shut h = h
  skip_next d (err (inverted_range a b)) shut h = h
  skip_next d (err (bad_window n)) shut h = h
  skip_next d (err running) shut h = h

  walk-FindsNext :
      (f d : ℕ) → first_date ≤ d → d ≤ last_date → last_date < d + f → FindsNext d (walk f d true)
  unfolding walk
  walk-FindsNext zero d p q fuel = absurd (omega arith)
  walk-FindsNext (suc f) d p q fuel = elim (Bool-cases (ltb last_date (d + 1))) [
    | inl past ↦
        let late = check_late (d + 1) (omega arith) (ltb→lt last_date (d + 1) past) in
        rw (late, walk)
          (omega (arith, ltb→lt last_date (d + 1) past), λ y a b. absurd (omega arith))
    | inr inside ↦
        let fits : d + 1 ≤ last_date = ground arith in
        let on = check_ok (d + 1) (omega arith) fits in
        elim (Bool-cases (session_unchecked (d + 1))) [
          | inl found ↦
              rw (on, found, walk)
                (record {
                  later = omega arith;
                  covered = fits;
                  trades = found;
                  gap = λ y a b. absurd (omega arith);
                })
          | inr shut ↦
              rw (on, shut, walk)
                (skip_next d (walk f (d + 1) true) shut
                  (walk-FindsNext f (d + 1) (omega arith) fits (omega arith)))
        ]
  ]

  skip_previous :
      (d : ℕ) (r : Res ℕ)
      → session_unchecked (d - 1) ≡ false
      → FindsPrevious (d - 1) r
      → FindsPrevious d r
  skip_previous d (ok x) shut h = record {
    sooner = omega (arith, h.sooner);
    covered = h.covered;
    trades = h.trades;
    gap = λ y p q. ground (arith, h.gap y);
  }
  skip_previous d (err (out_of_range e)) shut h = (h.0, λ y p q. ground (arith, h.1 y))
  skip_previous d (err (not_a_session e)) shut h = h
  skip_previous d (err (inverted_range a b)) shut h = h
  skip_previous d (err (bad_window n)) shut h = h
  skip_previous d (err running) shut h = h

  walk-FindsPrevious :
      (f d : ℕ)
      → first_date ≤ d
      → d ≤ last_date
      → d < first_date + f
      → FindsPrevious d (walk f d false)
  unfolding walk
  walk-FindsPrevious zero d p q fuel = absurd (omega arith)
  walk-FindsPrevious (suc f) d p q fuel = elim (Bool-cases (ltb (d - 1) first_date)) [
    | inl past ↦
        let before = ltb→lt (d - 1) first_date past in
        rw (check_early (d - 1) before, walk)
          (omega (arith, before, first_date-eq), λ y a b. absurd (omega arith))
    | inr inside ↦
        let fits : first_date ≤ d - 1 = ground arith in
        let on = check_ok (d - 1) fits (omega arith) in
        elim (Bool-cases (session_unchecked (d - 1))) [
          | inl found ↦
              rw (on, found, walk)
                (record {
                  sooner = omega (arith, first_date-eq);
                  covered = fits;
                  trades = found;
                  gap = λ y a b. absurd (omega arith);
                })
          | inr shut ↦
              rw (on, shut, walk)
                (skip_previous d (walk f (d - 1) false) shut
                  (walk-FindsPrevious f (d - 1) fits (omega arith) (omega (arith, first_date-eq))))
        ]
  ]

  pub step-FindsPrevious : (d : ℕ) → first_date ≤ d → d ≤ last_date → FindsPrevious d (step d false)
  unfolding step
  step-FindsPrevious d p q = walk-FindsPrevious (suc last_date) d p q (omega arith)

  -- For every date of the calendar the search for the next session ends, within the fuel it is
  -- given: it returns the first session after the date, with no session between, or it refuses
  -- the day after the calendar's last, and then no session of the calendar follows the date.
  pub next_session-FindsNext :
      (d : ℕ) → first_date ≤ d → d ≤ last_date → FindsNext d (next_session d)
  unfolding next_session step
  next_session-FindsNext d p q =
      rw (check_ok d p q) (walk-FindsNext (suc last_date) d p q (omega arith))

  pub previous_session-FindsPrevious :
      (d : ℕ) → first_date ≤ d → d ≤ last_date → FindsPrevious d (previous_session d)
  unfolding previous_session
  previous_session-FindsPrevious d p q = rw (check_ok d p q) (step-FindsPrevious d p q)

  IsPrevious-unique : (d x : ℕ) (r : Res ℕ) → IsPrevious d x → FindsPrevious d r → r ≡ ok x
  IsPrevious-unique d x (ok y) h k = elim (dec_lt x y) [
    | yes p ↦ let shut = h.gap y p k.sooner in let on = k.trades in cc
    | no p ↦ elim (dec_lt y x) [
      | yes q ↦ let shut = k.gap x q h.sooner in let on = h.trades in cc
      | no q ↦ let same : y ≡ x = omega arith in ap ok same
    ]
  ]
  IsPrevious-unique d x (err (out_of_range e)) h k =
      let shut = k.1 x (omega (arith, h.covered)) h.sooner in let on = h.trades in cc
  IsPrevious-unique d x (err (not_a_session e)) h k = absurd k
  IsPrevious-unique d x (err (inverted_range a b)) h k = absurd k
  IsPrevious-unique d x (err (bad_window n)) h k = absurd k
  IsPrevious-unique d x (err running) h k = absurd k

  IsNext-IsPrevious :
      (d x : ℕ) → first_date ≤ d → session_unchecked d ≡ true → IsNext d x → IsPrevious x d
  IsNext-IsPrevious d x p on h = record { sooner = h.later; covered = p; trades = on; gap = h.gap }

  -- If a session of the calendar has a next session, then the session before that one is the
  -- session itself.
  pub previous_session-next_session :
      (d : ℕ)
      → first_date ≤ d
      → d ≤ last_date
      → session_unchecked d ≡ true
      → {x : ℕ} → next_session d ≡ ok x
      → previous_session x ≡ ok d
  previous_session-next_session d p q on {x} e =
      let found : IsNext d x = subst (FindsNext d) e (next_session-FindsNext d p q) in
      IsPrevious-unique x d (previous_session x) (IsNext-IsPrevious d x p on found)
        (previous_session-FindsPrevious x (omega (arith, p, found.later)) found.covered)
