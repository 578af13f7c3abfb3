-- ===== src/Calendar/Ranges.antt =====
-- The sessions of a range and of a window (crates/te_core/src/calendar.rs, `sessions_in_range` and
-- `sessions_window_back`).
use trade_engine.Base.{
  ℕ, zero, suc, ◌+◌, ◌-◌, ◌≤◌, ◌<◌, ◌≡◌, ◌↔◌, ◌≢◌, ltb, refl, subst, true, false, List, [], ◌∷◌,
  All, ok, arith, Bool-cases, inl, inr, ◌==◌, ==_iff,
}
use native.Mathlib.Decide.{ℕ_discrete}
use trade_engine.Calendar.Dates.{Chrono}
use trade_engine.Calendar.{
  has_date, first_date, last_date, check, session_unchecked, sessions_from, sessions_in_range,
}
use trade_engine.Calendar.Sessions.{check_ok}

-- Each date is before all that follow it.
abbrev pub Ascending : List ℕ → Type 0
Ascending [] = Unit
Ascending (x ∷ xs) = All (λ y. x < y) xs × Ascending xs

All-imp : (P Q : ℕ → Type 0) (xs : List ℕ) → ((x : ℕ) → P x → Q x) → All P xs → All Q xs
All-imp P Q [] f h = tt
All-imp P Q (x ∷ xs) f h = (f x h.0, All-imp P Q xs f h.1)

module _ ⦃c : Chrono⦄ where
  sessions_from-later : (n d : ℕ) → All (λ y. d ≤ y) (sessions_from n d)
  unfolding sessions_from
  sessions_from-later zero d = tt
  sessions_from-later (suc n) d = elim (Bool-cases (session_unchecked d)) [
    | inl on ↦ rw (on, sessions_from) (omega arith, weaker _ (sessions_from-later n (suc d)))
    | inr off ↦ rw (off, sessions_from) (weaker _ (sessions_from-later n (suc d)))
  ]
    where
      weaker : (xs : List ℕ) → All (λ y. suc d ≤ y) xs → All (λ y. d ≤ y) xs
      weaker xs h = All-imp (λ y. suc d ≤ y) (λ y. d ≤ y) xs (λ x p. omega arith) h

  sessions_from-Ascending : (n d : ℕ) → Ascending (sessions_from n d)
  unfolding sessions_from
  sessions_from-Ascending zero d = tt
  sessions_from-Ascending (suc n) d = elim (Bool-cases (session_unchecked d)) [
    | inl on ↦
        rw (on, sessions_from)
          (
            All-imp (λ y. suc d ≤ y) (λ y. d < y) (sessions_from n (suc d)) (λ x p. omega arith)
                (sessions_from-later n (suc d)),
            sessions_from-Ascending n (suc d),
          )
    | inr off ↦ rw (off, sessions_from) (sessions_from-Ascending n (suc d))
  ]

  abbrev pub Within : ℕ → ℕ → ℕ → Type 0
  Within n d x = (d ≤ x) × (x < d + n) × (session_unchecked x ≡ true)

  later-Within :
      (n d x : ℕ)
      → d ≢ x
      → (Within n (suc d) x → Within (suc n) d x) × (Within (suc n) d x → Within n (suc d) x)
  later-Within n d x ne = (
    λ h. (omega (arith, h.0), omega (arith, h.1), h.2),
    λ h. (omega (arith, h.0), omega (arith, h.1), h.2),
  )

  -- A date is listed exactly if it is a session among the days.
  has_date-sessions_from : (n d x : ℕ) → (has_date x (sessions_from n d) ≡ true) ↔ Within n d x
  unfolding sessions_from
  has_date-sessions_from zero d x = (λ h. cc, λ h. absurd (omega (arith, h.0, h.1)))
  has_date-sessions_from (suc n) d x = elim (ℕ_discrete d x) [
    | yes e ↦
        let same = (==_iff d x).1 e in
        elim (Bool-cases (session_unchecked d)) [
          | inl on ↦
              rw (on, same, sessions_from)
                (
                  λ h. (
                    omega (arith, e),
                    omega (arith, e),
                    subst (λ y. session_unchecked y ≡ true) e on,
                  ),
                  λ h. refl,
                )
          | inr off ↦
              let passed = has_date-sessions_from n (suc d) x in
              rw (off, sessions_from)
                (
                  λ h. absurd (omega (arith, e, (passed.0 h).0)),
                  λ h.
                      let on = h.2 in let at = subst (λ y. session_unchecked y ≡ false) e off in cc,
                )
        ]
    | no ne ↦
        let ih = has_date-sessions_from n (suc d) x in
        let more = later-Within n d x ne in
        let apart : (d == x) ≡ false = ground arith in
        elim (Bool-cases (session_unchecked d)) [
          | inl on ↦ rw (on, apart, sessions_from) (λ h. more.0 (ih.0 h), λ h. ih.1 (more.1 h))
          | inr off ↦ rw (off, sessions_from) (λ h. more.0 (ih.0 h), λ h. ih.1 (more.1 h))
        ]
  ]

  sessions_in_range-ok :
      (start end : ℕ) {l : List ℕ}
      → sessions_in_range start end ≡ ok l
      → (start ≤ end) × (l ≡ sessions_from (suc end - start) start)
  unfolding sessions_in_range check
  sessions_in_range-ok start end h = ground arith

  -- A list that `sessions_in_range` returns is in strictly ascending order, and a date is in it
  -- exactly if it is a session from the start through the end.
  pub sessions_in_range-lem :
      (start end : ℕ) {l : List ℕ}
      → sessions_in_range start end ≡ ok l
      → Ascending l
        × ((x : ℕ)
            → (has_date x l ≡ true) ↔ ((start ≤ x) × (x ≤ end) × (session_unchecked x ≡ true)))
  sessions_in_range-lem start end {l} h =
      let (order, same) = sessions_in_range-ok start end h in
      (
        rw same (sessions_from-Ascending (suc end - start) start),
        λ x.
            let listed = has_date-sessions_from (suc end - start) start x in
            rw same (
              λ p. let w = listed.0 p in (w.0, omega (arith, w.1, order), w.2),
              λ w. listed.1 (w.0, omega (arith, w.1, order), w.2),
            ),
      )

  pub sessions_in_range-total :
      (start end : ℕ)
      → first_date ≤ start
      → start ≤ end
      → end ≤ last_date
      → sessions_in_range start end ≡ ok (sessions_from (suc end - start) start)
  unfolding sessions_in_range
  sessions_in_range-total start end p q r =
      let order : ltb end start ≡ false = ground arith in
      rw (order, check_ok start p (omega arith), check_ok end (omega arith) r) refl
