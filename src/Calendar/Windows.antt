-- ===== src/Calendar/Windows.antt =====
-- The sessions that end at a date (crates/te_core/src/calendar.rs, `sessions_window_back`), as a
-- range.
use trade_engine.Base.{
  ℕ, zero, suc, ◌+◌, ◌-◌, ◌≤◌, ◌<◌, ◌≡◌, refl, sym, ap, ◌∙◌, true, false, List, [], ◌∷◌, length, ok,
  err, ◌>>=◌, arith,
}
use trade_engine.Base.Int.{pos, leb_ℤ}
use trade_engine.Calendar.Dates.{Chrono}
use trade_engine.Calendar.{
  out_of_range, not_a_session, inverted_range, bad_window, running, Res, first_date, last_date,
  session_unchecked, step, is_session, sessions_from, sessions_in_range, window_from, window_of,
  sessions_window_back,
}
use trade_engine.Calendar.Sessions.{IsPrevious, FindsPrevious, check_ok, step-FindsPrevious}
use trade_engine.Calendar.Ranges.{sessions_in_range-total}

module _ ⦃c : Chrono⦄ where
  -- Days without a session add nothing.
  quiet :
      (k m n a b : ℕ)
      → m ≡ k + n
      → b ≡ a + k
      → ((y : ℕ) → a ≤ y → y < b → session_unchecked y ≡ false)
      → sessions_from m a ≡ sessions_from n b
  unfolding sessions_from
  quiet zero m n a b e f off =
      let same : m ≡ n = omega arith in
      let at : a ≡ b = omega arith in λ i. sessions_from (same i) (at i)
  quiet (suc k) zero n a b e f off = absurd (omega arith)
  quiet (suc k) (suc m) n a b e f off =
      rw (off a (omega arith) (omega arith), sessions_from)
        (quiet k m n (suc a) b (omega arith) (omega arith) (λ y p q. off y (omega arith) q))

  one_more :
      (end d e : ℕ)
      → d ≤ end
      → IsPrevious d e
      → sessions_from (suc end - e) e ≡ e ∷ sessions_from (suc end - d) d
  unfolding sessions_from
  one_more end d e p h =
      let before = h.sooner in
      let count : suc end - e ≡ suc (end - e) = omega arith in
      let rest : sessions_from (end - e) (suc e) ≡ sessions_from (suc end - d) d =
        quiet (d - suc e) (end - e) (suc end - d) (suc e) d (omega arith) (omega arith)
          (λ y a b. h.gap y (omega arith) b) in
      ap (λ m. sessions_from m e) count ∙ (rw (h.trades, sessions_from) (ap (λ l. e ∷ l) rest))

  all_before :
      (end d : ℕ)
      → first_date ≤ d
      → d ≤ end
      → ((y : ℕ) → first_date ≤ y → y < d → session_unchecked y ≡ false)
      → sessions_from (suc end - first_date) first_date ≡ sessions_from (suc end - d) d
  all_before end d p q off =
      quiet (d - first_date) (suc end - first_date) (suc end - d) first_date d (omega arith)
        (omega arith) off

  -- A window: as many sessions as asked for, which are those of a range, or a refusal where the
  -- calendar has fewer up to that date.
  abbrev pub WindowOf : ℕ → ℕ → Res (List ℕ) → Type 0
  WindowOf end n (ok l) =
      (length l ≡ n) × ((x : ℕ) × (session_unchecked x ≡ true) × (sessions_in_range x end ≡ ok l))
  WindowOf end n (err (out_of_range e)) =
      (l : List ℕ) × (sessions_in_range first_date end ≡ ok l) × (length l < n)
  WindowOf end n (err (not_a_session e)) = ⊥
  WindowOf end n (err (inverted_range a b)) = ⊥
  WindowOf end n (err (bad_window m)) = ⊥
  WindowOf end n (err running) = ⊥

  -- A session from which the sessions up to the end have been taken.
  record Reached (end d : ℕ) (out : List ℕ) : Type 0 where
    covered : first_date ≤ d
    before : d ≤ end
    trades : session_unchecked d ≡ true
    taken : out ≡ sessions_from (suc end - d) d

  window_from-WindowOf :
      (n d end total : ℕ) (out : List ℕ)
      → end ≤ last_date
      → Reached end d out
      → n + length out ≡ total
      → WindowOf end total (window_from n d out)
  unfolding window_from
  window_from-WindowOf zero d end total out q h count =
      let range = sessions_in_range-total d end h.covered h.before q ∙ ap ok (sym h.taken) in
      (omega (arith, count), (d, h.trades, range))
  window_from-WindowOf (suc n) d end total out q h count =
      go (step d false) (step-FindsPrevious d h.covered (omega (arith, h.before)))
        λ e f. window_from-WindowOf n e end total (e ∷ out) q (earlier e f) (omega (arith, count))
    where
      earlier : (e : ℕ) → IsPrevious d e → Reached end e (e ∷ out)
      earlier e f = record {
        covered = f.covered;
        before = omega (arith, f.sooner, h.before);
        trades = f.trades;
        taken = ap (λ l. e ∷ l) h.taken ∙ sym (one_more end d e h.before f);
      }

      go :
          (r : Res ℕ)
          → FindsPrevious d r
          → ((e : ℕ) → IsPrevious d e → WindowOf end total (window_from n e (e ∷ out)))
          → WindowOf end total (r >>= λ e. window_from n e (e ∷ out))
      go (ok e) f next = next e f
      go (err (out_of_range e)) f next = (
        out,
        sessions_in_range-total first_date end (omega arith) (omega (arith, h.covered, h.before)) q
            ∙ ap ok (
                all_before end d h.covered h.before (λ y a b. f.1 y (omega (arith, f.0, a)) b)
                ∙ sym h.taken),
        omega (arith, count),
      )
      go (err (not_a_session e)) f next = absurd f
      go (err (inverted_range a b)) f next = absurd f
      go (err (bad_window m)) f next = absurd f
      go (err running) f next = absurd f

  -- A window of `n` sessions back from a session of the calendar, `n` positive, is refused only
  -- where the calendar has fewer than `n` sessions up to that session; otherwise it has exactly
  -- `n`, and they are the sessions in the range from one of them through the session.
  pub sessions_window_back-WindowOf :
      (end n : ℕ)
      → first_date ≤ end
      → end ≤ last_date
      → session_unchecked end ≡ true
      → 0 < n
      → WindowOf end n (sessions_window_back end (pos n))
  unfolding sessions_window_back window_of is_session sessions_from
  sessions_window_back-WindowOf end zero p q on many = absurd (omega arith)
  sessions_window_back-WindowOf end (suc n) p q on many =
      let count : leb_ℤ (pos (suc n)) (pos 0) ≡ false = ground arith in
      let last_day : suc end - end ≡ 1 = omega arith in
      rw (count, check_ok end p q, on)
        (window_from-WindowOf n end end (suc n) (end ∷ []) q
          (record {
            covered = p;
            before = omega arith;
            trades = on;
            taken = sym (ap (λ m. sessions_from m end) last_day ∙ rw (on, sessions_from) refl);
          })
          (omega arith))
