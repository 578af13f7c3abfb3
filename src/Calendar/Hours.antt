-- ===== src/Calendar/Hours.antt =====
-- When the market is open (crates/te_core/src/calendar.rs, `is_open_at`).
use trade_engine.Base.{
  ℕ, ◌+◌, ◌*◌, ◌≤◌, ◌<◌, ◌≡◌, ◌↔◌, refl, sym, Bool, true, false, not, ok, err, ◌>>=◌, ◌>>◌, err_if,
  >>=-eq-ok, ok-injective, arith, ltb, ltb→lt, leb, if◌then◌else◌,
}
use trade_engine.Calendar.Dates.{Chrono}
use trade_engine.Calendar.{
  Res, not_a_session, is_session, early_close_unchecked, ny_to_utc, session_open, session_close,
  is_open_at,
}

module _ ⦃c : Chrono⦄ where
  closing_hour : ℕ → ℕ
  closing_hour d = if early_close_unchecked d then 13 else 16

  session_open-ok :
      (d : ℕ) {a : ℕ} → session_open d ≡ ok a → (is_session d ≡ ok true) × (a ≡ ny_to_utc d 9 30)
  unfolding session_open
  session_open-ok d h = go (is_session d) h
    where
      go :
          (r : Res Bool) {a : ℕ}
          → (r >>= λ s. err_if (not s) (not_a_session d) >> ok (ny_to_utc d 9 30)) ≡ ok a
          → (r ≡ ok true) × (a ≡ ny_to_utc d 9 30)
      go (ok true) h = (refl, sym (ok-injective h))
      go (ok false) h = cc
      go (err e) h = cc

  session_close-ok :
      (d : ℕ) {b : ℕ}
      → session_close d ≡ ok b
      → (hour : ℕ) × (9 < hour) × (hour < 17) × (b ≡ ny_to_utc d hour 0)
  unfolding session_close
  session_close-ok d h = go (is_session d) (early_close_unchecked d) h
    where
      go :
          (r : Res Bool) (early : Bool) {b : ℕ}
          → (r >>= λ s.
              err_if (not s) (not_a_session d)
              >> ok (if early then ny_to_utc d 13 0 else ny_to_utc d 16 0))
            ≡ ok b
          → (hour : ℕ) × (9 < hour) × (hour < 17) × (b ≡ ny_to_utc d hour 0)
      go (ok true) true h = (13, omega arith, omega arith, sym (ok-injective h))
      go (ok true) false h = (16, omega arith, omega arith, sym (ok-injective h))
      go (ok false) early h = cc
      go (err e) early h = cc

  if_ok_true :
      (b : Bool) {r : Res Bool} → (if b then r else ok false) ≡ ok true → (b ≡ true) × (r ≡ ok true)
  if_ok_true true h = (refl, h)
  if_ok_true false h = cc

  leb→le : (a b : ℕ) → leb a b ≡ true → a ≤ b
  leb→le a b h = ground arith

  -- The local date of an instant in the hours of a session is the session's.
  in_hours :
      (d hour t : ℕ)
      → 9 < hour
      → hour < 17
      → ny_to_utc d 9 30 ≤ t
      → t < ny_to_utc d hour 0
      → c.ny_date t ≡ d
  unfolding ny_to_utc
  in_hours d hour t p q from until =
      c.local_date d (9 * 3600 + 30 * 60) (hour * 3600 + 0 * 60) t (omega arith) (omega arith) from
        until

  opened :
      (t : ℕ)
      → is_open_at t ≡ ok true
      → (a : ℕ) × (b : ℕ) × (session_open (c.ny_date t) ≡ ok a)
        × (session_close (c.ny_date t) ≡ ok b)
        × (a ≤ t)
        × (t < b)
  unfolding is_open_at
  opened t h =
      let (s, session, after) = >>=-eq-ok (is_session (c.ny_date t)) _ h in
      let (on, opening) = if_ok_true s after in
      let (a, from, closing) = >>=-eq-ok (session_open (c.ny_date t)) _ opening in
      let (started, ending) = if_ok_true (leb a t) closing in
      let (b, until, running) = >>=-eq-ok (session_close (c.ny_date t)) _ ending in
      let before : ltb t b ≡ true = ok-injective running in
      (a, b, from, until, leb→le a t started, ltb→lt t b before)

  open_during :
      (t d a b : ℕ)
      → c.ny_date t ≡ d
      → is_session d ≡ ok true
      → session_open d ≡ ok a
      → session_close d ≡ ok b
      → a ≤ t
      → t < b
      → is_open_at t ≡ ok true
  unfolding is_open_at
  open_during t d a b e session from until p q =
      let started : leb a t ≡ true = ground arith in
      let running : ltb t b ≡ true = ground arith in
      rw (e, from, started, until, running, session) refl

  -- The market is open at an instant exactly if some session's open is not after it and that
  -- session's close is after it.
  pub is_open_at_iff :
      (t : ℕ)
      → (is_open_at t ≡ ok true) ↔ (
          (d : ℕ) × (a : ℕ) × (b : ℕ) × (session_open d ≡ ok a)
          × (session_close d ≡ ok b)
          × (a ≤ t)
          × (t < b))
  is_open_at_iff t = (
    λ h. let (a, b, from, until, p, q) = opened t h in (c.ny_date t, a, b, from, until, p, q),
    λ w.
        let (d, a, b, from, until, p, q) = w in
        let (session, opens) = session_open-ok d from in
        let (hour, late, early, closes) = session_close-ok d until in
        let at = in_hours d hour t late early (omega (arith, opens)) (omega (arith, closes)) in
        open_during t d a b at session from until p q,
  )
