-- ===== src/Options/Contract/Exact.antt =====
-- The strike of an accepted contract in thousandths (crates/te_core/src/options.rs).
use trade_engine.Base.{
  ℕ, suc, ◌+◌, ◌-◌, ◌*◌, ◌/◌, ◌%◌, ◌≤◌, ◌<◌, ◌^◌, min, ◌≡◌, refl, ap, subst, ◌∙◌, Bool, true, false,
  not, ◌||◌, ok, arith, ltb, ◌==◌, if◌then◌else◌,
}
use trade_engine.Base.Int.{
  ℤ, pos, negsuc, pos_part, neg_part, ◌+ℤ◌, ◌-ℤ◌, ltb_ℤ, leb_ℤ, +ℤ_parts, -ℤ_parts,
}
use trade_engine.Base.Powers.{pow10, pow10-pos, pow10-zero}
use native.Mathlib.Nat.{div-add-mod'}
use trade_engine.Base.OnOk.{OnOk, holds, OnOk-ok, OnOk-bind, OnOk-bind_eq, OnOk-err_if}
use trade_engine.Money.Digits.{digits}
use trade_engine.Options.{
  value, DecWire, prec, etiny, max_millis, rounds_up, round_half_even, fit_product, times_1000,
  integral_value, strike_millis,
}
use trade_engine.Options.Contract.{is_integral, validate_strike}

ltb-false : (a b : ℕ) → b ≤ a → ltb a b ≡ false
ltb-false a b h = ground arith

fit_product-stays :
    (n : ℕ) (exp exp_min : ℤ) → ltb_ℤ exp exp_min ≡ false → fit_product n exp exp_min ≡ (n, exp)
unfolding fit_product
fit_product-stays n exp exp_min h = rw h refl

-- The least exponent that 28 digits leave is not above the exponent.
least-low :
    (n : ℕ) (exp : ℤ)
    → digits n ≤ 28
    → leb_ℤ etiny exp ≡ true
    → let least = pos (digits n) +ℤ exp -ℤ pos prec in
      ltb_ℤ exp (if ltb_ℤ least etiny then etiny else least) ≡ false
least-low n exp short low = go (ltb_ℤ least etiny)
  where
    least : ℤ
    least = pos (digits n) +ℤ exp -ℤ pos prec

    bound : pos_part least + neg_part exp ≤ pos_part exp + neg_part least
    bound =
        omega
          (arith, -ℤ_parts (pos (digits n) +ℤ exp) (pos 28), +ℤ_parts (pos (digits n)) exp, short)

    go : (b : Bool) → ltb_ℤ exp (if b then etiny else least) ≡ false
    go true = ground arith
    go false = ltb-false _ _ bound

-- The product is exact where it has at most 28 digits and its exponent is in range.
times_1000-exact :
    (w : DecWire)
    → (w.coef == 0) ≡ false
    → digits (w.coef * 1000) ≤ 28
    → leb_ℤ etiny w.exp ≡ true
    → OnOk (λ r. r ≡ (w.coef * 1000, w.exp)) (times_1000 w)
unfolding times_1000
times_1000-exact w some_coef short low =
    let n = w.coef * 1000 in
    let fits = fit_product-stays n w.exp _ (least-low n w.exp short low) in
    rw some_coef (search (OnOk-err_if, holds, fits) depth 8)

-- Digits that are all zeros are dropped without rounding.
dropped :
    (n e : ℕ)
    → ltb (digits n) (suc e) ≡ false
    → n % pow10 (suc e) ≡ 0
    → round_half_even n (suc e) * pow10 (suc e) ≡ n
unfolding round_half_even
dropped n e long rest =
    let p = pow10 e in
    let r = n % pow10 (suc e) in
    let kept = n / pow10 (suc e) in
    let first : r / p ≡ 0 = omega (arith, pow10-pos e, rest) in
    let behind : r % p ≡ 0 = omega (arith, pow10-pos e, rest) in
    let stays : rounds_up (r / p) (r % p) kept ≡ false = ground arith in
    let whole = div-add-mod' n (pow10 (suc e)) in rw (long, stays) (omega (arith, whole, rest))

-- An integral number keeps its value.
integral_value-exact :
    (n : ℕ) (exp : ℤ)
    → (n == 0) ≡ false
    → is_integral n exp ≡ true
    → pos_part exp ≤ 40
    → neg_part exp < 2 ^ 32
    → integral_value n exp * pow10 (neg_part exp) ≡ n * pow10 (pos_part exp)
unfolding integral_value is_integral
integral_value-exact n (pos e) positive whole high low =
    let same : min e 40 ≡ e = ground arith in rw (positive, same, pow10-zero) (omega arith)
integral_value-exact n (negsuc e) positive whole high low =
    let same : min (suc e) (2 ^ 32 - 1) ≡ suc e = ground arith in
    let rest : n % pow10 (suc e) ≡ 0 = ground arith in
    let long : ltb (digits n) (suc e) ≡ false = ground arith in
    rw (same, pow10-zero) (dropped n e long rest ∙ omega arith)

either-false : (a b : Bool) → (a || b) ≡ false → b ≡ false
either-false true b h = cc
either-false false b h = h

negated : (b : Bool) → not b ≡ false → b ≡ true
negated true h = refl
negated false h = cc

-- What an accepted strike has passed.
record Accepted (w : DecWire) : Type 0 where
  pub positive : (w.coef == 0) ≡ false
  pub product : ℕ × ℤ
  pub multiplied : times_1000 w ≡ ok product
  pub whole : is_integral product.0 product.1 ≡ true

validate_strike-Accepted : (w : DecWire) → OnOk (λ u. Accepted w) (validate_strike w)
unfolding validate_strike
validate_strike-Accepted w = OnOk-err_if (w.neg || (w.coef == 0)) value λ positive.
    OnOk-bind_eq (times_1000 w) λ r multiplied.
      OnOk-err_if (not (is_integral r.0 r.1)) value λ whole. OnOk-bind (strike_millis w) λ millis.
        holds (record {
          positive = either-false w.neg _ positive;
          product = r;
          multiplied = multiplied;
          whole = negated _ whole;
        })

strike_millis-whole :
    (w : DecWire)
    → OnOk
        (λ m. (r : ℕ × ℤ) × ((times_1000 w ≡ ok r) × (m ≡ integral_value r.0 r.1)))
        (strike_millis w)
unfolding strike_millis
strike_millis-whole w = OnOk-bind_eq (times_1000 w) λ r multiplied.
    let n = integral_value r.0 r.1 in
    OnOk-err_if (ltb 18 (digits n)) value λ short.
      OnOk-err_if ((n == 0) || ltb max_millis n) value λ within. holds (r, (multiplied, refl))

-- For an accepted strike whose coefficient times 1000 has at most 28 digits, with an exponent
-- from -1000026 through 40, the thousandths in its OCC symbol are exactly 1000 times the strike:
-- nothing was rounded.
pub strike_millis-exact :
    (w : DecWire) (millis : ℕ)
    → validate_strike w ≡ ok tt
    → strike_millis w ≡ ok millis
    → digits (w.coef * 1000) ≤ 28
    → leb_ℤ etiny w.exp ≡ true
    → pos_part w.exp ≤ 40
    → millis * pow10 (neg_part w.exp) ≡ w.coef * 1000 * pow10 (pos_part w.exp)
strike_millis-exact w millis valid h short low high =
    let a = OnOk-ok (validate_strike-Accepted w) valid in
    let exact = times_1000-exact w a.positive short low in
    let (r, (multiplied, same)) = OnOk-ok (strike_millis-whole w) h in
    let whole : is_integral (w.coef * 1000) w.exp ≡ true =
      subst (λ (p : ℕ × ℤ). is_integral p.0 p.1 ≡ true) (OnOk-ok exact a.multiplied) a.whole in
    let value_is : millis ≡ integral_value (w.coef * 1000) w.exp =
      same ∙ ap (λ (p : ℕ × ℤ). integral_value p.0 p.1) (OnOk-ok exact multiplied) in
    let positive = a.positive in
    rw value_is
      (integral_value-exact (w.coef * 1000) w.exp (ground arith) whole high (ground arith))
