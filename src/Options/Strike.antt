-- ===== src/Options/Strike.antt =====
-- The strike in thousandths (crates/te_core/src/options.rs, `round_half_even` and `strike_millis`)
-- against the decimal rounding of crates/te_core/src/money.rs.
use trade_engine.Base.{
  ℕ, zero, suc, ◌+◌, ◌-◌, ◌*◌, ◌/◌, ◌%◌, ◌≤◌, ◌<◌, ◌≡◌, refl, sym, ap, ◌∙◌, Bool, false, arith, ltb,
  ltb→lt, if◌then◌else◌, Bool-cases, inl, inr,
}
use trade_engine.Base.Powers.{pow10, pow10-pos, pow10-suc, pow10-zero, pow10_mono}
use native.Mathlib.Nat.{div-eq_of_lt, div-add-mod'}
use trade_engine.Money.Digits.{digits, lt-pow10-digits}
use trade_engine.Money.Rounding.{half_even, rounds_up_big, shift_round_big}
use trade_engine.Options.{round_half_even, rounds_up}

-- The first digit dropped and the rest of them say on which side of one half they lie.
rounds_up-agree :
    (first behind kept p : ℕ)
    → behind < p
    → rounds_up first behind kept ≡ rounds_up_big half_even false kept (first * p + behind) (10 * p)
unfolding rounds_up_big
rounds_up-agree first behind kept p h =
    let few : first ≤ 4 → first * p ≤ 4 * p = λ k. grind arith in
    let many : 6 ≤ first → 6 * p ≤ first * p = λ k. grind arith in
    let five : first ≡ 5 → first * p ≡ 5 * p = λ k. rw k refl in ground arith

halves :
    (n q r div : ℕ)
    → n ≡ q * div + r
    → (if rounds_up_big half_even false q r div then q + 1 else q)
      ≡ (if rounds_up_big half_even false q (n - q * div) div then q + 1 else q)
halves n q r div e =
    ap (λ (t : ℕ). if rounds_up_big half_even false q t div then q + 1 else q) (omega (arith, e))

-- Below a tenth of the last place kept nothing is left.
nothing_kept :
    (n q div : ℕ)
    → q ≡ 0
    → 10 * n < div
    → (if rounds_up_big half_even false q (n - q * div) div then q + 1 else q) ≡ q
unfolding rounds_up_big
nothing_kept n q div e h = rw e (ground arith)

-- With one digit or more dropped, what is rounded is the leading digits with their remainder.
parts_round :
    (n d : ℕ)
    → let m = n % pow10 (suc d) in
      let kept = n / pow10 (suc d) in
      (if rounds_up (m / pow10 d) (m % pow10 d) kept then kept + 1 else kept) ≡ (
        if rounds_up_big half_even false kept (n - kept * pow10 (suc d)) (pow10 (suc d))
        then kept + 1
        else kept)
parts_round n d =
    let p = pow10 d in
    let m = n % pow10 (suc d) in
    let kept = n / pow10 (suc d) in
    let agree = rounds_up-agree (m / p) (m % p) kept p (omega (arith, pow10-pos d)) in
    let whole : m / p * p + m % p ≡ m = div-add-mod' m p in
    ap (λ (b : Bool). if b then kept + 1 else kept)
      (agree
        ∙ (ap (λ (t : ℕ). rounds_up_big half_even false kept t (10 * p)) whole
            ∙ ap (λ (t : ℕ). rounds_up_big half_even false kept m t) (sym (pow10-suc d))))
    ∙ halves n kept m (pow10 (suc d)) (sym (div-add-mod' n (pow10 (suc d))))

-- For every number and every count of dropped digits, the rounding of strikes, which reads the
-- leading digits and the first dropped one, gives what the half-even rounding of decimals on
-- unbounded integers gives.
pub round_half_even-eq-shift_round :
    (n drop : ℕ) → round_half_even n drop ≡ shift_round_big n drop false half_even
unfolding round_half_even shift_round_big
round_half_even-eq-shift_round n zero = rw pow10-zero (ground arith)
round_half_even-eq-shift_round n (suc d) = elim (Bool-cases (ltb (digits n) (suc d))) [
  | inl past ↦
      let short : digits n < suc d = ltb→lt _ _ past in
      let low : n < pow10 d =
        omega (arith, lt-pow10-digits n, pow10_mono (digits n) d (omega (arith, short))) in
      let far : 10 * n < pow10 (suc d) = omega (arith, low, pow10-suc d) in
      let none_kept : n / pow10 (suc d) ≡ 0 = div-eq_of_lt (omega (arith, far)) in
      rw past (sym (nothing_kept n _ (pow10 (suc d)) none_kept far ∙ none_kept))
  | inr within ↦ rw within (parts_round n d)
]
