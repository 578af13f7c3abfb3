-- ===== src/Money/Digits.antt =====
-- The number of decimal digits (`digits_u128`, `digits_big`) and the removal of trailing zeros
-- (the loop of `Money::build`) in crates/te_core/src/money.rs.
use trade_engine.Base.{
  ℕ, zero, suc, ◌-◌, ◌*◌, ◌/◌, ◌%◌, ◌≤◌, ◌<◌, true, false, ◌≡◌, ◌≢◌, refl, ap, inl, inr, arith, ltb,
  ◌==◌, Bool-cases, ltb→lt,
}
use trade_engine.Base.Int.{ℤ, pos, ◌+ℤ◌, int_laws}
use trade_engine.Base.Powers.{pow10, pow10-zero, pow10-suc, pow10-pos, pow10-lt, pow10_mono}

-- One digit for each division by ten that leaves something; the fuel is the number itself.
digits_from : ℕ → ℕ → ℕ
digits_from zero n = 1
digits_from (suc f) n = elim (ltb n 10) [ true ↦ 1 | false ↦ suc (digits_from f (n / 10)) ]

unfoldable pub digits : ℕ → ℕ
unfolding digits_from
digits n = digits_from n n

-- `k + 1` digits: below 10^(k+1), and at least 10^k unless the number is zero.
HasDigits : ℕ → ℕ → Type 0
HasDigits n d = (k : ℕ) × (d ≡ suc k) × (n < pow10 (suc k)) × (0 < n → pow10 k ≤ n)

digits_from-HasDigits : (f n : ℕ) → n ≤ f → HasDigits n (digits_from f n)
unfolding digits_from HasDigits
digits_from-HasDigits zero n h =
    (0, refl, omega (arith, pow10-suc 0, pow10-zero), λ p. absurd (omega arith))
digits_from-HasDigits (suc f) n h = elim (Bool-cases (ltb n 10)) [
  | inl small ↦
      rw (small, digits_from)
        (
          0,
          refl,
          omega (arith, ltb→lt n 10 small, pow10-suc 0, pow10-zero),
          λ p. omega (arith, pow10-zero),
        )
  | inr large ↦
      let big : 10 ≤ n = ground arith in
      let (k, e, below, above) = digits_from-HasDigits f (n / 10) (omega arith) in
      rw (large, digits_from)
        (
          suc k,
          rw e,
          omega (arith, below, pow10-suc (suc k)),
          λ p. omega (arith, above (omega arith), pow10-suc k),
        )
]

pub digits-pos : (n : ℕ) → 0 < digits n
unfolding digits HasDigits
digits-pos n = let (k, e, _, _) = digits_from-HasDigits n n (omega arith) in omega (arith, e)

pub lt-pow10-digits : (n : ℕ) → n < pow10 (digits n)
unfolding digits HasDigits
lt-pow10-digits n = let (k, e, b, _) = digits_from-HasDigits n n (omega arith) in rw e b

pub pow10-le_of_digits : (n : ℕ) → 0 < n → pow10 (digits n - 1) ≤ n
unfolding digits HasDigits
pow10-le_of_digits n p =
    let (k, e, _, a) = digits_from-HasDigits n n (omega arith) in rw e (rw (sub k) (a p))
  where
    sub : (k : ℕ) → suc k - 1 ≡ k
    sub k = omega arith

-- A number below 10^d has at most d digits, and the other way round.
pub digits-le : (n d : ℕ) → 0 < d → n < pow10 d → digits n ≤ d
digits-le zero d h k = unfold digits in h
digits-le (suc n) d h k = omega (
  arith,
  pow10-lt (digits (suc n) - 1) d (omega (arith, pow10-le_of_digits (suc n) (omega arith))),
)

pub lt-pow10_of_digits-le : (n d : ℕ) → digits n ≤ d → n < pow10 d
lt-pow10_of_digits-le n d h = omega (arith, lt-pow10-digits n, pow10_mono (digits n) d h)

pub pos_of_digits : (n : ℕ) → 1 < digits n → 0 < n
pos_of_digits zero h = absurd (omega (arith, digits-le 0 1 (omega arith) (pow10-pos 1)))
pos_of_digits (suc n) h = omega arith

-- `while coef % 10 == 0 { coef /= 10; exp += 1; }`
strip_from : ℕ → ℕ → ℤ → ℕ × ℤ
strip_from zero c e = (c, e)
strip_from (suc f) c e = elim (c % 10 == 0) [
  | true ↦ strip_from f (c / 10) (e +ℤ pos 1)
  | false ↦ (c, e)
]

unfoldable pub strip_zeros : ℕ → ℤ → ℕ × ℤ
unfolding strip_from
strip_zeros c e = strip_from c c e

-- The value is unchanged, and the last digit is no zero.
abbrev pub Stripped : ℕ → ℤ → ℕ × ℤ → Type 0
Stripped c e r = (k : ℕ) × (c ≡ r.0 * pow10 k) × (r.1 ≡ e +ℤ pos k) × (r.0 % 10 ≢ 0)

strip_from-Stripped : (f c : ℕ) (e : ℤ) → 0 < c → c ≤ f → Stripped c e (strip_from f c e)
unfolding strip_from
strip_from-Stripped zero c e p h = absurd (omega arith)
strip_from-Stripped (suc f) c e p h = elim (Bool-cases (c % 10 == 0)) [
  | inl more ↦
      let whole : c % 10 ≡ 0 = ground arith in
      let (k, v, ve, last) =
        strip_from-Stripped f (c / 10) (e +ℤ pos 1) (omega arith) (omega arith) in
      rw (more, strip_from) (suc k, scaled_back c _ k whole v, rw ve (omega int_laws), last)
  | inr done ↦
      let some_digit : c % 10 ≢ 0 = ground arith in
      rw (done, strip_from)
        (0, omega (arith, pow10-zero, ap (λ (t : ℕ). c * t) pow10-zero), omega int_laws, some_digit)
]
  where
    scaled_back : (c d k : ℕ) → c % 10 ≡ 0 → c / 10 ≡ d * pow10 k → c ≡ d * pow10 (suc k)
    scaled_back c d k w v = rw (pow10-suc k) (omega (arith, w, v))

pub strip_zeros-Stripped : (c : ℕ) (e : ℤ) → 0 < c → Stripped c e (strip_zeros c e)
unfolding strip_zeros
strip_zeros-Stripped c e p = strip_from-Stripped c c e p (omega arith)
