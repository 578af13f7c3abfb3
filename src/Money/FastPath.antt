-- ===== src/Money/FastPath.antt =====
-- The routines on machine words in crates/te_core/src/money.rs return what those on unbounded
-- integers return: `finish_u128` for `finish_big`, and the fast path of `add_signed` for `add_big`.
use trade_engine.Base.{
  ℕ, ◌+◌, ◌-◌, ◌*◌, ◌/◌, ◌^◌, ◌≤◌, ◌<◌, ◌≡◌, refl, sym, ap, ◌∙◌, ◌⊎◌, inl, inr, Bool, true, false,
  not, xor, ◌&&◌, max, Option, none, some, Result, ok, ◌>>=◌, arith, ltb, leb, ◌==◌, Bool-cases,
  some_inj,
}
use trade_engine.Base.Int.{ℤ, pos, ◌+ℤ◌, sub_ℕ}
use trade_engine.Base.Powers.{pow10, pow10-pos, pow10-add}
use trade_engine.Money.Digits.{
  digits, digits-le, pow10-le_of_digits, lt-pow10-digits, pos_of_digits,
}
use trade_engine.Money.Rounding.{half_even, u128_limit, shift_round_big}
use trade_engine.Money.Rounding.Laws.{shift_round-agree, shift_round-near_quotient}
use trade_engine.Money.Decimal.{
  Money, DecErr, zero_money, prec, to_prec, to_scale, build, finish_u128, finish_big,
}
use trade_engine.Money.Arithmetic.{
  parts_neg, scaled_u128, signed_sum, signed_sum_big, fast_operands, fast_sum, add_big, add_signed,
  and_then,
}
use native.Mathlib.Decide.{dec_lt, ℕ_discrete}
use native.Mathlib.Nat.{le-div_iff_mul-le, div-lt_iff_lt-mul}

-- A number of more than 28 digits is rounded to one between 10^27 and 10^28.
rounded_range :
    (c : ℕ) (neg : Bool)
    → prec < digits c
    → (pow10 27 ≤ shift_round_big c (digits c - prec) neg half_even)
      × (shift_round_big c (digits c - prec) neg half_even ≤ pow10 28)
rounded_range c neg h =
    let drop = digits c - prec in
    let near = shift_round-near_quotient c drop neg in
    let positive : 0 < c = pos_of_digits c (omega arith) in
    let lower : pow10 27 ≤ c / pow10 drop =
      (le-div_iff_mul-le (pow10-pos drop)).1
        (rw (← pow10-add) (rw (lower_power drop refl) (pow10-le_of_digits c positive))) in
    let upper : c / pow10 drop < pow10 28 =
      (div-lt_iff_lt-mul (pow10-pos drop)).1
        (rw (← pow10-add) (rw upper_power (lt-pow10-digits c))) in
    (omega (arith, near.0, lower), omega (arith, near.1, upper))
  where
    lower_power : (drop : ℕ) → drop ≡ digits c - prec → 27 + drop ≡ digits c - 1
    lower_power drop e = omega arith

    upper_power : 28 + (digits c - prec) ≡ digits c
    upper_power = omega arith

finish_u128-zero : (neg : Bool) (e : ℤ) → finish_u128 neg 0 e ≡ ok zero_money
unfolding finish_u128
finish_u128-zero neg e = refl

pub finish_big-zero : (neg : Bool) (e : ℤ) → finish_big neg 0 e ≡ ok zero_money
unfolding finish_big
finish_big-zero neg e = refl

-- The result of 28 digits or fewer needs no first rounding.
finish_u128-small :
    (neg : Bool) (c : ℕ) (e : ℤ)
    → 0 < c
    → digits c ≤ prec
    → finish_u128 neg c e ≡ (to_scale neg c e >>= λ t. build neg t.0 t.1)
unfolding finish_u128 to_prec
finish_u128-small neg c e p h =
    let full : (c == 0) ≡ false = ground arith in
    let few : ltb prec (digits c) ≡ false = ground arith in rw (full, few)

finish_u128-wide :
    (neg : Bool) (c : ℕ) (e : ℤ)
    → 0 < c
    → finish_u128 neg c e
      ≡ (to_scale neg (to_prec neg c e).0 (to_prec neg c e).1 >>= λ t. build neg t.0 t.1)
unfolding finish_u128
finish_u128-wide neg c e p = let full : (c == 0) ≡ false = ground arith in rw full

pow10_27 : pow10 27 ≡ 10 ^ 27
unfolding pow10
pow10_27 = refl

finish-wide :
    (neg : Bool) (c : ℕ) (e : ℤ)
    → c < u128_limit
    → prec < digits c
    → finish_big neg c e ≡ finish_u128 neg c e
unfolding finish_big to_prec
finish-wide neg c e fits h =
    let drop = digits c - prec in
    let r = shift_round_big c drop neg half_even in
    let p : 0 < c = pos_of_digits c (omega arith) in
    let (low, high) = rounded_range c neg h in
    let full : (c == 0) ≡ false = ground arith in
    let many : leb (digits c) prec ≡ false = ground arith in
    let many' : ltb prec (digits c) ≡ true = ground arith in
    rw (finish_u128-wide neg c e p) (
      rw (full, many, many', shift_round-agree c drop neg half_even fits)
        (elim (Bool-cases (ltb prec (digits r))) [
          | inl long ↦ rw long (
              finish_u128-small neg (r / 10) (e +ℤ pos drop +ℤ pos 1) (omega (arith, low, pow10_27))
                (digits-le (r / 10) prec (omega arith) (omega (arith, high, pow10-pos 28))))
          | inr short ↦ rw short (
              finish_u128-small neg r (e +ℤ pos drop) (omega (arith, low, pow10_27)) (ground arith))
        ]))

-- On every coefficient below 2^128, for any sign and exponent, `finish_u128` returns the result
-- or the refusal of `finish_big`.
pub finish-agree :
    (neg : Bool) (c : ℕ) (e : ℤ) → c < u128_limit → finish_big neg c e ≡ finish_u128 neg c e
unfolding finish_big
finish-agree neg c e fits = elim (dec_lt prec (digits c)) [
  | yes h ↦ finish-wide neg c e fits h
  | no h ↦ elim (ℕ_discrete c 0) [
    | yes z ↦ rw z (sym (finish_u128-zero neg e))
    | no n ↦
        let full : (c == 0) ≡ false = ground arith in
        let few : leb (digits c) prec ≡ true = ground arith in rw (full, few)
  ]
]

scaled_u128-some :
    (m up : ℕ) {x : ℕ} → scaled_u128 m up ≡ some x → (x ≡ m * pow10 up) × (x < u128_limit)
unfolding scaled_u128
scaled_u128-some m up h = ground arith

-- The sum in a `u128` is the unbounded one, but for the sign that a zero is given.
sum-agree :
    (na nb : Bool) (x y : ℕ) {r : Bool × ℕ}
    → signed_sum na nb x y ≡ some r
    → x < u128_limit
    → y < u128_limit
    → (r.1 < u128_limit)
      × (((r.1 ≡ 0) × ((signed_sum_big na nb x y).1 ≡ 0))
          ⊎ ((0 < r.1) × (signed_sum_big na nb x y ≡ r)))
unfolding signed_sum signed_sum_big
sum-agree true true x y h p q = ground arith
sum-agree true false x y h p q = ground arith
sum-agree false true x y h p q = ground arith
sum-agree false false x y h p q = ground arith

finish-sum :
    (r s : Bool × ℕ) (e : ℤ)
    → r.1 < u128_limit
    → ((r.1 ≡ 0) × (s.1 ≡ 0)) ⊎ ((0 < r.1) × (s ≡ r))
    → finish_u128 (r.0 && not (r.1 == 0)) r.1 e ≡ finish_big s.0 s.1 e
finish-sum r s e h (inl (z, w)) = rw (z, w) (finish_u128-zero _ e ∙ sym (finish_big-zero s.0 e))
finish-sum (n, t) s e h (inr (p, w)) =
    let full : (n && not (t == 0)) ≡ n = kept n in rw (w, full) (sym (finish-agree n t e h))
  where
    kept : (b : Bool) → (b && not (t == 0)) ≡ b
    kept true = ground arith
    kept false = refl

and_then-some {ℓ κ} :
    {A : Type ℓ} {B : Type κ} (o : Option A) (f : A → Option B) {r : B}
    → and_then o f ≡ some r
    → (a : A) × (o ≡ some a) × (f a ≡ some r)
and_then-some none f h = cc
and_then-some (some a) f h = (a, refl, h)

fast_operands-some :
    (a b : Money) {xy : ℕ × ℕ}
    → fast_operands a b ≡ some xy
    → (xy.0 ≡ a.coef * pow10 (max a.scale b.scale - a.scale))
      × (xy.0 < u128_limit)
      × (xy.1 ≡ b.coef * pow10 (max a.scale b.scale - b.scale))
      × (xy.1 < u128_limit)
unfolding fast_operands
fast_operands-some a b {xy} h =
    let s = max a.scale b.scale in
    let sa = scaled_u128 a.coef (s - a.scale) in
    let sb = scaled_u128 b.coef (s - b.scale) in
    let pair : ℕ → ℕ → Option (ℕ × ℕ) = λ x y. some (x, y) in
    let (x, ex, hx) = and_then-some sa (λ x. and_then sb (pair x)) h in
    let (y, ey, hy) = and_then-some sb (pair x) hx in
    let (vx, lx) = scaled_u128-some a.coef (s - a.scale) ex in
    let (vy, ly) = scaled_u128-some b.coef (s - b.scale) ey in
    let same : (xy.0 ≡ x) × (xy.1 ≡ y) = pair_parts xy (some_inj hy) in
    (same.0 ∙ vx, omega (arith, same.0, lx), same.1 ∙ vy, omega (arith, same.1, ly))
  where
    pair_parts : {x y : ℕ} (xy : ℕ × ℕ) → (x, y) ≡ xy → (xy.0 ≡ x) × (xy.1 ≡ y)
    pair_parts xy e = (sym (ap (λ (p : ℕ × ℕ). p.0) e), sym (ap (λ (p : ℕ × ℕ). p.1) e))

fast_sum-agree :
    (a b : Money) (negate_b : Bool) {r : Bool × ℕ}
    → fast_sum a b negate_b ≡ some r
    → finish_u128 (r.0 && not (r.1 == 0)) r.1 (sub_ℕ 0 (max a.scale b.scale)) ≡ add_big a b negate_b
unfolding fast_sum add_big
fast_sum-agree a b negate_b {r} h =
    let nb = xor (parts_neg b) (negate_b && not (b.coef == 0)) in
    let (xy, operands, summed) =
      and_then-some (fast_operands a b) (λ xy. signed_sum (parts_neg a) nb xy.0 xy.1) h in
    let (vx, lx, vy, ly) = fast_operands-some a b operands in
    let (fits, cases) = sum-agree (parts_neg a) nb xy.0 xy.1 summed lx ly in
    let s = max a.scale b.scale in
    let big : ℕ → ℕ → Result DecErr Money =
      λ x y. let t = signed_sum_big (parts_neg a) nb x y in finish_big t.0 t.1 (sub_ℕ 0 s) in
    finish-sum r (signed_sum_big (parts_neg a) nb xy.0 xy.1) (sub_ℕ 0 s) fits cases
    ∙ (ap (λ (x : ℕ). big x xy.1) vx ∙ ap (λ (y : ℕ). big (a.coef * pow10 (s - a.scale)) y) vy)

-- The sum on machine words is an optimisation only: for any two numbers and either sign, whether
-- or not a product or the sum overflows 128 bits, `add_signed` returns the result or the refusal
-- of the sum on unbounded integers.
pub add_signed-eq-add_big :
    (a b : Money) (negate_b : Bool) → add_signed a b negate_b ≡ add_big a b negate_b
unfolding add_signed
add_signed-eq-add_big a b negate_b = go (fast_sum a b negate_b) refl
  where
    go :
        (o : Option (Bool × ℕ))
        → fast_sum a b negate_b ≡ o
        → let slow = add_big a b negate_b in
          (elim o [
            | none ↦ slow
            | some r ↦ finish_u128 (r.0 && not (r.1 == 0)) r.1 (sub_ℕ 0 (max a.scale b.scale))
          ])
          ≡ add_big a b negate_b
    go none e = refl
    go (some r) e = fast_sum-agree a b negate_b e
