-- ===== src/Money/Arithmetic.antt =====
-- The arithmetic of `Money` (crates/te_core/src/money.rs): sums on `u128` where they fit and on
-- unbounded integers where they do not, products, quotients, negation and magnitude. An exponent is
-- the negated scale; a common exponent is held by the greater scale.
use trade_engine.Base.{
  ℕ, ◌+◌, ◌-◌, ◌*◌, ◌/◌, ◌%◌, Bool, true, false, not, xor, bool_eq, ◌&&◌, Option, none, some, max,
  compare, Ordering, Result, ok, err, ltb, leb, ◌==◌, if◌then◌else◌,
}
use trade_engine.Base.Int.{ℤ, pos, negsuc, ◌+ℤ◌, ◌-ℤ◌, sub_ℕ}
use trade_engine.Base.Powers.{pow10}
use trade_engine.Money.Digits.{digits}
use trade_engine.Money.Rounding.{u128_limit, checked_mul}
use trade_engine.Money.Decimal.{
  Money, DecErr, invalid_operation, division_by_zero, zero_money, finish_u128, finish_big,
}

-- The sign of `parts()`: a zero is never negative.
abbrev pub parts_neg : Money → Bool
parts_neg m = m.neg && not (m.coef == 0)

-- The exponent of `parts()`.
abbrev pub exponent : Money → ℤ
exponent m = sub_ℕ 0 m.scale

-- `POW10.get(n)`
abbrev pub pow10_get : ℕ → Option ℕ
pow10_get n = if ltb n 39 then some (pow10 n) else none

abbrev pub checked_add : ℕ → ℕ → Option ℕ
checked_add a b = if ltb (a + b) u128_limit then some (a + b) else none

abbrev pub and_then {ℓ κ} : {A : Type ℓ} {B : Type κ} → Option A → (A → Option B) → Option B
and_then none f = none
and_then (some a) f = f a

-- A mantissa at the common scale, if it fits a `u128`.
unfoldable pub scaled_u128 : ℕ → ℕ → Option ℕ
scaled_u128 m up = and_then (pow10_get up) (λ f. checked_mul m f)

-- The sum of two signed magnitudes; `none` where a `u128` would overflow.
unfoldable pub signed_sum : Bool → Bool → ℕ → ℕ → Option (Bool × ℕ)
signed_sum na nb x y =
    if bool_eq na nb
    then and_then (checked_add x y) (λ t. some (na, t))
    else if leb y x
    then some (na, x - y)
    else some (nb, y - x)

unfoldable pub signed_sum_big : Bool → Bool → ℕ → ℕ → Bool × ℕ
signed_sum_big na nb x y = if bool_eq na nb then (na, x + y) else elim (compare x y) [
  | Ordering.eq ↦ (false, 0)
  | Ordering.gt ↦ (na, x - y)
  | Ordering.lt ↦ (nb, y - x)
]

unfoldable pub add_big : Money → Money → Bool → Result DecErr Money
add_big a b negate_b =
    let nb = xor (parts_neg b) (negate_b && not (b.coef == 0)) in
    let s = max a.scale b.scale in
    let r =
      signed_sum_big (parts_neg a) nb (a.coef * pow10 (s - a.scale))
        (b.coef * pow10 (s - b.scale)) in
    finish_big r.0 r.1 (sub_ℕ 0 s)

-- The fast path's operands, both scaled without overflow.
unfoldable pub fast_operands : Money → Money → Option (ℕ × ℕ)
unfolding scaled_u128
fast_operands a b =
    let s = max a.scale b.scale in
    and_then (scaled_u128 a.coef (s - a.scale))
      λ x. and_then (scaled_u128 b.coef (s - b.scale)) λ y. some (x, y)

unfoldable pub fast_sum : Money → Money → Bool → Option (Bool × ℕ)
unfolding fast_operands signed_sum
fast_sum a b negate_b =
    let nb = xor (parts_neg b) (negate_b && not (b.coef == 0)) in
    and_then (fast_operands a b) λ xy. signed_sum (parts_neg a) nb xy.0 xy.1

unfoldable pub add_signed : Money → Money → Bool → Result DecErr Money
unfolding fast_sum
add_signed a b negate_b =
    let slow = add_big a b negate_b in
    elim (fast_sum a b negate_b) [
      | none ↦ slow
      | some r ↦ finish_u128 (r.0 && not (r.1 == 0)) r.1 (sub_ℕ 0 (max a.scale b.scale))
    ]

unfoldable pub add : Money → Money → Result DecErr Money
unfolding add_signed
add a b = add_signed a b false

unfoldable pub sub : Money → Money → Result DecErr Money
unfolding add_signed
sub a b = add_signed a b true

-- The product, in a `u128` if it fits.
unfoldable pub finish_product : Bool → ℤ → ℕ → Option ℕ → Result DecErr Money
finish_product neg e wide (some p) = finish_u128 neg p e
finish_product neg e wide none = finish_big neg wide e

unfoldable pub mul : Money → Money → Result DecErr Money
unfolding finish_product
mul a b =
    finish_product (xor (parts_neg a) (parts_neg b)) (exponent a +ℤ exponent b) (a.coef * b.coef)
      (checked_mul a.coef b.coef)

-- `-x` and `abs(x)` round to the context, as every other result.
unfoldable pub neg : Money → Result DecErr Money
neg a = finish_u128 (not (parts_neg a) && not (a.coef == 0)) a.coef (exponent a)

unfoldable pub abs : Money → Result DecErr Money
abs a = finish_u128 false a.coef (exponent a)

-- The quotient at `shift` further digits, and whether digits were cut.
unfoldable pub quotient : ℕ → ℕ → ℤ → ℕ × Bool
unfolding scaled_u128
quotient ma mb (pos shift) =
    let big = ma * pow10 shift in
    elim (scaled_u128 ma shift) [
      | some num ↦ (num / mb, not (num % mb == 0))
      | none ↦ (big / mb, not (big - big / mb * mb == 0))
    ]
quotient ma mb (negsuc n) =
    let den = mb * pow10 (n + 1) in (ma / den, not (ma - ma / den * den == 0))

-- The sticky digit: a quotient that was cut never looks like a tie.
unfoldable pub sticky : ℕ × Bool → ℕ
sticky (coef, inexact) = if inexact && coef % 5 == 0 then coef + 1 else coef

unfoldable pub div : Money → Money → Result DecErr Money
unfolding quotient sticky
div a b =
    let shift = sub_ℕ (digits b.coef + 29) (digits a.coef) in
    let q = sticky (quotient a.coef b.coef shift) in
    let e = exponent a -ℤ exponent b -ℤ shift in
    if b.coef == 0
    then err (if a.coef == 0 then invalid_operation else division_by_zero)
    else if a.coef == 0
    then ok zero_money
    else finish_big (xor (parts_neg a) (parts_neg b)) q e
