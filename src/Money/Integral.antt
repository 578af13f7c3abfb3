-- ===== src/Money/Integral.antt =====
-- Integers and rounding to a given exponent (crates/te_core/src/money.rs).
use trade_engine.Base.{
  ℕ, ◌+◌, ◌*◌, ◌/◌, ◌^◌, min, Bool, ◌||◌, Option, none, some, Result, ok, err, ◌>>=◌, ltb, ◌==◌,
  if◌then◌else◌,
}
use trade_engine.Base.Int.{ℤ, pos, negsuc, ◌-ℤ◌, ltb_ℤ, leb_ℤ, pos_part, neg_part, sub_ℕ}
use trade_engine.Base.Powers.{pow10}
use trade_engine.Money.Digits.{digits, strip_zeros}
use trade_engine.Money.Rounding.{Round, half_even, u128_limit, shift_round_u128}
use trade_engine.Money.Decimal.{
  Money, DecErr, invalid_operation, overflow, unsupported, zero_money, prec, build,
}
use trade_engine.Money.Arithmetic.{parts_neg, exponent, add, mul}

-- `n < 0`
abbrev pub is_negative_int : ℤ → Bool
is_negative_int n = ltb_ℤ n (pos 0)

-- `unsigned_abs`
abbrev pub magnitude : ℤ → ℕ
magnitude n = pos_part n + neg_part n

unfoldable pub from_i128 : ℤ → Result DecErr Money
from_i128 n = build (is_negative_int n) (magnitude n) (pos 0)

-- `Money::int`: a small integer.
unfoldable pub int : ℤ → Money
int n = record { neg = is_negative_int n; coef = magnitude n; scale = 0 }

unfoldable pub mul_i128 : Money → ℤ → Result DecErr Money
mul_i128 a n = from_i128 n >>= λ m. mul a m

unfoldable pub add_i128 : Money → ℤ → Result DecErr Money
add_i128 a n = from_i128 n >>= λ m. add a m

unfoldable pub to_integral : Money → Round → Result DecErr Money
to_integral m mode =
    let rounded =
      build (parts_neg m) (shift_round_u128 m.coef m.scale (parts_neg m) mode) (pos 0) in
    if m.scale == 0 then ok m else rounded

unfoldable pub is_integral : Money → Bool
is_integral m = m.scale == 0

-- `int(d)`: truncation toward zero.
unfoldable pub trunc_i128 : Money → Result DecErr ℤ
trunc_i128 m =
    let mag = if m.scale == 0 then m.coef else m.coef / pow10 (min m.scale 38) in
    if ltb mag (2 ^ 127)
    then ok (if parts_neg m then sub_ℕ 0 mag else pos mag)
    else err (unsupported "int() beyond i128")

-- `ETINY`, `EMAX`
abbrev pub etiny : ℤ
etiny = negsuc 1000025

abbrev pub emax : ℤ
emax = pos 999999

-- The coefficient at the target exponent; `none` past four million digits.
unfoldable pub coef_at : Money → ℤ → Round → Option ℕ
coef_at m exp mode =
    let up = exponent m -ℤ exp in
    let drop = pos_part (exp -ℤ exponent m) in
    if leb_ℤ exp (exponent m)
    then (if ltb 4000000 (pos_part up) then none else some (m.coef * pow10 (pos_part up)))
    else some (shift_round_u128 m.coef drop (parts_neg m) mode)

-- `build_big`: exact; what is left without its trailing zeros must fit a `u128`.
unfoldable pub build_big : Bool → ℕ → ℤ → Result DecErr Money
build_big neg c e =
    let (c', e') = strip_zeros c e in
    let rest = build neg c' e' in
    if c == 0 then ok zero_money else if ltb c' u128_limit then rest else err overflow

-- A coefficient of more than 28 digits is refused.
unfoldable pub quantized : Bool → ℤ → Option ℕ → Result DecErr Money
quantized neg exp none = err invalid_operation
quantized neg exp (some c) =
    let rest = build_big neg c exp in if ltb prec (digits c) then err invalid_operation else rest

unfoldable pub quantize_round : Money → ℤ → Round → Result DecErr Money
unfolding coef_at quantized
quantize_round m exp mode =
    let rest = quantized (parts_neg m) exp (coef_at m exp mode) in
    if ltb_ℤ exp etiny || ltb_ℤ emax exp
    then err invalid_operation
    else if m.coef == 0
    then ok zero_money
    else rest

unfoldable pub quantize : Money → ℤ → Result DecErr Money
unfolding quantize_round
quantize m exp = quantize_round m exp half_even
