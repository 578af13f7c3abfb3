-- ===== src/Money/Closed.antt =====
-- Every operation of crates/te_core/src/money.rs that succeeds returns a canonical `Money`.
use trade_engine.Base.{ℕ, Bool, true, false, Option, none, some, Result, ok, ◌==◌}
use trade_engine.Base.OnOk.{OnOk, holds, OnOk-if, OnOk-bind, OnOk-of}
use trade_engine.Base.Int.{ℤ}
use trade_engine.Money.Rounding.{Round}
use trade_engine.Money.Decimal.{
  Money, DecErr, zero_money, to_prec, to_scale, build, finish_u128, finish_big,
}
use trade_engine.Money.Arithmetic.{
  add_big, add_signed, finish_product, add, sub, mul, neg, abs, div,
}
use trade_engine.Money.Integral.{
  from_i128, to_integral, build_big, quantize_round, mul_i128, quantized,
}
use trade_engine.Money.Canonical.{IsCanonical, zero-IsCanonical, build_lem}
use trade_engine.Money.FastPath.{add_signed-eq-add_big}

abbrev pub Closed : Result DecErr Money → Type 0
Closed r = OnOk IsCanonical r

build-Closed : (neg : Bool) (c : ℕ) (e : ℤ) → Closed (build neg c e)
build-Closed neg c e = OnOk-of (build neg c e) (λ m h. (build_lem neg c e h).0)

zero-Closed : Closed (ok zero_money)
zero-Closed = holds zero-IsCanonical

finish_u128-Closed : (neg : Bool) (c : ℕ) (e : ℤ) → Closed (finish_u128 neg c e)
unfolding finish_u128
finish_u128-Closed neg c e =
    let r = to_prec neg c e in
    OnOk-if (c == 0) zero-Closed (OnOk-bind (to_scale neg r.0 r.1) (λ t. build-Closed neg t.0 t.1))

finish_big-Closed : (neg : Bool) (c : ℕ) (e : ℤ) → Closed (finish_big neg c e)
unfolding finish_big
finish_big-Closed neg c e = search (OnOk-if, zero-Closed, finish_u128-Closed) depth 8

add_big-Closed : (a b : Money) (n : Bool) → Closed (add_big a b n)
unfolding add_big
add_big-Closed a b n = search finish_big-Closed

add_signed-Closed : (a b : Money) (n : Bool) → Closed (add_signed a b n)
add_signed-Closed a b n = rw (add_signed-eq-add_big a b n) (add_big-Closed a b n)

finish_product-Closed :
    (neg : Bool) (e : ℤ) (wide : ℕ) (o : Option ℕ) → Closed (finish_product neg e wide o)
unfolding finish_product
finish_product-Closed neg e wide (some p) = finish_u128-Closed neg p e
finish_product-Closed neg e wide none = finish_big-Closed neg wide e

mul-Closed : (a b : Money) → Closed (mul a b)
unfolding mul
mul-Closed a b = search finish_product-Closed

div-Closed : (a b : Money) → Closed (div a b)
unfolding div
div-Closed a b = search (OnOk-if, OnOk.fails, zero-Closed, finish_big-Closed) depth 8

build_big-Closed : (neg : Bool) (c : ℕ) (e : ℤ) → Closed (build_big neg c e)
unfolding build_big
build_big-Closed neg c e = search (OnOk-if, OnOk.fails, zero-Closed, build-Closed) depth 8

quantized-Closed : (neg : Bool) (e : ℤ) (o : Option ℕ) → Closed (quantized neg e o)
unfolding quantized
quantized-Closed neg e none = OnOk.fails
quantized-Closed neg e (some c) = search (OnOk-if, OnOk.fails, build_big-Closed)

quantize_round-Closed : (m : Money) (e : ℤ) (mode : Round) → Closed (quantize_round m e mode)
unfolding quantize_round
quantize_round-Closed m e mode = search (OnOk-if, OnOk.fails, zero-Closed, quantized-Closed) depth 8

from_i128-Closed : (n : ℤ) → Closed (from_i128 n)
unfolding from_i128
from_i128-Closed n = search build-Closed

to_integral-Closed : (m : Money) (mode : Round) → IsCanonical m → Closed (to_integral m mode)
unfolding to_integral
to_integral-Closed m mode h = OnOk-if (m.scale == 0) (holds h) (build-Closed _ _ _)

-- Whatever they are given, `neg`, `abs`, `add`, `sub`, `mul` and `div` return canonical numbers
-- when they return one: below 2^96, at most 28 decimals, no zero at the end of the decimals and
-- no negative zero.
pub arithmetic-IsCanonical :
    (a b : Money)
    → Closed (neg a)
      × Closed (abs a)
      × Closed (add a b)
      × Closed (sub a b)
      × Closed (mul a b)
      × Closed (div a b)
unfolding neg abs add sub
arithmetic-IsCanonical a b = (
  finish_u128-Closed _ _ _,
  finish_u128-Closed _ _ _,
  add_signed-Closed a b false,
  add_signed-Closed a b true,
  mul-Closed a b,
  div-Closed a b,
)

mul_i128-Closed : (a : Money) (n : ℤ) → Closed (mul_i128 a n)
unfolding mul_i128
mul_i128-Closed a n = OnOk-bind (from_i128 n) (λ m. mul-Closed a m)

-- `to_integral` and `quantize_round` of a canonical number, in either mode, and `from_i128` and
-- `mul_i128` return canonical numbers when they return one.
pub rounding-IsCanonical :
    (a : Money) (n e : ℤ) (mode : Round)
    → IsCanonical a
    → Closed (to_integral a mode)
      × Closed (quantize_round a e mode)
      × Closed (from_i128 n)
      × Closed (mul_i128 a n)
rounding-IsCanonical a n e mode h = (
  to_integral-Closed a mode h,
  quantize_round-Closed a e mode,
  from_i128-Closed n,
  mul_i128-Closed a n,
)
