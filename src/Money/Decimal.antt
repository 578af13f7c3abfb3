-- ===== src/Money/Decimal.antt =====
-- `Money` and how an exact result becomes one (crates/te_core/src/money.rs): `build`, and the
-- rounding to 28 significant digits and scale 28 in `finish_u128` and `finish_big`.
use trade_engine.Base.{
  ℕ, zero, suc, ◌-◌, ◌/◌, ◌^◌, Bool, false, ◌||◌, String, Result, ok, err, ◌>>=◌, ◌>>◌, err_if,
  ok_or, ltb, leb, ◌==◌, if◌then◌else◌,
}
use trade_engine.Base.Int.{ℤ, pos, negsuc, ◌+ℤ◌}
use trade_engine.Base.Powers.{pow10}
use trade_engine.Money.Digits.{digits, strip_zeros}
use trade_engine.Money.Rounding.{half_even, checked_mul, shift_round_u128, shift_round_big}

pub data DecErr : Type 0 where
  invalid_operation division_by_zero overflow : DecErr
  unsupported : String → DecErr

-- The parts that `Decimal::from_i128_with_scale` is given: sign, mantissa and scale. The value is
-- `coef / 10^scale`, negated if `neg`.
pub record Money : Type 0 where
  pub neg : Bool
  pub coef : ℕ
  pub scale : ℕ

abbrev pub zero_money : Money
zero_money = record { neg = false; coef = 0; scale = 0 }

-- `PREC`, `MAX_SCALE`, `MANTISSA_LIMIT`
abbrev pub prec : ℕ
prec = 28

abbrev pub max_scale : ℕ
max_scale = 28

abbrev pub mantissa_limit : ℕ
mantissa_limit = 2 ^ 96

-- The branch `exp > 0` of `build`, then `scale = -exp`.
unfoldable pub align : ℕ → ℤ → Result DecErr (ℕ × ℕ)
align c (pos zero) = ok (c, 0)
align c (pos (suc n)) = do
  err_if (ltb 38 (suc n)) overflow
  c' ← ok_or (checked_mul c (pow10 (suc n))) overflow
  ok (c', 0)
align c (negsuc n) = ok (c, suc n)

unfoldable pub bound : Bool → ℕ → ℕ → Result DecErr Money
bound neg c s =
    if ltb max_scale s || leb mantissa_limit c
    then err overflow
    else ok (record { neg = neg; coef = c; scale = s })

unfoldable pub build : Bool → ℕ → ℤ → Result DecErr Money
build neg c e =
    let (c', e') = strip_zeros c e in
    let rest = align c' e' >>= λ r. bound neg r.0 r.1 in if c == 0 then ok zero_money else rest

-- The first `let (coef, exp)` of `finish_u128`: at most 28 significant digits.
unfoldable pub to_prec : Bool → ℕ → ℤ → ℕ × ℤ
to_prec neg c e =
    let drop = digits c - prec in
    let r = shift_round_u128 c drop neg half_even in
    if ltb prec (digits c)
    then (if ltb prec (digits r) then (r / 10, e +ℤ pos drop +ℤ pos 1) else (r, e +ℤ pos drop))
    else (c, e)

abbrev pub min_exp : ℤ
min_exp = negsuc 27

-- The second one: at most 28 decimals, and no result that vanishes.
unfoldable pub to_scale : Bool → ℕ → ℤ → Result DecErr (ℕ × ℤ)
to_scale neg c (pos n) = ok (c, pos n)
to_scale neg c (negsuc n) =
    let r = shift_round_u128 c (suc n - max_scale) neg half_even in
    if ltb max_scale (suc n)
    then (if r == 0 then err overflow else ok (r, min_exp))
    else ok (c, negsuc n)

unfoldable pub finish_u128 : Bool → ℕ → ℤ → Result DecErr Money
finish_u128 neg c e =
    let r = to_prec neg c e in
    let rest = to_scale neg r.0 r.1 >>= λ t. build neg t.0 t.1 in
    if c == 0 then ok zero_money else rest

unfoldable pub finish_big : Bool → ℕ → ℤ → Result DecErr Money
finish_big neg c e =
    let drop = digits c - prec in
    let rounded = shift_round_big c drop neg half_even in
    let e' = e +ℤ pos drop in
    if c == 0
    then ok zero_money
    else if leb (digits c) prec
    then finish_u128 neg c e
    else if ltb prec (digits rounded)
    then finish_u128 neg (rounded / 10) (e' +ℤ pos 1)
    else finish_u128 neg rounded e'
