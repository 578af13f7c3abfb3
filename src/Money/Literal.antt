-- ===== src/Money/Literal.antt =====
-- `Money::try_parse` (crates/te_core/src/money.rs): a decimal literal is read to a number or refused.
-- A text is the list of its characters, and the index `i` is what is left of it.
use Prim.Native.Char.{Char, code}
use trade_engine.Base.{
  ℕ, suc, ◌+◌, ◌-◌, ◌*◌, ◌/◌, ◌^◌, min, Bool, true, false, not, ◌&&◌, ◌||◌, Option, none, some,
  List, [], ◌∷◌, ◌++◌, length, String, Result, ok, err, ◌>>=◌, ◌>>◌, err_if, ltb, ◌==◌,
  if◌then◌else◌,
}
use trade_engine.Base.Int.{ℤ, pos, negsuc, pos_part, neg_part, sub_ℕ, ◌+ℤ◌, ◌-ℤ◌, ltb_ℤ}
use trade_engine.Base.Text.{chars}
use trade_engine.Money.Decimal.{Money, DecErr, invalid_operation, overflow, zero_money, build}
use trade_engine.Money.PyRules.{digit, strip, is_empty}
pub mod Digits
pub mod Significant
pub mod Spelled
pub mod RoundTrip
pub mod Canonical

-- `filter(|&c| c != '_')`
unfoldable pub drop_underscores : List Char → List Char
drop_underscores [] = []
drop_underscores (c ∷ cs) =
    let rest = drop_underscores cs in if code c == 95 then rest else c ∷ rest

abbrev pub is_sign : Char → Bool
is_sign c = code c == 45 || code c == 43

-- Whether there is a minus sign, and what follows the sign.
unfoldable pub read_sign : List Char → Bool × List Char
read_sign [] = (false, [])
read_sign (c ∷ cs) = if is_sign c then (code c == 45, cs) else (false, c ∷ cs)

-- The values of the digits in front, and what follows them.
unfoldable pub take_digits : List Char → List ℕ × List Char
unfolding digit
take_digits [] = ([], [])
take_digits (c ∷ cs) =
    let r = take_digits cs in elim (digit c) [ none ↦ ([], c ∷ cs) | some d ↦ (d ∷ r.0, r.1) ]

-- The digits behind the point, if there is one.
unfoldable pub read_fraction : List Char → List ℕ × List Char
unfolding take_digits
read_fraction [] = ([], [])
read_fraction (c ∷ cs) = let r = take_digits cs in if code c == 46 then r else ([], c ∷ cs)

-- `i128::MAX / 20`
abbrev mag_limit : ℕ
mag_limit = (2 ^ 127 - 1) / 20

unfoldable pub magnitude : ℕ → List ℕ → ℕ
magnitude mag [] = mag
magnitude mag (d ∷ ds) = magnitude (min (mag * 10 + d) mag_limit) ds

unfoldable pub signed_magnitude : List Char → Result DecErr (ℤ × List Char)
unfolding read_sign take_digits magnitude
signed_magnitude cs =
    let (eneg, after) = read_sign cs in
    let (ds, left) = take_digits after in
    let mag = magnitude 0 ds in
    err_if (is_empty ds) invalid_operation >> ok (if eneg then sub_ℕ 0 mag else pos mag, left)

-- The exponent, zero if there is none.
unfoldable pub read_exponent : List Char → Result DecErr (ℤ × List Char)
unfolding signed_magnitude
read_exponent [] = ok (pos 0, [])
read_exponent (c ∷ cs) =
    let r = signed_magnitude cs in if code c == 101 || code c == 69 then r else ok (pos 0, c ∷ cs)

-- `MAX_LITERAL_EXP`
abbrev pub max_literal_exp : ℕ
max_literal_exp = 999999999999999999

abbrev pub abs_ℤ : ℤ → ℕ
abs_ℤ e = pos_part e + neg_part e

-- From the first digit that is not zero.
unfoldable pub drop_zeros : List ℕ → List ℕ
drop_zeros [] = []
drop_zeros (d ∷ ds) = let rest = drop_zeros ds in if d == 0 then rest else d ∷ ds

-- Up to the last digit that is not zero, and how many zeros follow it.
unfoldable pub split_zeros : List ℕ → List ℕ × ℕ
split_zeros [] = ([], 0)
split_zeros (d ∷ ds) =
    let r = split_zeros ds in if is_empty r.0 && (d == 0) then ([], suc r.1) else (d ∷ r.0, r.1)

-- `coef = coef * 10 + d`
unfoldable pub coef_from : ℕ → List ℕ → ℕ
coef_from coef [] = coef
coef_from coef (d ∷ ds) = coef_from (coef * 10 + d) ds

unfoldable pub from_significant : Bool → List ℕ → ℤ → Result DecErr Money
unfolding coef_from
from_significant neg sig e = do
  err_if (ltb 29 (length sig) || ltb_ℤ (pos 38) e || ltb_ℤ e (negsuc 56)) overflow
  build neg (coef_from 0 sig) e

unfoldable pub from_leading : Bool → List ℕ → ℤ → Result DecErr Money
unfolding split_zeros from_significant
from_leading neg [] e = ok zero_money
from_leading neg (d ∷ ds) e =
    let (sig, more) = split_zeros (d ∷ ds) in from_significant neg sig (e +ℤ pos more)

unfoldable pub from_digits : Bool → List ℕ → ℤ → Result DecErr Money
unfolding drop_zeros from_leading
from_digits neg all e = from_leading neg (drop_zeros all) e

-- The checks behind the literal, and then its number.
unfoldable pub finish_literal : Bool → List ℕ → List ℕ → ℤ × List Char → Result DecErr Money
unfolding from_digits
finish_literal neg whole frac (exp, left) =
    let total = exp -ℤ pos (length frac) in
    err_if (not (is_empty left)) invalid_operation
    >> (err_if (ltb max_literal_exp (abs_ℤ total) || ltb max_literal_exp (abs_ℤ exp))
          invalid_operation
        >> from_digits neg (whole ++ frac) total)

unfoldable pub read_number : Bool → List Char → Result DecErr Money
unfolding take_digits read_fraction read_exponent finish_literal
read_number neg cs =
    let (whole, after) = take_digits cs in
    let (frac, rest) = read_fraction after in
    err_if (is_empty whole && is_empty frac) invalid_operation
    >> (read_exponent rest >>= λ r. finish_literal neg whole frac r)

unfoldable pub try_parse : String → Result DecErr Money
unfolding drop_underscores strip read_sign read_number
try_parse text =
    let (neg, cs) = read_sign (drop_underscores (strip (chars text))) in read_number neg cs
