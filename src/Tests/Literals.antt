-- ===== src/Tests/Literals.antt =====
-- Decimal literals (crates/te_core/src/money.rs, `try_parse`).
use trade_engine.Base.{◌≡◌, refl, false, ok, err, arith}
use trade_engine.Base.Int.{◌+ℤ◌, ◌-ℤ◌}
use trade_engine.Base.Text.{chars}
use trade_engine.Money.Decimal.{Money, invalid_operation, overflow, build, align, bound}
use trade_engine.Money.Digits.{strip_zeros}
use trade_engine.Money.Canonical.{IsCanonical}
use trade_engine.Money.PyRules.{is_space, trim_start, trim_end, strip, digit}
use trade_engine.Money.Literal.{
  drop_underscores, read_sign, take_digits, read_fraction, magnitude, signed_magnitude,
  read_exponent, drop_zeros, split_zeros, coef_from, from_significant, from_leading, from_digits,
  finish_literal, read_number, try_parse,
}
use trade_engine.Money.Literal.RoundTrip.{try_parse-canon}
use trade_engine.Money.Literal.Canonical.{try_parse-IsCanonical}
use trade_engine.Money.Spelling.{canon}

abbrev quarter : Money
quarter = record { neg = false; coef = 225; scale = 2 }

literal_test : try_parse " +2_2.50E-1\n" ≡ ok quarter
unfolding try_parse chars strip trim_start trim_end is_space digit drop_underscores read_sign
    read_number take_digits read_fraction read_exponent signed_magnitude magnitude from_digits
    finish_literal drop_zeros from_leading split_zeros from_significant coef_from build strip_zeros
    align bound ◌+ℤ◌ ◌-ℤ◌
literal_test = refl

-- No exponent behind the mark, and a value beyond the bound.
unfinished_test : try_parse "1e" ≡ err invalid_operation
unfolding try_parse chars strip trim_start trim_end is_space digit drop_underscores read_sign
    read_number take_digits read_fraction read_exponent signed_magnitude magnitude
unfinished_test = refl

too_large_test : try_parse "1e30" ≡ err overflow
unfolding try_parse chars strip trim_start trim_end is_space digit drop_underscores read_sign
    read_number take_digits read_fraction read_exponent signed_magnitude magnitude from_digits
    finish_literal drop_zeros from_leading split_zeros from_significant coef_from build strip_zeros
    align bound ◌+ℤ◌ ◌-ℤ◌ trade_engine.Base.Powers.pow10
too_large_test = refl

try_parse-canon_example : try_parse (canon quarter) ≡ ok quarter
try_parse-canon_example = try_parse-canon quarter (record {
  fits = omega arith;
  fine = omega arith;
  last = λ h e. omega arith;
  unsigned = λ h. absurd (omega arith);
})

try_parse-IsCanonical_example : IsCanonical quarter
try_parse-IsCanonical_example = try_parse-IsCanonical " +2_2.50E-1\n" literal_test
