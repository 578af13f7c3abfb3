-- ===== src/Tests/Money.antt =====
-- Decimals at concrete values (crates/te_core/src/money.rs).
use trade_engine.Base.{ℕ, ◌≡◌, refl, true, false, ok, arith, ◌<◌}
use trade_engine.Base.Int.{negsuc, ◌+ℤ◌}
use trade_engine.Base.Powers.{pow10}
use trade_engine.Money.Decimal.{
  Money, zero_money, build, align, bound, to_scale, to_prec, finish_u128,
}
use trade_engine.Money.Digits.{digits, strip_zeros}
use trade_engine.Money.Rounding.{half_even, shift_round_u128, shift_round_big}
use trade_engine.Money.Rounding.Laws.{IsNearest, shift_round-agree, shift_round-IsNearest}
use trade_engine.Money.Arithmetic.{add, sub, neg, abs, mul, div, add_signed, add_big}
use trade_engine.Money.Canonical.{IsCanonical, Denotes, build_lem}
use trade_engine.Money.FastPath.{add_signed-eq-add_big}
use trade_engine.Money.Closed.{Closed, arithmetic-IsCanonical}

-- 2.25, -1.5 and 0.75.
abbrev quarter : Money
quarter = record { neg = false; coef = 225; scale = 2 }

abbrev minus : Money
minus = record { neg = true; coef = 15; scale = 1 }

abbrev small : Money
small = record { neg = false; coef = 75; scale = 2 }

add_test : add quarter minus ≡ ok small
unfolding add add_signed pow10 finish_u128 to_scale to_prec digits build align strip_zeros bound
add_test = refl

build_test : build false 225000 (negsuc 4) ≡ ok quarter
unfolding build align strip_zeros bound digits ◌+ℤ◌
build_test = refl

quarter-IsCanonical : IsCanonical quarter
quarter-IsCanonical = record {
  fits = omega arith;
  fine = omega arith;
  last = λ h e. omega arith;
  unsigned = λ h. absurd (omega arith);
}

minus-IsCanonical : IsCanonical minus
minus-IsCanonical = record {
  fits = omega arith;
  fine = omega arith;
  last = λ h e. omega arith;
  unsigned = λ h. absurd (omega arith);
}

-- 125 thousandths to hundredths: the tie goes to 12.
shift_round-agree_example :
    shift_round_u128 125 1 false half_even ≡ shift_round_big 125 1 false half_even
shift_round-agree_example = shift_round-agree 125 1 false half_even (omega arith)

shift_round-IsNearest_example : IsNearest 125 (pow10 1) (shift_round_big 125 1 false half_even)
shift_round-IsNearest_example = shift_round-IsNearest 125 1 false

add_signed-eq-add_big_example : add_signed quarter minus true ≡ add_big quarter minus true
add_signed-eq-add_big_example = add_signed-eq-add_big quarter minus true

build_lem_example :
    IsCanonical quarter
    × (0 < 225000 → Denotes false 225000 (negsuc 4) quarter)
    × (◌≡◌ {A = ℕ} 225000 0 → quarter ≡ zero_money)
build_lem_example = build_lem false 225000 (negsuc 4) build_test

arithmetic-IsCanonical_example :
    Closed (neg quarter)
    × Closed (abs quarter)
    × Closed (add quarter minus)
    × Closed (sub quarter minus)
    × Closed (mul quarter minus)
    × Closed (div quarter minus)
arithmetic-IsCanonical_example = arithmetic-IsCanonical quarter minus
