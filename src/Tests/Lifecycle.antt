-- ===== src/Tests/Lifecycle.antt =====
-- Option events of one account (`on_lifecycle` of crates/te_core/src/ledger/fold.rs), and the strike
-- and the outcome of a contract.
use trade_engine.Base.{
  ◌≤◌, ◌*◌, arith, ℕ, ◌≡◌, ◌↔◌, refl, Bool, true, false, none, some, [], ◌∷◌, Result, ok, err,
}
use trade_engine.Base.Int.{pos, negsuc}
use trade_engine.Money.Decimal.{Money, zero_money}
use trade_engine.Money.Order.{Decimals, by_value}
use trade_engine.Money.Rounding.{half_even, shift_round_big}
use trade_engine.Ledger.Errors.{R}
use trade_engine.Ledger.Model.{exercise, buy, call, DateTime, OptionContract, option, Lot, side_eq}
use trade_engine.Ledger.Lots.{Position}
use trade_engine.Ledger.State.{AccountState, new_account}
use trade_engine.Ledger.Lifecycle.{OptionLifecycle, check_event, on_lifecycle}
use trade_engine.Ledger.Lifecycle.Effects.{Booked}
use trade_engine.Ledger.Lifecycle.Booked.{on_lifecycle-Booked}
use trade_engine.Ledger.Lifecycle.Outcome.{outcome_of, check_event-expiry_outcome}
use trade_engine.Options.{DecWire, round_half_even, strike_millis, wire}
use trade_engine.Options.Contract.{validate_strike}
use trade_engine.Options.Contract.Exact.{strike_millis-exact}
use trade_engine.Base.Powers.{pow10}
use trade_engine.Money.Digits.{digits}
use trade_engine.Options.Lifecycle.{intrinsic_value, expiry_outcome}
use trade_engine.Options.Strike.{round_half_even-eq-shift_round}

abbrev close_of_day : DateTime
close_of_day = record { days = 739000; sod = 57600; us = 0; off = pos 0 }

abbrev dollars : ℕ → Money
dollars n = record { neg = false; coef = n; scale = 0 }

abbrev contract : OptionContract
contract = record {
  underlying = "SPY";
  expiry = record { year = 2026; month = 3; day = 20 };
  strike = dollars 500;
  right = call;
  multiplier = pos 100;
}

abbrev holding : Position
holding = record {
  account_id = "A";
  instrument = option contract;
  quantity = dollars 2;
  avg_cost = dollars 3;
  realized_pnl = zero_money;
  open_lots =
      record {
        lot_id = "f1";
        quantity = dollars 2;
        cost_basis = dollars 3;
        acquired_at = close_of_day;
        side = buy;
      }
      ∷ [];
}

unfoldable holder : AccountState
holder = record (new_account "A") {
  positions = (trade_engine.Ledger.Keys.hk (option contract), option contract, holding) ∷ [];
}

-- Both contracts exercised with the underlying ten dollars above the strike.
abbrev notice : OptionLifecycle
notice = record {
  account_id = "A";
  contract = contract;
  quantity = dollars 2;
  held = buy;
  underlying_price = dollars 510;
  price_source = "close";
  as_of = close_of_day;
  reason = "in the money";
  early = false;
}

-- The account after: 200 shares at the strike and no contract.
abbrev after : R AccountState → AccountState
after (ok t) = t
after (err e) = new_account "A"

notice-books :
    on_lifecycle ⦃d = by_value⦄ holder notice exercise
    ≡ ok (after (on_lifecycle ⦃d = by_value⦄ holder notice exercise))
unfolding on_lifecycle holder wire trade_engine.Base.Int.◌-ℤ◌ trade_engine.Base.Int.◌+ℤ◌
    trade_engine.Base.Powers.pow10 trade_engine.Ledger.Dict.get trade_engine.Ledger.Keys.hk
    trade_engine.Money.Order.eq trade_engine.Money.Order.value_order
    trade_engine.Ledger.Model.side_eq trade_engine.Money.Order.gt trade_engine.Ledger.Errors.abs
    trade_engine.Money.Arithmetic.abs trade_engine.Money.Decimal.finish_u128
    trade_engine.Money.Decimal.to_scale trade_engine.Money.Decimal.to_prec
    trade_engine.Money.Decimal.build trade_engine.Money.Decimal.align
    trade_engine.Money.Digits.strip_zeros trade_engine.Money.Decimal.bound
    trade_engine.Options.Lifecycle.intrinsic trade_engine.Money.Literal.try_parse
    trade_engine.Money.Order.le trade_engine.Money.Arithmetic.sub
    trade_engine.Options.Lifecycle.can_exercise_early trade_engine.Money.Order.lt
    trade_engine.Ledger.Errors.sub trade_engine.Ledger.Errors.ne trade_engine.Money.Arithmetic.add
    trade_engine.Ledger.Errors.mul_i trade_engine.Money.Integral.mul_i128
    trade_engine.Money.Integral.from_i128 trade_engine.Money.Arithmetic.mul
    trade_engine.Ledger.Dict.insert new_account trade_engine.Ledger.Errors.add
    trade_engine.Ledger.Errors.mul
notice-books = refl

on_lifecycle-Booked_example :
    Booked ⦃d = by_value⦄ holder notice exercise
      (after (on_lifecycle ⦃d = by_value⦄ holder notice exercise))
on_lifecycle-Booked_example = on_lifecycle-Booked ⦃d = by_value⦄ holder notice exercise notice-books

round_half_even-eq-shift_round_example :
    round_half_even 12345 2 ≡ shift_round_big 12345 2 false half_even
round_half_even-eq-shift_round_example = round_half_even-eq-shift_round 12345 2

ten_above : intrinsic_value ⦃d = by_value⦄ (wire contract) "510" ≡ ok (dollars 10)
unfolding intrinsic_value trade_engine.Money.Literal.try_parse trade_engine.Base.Int.◌-ℤ◌
    trade_engine.Base.Int.◌+ℤ◌ trade_engine.Money.Decimal.build trade_engine.Money.Decimal.align
    trade_engine.Money.Digits.strip_zeros trade_engine.Base.Powers.pow10
    trade_engine.Money.Decimal.bound trade_engine.Money.Order.le
    trade_engine.Money.Order.value_order wire trade_engine.Money.Arithmetic.sub
    trade_engine.Money.Decimal.finish_u128 trade_engine.Money.Decimal.to_scale
    trade_engine.Money.Decimal.to_prec trade_engine.Money.Digits.digits trade_engine.Money.Order.gt
ten_above = refl

check_event-expiry_outcome_example :
    (check_event ⦃d = by_value⦄ exercise notice buy (dollars 10) true ≡ ok tt)
    ↔ (expiry_outcome ⦃d = by_value⦄ (wire contract) true "510" ≡ ok (outcome_of exercise))
unfolding side_eq
check_event-expiry_outcome_example =
    check_event-expiry_outcome ⦃d = by_value⦄ (wire contract) "510" (dollars 10) (dollars 10)
      exercise notice buy true ten_above refl refl

-- 12.5
abbrev half_strike : DecWire
half_strike = record { neg = false; coef = 125; exp = negsuc 0; text = "12.5" }

half_strike-valid : validate_strike half_strike ≡ ok tt
unfolding validate_strike trade_engine.Base.Int.◌-ℤ◌ trade_engine.Base.Int.◌+ℤ◌ pow10
half_strike-valid = refl

half_strike-millis : strike_millis half_strike ≡ ok 12500
unfolding strike_millis trade_engine.Base.Int.◌-ℤ◌ trade_engine.Base.Int.◌+ℤ◌ pow10
half_strike-millis = refl

six_digits : digits 125000 ≤ 28
unfolding digits
six_digits = omega arith

strike_millis-exact_example : 12500 * pow10 1 ≡ 125 * 1000 * pow10 0
strike_millis-exact_example =
    strike_millis-exact half_strike 12500 half_strike-valid half_strike-millis six_digits refl
      (omega arith)
