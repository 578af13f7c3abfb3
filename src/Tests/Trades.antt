-- ===== src/Tests/Trades.antt =====
-- A sale against two lots of one account (`apply_trade` of crates/te_core/src/ledger/fold.rs).
use trade_engine.Base.{ℕ, ◌≡◌, refl, false, some, [], ◌∷◌, String, ok}
use trade_engine.Base.Int.{pos}
use trade_engine.Money.Decimal.{Money, zero_money}
use trade_engine.Money.Order.{Decimals, by_value}
use trade_engine.Ledger.Model.{buy, sell, equity, Lot}
use trade_engine.Ledger.Lots.{Position}
use trade_engine.Ledger.Trade.{apply_trade}
use trade_engine.Ledger.Trade.Balanced.{IsBalanced}
use trade_engine.Ledger.Trade.Kinds.{Change, Traded}
use trade_engine.Ledger.Trade.Traded.{apply_trade-Traded}
use trade_engine.Tests.Ledger.{noon}

abbrev dollars : ℕ → Money
dollars n = record { neg = false; coef = n; scale = 0 }

abbrev lot : String → ℕ → ℕ → Lot
lot name n cost = record {
  lot_id = name;
  quantity = dollars n;
  cost_basis = dollars cost;
  acquired_at = noon;
  side = buy;
}

-- 60 shares at 10 dollars and 40 at 12.
abbrev two_lots : Position
two_lots = record {
  account_id = "A";
  instrument = equity "SPY";
  quantity = dollars 100;
  avg_cost = record { neg = false; coef = 108; scale = 1 };
  realized_pnl = zero_money;
  open_lots = lot "l1" 60 10 ∷ lot "l2" 40 12 ∷ [];
}

-- 80 of them sold at 15 dollars: the first lot whole, and half of the second.
abbrev half_lot : Position
half_lot = record {
  account_id = "A";
  instrument = equity "SPY";
  quantity = dollars 20;
  avg_cost = dollars 12;
  realized_pnl = dollars 360;
  open_lots = lot "l2" 20 12 ∷ [];
}

sale :
    apply_trade ⦃d = by_value⦄ "A"
      (some two_lots)
      (equity "SPY")
      sell
      (dollars 80)
      (dollars 15)
      noon
      "l3"
      (pos 1)
    ≡ ok half_lot
unfolding apply_trade trade_engine.Ledger.Errors.neg trade_engine.Money.Arithmetic.neg
    trade_engine.Money.Decimal.finish_u128 trade_engine.Money.Decimal.to_scale
    trade_engine.Money.Decimal.to_prec trade_engine.Money.Digits.digits
    trade_engine.Money.Decimal.build trade_engine.Money.Decimal.align
    trade_engine.Money.Digits.strip_zeros trade_engine.Base.Int.◌+ℤ◌ trade_engine.Base.Powers.pow10
    trade_engine.Money.Decimal.bound trade_engine.Money.Order.eq
    trade_engine.Money.Order.value_order trade_engine.Money.Order.gt trade_engine.Ledger.Errors.abs
    trade_engine.Money.Arithmetic.abs trade_engine.Ledger.Lots.consume_lots
    trade_engine.Money.Order.le trade_engine.Money.Order.lt trade_engine.Ledger.Errors.sub
    trade_engine.Money.Arithmetic.sub trade_engine.Ledger.Errors.mul
    trade_engine.Money.Arithmetic.mul trade_engine.Ledger.Errors.mul_i
    trade_engine.Money.Integral.mul_i128 trade_engine.Money.Integral.from_i128
    trade_engine.Ledger.Errors.add trade_engine.Money.Arithmetic.add trade_engine.Ledger.Errors.ne
    trade_engine.Ledger.Lots.cost_total trade_engine.Ledger.Errors.div
    trade_engine.Money.Arithmetic.div trade_engine.Money.Decimal.finish_big
    trade_engine.Money.Rounding.shift_round_big trade_engine.Base.Int.◌-ℤ◌
    trade_engine.Ledger.Lots.make_position trade_engine.Ledger.Lots.signed_total
sale = refl

apply_trade-Traded_example :
    IsBalanced ⦃d = by_value⦄ half_lot
    × (delta : Money) × Change sell (dollars 80) delta
    × Traded ⦃d = by_value⦄ sell
        (dollars 80)
        (dollars 15)
        noon
        "l3"
        (pos 1)
        delta
        (some two_lots)
        half_lot
apply_trade-Traded_example =
    apply_trade-Traded ⦃d = by_value⦄ "A" (equity "SPY") sell (dollars 80) (dollars 15) noon "l3"
      (pos 1) (some two_lots) sale
