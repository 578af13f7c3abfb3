-- ===== src/Tests/Oms.antt =====
-- Decisions of the order manager at concrete inputs (crates/te_core/src/oms/manager.rs).
use trade_engine.Base.{◌≡◌, refl, true, false, some, ok, err, ◌⊎◌, ◌↔◌}
use trade_engine.Money.Decimal.{Money, zero_money}
use trade_engine.Money.Order.{by_value, value_order, eq, lt}
use trade_engine.Money.Integral.{is_integral}
use trade_engine.Base.Powers.{pow10}
use trade_engine.Ledger.Model.{
  Order, new, cancelled, expired, pending_unknown, sell, state_eq, side_eq,
}
use trade_engine.Ledger.OrderFsm.{allowed}
use trade_engine.Ledger.Errors.{LErr}
use trade_engine.Oms.Venue.{return, local, venue, cancel_mode}
use trade_engine.Oms.Venue.Moves.{cancel_mode-exactly}
use trade_engine.Oms.Bracket.{keep, child_quantity, move_stop}
use trade_engine.Oms.Bracket.Tightens.{Tighter, move_stop-Tighter}
use trade_engine.Tests.Ledger.{accepted_order, price, hundred}

cancel_mode-exactly_example :
    ((cancel_mode pending_unknown false ≡ ok venue) ↔ (
      (allowed pending_unknown cancelled ≡ true)
      × (state_eq pending_unknown new ≡ false)
      × (state_eq pending_unknown pending_unknown ≡ false)))
    × ((cancel_mode pending_unknown false ≡ ok local) ↔ (pending_unknown ≡ new))
    × ((cancel_mode pending_unknown false ≡ ok return) ↔ (
        (allowed pending_unknown cancelled ≡ false)
        ⊎ ((pending_unknown ≡ pending_unknown) × (false ≡ false))))
    × ((cancel_mode pending_unknown false ≡ err LErr.oco_unknown)
        ↔ ((pending_unknown ≡ pending_unknown) × (false ≡ true)))
cancel_mode-exactly_example = cancel_mode-exactly pending_unknown false

-- 120 shares in place of 100, none of them filled.
abbrev more : Money
more = record { neg = false; coef = 120; scale = 0 }

abbrev stop_order : Order
stop_order = record accepted_order { side = sell; stop_price = some price }

move_stop-Tighter_example :
    (current : Money) × (stop_order.stop_price ≡ some current)
    × (((true ≡ false) × (eq ⦃d = by_value⦄ hundred current ≡ true))
        ⊎ ((true ≡ true) × Tighter ⦃d = by_value⦄ stop_order.side hundred current))
unfolding move_stop eq value_order pow10 side_eq lt
move_stop-Tighter_example = move_stop-Tighter ⦃d = by_value⦄ stop_order hundred refl

-- An expired child of the right total is kept as it is.
expired_child_test :
    child_quantity ⦃d = by_value⦄ (record accepted_order { state = expired }) zero_money hundred
    ≡ ok (keep, some hundred)
unfolding child_quantity state_eq is_integral trade_engine.Ledger.Errors.add
    trade_engine.Money.Arithmetic.add pow10 trade_engine.Money.Decimal.finish_u128
    trade_engine.Money.Decimal.to_scale trade_engine.Money.Decimal.to_prec
    trade_engine.Money.Digits.digits trade_engine.Money.Decimal.build
    trade_engine.Money.Decimal.align trade_engine.Money.Digits.strip_zeros
    trade_engine.Base.Int.◌+ℤ◌ trade_engine.Money.Decimal.bound eq value_order
expired_child_test = refl
