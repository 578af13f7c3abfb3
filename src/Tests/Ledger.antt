-- ===== src/Tests/Ledger.antt =====
-- A short log of one account (crates/te_core/src/ledger/fold.rs).
use trade_engine.Base.{
  ◌≡◌, refl, Bool, true, false, Option, none, some, List, [], ◌∷◌, ◌++◌, String, Result, ok, err,
  ◌>>=◌, arith, ◌⊎◌,
}
use trade_engine.Base.Int.{ℤ, pos}
use trade_engine.Base.OnOk.{OnOk}
use trade_engine.Money.Decimal.{Money, zero_money}
use trade_engine.Money.Order.{Decimals, by_value}
use trade_engine.Ledger.Errors.{LErr, R}
use trade_engine.Ledger.Dict.{Dict, get}
use trade_engine.Ledger.Model.{
  EventKind, order_submitted, order_accepted, order_cancelled, fill, state_eq, Side, buy, sell,
  OrderType, market, limit, Tif, day, Instrument, equity, Order, OrderState, new, submitted,
  accepted, filled, cancelled, partially_filled, Fill, DateTime,
}
use trade_engine.Ledger.OrderFsm.{validate_transition, allowed}
use trade_engine.Ledger.OrderFsm.States.{is_terminal}
use trade_engine.Ledger.State.{AccountState, new_account}
use trade_engine.Ledger.OrderHandlers.{OrderStateChange}
use trade_engine.Ledger.FillHandler.{on_fill}
use trade_engine.Ledger.Trade.{apply_trade}
use trade_engine.Ledger.FillHandler.Effect.{Effect, on_fill-Effect}
use trade_engine.Ledger.FillHandler.Within.{Within, on_fill-Within}
use trade_engine.Ledger.Fold.Terminal.{Ended, fold_all-Ended}
use trade_engine.Ledger.Fold.Books.{books, moves_books, dispatch-books}
use trade_engine.Ledger.Fold.Recorded.{IsRecorded, fold_account-IsRecorded}
use trade_engine.Ledger.Fold.Positions.{AllBalanced, fold_account-AllBalanced}
use trade_engine.Ledger.Fold.{
  Event, Obj, order, state_change, cash_flow, dispatch, apply_event, fold_all, fold_account,
  state_of,
}

abbrev pub noon : DateTime
noon = record { days = 739000; sod = 43200; us = 0; off = pos 0 }

abbrev pub hundred : Money
hundred = record { neg = false; coef = 100; scale = 0 }

-- 12.5
abbrev pub price : Money
price = record { neg = false; coef = 125; scale = 1 }

abbrev pub buy_order : Order
buy_order = record {
  order_id = "o1";
  account_id = "A";
  instrument = equity "SPY";
  order_type = limit;
  side = buy;
  quantity = hundred;
  command_id = "c1";
  created_at = noon;
  limit_price = some price;
  stop_price = none;
  trail_amount = none;
  tif = day;
  state = new;
  parent_order_id = none;
  oco_group = none;
}

abbrev buy_fill : Fill
buy_fill = record {
  fill_id = "f1";
  order_id = "o1";
  account_id = "A";
  instrument = equity "SPY";
  quantity = hundred;
  price = price;
  venue_env = "paper";
  filled_at = noon;
  side = buy;
  fee = zero_money;
  leg_id = none;
  venue_order_id = none;
  venue_execution_id = none;
}

abbrev pub event : EventKind → Obj → ℤ → Event
event kind payload seq = record {
  account = "A";
  kind = kind;
  payload = payload;
  ts_utc = noon;
  command_id = none;
  schema_version = pos 1;
  seq = some seq;
}

abbrev pub acceptance : OrderStateChange
acceptance = record { order_id = "o1"; reason = none; venue_order_id = some "v1" }

unfoldable opening : List Event
opening =
    event order_submitted (order buy_order) (pos 1)
    ∷ event order_accepted (state_change acceptance) (pos 2)
    ∷ []

unfoldable log : List Event
unfolding opening
log = opening ++ event EventKind.fill (Obj.fill buy_fill) (pos 3) ∷ []

-- The state that the log folds to.
abbrev pub is_ok : {A : Type 0} → R A → Bool
is_ok (ok a) = true
is_ok (err e) = false

pub result_of : {A : Type 0} (r : R A) → is_ok r ≡ true → (a : A) × (r ≡ ok a)
result_of (ok a) h = (a, refl)
result_of (err e) h = cc

folded : (st : AccountState) × (fold_account ⦃d = by_value⦄ log "A" ≡ ok st)
unfolding fold_account log apply_event trade_engine.Ledger.OrderHandlers.on_order_submitted
    trade_engine.Ledger.Model.state_eq trade_engine.Ledger.OrderFsm.transition_to get new_account
    trade_engine.Ledger.OrderHandlers.on_order_state trade_engine.Ledger.Dict.put
    trade_engine.Ledger.Dict.insert on_fill trade_engine.Ledger.FillHandler.matched_leg
    trade_engine.Ledger.Model.same trade_engine.Ledger.Trade.multiplier
    trade_engine.Ledger.Errors.mul trade_engine.Money.Arithmetic.mul
    trade_engine.Money.Decimal.finish_u128 trade_engine.Money.Decimal.to_scale
    trade_engine.Money.Decimal.to_prec trade_engine.Money.Digits.digits trade_engine.Base.Int.◌+ℤ◌
    trade_engine.Money.Decimal.build trade_engine.Money.Decimal.align
    trade_engine.Money.Digits.strip_zeros trade_engine.Base.Powers.pow10
    trade_engine.Money.Decimal.bound trade_engine.Ledger.Errors.mul_i
    trade_engine.Money.Integral.mul_i128 trade_engine.Money.Integral.from_i128
    trade_engine.Ledger.Errors.neg trade_engine.Money.Arithmetic.neg trade_engine.Ledger.Errors.sub
    trade_engine.Money.Arithmetic.sub trade_engine.Ledger.Lots.make_lot trade_engine.Money.Order.le
    trade_engine.Money.Order.value_order trade_engine.Ledger.Lots.make_position
    trade_engine.Ledger.Lots.signed_total trade_engine.Ledger.Errors.add
    trade_engine.Money.Arithmetic.add trade_engine.Ledger.Errors.ne trade_engine.Money.Order.eq
    trade_engine.Money.Order.gt trade_engine.Money.Order.ge apply_trade
folded = result_of (fold_account ⦃d = by_value⦄ log "A") refl

abbrev pub accepted_order : Order
accepted_order = record buy_order { state = accepted }

abbrev cancelled_order : Order
cancelled_order = record buy_order { state = cancelled }

unfoldable pub account_with : Order → AccountState
account_with o = record (new_account "A") { orders = ("o1", "o1", o) ∷ [] }

booked : (t : AccountState) × (on_fill ⦃d = by_value⦄ (account_with accepted_order) buy_fill ≡ ok t)
unfolding on_fill get account_with trade_engine.Ledger.FillHandler.matched_leg
    trade_engine.Ledger.Model.same new_account trade_engine.Ledger.Trade.multiplier
    trade_engine.Ledger.Errors.mul trade_engine.Money.Arithmetic.mul
    trade_engine.Money.Decimal.finish_u128 trade_engine.Money.Decimal.to_scale
    trade_engine.Money.Decimal.to_prec trade_engine.Money.Digits.digits trade_engine.Base.Int.◌+ℤ◌
    trade_engine.Money.Decimal.build trade_engine.Money.Decimal.align
    trade_engine.Money.Digits.strip_zeros trade_engine.Base.Powers.pow10
    trade_engine.Money.Decimal.bound trade_engine.Ledger.Errors.mul_i
    trade_engine.Money.Integral.mul_i128 trade_engine.Money.Integral.from_i128
    trade_engine.Ledger.Errors.neg trade_engine.Money.Arithmetic.neg trade_engine.Ledger.Errors.sub
    trade_engine.Money.Arithmetic.sub apply_trade trade_engine.Ledger.Lots.make_lot
    trade_engine.Money.Order.le trade_engine.Money.Order.value_order
    trade_engine.Ledger.Lots.make_position trade_engine.Ledger.Lots.signed_total
    trade_engine.Ledger.Errors.add trade_engine.Money.Arithmetic.add apply_event
    trade_engine.Ledger.OrderHandlers.on_order_submitted trade_engine.Ledger.Model.state_eq
    trade_engine.Ledger.OrderFsm.transition_to trade_engine.Ledger.OrderHandlers.on_order_state
    trade_engine.Ledger.Dict.put trade_engine.Ledger.Dict.insert trade_engine.Ledger.Errors.ne
    trade_engine.Money.Order.eq trade_engine.Money.Order.gt trade_engine.Money.Order.ge
booked = result_of (on_fill ⦃d = by_value⦄ (account_with accepted_order) buy_fill) refl

-- The venue reports the cancel once more, and a deposit follows.
late : List Event
late =
    event order_cancelled (state_change acceptance) (pos 3)
    ∷ event EventKind.cash_flow (cash_flow hundred) (pos 4)
    ∷ []

cancelled_account : Dict String AccountState
cancelled_account = ("A", "A", account_with cancelled_order) ∷ []

cancelled_over : is_terminal cancelled ≡ true
unfolding is_terminal
cancelled_over = refl

cancelled-Ended : Ended ⦃d = by_value⦄ "o1" cancelled cancelled_over "A" cancelled_account
unfolding state_of get account_with cancelled_account
cancelled-Ended = (cancelled_order, refl, refl)

fold_all-Ended_example :
    OnOk
      (Ended ⦃d = by_value⦄ "o1" cancelled cancelled_over "A")
      (fold_all ⦃d = by_value⦄ cancelled_account late)
fold_all-Ended_example =
    fold_all-Ended ⦃d = by_value⦄ "o1" cancelled cancelled_over "A" late cancelled_account
      cancelled-Ended

on_fill-Effect_example : Effect ⦃d = by_value⦄ (account_with accepted_order) buy_fill booked.0
on_fill-Effect_example =
    on_fill-Effect ⦃d = by_value⦄ (account_with accepted_order) buy_fill booked.1

on_fill-Within_example :
    (o : Order) × (get "o1" (account_with accepted_order).orders ≡ some o)
    × Within ⦃d = by_value⦄ buy_fill o booked.0
on_fill-Within_example =
    on_fill-Within ⦃d = by_value⦄ (account_with accepted_order) buy_fill booked.1

dispatch-books_example :
    OnOk
      (λ t. books t ≡ books (account_with accepted_order))
      (dispatch ⦃d = by_value⦄
        (account_with accepted_order)
        order_cancelled
        (state_change acceptance))
unfolding moves_books
dispatch-books_example =
    dispatch-books ⦃d = by_value⦄ (account_with accepted_order) order_cancelled
      (state_change acceptance) refl

fold_account-IsRecorded_example : IsRecorded (books folded.0)
fold_account-IsRecorded_example = fold_account-IsRecorded ⦃d = by_value⦄ log "A" folded.1

fold_account-AllBalanced_example : AllBalanced ⦃d = by_value⦄ (books folded.0)
fold_account-AllBalanced_example = fold_account-AllBalanced ⦃d = by_value⦄ log "A" folded.1
