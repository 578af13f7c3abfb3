-- ===== src/Tests/Agree.antt =====
-- Logs whose events are not in the order of their numbers (`fold` and `fold_account` of
-- crates/te_core/src/ledger/fold.rs).
use trade_engine.Base.{◌≡◌, refl, true, false, none, List, [], ◌∷◌, String, ok}
use trade_engine.Base.Int.{pos}
use trade_engine.Money.Order.{by_value}
use trade_engine.Ledger.Dict.{Dict}
use trade_engine.Ledger.Model.{EventKind, order_submitted, order_accepted}
use trade_engine.Ledger.State.{AccountState}
use trade_engine.Ledger.Fold.{
  Event, order, state_change, cash_flow, all_numbered, ordered, state_of, fold, fold_account,
}
use trade_engine.Ledger.Fold.Agree.{fold_account-fold}
use trade_engine.Tests.Ledger.{hundred, price, buy_order, acceptance, event, is_ok, result_of}

-- A deposit of another account between two of this one, which are numbered the other way round.
unfoldable shuffled : List Event
shuffled =
    event EventKind.cash_flow (cash_flow hundred) (pos 3)
    ∷ (record (event EventKind.cash_flow (cash_flow price) (pos 2)) { account = "B" })
    ∷ event EventKind.cash_flow (cash_flow price) (pos 1)
    ∷ []

shuffled_states : (s : Dict String AccountState) × (fold ⦃d = by_value⦄ shuffled ≡ ok s)
unfolding fold shuffled trade_engine.Ledger.Fold.apply_event trade_engine.Ledger.Errors.add
    trade_engine.Money.Arithmetic.add trade_engine.Ledger.Dict.get
    trade_engine.Ledger.State.new_account trade_engine.Base.Powers.pow10
    trade_engine.Money.Decimal.finish_u128 trade_engine.Money.Decimal.to_scale
    trade_engine.Money.Decimal.to_prec trade_engine.Money.Digits.digits
    trade_engine.Money.Decimal.build trade_engine.Money.Decimal.align
    trade_engine.Money.Digits.strip_zeros trade_engine.Money.Decimal.bound
    trade_engine.Ledger.Dict.put trade_engine.Ledger.Dict.insert
shuffled_states = result_of (fold ⦃d = by_value⦄ shuffled) refl

shuffled_numbered : all_numbered shuffled ≡ true
unfolding all_numbered shuffled
shuffled_numbered = refl

fold_account-fold_example :
    fold_account ⦃d = by_value⦄ shuffled "A" ≡ ok (state_of "A" shuffled_states.0)
fold_account-fold_example =
    fold_account-fold ⦃d = by_value⦄ shuffled "A" shuffled_numbered shuffled_states.1

-- One event without a number keeps the log as it is given, but the events of one account alone are
-- all numbered and are put in order.
unfoldable partly : List Event
partly =
    event order_submitted (order buy_order) (pos 2)
    ∷ event order_accepted (state_change acceptance) (pos 1)
    ∷ (record (event EventKind.cash_flow (cash_flow price) (pos 3)) { account = "B"; seq = none })
    ∷ []

partly-folds : is_ok (fold ⦃d = by_value⦄ partly) ≡ true
unfolding fold partly trade_engine.Ledger.Fold.apply_event
    trade_engine.Ledger.OrderHandlers.on_order_submitted trade_engine.Ledger.Model.state_eq
    trade_engine.Ledger.OrderFsm.transition_to trade_engine.Ledger.Dict.get
    trade_engine.Ledger.State.new_account trade_engine.Ledger.OrderHandlers.on_order_state
    trade_engine.Ledger.Dict.put trade_engine.Ledger.Dict.insert trade_engine.Ledger.Errors.add
    trade_engine.Money.Arithmetic.add trade_engine.Base.Powers.pow10
    trade_engine.Money.Decimal.finish_u128 trade_engine.Money.Decimal.to_scale
    trade_engine.Money.Decimal.to_prec trade_engine.Money.Digits.digits
    trade_engine.Money.Decimal.build trade_engine.Money.Decimal.align
    trade_engine.Money.Digits.strip_zeros trade_engine.Money.Decimal.bound
partly-folds = refl

partly-refused : is_ok (fold_account ⦃d = by_value⦄ partly "A") ≡ false
unfolding fold_account partly trade_engine.Ledger.Fold.apply_event
    trade_engine.Ledger.OrderHandlers.on_order_state trade_engine.Ledger.Dict.get
    trade_engine.Ledger.State.new_account
partly-refused = refl
