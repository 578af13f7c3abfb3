-- ===== src/Sim/Trailing.antt =====
-- The trailing stop (crates/te_core/src/sim/trailing.rs). An update gives the state and the answer: a
-- refusal after the state moved leaves it moved.
pub mod Follows
pub mod Covers
use trade_engine.Base.{
  Bool, true, false, Option, none, some, List, [], ◌∷◌, ok, err, err_if, Result, map_err,
  if◌then◌else◌,
}
use trade_engine.Money.Decimal.{Money, zero_money}
use trade_engine.Money.Order.{Decimals, lt, le, gt, ge}
use trade_engine.Ledger.Errors.{LErr, R, add, sub}
use trade_engine.Ledger.Model.{Side, buy, sell}

pub record Trail : Type 0 where
  pub side : Side
  pub trail_amount : Money
  pub extreme : Option Money
  pub stop_price : Option Money
  pub triggered : Bool

module _ ⦃d : Decimals⦄ where
  unfoldable pub check_trail_amount : Money → R (Unit {0})
  check_trail_amount amount = err_if (le amount zero_money) LErr.value

  -- `min(a, b)` and `max(a, b)`: the first of equals.
  unfoldable pub dmin : Money → Money → Money
  dmin a b = if lt b a then b else a

  unfoldable pub dmax : Money → Money → Money
  dmax a b = if gt b a then b else a

  -- The best price so far: the highest for a stop that sells, the lowest for one that buys.
  unfoldable pub next_extreme : Side → Option Money → Money → Money
  unfolding dmin dmax
  next_extreme side none price = price
  next_extreme sell (some e) price = dmax e price
  next_extreme buy (some e) price = dmin e price

  unfoldable pub stop_at : Side → Money → Money → R Money
  stop_at sell extreme amount = sub extreme amount
  stop_at buy extreme amount = add extreme amount

  -- A stop that sells must stay above zero; the price has passed it or not.
  unfoldable pub trigger : Trail → Side → Money → Money → Trail × R Bool
  trigger t sell price stop =
      let answer : Trail × R Bool = (record t { triggered = le price stop }, ok (le price stop)) in
      let refused : Trail × R Bool = (t, err LErr.value) in
      if le stop zero_money then refused else answer
  trigger t buy price stop = (record t { triggered = ge price stop }, ok (ge price stop))

  unfoldable pub with_stop : Trail → Money → R Money → Trail × R Bool
  unfolding trigger
  with_stop t price (err e) = (t, err e)
  with_stop t price (ok stop) = trigger (record t { stop_price = some stop }) t.side price stop

  unfoldable pub observe : Trail → Money → Trail × R Bool
  unfolding next_extreme stop_at with_stop
  observe t price =
      let extreme = next_extreme t.side t.extreme price in
      with_stop (record t { extreme = some extreme }) price (stop_at t.side extreme t.trail_amount)

  unfoldable pub update : Trail → Money → Trail × R Bool
  unfolding observe
  update t price =
      let moved = observe t price in
      let refused : Trail × R Bool = (t, err LErr.value) in
      let done : Trail × R Bool = (t, ok true) in
      if le price zero_money then refused else if t.triggered then done else moved

  -- The prices observed one after another.
  unfoldable pub watch : Trail → List Money → Trail
  unfolding update
  watch t [] = t
  watch t (p ∷ ps) = watch (update t p).0 ps
